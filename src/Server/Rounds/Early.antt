-- ===== src/Server/Rounds/Early.antt =====
-- The loop may stop at the last client that is ready.
use ens_sysres_proj.Common.{
  ℕ, suc, ◌+◌, ◌≤◌, ◌≡◌, refl, ap, sym, subst, ◌∙◌, ◌≢◌, inl, inr, Bool, false, ◌||◌, Option, none,
  some, List, [], ◌∷◌, ◌++◌, append_assoc, Outcome, ok, fault, ◌>>=◌, >>=-ok, ok-injective, arith,
  length, Bool-cases, ◌==◌, if◌then◌else◌,
}
use ens_sysres_proj.Cache.{FileCache, Folder}
use ens_sysres_proj.Server.{
  ClientState, waiting_for_request, processing_request, answering, Ptr, null_ptr, Client,
  ServParameters, World, load,
}
use ens_sysres_proj.Server.Clients.Chain.{head_of, Chain-links}
use ens_sysres_proj.Server.Clients.Refines.{load-some}
use ens_sysres_proj.Server.Rounds.{Ready, handle_client, handle_clients}
use ens_sysres_proj.Server.Rounds.Valid.{IsServer}
use ens_sysres_proj.Server.Rounds.Moves.{Moves-count}
use ens_sysres_proj.Server.Rounds.Handle.{handle_client-HandledOk}
use ens_sysres_proj.Server.Rounds.Loop.{AllGood, handle_clients_cons, Stepped-rest}

-- An entry that `poll` counts.
abbrev pub has_events : Ready → Bool
has_events e = e.poll_hup || (e.poll_in || e.poll_out)

abbrev pub count_events : List Ready → ℕ
count_events [] = 0
count_events (e ∷ es) = if has_events e then suc (count_events es) else count_events es

-- The loop without its count: every client is visited.
unfoldable pub handle_all_clients : List Ready → World → Ptr → Outcome World
unfolding handle_client
handle_all_clients [] w p = if p == null_ptr then ok w else fault
handle_all_clients (e ∷ es) w p =
    if p == null_ptr
    then ok w
    else do c ← load w p; (w, n) ← handle_client e w p c.state; handle_all_clients es w c.next

pub handle_all_clients_cons :
    (e : Ready) (es : List Ready) (w : World) (p : Ptr) {c : Client} {w' : World} {n : ℕ}
    → p ≢ null_ptr
    → w.heap p ≡ some c
    → handle_client e w p c.state ≡ ok (w', n)
    → handle_all_clients (e ∷ es) w p ≡ handle_all_clients es w' c.next
unfolding handle_all_clients
handle_all_clients_cons e es w p {c} nonnull at runs =
    let away : (p == null_ptr) ≡ false = ground arith in
    ap
      (λ (b : Bool).
        if b
        then ok w
        else do c ← load w p; (w, n) ← handle_client e w p c.state; handle_all_clients es w c.next)
      away
    ∙ >>=-ok _ (load-some w p nonnull at) (>>=-ok _ runs refl)

handle_client_idle :
    (e : Ready) (w : World) (p : Ptr) (s : Option ClientState)
    → has_events e ≡ false
    → handle_client e w p s ≡ ok (w, 0)
unfolding handle_client
handle_client_idle e w p (some waiting_for_request) h = ground arith
handle_client_idle e w p (some answering) h = ground arith
handle_client_idle e w p (some processing_request) h = ground arith
handle_client_idle e w p none h = ground arith

module _ (cache : FileCache) (root : Folder) where
  idle_suffix :
      (es : List Ready) (w : World) (xs l : List Ptr)
      → IsServer cache root w (xs ++ l)
      → length es ≡ length l
      → count_events es ≡ 0
      → handle_all_clients es w (head_of l) ≡ ok w
  unfolding handle_all_clients
  idle_suffix [] w xs [] r same none_left = refl
  idle_suffix [] w xs (p ∷ ys) r same none_left = absurd (omega arith)
  idle_suffix (e ∷ es) w xs [] r same none_left = absurd (omega arith)
  idle_suffix (e ∷ es) w xs (p ∷ ys) r same none_left =
      let (nonnull, (c, at, _, next)) = Chain-links w.heap null_ptr xs p ys r.clients.chain in
      let idle : has_events e ≡ false = ground arith in
      handle_all_clients_cons e es w p nonnull at (handle_client_idle e w p c.state idle)
      ∙ ap (handle_all_clients es w) next
      ∙ idle_suffix es w (xs ++ p ∷ []) ys
          (subst (IsServer cache root w) (sym (append_assoc xs (p ∷ []) ys)) r) (omega arith)
          (ground arith)

  -- What is left after a client whose count is `n`.
  count_left :
      (e : Ready) (es : List Ready) (ready handled n : ℕ)
      → n ≤ 1
      → (has_events e ≡ false → n ≡ 0)
      → handled + count_events (e ∷ es) ≤ ready
      → (handled + n) + count_events es ≤ ready
  count_left e es ready handled n le zero_if h = elim (Bool-cases (has_events e)) [
    | inl some_event ↦ ground arith
    | inr no_event ↦ let none_counted = zero_if no_event in ground arith
  ]

  all_suffix :
      (es : List Ready) (ready handled : ℕ) (w : World) (xs l : List Ptr)
      → IsServer cache root w (xs ++ l)
      → length es ≡ length l
      → AllGood w.server.parameters es
      → handled + count_events es ≤ ready
      → handle_clients es ready handled w (head_of l) ≡ handle_all_clients es w (head_of l)
  unfolding handle_clients handle_all_clients
  all_suffix [] ready handled w xs [] r same good fits = refl
  all_suffix [] ready handled w xs (p ∷ ys) r same good fits = absurd (omega arith)
  all_suffix (e ∷ es) ready handled w xs [] r same good fits = absurd (omega arith)
  all_suffix (e ∷ es) ready handled w xs (p ∷ ys) r same good fits =
      let (nonnull, (c, at, _, next)) = Chain-links w.heap null_ptr xs p ys r.clients.chain in
      let (w1, n, runs, stepped, moves) =
        handle_client-HandledOk cache root w xs p ys c r at e good.0 c.state refl in
      let le = Moves-count moves in
      let (zs, r1) = Stepped-rest cache root w w1 xs p ys stepped in
      let zero_if : has_events e ≡ false → n ≡ 0 = λ idle.
        ap (λ (x : World × ℕ). x.1)
          (ok-injective (sym runs ∙ handle_client_idle e w p c.state idle)) in
      let left = count_left e es ready handled n le zero_if fits in
      handle_clients_cons e es ready handled w p nonnull at runs
      ∙ elim (Bool-cases ((handled + n) == ready)) [
        | inl stop ↦
            ap (λ (b : Bool). if b then ok w1 else handle_clients es ready (handled + n) w1 c.next)
              stop
            ∙ sym (
                ap (handle_all_clients es w1) next
                ∙ idle_suffix es w1 zs ys r1 (omega arith) (ground arith))
        | inr more ↦
            ap (λ (b : Bool). if b then ok w1 else handle_clients es ready (handled + n) w1 c.next)
              more
            ∙ ap (handle_clients es ready (handled + n) w1) next
            ∙ all_suffix es ready (handled + n) w1 zs ys r1 (omega arith)
                (subst (λ (x : ServParameters). AllGood x es) (sym stepped.0) good.1) left
            ∙ sym (ap (handle_all_clients es w1) next)
      ]
      ∙ sym (handle_all_clients_cons e es w p nonnull at runs)

  -- On a server that is well formed, with events for each client, where no read for a client that
  -- is ready fails, a file that is to be sent to it can be opened, no write or sendfile fails but
  -- with ECONNRESET, dates have at most 255 bytes, and what arrives leaves at least two bytes of
  -- the buffer, and with a count of ready entries that is no less than the number of clients with
  -- events: the loop over the clients, which stops when it has handled that count, ends as the
  -- loop does that visits every client.
  pub handle_clients-handle_all_clients :
      (es : List Ready) (ready : ℕ) (w : World) (l : List Ptr)
      → IsServer cache root w l
      → length es ≡ length l
      → AllGood w.server.parameters es
      → count_events es ≤ ready
      → handle_clients es ready 0 w w.server.clients ≡ handle_all_clients es w w.server.clients
  handle_clients-handle_all_clients es ready w l r same good fits =
      ap (handle_clients es ready 0 w) r.clients.first
      ∙ all_suffix es ready 0 w [] l r same good (omega arith)
      ∙ sym (ap (handle_all_clients es w) r.clients.first)
