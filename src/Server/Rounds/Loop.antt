-- ===== src/Server/Rounds/Loop.antt =====
-- The loop over the clients that are ready.
use ens_sysres_proj.Common.{
  ℕ, ◌+◌, ◌≡◌, refl, ap, sym, subst, ◌∙◌, ◌≢◌, inl, inr, Bool, true, false, some, List, [], ◌∷◌,
  ◌++◌, append_assoc, Outcome, ok, ◌>>=◌, >>=-ok, arith, length, ◌==◌, if◌then◌else◌,
}
use ens_sysres_proj.Cache.{FileCache, Folder}
use ens_sysres_proj.Server.{Ptr, null_ptr, Client, ServParameters, World, load}
use ens_sysres_proj.Server.Clients.Chain.{head_of, Chain-links}
use ens_sysres_proj.Server.Clients.Refines.{load-some}
use ens_sysres_proj.Server.Rounds.{Ready, handle_client, handle_clients}
use ens_sysres_proj.Server.Rounds.Valid.{IsServer}
use ens_sysres_proj.Server.Rounds.Good.{IsGood}
use ens_sysres_proj.Server.Rounds.Step.{Stepped}
use ens_sysres_proj.Server.Rounds.Handle.{handle_client-HandledOk}

abbrev pub AllGood : ServParameters → List Ready → Type 0
AllGood parameters [] = Unit {0}
AllGood parameters (e ∷ es) = IsGood parameters e × AllGood parameters es

-- A round over the first client, when the rest of the loop is known.
pub handle_clients_cons :
    (e : Ready) (es : List Ready) (ready handled : ℕ) (w : World) (p : Ptr) {c : Client}
    {w' : World} {n : ℕ}
    → p ≢ null_ptr
    → w.heap p ≡ some c
    → handle_client e w p c.state ≡ ok (w', n)
    → handle_clients (e ∷ es) ready handled w p
      ≡ (if (handled + n) == ready then ok w' else handle_clients es ready (handled + n) w' c.next)
unfolding handle_clients
handle_clients_cons e es ready handled w p {c} nonnull at runs =
    let away : (p == null_ptr) ≡ false = ground arith in
    ap
      (λ (b : Bool). if b then ok w else do
        c ← load w p
        (w, n) ← handle_client e w p c.state
        if (handled + n) == ready then ok w else handle_clients es ready (handled + n) w c.next)
      away
    ∙ >>=-ok _ (load-some w p nonnull at) (>>=-ok _ runs refl)

module _ (cache : FileCache) (root : Folder) where
  -- What the loop ends with.
  abbrev pub Served : World → Outcome World → Type 0
  Served w m =
      (w' : World) × (l : List Ptr) × (m ≡ ok w')
      × IsServer cache root w' l
      × (w'.server.parameters ≡ w.server.parameters)

  if-Served :
      (b : Bool) (w : World) (m m' : Outcome World)
      → Served w m
      → Served w m'
      → Served w (if b then m else m')
  if-Served true w m m' h h' = h
  if-Served false w m m' h h' = h'

  -- The list of the clients behind one that stays or leaves.
  pub Stepped-rest :
      (w w' : World) (xs : List Ptr) (p : Ptr) (ys : List Ptr)
      → Stepped cache root w xs p ys w'
      → (zs : List Ptr) × IsServer cache root w' (zs ++ ys)
  Stepped-rest w w' xs p ys (_, _, inl r) =
      (xs ++ p ∷ [], subst (IsServer cache root w') (sym (append_assoc xs (p ∷ []) ys)) r)
  Stepped-rest w w' xs p ys (_, _, inr r) = (xs, r)

  handle_suffix-Served :
      (es : List Ready) (ready handled : ℕ) (w : World) (xs l : List Ptr)
      → IsServer cache root w (xs ++ l)
      → length es ≡ length l
      → AllGood w.server.parameters es
      → Served w (handle_clients es ready handled w (head_of l))
  unfolding handle_clients
  handle_suffix-Served [] ready handled w xs [] r same good = (w, xs ++ [], refl, r, refl)
  handle_suffix-Served [] ready handled w xs (p ∷ ys) r same good = absurd (omega arith)
  handle_suffix-Served (e ∷ es) ready handled w xs [] r same good = absurd (omega arith)
  handle_suffix-Served (e ∷ es) ready handled w xs (p ∷ ys) r same good =
      let (nonnull, (c, at, _, next)) = Chain-links w.heap null_ptr xs p ys r.clients.chain in
      let (w1, n, runs, stepped, _) =
        handle_client-HandledOk cache root w xs p ys c r at e good.0 c.state refl in
      let (zs, r1) = Stepped-rest w w1 xs p ys stepped in
      let (w2, l2, runs2, r2, kept2) =
        handle_suffix-Served es ready (handled + n) w1 zs ys r1 (omega arith)
          (subst (λ (x : ServParameters). AllGood x es) (sym stepped.0) good.1) in
      let (w', l', runs', r', kept') =
        if-Served ((handled + n) == ready) w (ok w1)
          (handle_clients es ready (handled + n) w1 c.next) (w1, zs ++ ys, refl, r1, stepped.0)
          (
            w2,
            l2,
            ap (handle_clients es ready (handled + n) w1) next ∙ runs2,
            r2,
            kept2 ∙ stepped.0,
          ) in
      (w', l', handle_clients_cons e es ready handled w p nonnull at runs ∙ runs', r', kept')

  -- The loop over all the clients.
  pub handle_clients-IsServer :
      (es : List Ready) (ready : ℕ) (w : World) (l : List Ptr)
      → IsServer cache root w l
      → length es ≡ length l
      → AllGood w.server.parameters es
      → Served w (handle_clients es ready 0 w w.server.clients)
  handle_clients-IsServer es ready w l r same good =
      let (w', l', runs, r', kept) = handle_suffix-Served es ready 0 w [] l r same good in
      (w', l', ap (handle_clients es ready 0 w) r.clients.first ∙ runs, r', kept)
