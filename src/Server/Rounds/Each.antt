-- ===== src/Server/Rounds/Each.antt =====
-- What a pass of the loop over the clients does to each of them.
use mathlib.Core.Option.{map}
use ens_sysres_proj.Common.{
  ℕ, ◌≤◌, ◌≡◌, refl, ap, sym, subst, ◌∙◌, ◌≢◌, none, some, Option, List, [], ◌∷◌, ◌++◌, Bytes,
  Outcome, ok, arith, length,
}
use ens_sysres_proj.Cache.{FileCache, Folder}
use ens_sysres_proj.Server.{Ptr, null_ptr, Client, ServParameters, World}
use ens_sysres_proj.Server.Clients.Chain.{head_of, Misses, Chain-links}
use ens_sysres_proj.Server.Clients.Patch.{Distinct-after}
use ens_sysres_proj.Server.Clients.Refines.{payload, Keeps}
use ens_sysres_proj.Server.Rounds.{Ready, handle_clients}
use ens_sysres_proj.Server.Rounds.Valid.{IsServer, map-none}
use ens_sysres_proj.Server.Rounds.Moves.{Moves}
use ens_sysres_proj.Server.Rounds.Handle.{handle_client-HandledOk}
use ens_sysres_proj.Server.Rounds.Loop.{AllGood, Stepped-rest}
use ens_sysres_proj.Server.Rounds.Early.{
  count_events, handle_all_clients, handle_all_clients_cons, handle_clients-handle_all_clients,
}

-- Each client makes one step with its own events, up to its links.
pub data AllMoved (cache : FileCache) (parameters : ServParameters) (w w' : World)
    : List Ready → List Ptr → Type 0 where
  all : AllMoved cache parameters w w' [] []
  moved :
      {e : Ready} {es : List Ready} {p : Ptr} {l : List Ptr} (c : Client) (bytes : Bytes) (n : ℕ)
      (o : Option Client)
      → map payload (w.heap p) ≡ some (payload c)
      → e.arrived ≡ some bytes
      → Moves cache parameters e bytes c n o
      → map payload (w'.heap p) ≡ map payload o
      → AllMoved cache parameters w w' es l
      → AllMoved cache parameters w w' (e ∷ es) (p ∷ l)

-- A step of another client does not matter for the clients behind it.
AllMoved-before :
    {cache : FileCache} {parameters : ServParameters} {w w1 w' : World} {es : List Ready}
    {l : List Ptr} (p : Ptr)
    → Misses p l
    → ((q : Ptr) → q ≢ p → Keeps w w1 q)
    → AllMoved cache parameters w1 w' es l
    → AllMoved cache parameters w w' es l
AllMoved-before p m others all = all
AllMoved-before p m others (moved {p = q} c bytes n o at arrived moves after rest) =
    moved c bytes n o (sym (others q m.0) ∙ at) arrived moves after
      (AllMoved-before p m.1 others rest)

module _ (cache : FileCache) (root : Folder) where
  -- What the loop ends with.
  abbrev Passes : World → List Ready → List Ptr → Outcome World → Type 0
  Passes w es l m =
      (w' : World) × (m ≡ ok w')
      × AllMoved cache w.server.parameters w w' es l
      × ((q : Ptr) → Misses q l → Keeps w w' q)

  suffix-Passes :
      (es : List Ready) (w : World) (xs l : List Ptr)
      → IsServer cache root w (xs ++ l)
      → length es ≡ length l
      → AllGood w.server.parameters es
      → Passes w es l (handle_all_clients es w (head_of l))
  unfolding handle_all_clients
  suffix-Passes [] w xs [] r same good = (w, refl, all, λ q m. refl)
  suffix-Passes [] w xs (p ∷ ys) r same good = absurd (omega arith)
  suffix-Passes (e ∷ es) w xs [] r same good = absurd (omega arith)
  suffix-Passes (e ∷ es) w xs (p ∷ ys) r same good =
      let (nonnull, (c, at, _, next)) = Chain-links w.heap null_ptr xs p ys r.clients.chain in
      let (w1, n, runs, stepped, moves) =
        handle_client-HandledOk cache root w xs p ys c r at e good.0 c.state refl in
      let (zs, r1) = Stepped-rest cache root w w1 xs p ys stepped in
      let (w', runs', rest, keeps) =
        suffix-Passes es w1 zs ys r1 (omega arith)
          (subst (λ (x : ServParameters). AllGood x es) (sym stepped.0) good.1) in
      let misses = Distinct-after xs p ys r.clients.distinct in
      (
        w',
        handle_all_clients_cons e es w p nonnull at runs
            ∙ ap (handle_all_clients es w1) next
            ∙ runs',
        moved c good.0.bytes n (w1.heap p) (ap (map payload) at) good.0.arrived moves
            (keeps p misses)
            (AllMoved-before p misses stepped.1
              (subst (λ (x : ServParameters). AllMoved cache x w1 w' es ys) stepped.0 rest)),
        λ q m. keeps q m.1 ∙ stepped.1 q (λ z. m.0 (sym z)),
      )

  -- On a server as the rounds of the loop leave it, with one entry of events for each client,
  -- where no read for a client that is ready fails, a file that is to be sent to it can be
  -- opened, no write or sendfile fails but with ECONNRESET, what arrives leaves at least two
  -- bytes of the buffer, dates have at most 255 bytes, and the count of ready entries is no less
  -- than the number of clients with events: a pass of the loop over the clients returns, and each
  -- client makes one step with its own events, whatever the others do, up to its links in the
  -- list. A client that hangs up is removed. Else one that waits for a request and has input is
  -- removed if nothing is taken from it, and otherwise its request is processed as far as it
  -- arrived; one that is being answered and takes output is removed, or keeps its descriptor,
  -- both of its buffers and its answer, and its state stays or becomes waiting; and every other
  -- client is left as it is. No other client is allocated behind the pass.
  pub handle_clients-AllMoved :
      (es : List Ready) (ready : ℕ) (w : World) (l : List Ptr)
      → IsServer cache root w l
      → length es ≡ length l
      → AllGood w.server.parameters es
      → count_events es ≤ ready
      → (w' : World) × (handle_clients es ready 0 w w.server.clients ≡ ok w')
        × AllMoved cache w.server.parameters w w' es l
        × ((q : Ptr) → Misses q l → w'.heap q ≡ none)
  handle_clients-AllMoved es ready w l r same good fits =
      let (w', runs, moves, keeps) = suffix-Passes es w [] l r same good in
      (
        w',
        handle_clients-handle_all_clients cache root es ready w l r same good fits
            ∙ ap (handle_all_clients es w) r.clients.first
            ∙ runs,
        moves,
        λ q m. map-none (keeps q m ∙ ap (map payload) (r.only q m)),
      )
