-- ===== src/Server/Rounds/Poll.antt =====
-- The array that is polled has an entry for each client, in the order of their list.
use ens_sysres_proj.Common.{
  ℕ, suc, ◌≡◌, ◌≢◌, Option, none, refl, ap, ◌∙◌, Bool, false, some, List, [], ◌∷◌, ok, ◌>>=◌,
  >>=-ok, arith, length, ◌==◌, if◌then◌else◌,
}
use ens_sysres_proj.Server.{
  ClientState, waiting_for_request, processing_request, answering, Ptr, null_ptr, Client, Heap,
  World, load,
}
use ens_sysres_proj.Server.Clients.Chain.{head_of, Chain}
use ens_sysres_proj.Server.Clients.Refines.{Represents, load-some}
use ens_sysres_proj.Server.Rounds.{
  PollEvents, no_events, poll_in, poll_out, Polled, polled_client, fill_polled_sockets,
}

-- The entry that a client's state asks for: it is to be polled for input if it waits for a
-- request, for output if it is being answered, and otherwise not at all.
pub data Asks (c : Client) (e : Polled) : Type 0 where
  input : c.state ≡ some waiting_for_request → e.fd ≡ some c.fd → e.events ≡ poll_in → Asks c e
  output : c.state ≡ some answering → e.fd ≡ some c.fd → e.events ≡ poll_out → Asks c e
  none_asked :
      c.state ≢ some waiting_for_request
      → c.state ≢ some answering
      → e.fd ≡ none
      → e.events ≡ no_events
      → Asks c e

-- An entry that belongs to the client at an address.
abbrev pub IsPolled : Heap → List Ptr → List Polled → Type 0
IsPolled h [] [] = Unit {0}
IsPolled h (p ∷ l) (e ∷ es) = ((c : Client) × (h p ≡ some c) × Asks c e) × IsPolled h l es
IsPolled h _ _ = ⊥

-- The fields of the entry, by the state.
abbrev polled_fd : Client → Option ClientState → Option ℕ
polled_fd c s = (polled_client (record c { state = s })).fd

abbrev polled_events : Client → Option ClientState → PollEvents
polled_events c s = (polled_client (record c { state = s })).events

polled_in_state : (c : Client) (s : Option ClientState) → c.state ≡ s → Asks c (polled_client c)
polled_in_state c (some waiting_for_request) e =
    input e (ap (polled_fd c) e) (ap (polled_events c) e)
polled_in_state c (some answering) e = output e (ap (polled_fd c) e) (ap (polled_events c) e)
polled_in_state c (some processing_request) e =
    none_asked (λ h. cc) (λ h. cc) (ap (polled_fd c) e) (ap (polled_events c) e)
polled_in_state c none e =
    none_asked (λ h. cc) (λ h. cc) (ap (polled_fd c) e) (ap (polled_events c) e)

polled_client-Asks : (c : Client) → Asks c (polled_client c)
polled_client-Asks c = polled_in_state c c.state refl

fill_suffix-IsPolled :
    (w : World) (before : Ptr) (l : List Ptr)
    → Chain w.heap before l
    → (es : List Polled) × (fill_polled_sockets (length l) w (head_of l) ≡ ok es)
      × IsPolled w.heap l es
      × (length es ≡ length l)
unfolding fill_polled_sockets
fill_suffix-IsPolled w before [] s = ([], refl, tt, refl)
fill_suffix-IsPolled w before (p ∷ l) (nonnull, (c, e, _, n), s) =
    let (es, runs, polled, same) = fill_suffix-IsPolled w p l s in
    let away : (p == null_ptr) ≡ false = ground arith in
    (
      polled_client c ∷ es,
      ap
            (λ (b : Bool). if b then ok [] else do
              c ← load w p
              rest ← fill_polled_sockets (length l) w c.next
              ok (polled_client c ∷ rest))
            away
          ∙ >>=-ok _ (load-some w p nonnull e)
              (>>=-ok _ (ap (fill_polled_sockets (length l) w) n ∙ runs) refl),
      ((c, e, polled_client-Asks c), polled),
      ap suc same,
    )

-- For a server whose clients are the addresses of a list, filling the array for poll returns,
-- without writing behind the entries that the server's count of clients gives it: it has one
-- entry for each client, in the order of the list, with the client's descriptor and the event of
-- input if it waits for a request, its descriptor and the event of output if it is being
-- answered, and else no descriptor and no event.
pub fill_polled_sockets-IsPolled :
    (w : World) (l : List Ptr)
    → Represents w l
    → (es : List Polled) × (fill_polled_sockets w.server.nb_clients w w.server.clients ≡ ok es)
      × IsPolled w.heap l es
      × (length es ≡ length l)
fill_polled_sockets-IsPolled w l r =
    let (es, runs, polled, same) = fill_suffix-IsPolled w null_ptr l r.chain in
    (
      es,
      ap (λ (n : ℕ). fill_polled_sockets n w w.server.clients) r.count
          ∙ ap (fill_polled_sockets (length l) w) r.first
          ∙ runs,
      polled,
      same,
    )
