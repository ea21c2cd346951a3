-- ===== src/Server/Rounds.antt =====
-- src/server.c: accepting clients, and the loop that polls and serves them.
pub mod Valid
pub mod Poll
pub mod Good
pub mod Moves
pub mod Step
pub mod Handle
pub mod Loop
pub mod Early
pub mod Each
pub mod Accept
pub mod Served
use ens_sysres_proj.Common.{
  ℕ, zero, suc, ◌+◌, Bool, true, false, not, Option, none, some, List, [], ◌∷◌, Bytes, Outcome, ok,
  exit, fault, ◌>>=◌, or_exit, ◌==◌, if◌then◌else◌,
}
use ens_sysres_proj.Server.{
  ClientState, waiting_for_request, processing_request, answering, Ptr, null_ptr, Client, World,
  server_is_started, load, save,
}
use ens_sysres_proj.Server.Clients.{init_client, add_client_to_server, remove_client_from_server}
use ens_sysres_proj.Server.Requests.{read_from_client}
use ens_sysres_proj.Server.Answers.{Sent, Opened, write_to_client}

-- What `accept` and `malloc` give for a new client: a descriptor, its address with what the memory
-- there holds, and the memory of its two buffers. `none` is an error.
pub record Accepted : Type 0 where
  pub fd : Option ℕ
  pub address : Option Ptr
  pub memory : Client
  pub request_memory : Option Bytes
  pub header_memory : Option Bytes

-- The steps behind the tests.
unfoldable pub add_accepted_client : Accepted → World → Outcome (World × Ptr)
add_accepted_client a w = do
  fd ← or_exit a.fd "accept() failed"
  p ← or_exit a.address "malloc() failed in createClient()"
  request_memory ← or_exit a.request_memory "malloc() failed in initClient()"
  header_memory ← or_exit a.header_memory "malloc() failed in initClient()"
  w ← add_client_to_server (save w p (init_client a.memory fd request_memory header_memory)) p
  ok (w, p)

unfoldable pub accept_new_client : Accepted → World → Outcome (World × Ptr)
unfolding add_accepted_client
accept_new_client a w =
    if not (server_is_started w)
    then exit "acceptNewClient() failed: server is not started"
    else if w.server.nb_clients == w.server.parameters.max_nb_clients
    then ok (w, null_ptr)
    else add_accepted_client a w

pub data PollEvents : Type 0 where
  no_events poll_in poll_out : PollEvents

-- An entry of the array for `poll`. `fd` is `none` for POLL_NO_POLLING.
pub record Polled : Type 0 where
  pub fd : Option ℕ
  pub events : PollEvents

abbrev pub polled_client : Client → Polled
polled_client c = elim c.state [
  | none ↦ record { fd = none; events = no_events }
  | some s ↦ elim s [
    | waiting_for_request ↦ record { fd = some c.fd; events = poll_in }
    | answering ↦ record { fd = some c.fd; events = poll_out }
    | processing_request ↦ record { fd = none; events = no_events }
  ]
]

-- The loop that fills the entries behind the first one, of which there are `left`.
unfoldable pub fill_polled_sockets : (left : ℕ) → World → Ptr → Outcome (List Polled)
fill_polled_sockets zero w p = if p == null_ptr then ok [] else fault
fill_polled_sockets (suc left) w p =
    if p == null_ptr
    then ok []
    else do c ← load w p; rest ← fill_polled_sockets left w c.next; ok (polled_client c ∷ rest)

-- The `revents` of a client's entry, and what the calls that serve the client then give.
pub record Ready : Type 0 where
  pub poll_hup : Bool
  pub poll_in : Bool
  pub poll_out : Bool
  pub date : Bytes
  pub arrived : Option Bytes
  pub header : Sent
  pub opened : Opened
  pub body : Sent

-- What the loop does with a client, and whether it counts it.
unfoldable pub handle_client : Ready → World → Ptr → Option ClientState → Outcome (World × ℕ)
handle_client e w p (some waiting_for_request) =
    if e.poll_hup
    then (do w ← remove_client_from_server w p; ok (w, 0))
    else if e.poll_in
    then (do w ← read_from_client e.date e.arrived w p; ok (w, 1))
    else ok (w, 0)
handle_client e w p (some answering) =
    if e.poll_hup
    then (do w ← remove_client_from_server w p; ok (w, 0))
    else if e.poll_out
    then (do (w, _, _) ← write_to_client e.header e.opened e.body w p; ok (w, 1))
    else ok (w, 0)
handle_client e w p _ =
    if e.poll_hup then (do w ← remove_client_from_server w p; ok (w, 0)) else ok (w, 0)

-- The loop over the clients. It reads an entry of the array for each of them.
unfoldable pub handle_clients : List Ready → (nb_ready nb_handled : ℕ) → World → Ptr → Outcome World
unfolding handle_client
handle_clients [] ready handled w p = if p == null_ptr then ok w else fault
handle_clients (e ∷ es) ready handled w p = if p == null_ptr then ok w else do
  c ← load w p
  (w, n) ← handle_client e w p c.state
  if (handled + n) == ready then ok w else handle_clients es ready (handled + n) w c.next

-- What `poll` returns for the entries of the clients: the number of entries with events, whether a
-- client is to be accepted, and the events of the clients.
pub record Round : Type 0 where
  pub poll : List Polled → Option (ℕ × Bool × List Ready)
  pub accepted : Accepted

-- The message that a client was accepted reads its descriptor.
unfoldable pub accept_if : Bool → Accepted → World → Outcome World
unfolding accept_new_client
accept_if true a w = do (w, p) ← accept_new_client a w; _ ← load w p; ok w
accept_if false a w = ok w

unfoldable pub handle_round : Round → World → Outcome World
unfolding fill_polled_sockets handle_clients accept_if
handle_round round w = do
  polled ← fill_polled_sockets w.server.nb_clients w w.server.clients
  (ready, new, events) ← or_exit (round.poll polled) "poll() failed"
  w ← handle_clients events ready 0 w w.server.clients
  accept_if new round.accepted w

unfoldable pub handle_rounds : List Round → World → Outcome World
unfolding handle_round
handle_rounds [] w = ok w
handle_rounds (round ∷ rounds) w = do w ← handle_round round w; handle_rounds rounds w

-- The first rounds of the loop, which never ends.
unfoldable pub handle_client_requests : List Round → World → Outcome World
unfolding handle_rounds
handle_client_requests rounds w =
    if not (server_is_started w)
    then exit "handleClientRequests() failed: server is not started"
    else handle_rounds rounds w
