-- ===== src/Tests/Rounds.antt =====
-- Rounds of the loop, and the start and the end of the server.
use ens_sysres_proj.Common.{
  ℕ, ◌≡◌, refl, ap, sym, subst, ◌∙◌, inl, inr, true, false, none, some, List, [], ◌∷◌, codes, ok,
  fault, ◌>>=◌, >>=-ok, ok-injective, arith, length, Bool-cases, ◌==◌,
}
use ens_sysres_proj.Cache.{Folder, FileCache}
use ens_sysres_proj.Server.{Ptr, null_ptr, ServParameters, World, write, load}
use ens_sysres_proj.Server.Clients.{set_previous, set_next, link_client, add_client_to_server}
use ens_sysres_proj.Server.Clients.Refines.{Represents}
use ens_sysres_proj.Server.Answers.{reset}
use ens_sysres_proj.Server.Rounds.{
  Accepted, Polled, Ready, Round, fill_polled_sockets, handle_clients, add_accepted_client,
  accept_new_client, accept_if, handle_round, handle_client_requests,
}
use ens_sysres_proj.Server.Rounds.Valid.{IsClient, IsServer}
use ens_sysres_proj.Server.Rounds.Poll.{IsPolled, fill_polled_sockets-IsPolled}
use ens_sysres_proj.Server.Clients.Chain.{Misses}
use ens_sysres_proj.Server.Rounds.Loop.{AllGood}
use ens_sysres_proj.Server.Rounds.Each.{AllMoved, handle_clients-AllMoved}
use ens_sysres_proj.Server.Rounds.Early.{handle_all_clients, handle_clients-handle_all_clients}
use ens_sysres_proj.Server.Rounds.Accept.{IsAccepted, accept_if-full}
use ens_sysres_proj.Server.Rounds.Served.{IsGoodRound, handle_client_requests-IsServer}
use ens_sysres_proj.Server.Setup.{
  default_init_server, init_server, default_parameters, start_server,
}
use ens_sysres_proj.Tests.{repeat, length-repeat, small_disk, small_root, small_cache}
use ens_sysres_proj.Tests.Cache.{small_disk-default_cache}
use ens_sysres_proj.Tests.Http.{today}
use ens_sysres_proj.Tests.Server.{
  small_parameters, waiting, waiting-IsReading, serving, small_root-IsBuilt,
}

abbrev pub one_waiting : World
one_waiting = record { server = serving 1 1; heap = write (λ p. none) 1 (some (waiting 0 0)) }

one_waiting-Represents : Represents one_waiting (1 ∷ [])
one_waiting-Represents = record {
  first = refl;
  chain = (omega arith, (_, refl, refl, refl), tt);
  distinct = (tt, tt);
  count = refl;
}

fill_polled_sockets-IsPolled_example :
    (es : List Polled) × (fill_polled_sockets 1 one_waiting 1 ≡ ok es)
    × IsPolled one_waiting.heap (1 ∷ []) es
    × (length es ≡ 1)
fill_polled_sockets-IsPolled_example =
    fill_polled_sockets-IsPolled one_waiting (1 ∷ []) one_waiting-Represents

waiting-IsClient : IsClient small_parameters (waiting 0 0)
waiting-IsClient = record {
  reading = waiting-IsReading 0 0;
  header_size = length-repeat 2048;
  sending = λ e. absurd (cc);
}

pub one_waiting-IsServer : IsServer small_cache small_root one_waiting (1 ∷ [])
one_waiting-IsServer = record {
  clients = one_waiting-Represents;
  only = λ q m. ground (arith, m);
  valid = λ p c at. elim (Bool-cases (p == 1)) [
    | inl here ↦
        let same : p ≡ 1 = ground arith in
        let both : some c ≡ some (waiting 0 0) = sym at ∙ ap one_waiting.heap same in
        let c_is : c ≡ waiting 0 0 = cc in
        subst (IsClient small_parameters) (sym c_is) waiting-IsClient
    | inr away ↦
        let nothing : one_waiting.heap p ≡ none = ground arith in
        let both : some c ≡ none = sym at ∙ nothing in absurd (cc)
  ];
  started = refl;
  cache_is = refl;
  has_root = refl;
  built = small_root-IsBuilt;
  header_size = refl;
  few = omega arith;
  max_int = omega arith;
}

-- A part of a request arrived.
abbrev pub part_arrived : Ready
part_arrived = record {
  poll_hup = false;
  poll_in = true;
  poll_out = false;
  date = today;
  arrived = some (codes "GET ");
  header = reset;
  opened = some (5, []);
  body = reset;
}

part_arrived-AllGood : AllGood small_parameters (part_arrived ∷ [])
part_arrived-AllGood = (
  record {
    date_short = omega arith;
    bytes = codes "GET ";
    arrived = refl;
    small = omega arith;
    opened = λ e. cc;
    header = λ e. cc;
    body = λ e. cc;
  },
  tt,
)

handle_clients-handle_all_clients_example :
    handle_clients (part_arrived ∷ []) 1 0 one_waiting 1
    ≡ handle_all_clients (part_arrived ∷ []) one_waiting 1
handle_clients-handle_all_clients_example =
    handle_clients-handle_all_clients small_cache small_root (part_arrived ∷ []) 1 one_waiting
      (1 ∷ []) one_waiting-IsServer refl part_arrived-AllGood (omega arith)

handle_clients-AllMoved_example :
    (w' : World) × (handle_clients (part_arrived ∷ []) 1 0 one_waiting 1 ≡ ok w')
    × AllMoved small_cache small_parameters one_waiting w' (part_arrived ∷ []) (1 ∷ [])
    × ((q : Ptr) → Misses q (1 ∷ []) → w'.heap q ≡ none)
handle_clients-AllMoved_example =
    handle_clients-AllMoved small_cache small_root (part_arrived ∷ []) 1 one_waiting (1 ∷ [])
      one_waiting-IsServer refl part_arrived-AllGood (omega arith)

-- A client for the address 1.
abbrev pub new_arrival : (request_size : ℕ) → Accepted
new_arrival request_size = record {
  fd = some 9;
  address = some 1;
  memory = waiting 0 0;
  request_memory = some (repeat request_size);
  header_memory = some (repeat 2048);
}

abbrev full_server : World
full_server = record one_waiting { server = serving 1 3 }

accept_if-full_example :
    (accept_new_client (new_arrival 64) full_server ≡ ok (full_server, null_ptr))
    × (accept_if true (new_arrival 64) full_server ≡ fault)
accept_if-full_example = accept_if-full full_server (new_arrival 64) refl refl

abbrev pub started : World
started = record {
  server = record (init_server 3 default_parameters) {
    cache = some (record small_cache { max_size = 3200000 });
    is_started = true;
  };
  heap = λ p. none;
}

pub starts : (default_init_server (some 3) >>= start_server small_disk true true) ≡ ok started
unfolding default_init_server start_server
starts = >>=-ok _ small_disk-default_cache refl

-- The first round accepts a client.
abbrev pub accepts : Round
accepts = record { poll = λ polled. some (1, true, []); accepted = new_arrival 16384 }

-- In the second one, a part of its request arrives.
abbrev pub reads : Round
reads = record { poll = λ polled. some (1, false, part_arrived ∷ []); accepted = new_arrival 16384 }

started-IsAccepted : IsAccepted started (new_arrival 16384)
started-IsAccepted = record {
  room = λ e. omega arith;
  descriptor = 9;
  fd = refl;
  place = 1;
  address = refl;
  nonnull = omega arith;
  free = refl;
  not_answering = λ e. cc;
  request_memory = repeat 16384;
  request = refl;
  request_size = length-repeat 16384;
  header_memory = repeat 2048;
  header = refl;
  header_size = length-repeat 2048;
  some_size = omega arith;
  size_int = omega arith;
}

pub accepts-IsGoodRound : IsGoodRound started accepts
unfolding handle_clients
accepts-IsGoodRound = record {
  ready = 1;
  new = true;
  events = [];
  polls = λ polled same. refl;
  enough = refl;
  good = tt;
  accepted = λ e w' runs.
      let same : started ≡ w' = ok-injective runs in
      subst (λ (w : World). IsAccepted w (new_arrival 16384)) same started-IsAccepted;
}

-- What the second round needs of the server that the first one leaves.
reads-IsGoodRound :
    (w : World)
    → w.server.nb_clients ≡ 1
    → w.server.parameters ≡ default_parameters
    → IsGoodRound w reads
reads-IsGoodRound w one same = record {
  ready = 1;
  new = false;
  events = part_arrived ∷ [];
  polls = λ polled _. refl;
  enough = sym one;
  good = (
    record {
      date_short = omega arith;
      bytes = codes "GET ";
      arrived = refl;
      small = omega (arith, ap (λ (x : ServParameters). x.request_buffer_size) same);
      opened = λ e. cc;
      header = λ e. cc;
      body = λ e. cc;
    },
    tt,
  );
  accepted = λ e. absurd (cc);
}

pub first_round : (w : World) → handle_round accepts started ≡ ok w → IsGoodRound w reads
unfolding handle_round fill_polled_sockets handle_clients accept_if accept_new_client
    add_accepted_client add_client_to_server link_client set_previous set_next load
first_round w runs =
    let same = ok-injective runs in
    reads-IsGoodRound w (ap (λ (x : World). x.server.nb_clients) (sym same))
      (ap (λ (x : World). x.server.parameters) (sym same))

handle_client_requests-IsServer_example :
    (cache : FileCache) × (root : Folder) × (w' : World) × (l : List Ptr) × (handle_client_requests
        (accepts ∷ reads ∷ [])
        started
      ≡ ok w')
    × IsServer cache root w' l
handle_client_requests-IsServer_example =
    handle_client_requests-IsServer small_disk 3 started (accepts ∷ reads ∷ []) starts
      (accepts-IsGoodRound, λ w e. (first_round w e, λ w' e'. tt))
