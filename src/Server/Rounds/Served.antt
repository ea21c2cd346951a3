-- ===== src/Server/Rounds/Served.antt =====
-- Whole rounds of the loop, and the server that was started.
use ens_sysres_proj.Common.{
  ℕ, ◌≡◌, refl, ap, sym, subst, ◌∙◌, Bool, true, false, not, Option, some, List, [], ◌∷◌, ok, exit,
  ◌>>=◌, >>=-ok, >>=-eq-ok, or_exit, ok-injective, arith, length, if◌then◌else◌,
}
use ens_sysres_proj.Cache.{FileCache, Folder}
use ens_sysres_proj.Cache.Disk.{Disk}
use ens_sysres_proj.Cache.Build.{build_cache_from_disk}
use ens_sysres_proj.Cache.Build.Space.{build_cache_from_disk-IsBuilt}
use ens_sysres_proj.Server.{Ptr, World}
use ens_sysres_proj.Server.Rounds.{
  Accepted, Polled, Ready, Round, handle_clients, accept_if, handle_round, handle_rounds,
  handle_client_requests,
}
use ens_sysres_proj.Server.Rounds.Valid.{IsServer}
use ens_sysres_proj.Server.Rounds.Poll.{fill_polled_sockets-IsPolled}
use ens_sysres_proj.Server.Rounds.Loop.{AllGood, handle_clients-IsServer}
use ens_sysres_proj.Server.Rounds.Accept.{IsAccepted, accept_if-IsServer}
use ens_sysres_proj.Server.Setup.{default_init_server, default_parameters, start_server}

-- `poll` succeeds with events for each entry, what the calls for a ready client give is good, and a
-- client that is to be accepted can be.
pub record IsGoodRound (w : World) (round : Round) : Type 0 where
  pub ready : ℕ
  pub new : Bool
  pub events : List Ready
  pub polls :
      (polled : List Polled)
      → length polled ≡ w.server.nb_clients
      → round.poll polled ≡ some (ready, new, events)
  pub enough : length events ≡ w.server.nb_clients
  pub good : AllGood w.server.parameters events
  pub accepted :
      new ≡ true
      → (w' : World) → handle_clients events ready 0 w w.server.clients ≡ ok w'
      → IsAccepted w' round.accepted

-- Each round is good where the ones in front of it lead to.
abbrev pub AllGoodRounds : World → List Round → Type 0
AllGoodRounds w [] = Unit {0}
AllGoodRounds w (round ∷ rounds) =
    IsGoodRound w round × ((w' : World) → handle_round round w ≡ ok w' → AllGoodRounds w' rounds)

module _ (cache : FileCache) (root : Folder) where
  accept_or_not :
      (new : Bool) (a : Accepted) (w : World) (l : List Ptr)
      → IsServer cache root w l
      → (new ≡ true → IsAccepted w a)
      → (w' : World) × (l' : List Ptr) × (accept_if new a w ≡ ok w') × IsServer cache root w' l'
  unfolding accept_if
  accept_or_not false a w l r is = (w, l, refl, r)
  accept_or_not true a w l r is =
      let (w', runs, r', _) = accept_if-IsServer cache root w l a r (is refl) in (w', _, runs, r')

  -- One round.
  handle_round-IsServer :
      (w : World) (l : List Ptr) (round : Round)
      → IsServer cache root w l
      → IsGoodRound w round
      → (w' : World) × (l' : List Ptr) × (handle_round round w ≡ ok w') × IsServer cache root w' l'
  unfolding handle_round
  handle_round-IsServer w l round r g =
      let (polled, filled, _, same) = fill_polled_sockets-IsPolled w l r.clients in
      let returned = g.polls polled (same ∙ sym r.clients.count) in
      let (w1, l1, runs, r1, _) =
        handle_clients-IsServer cache root g.events g.ready w l r (g.enough ∙ r.clients.count)
          g.good in
      let (w2, l2, ends, r2) =
        accept_or_not g.new round.accepted w1 l1 r1 (λ e. g.accepted e w1 runs) in
      (
        w2,
        l2,
        >>=-ok _ filled (
            >>=-ok _
              (ap (λ (o : Option (ℕ × Bool × List Ready)). or_exit o "poll() failed") returned)
              (>>=-ok _ runs ends)),
        r2,
      )

  handle_rounds-IsServer :
      (w : World) (l : List Ptr) (rounds : List Round)
      → IsServer cache root w l
      → AllGoodRounds w rounds
      → (w' : World) × (l' : List Ptr) × (handle_rounds rounds w ≡ ok w')
        × IsServer cache root w' l'
  unfolding handle_rounds
  handle_rounds-IsServer w l [] r g = (w, l, refl, r)
  handle_rounds-IsServer w l (round ∷ rounds) r g =
      let (w1, l1, runs, r1) = handle_round-IsServer w l round r g.0 in
      let (w2, l2, runs', r2) = handle_rounds-IsServer w1 l1 rounds r1 (g.1 w1 runs) in
      (w2, l2, >>=-ok _ runs runs', r2)

-- The server that was started has no client.
started-IsServer :
    (d : Disk) (fd : ℕ) (w : World)
    → (default_init_server (some fd) >>= start_server d true true) ≡ ok w
    → (cache : FileCache) × (root : Folder) × IsServer cache root w []
unfolding default_init_server start_server
started-IsServer d fd w start =
    let (cache, built, made) =
      >>=-eq-ok
        (build_cache_from_disk d default_parameters.root_data_directory
          default_parameters.cache_max_size)
        _ start in
    let (root, has_root, is_built, _, _, _) =
      build_cache_from_disk-IsBuilt d default_parameters.root_data_directory
        default_parameters.cache_max_size (omega arith) built in
    (
      cache,
      root,
      subst (λ (x : World). IsServer cache root x []) (ok-injective made)
          (record {
            clients = record { first = refl; chain = tt; distinct = tt; count = refl };
            only = λ q m. refl;
            valid = λ p c at. absurd (cc);
            started = refl;
            cache_is = refl;
            has_root = has_root;
            built = is_built;
            header_size = refl;
            few = omega arith;
            max_int = omega arith;
          }),
    )

-- For the server with the default parameters, started on any disk on which building its cache
-- succeeds, with a socket that can be made, bound and listened on: any number of rounds of the
-- loop returns, without a fault and without ending the program, and leaves a list of distinct
-- clients, which are all that are allocated, linked both ways, of the length that the server
-- counts and of at most as many as it may have, each with buffers of the right sizes, less of a
-- request than its buffer holds, and, where its state says that it is being answered, the whole
-- header of its answer in the buffer and a body as long as it says. Each round is one in which
-- poll succeeds with an entry of events for each client, no read for a client that is ready
-- fails, a file that is to be sent to it can be opened, no write or sendfile fails but with
-- ECONNRESET, what arrives leaves at least two bytes of the buffer, dates have at most 255 bytes,
-- and a client is to be accepted only if there is room for it, in memory that is free, that has
-- the sizes asked for, and whose content does not say that the client is being answered.
pub handle_client_requests-IsServer :
    (d : Disk) (fd : ℕ) (w : World) (rounds : List Round)
    → (default_init_server (some fd) >>= start_server d true true) ≡ ok w
    → AllGoodRounds w rounds
    → (cache : FileCache) × (root : Folder) × (w' : World) × (l : List Ptr)
      × (handle_client_requests rounds w ≡ ok w')
      × IsServer cache root w' l
unfolding handle_client_requests
handle_client_requests-IsServer d fd w rounds start good =
    let (cache, root, r) = started-IsServer d fd w start in
    let (w', l, runs, r') = handle_rounds-IsServer cache root w [] rounds r good in
    (
      cache,
      root,
      w',
      l,
      ap
            (λ (b : Bool).
              if not b
              then exit "handleClientRequests() failed: server is not started"
              else handle_rounds rounds w)
            r.started
          ∙ runs,
      r',
    )
