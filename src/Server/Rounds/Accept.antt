-- ===== src/Server/Rounds/Accept.antt =====
-- Accepting a client.
use mathlib.Core.Option.{map}
use ens_sysres_proj.Common.{
  ℕ, ◌≤◌, ◌<◌, ◌^◌, ◌≡◌, refl, ap, sym, subst, ◌∙◌, ◌≢◌, inl, inr, Bool, true, false, not, none,
  some, List, [], ◌∷◌, Bytes, ok, fault, >>=-ok, arith, length, Bool-cases, ◌==◌, if◌then◌else◌,
  exit,
}
use ens_sysres_proj.Cache.{FileCache, Folder}
use ens_sysres_proj.Server.{
  answering, Ptr, null_ptr, Client, ServParameters, Server, Heap, World, load, save, write,
}
use ens_sysres_proj.Server.Clients.{init_client, add_client_to_server}
use ens_sysres_proj.Server.Clients.Chain.{Misses, Chain, Agrees-Chain}
use ens_sysres_proj.Server.Clients.Refines.{
  Represents, payload, load-some, write_self, write_other, add_client_to_server-Represents,
  Agrees-write,
}
use ens_sysres_proj.Server.Rounds.{Accepted, add_accepted_client, accept_new_client, accept_if}
use ens_sysres_proj.Server.Rounds.Valid.{IsClient, IsServer, kept-IsClient, map-none}

-- There is room for a client, no call for it fails, `malloc` gives memory that is free, and the
-- number that it finds for the state is not that of STATE_ANSWERING.
pub record IsAccepted (w : World) (a : Accepted) : Type 0 where
  pub room : w.server.nb_clients ≢ w.server.parameters.max_nb_clients
  pub descriptor : ℕ
  pub fd : a.fd ≡ some descriptor
  pub place : Ptr
  pub address : a.address ≡ some place
  pub nonnull : place ≢ null_ptr
  pub free : w.heap place ≡ none
  pub not_answering : a.memory.state ≢ some answering
  pub request_memory : Bytes
  pub request : a.request_memory ≡ some request_memory
  pub request_size : length request_memory ≡ w.server.parameters.request_buffer_size
  pub header_memory : Bytes
  pub header : a.header_memory ≡ some header_memory
  pub header_size : length header_memory ≡ 2048
  pub some_size : 1 ≤ w.server.parameters.request_buffer_size
  pub size_int : w.server.parameters.request_buffer_size < 2 ^ 31

free-Misses :
    (h : Heap) (before : Ptr) (l : List Ptr) (p : Ptr) → h p ≡ none → Chain h before l → Misses p l
free-Misses h before [] p free s = tt
free-Misses h before (q ∷ l) p free (nonnull, (c, e, _, _), s) =
    (λ same. absurd (some-none (sym e ∙ ap h same ∙ free)), free-Misses h q l p free s)
  where
    some-none : {c : Client} → some c ≡ none → ⊥
    some-none e = cc

save-Represents :
    (w : World) (l : List Ptr) (p : Ptr) (c : Client)
    → Misses p l
    → Represents w l
    → Represents (save w p c) l
save-Represents w l p c m r = record {
  first = r.first;
  chain =
      Agrees-Chain w.heap (write w.heap p (some c)) null_ptr l (Agrees-write w.heap p (some c) l m)
        r.chain;
  distinct = r.distinct;
  count = r.count;
}

abbrev pub new_client : (w : World) (a : Accepted) → IsAccepted w a → Client
new_client w a is = init_client a.memory is.descriptor is.request_memory is.header_memory

new_client-IsClient :
    (w : World) (a : Accepted) (is : IsAccepted w a)
    → IsClient w.server.parameters (new_client w a is)
new_client-IsClient w a is = record {
  reading = record {
    size_int = is.size_int;
    size = is.request_size;
    received = omega (arith, is.some_size);
    offset = refl;
  };
  header_size = is.header_size;
  sending = λ e. absurd (is.not_answering e);
}

module _ (cache : FileCache) (root : Folder) (w : World) (l : List Ptr) (a : Accepted)
    (r : IsServer cache root w l) (is : IsAccepted w a) where
  -- The server with the new client, in front of the others.
  abbrev Accepts : Type 0
  Accepts =
      (w' : World) × (add_client_to_server (save w is.place (new_client w a is)) is.place ≡ ok w')
      × IsServer cache root w' (is.place ∷ l)
      × (w'.server.parameters ≡ w.server.parameters)

  saved-valid :
      (q : Ptr) (c : Client)
      → (save w is.place (new_client w a is)).heap q ≡ some c
      → IsClient w.server.parameters c
  saved-valid q c at = elim (Bool-cases (q == is.place)) [
    | inl here ↦
        let same : q ≡ is.place = ground arith in
        let both : some c ≡ some (new_client w a is) =
          sym at
          ∙ ap (write w.heap is.place (some (new_client w a is))) same
          ∙ write_self w.heap is.place (some (new_client w a is)) in
        let c_is : c ≡ new_client w a is = cc in
        subst (IsClient w.server.parameters) (sym c_is) (new_client-IsClient w a is)
    | inr away ↦
        r.valid q c
          (sym (write_other w.heap is.place q (some (new_client w a is)) (λ z. ground arith)) ∙ at)
  ]

  accepts : Accepts
  accepts =
      let c = new_client w a is in
      let misses = free-Misses w.heap null_ptr l is.place is.free r.clients.chain in
      let (w', runs, represents, keeps, same) =
        add_client_to_server-Represents (save w is.place c) l is.place c
          (save-Represents w l is.place c misses r.clients) is.nonnull misses
          (write_self w.heap is.place (some c)) (omega (arith, r.few, r.max_int)) in
      let parameters_same : w'.server.parameters ≡ w.server.parameters =
        ap (λ (s : Server). s.parameters) same in
      (
        w',
        runs,
        record {
          clients = represents;
          only = λ q m. map-none (
              keeps q
              ∙ ap (map payload)
                  (write_other w.heap is.place q (some c) (λ z. m.0 (sym z)) ∙ r.only q m.1));
          valid = λ q d at.
              subst (λ (x : ServParameters). IsClient x d) (sym parameters_same)
                (kept-IsClient w.server.parameters ((save w is.place c).heap q) d
                  (ap (map payload) (sym at) ∙ keeps q) (saved-valid q));
          started = ap (λ (s : Server). s.is_started) same ∙ r.started;
          cache_is = ap (λ (s : Server). s.cache) same ∙ r.cache_is;
          has_root = r.has_root;
          built = r.built;
          header_size =
              ap (λ (x : ServParameters). x.answer_header_buffer_size) parameters_same
              ∙ r.header_size;
          few = omega (
            arith,
            r.few,
            r.clients.count,
            is.room,
            ap (λ (x : ServParameters). x.max_nb_clients) parameters_same,
          );
          max_int =
              omega
                (arith, r.max_int, ap (λ (x : ServParameters). x.max_nb_clients) parameters_same);
        },
        parameters_same,
      )

  add_accepted_client_lem :
      (w' : World)
      → add_client_to_server (save w is.place (new_client w a is)) is.place ≡ ok w'
      → add_accepted_client a w ≡ ok (w', is.place)
  unfolding add_accepted_client
  add_accepted_client_lem w' runs = rw (is.fd, is.address, is.request, is.header, runs) refl

  accept_new_client_lem :
      (w' : World)
      → add_client_to_server (save w is.place (new_client w a is)) is.place ≡ ok w'
      → accept_new_client a w ≡ ok (w', is.place)
  unfolding accept_new_client
  accept_new_client_lem w' runs =
      let not_full : (w.server.nb_clients == w.server.parameters.max_nb_clients) ≡ false =
        elim (Bool-cases (w.server.nb_clients == w.server.parameters.max_nb_clients)) [
          | inl e ↦ absurd (is.room (ground arith))
          | inr e ↦ e
        ] in
      ap
        (λ (b : Bool).
          if not b
          then exit "acceptNewClient() failed: server is not started"
          else if w.server.nb_clients == w.server.parameters.max_nb_clients
          then ok (w, null_ptr)
          else add_accepted_client a w)
        r.started
      ∙ ap (λ (b : Bool). if b then ok (w, null_ptr) else add_accepted_client a w) not_full
      ∙ add_accepted_client_lem w' runs

  -- The client that was accepted is one of the server's.
  pub accept_if-IsServer :
      (w' : World) × (accept_if true a w ≡ ok w')
      × IsServer cache root w' (is.place ∷ l)
      × (w'.server.parameters ≡ w.server.parameters)
  unfolding accept_if
  accept_if-IsServer =
      let (w', runs, r', same) = accepts in
      let (nonnull, (c, at, _, _), _) = r'.clients.chain in
      (
        w',
        >>=-ok _ (accept_new_client_lem w' runs) (>>=-ok _ (load-some w' is.place nonnull at) refl),
        r',
        same,
      )

-- On a started server that has as many clients as it may have, accepting a client gives NULL and
-- changes nothing, and the loop, which then reads the descriptor of the new client for a message,
-- faults.
pub accept_if-full :
    (w : World) (a : Accepted)
    → w.server.is_started ≡ true
    → w.server.nb_clients ≡ w.server.parameters.max_nb_clients
    → (accept_new_client a w ≡ ok (w, null_ptr)) × (accept_if true a w ≡ fault)
unfolding accept_new_client accept_if load
accept_if-full w a started full =
    let is_full : (w.server.nb_clients == w.server.parameters.max_nb_clients) ≡ true =
      ground arith in
    let none_made : accept_new_client a w ≡ ok (w, null_ptr) =
      ap
        (λ (b : Bool).
          if not b
          then exit "acceptNewClient() failed: server is not started"
          else if w.server.nb_clients == w.server.parameters.max_nb_clients
          then ok (w, null_ptr)
          else add_accepted_client a w)
        started
      ∙ ap (λ (b : Bool). if b then ok (w, null_ptr) else add_accepted_client a w) is_full in
    (none_made, >>=-ok _ none_made refl)
