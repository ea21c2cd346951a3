-- ===== src/Main.antt =====
-- src/main.c: the program from its start to its end.
use ens_sysres_proj.Common.{
  ℕ, ◌≡◌, ◌≢◌, refl, Bool, true, false, Option, none, some, List, Outcome, ok, exit, fault, hang,
  out_of_fuel, ap, ◌∙◌, String, ◌>>=◌, >>=-ok, >>=-eq-ok, or_exit, arith,
}
use ens_sysres_proj.Cache.Disk.{Disk}
use ens_sysres_proj.Server.{Ptr, null_ptr, Server, Heap, World, load}
use ens_sysres_proj.Server.Setup.{default_init_server, start_server}
use ens_sysres_proj.Server.Rounds.{Round, handle_client_requests}
use ens_sysres_proj.Server.Rounds.Served.{AllGoodRounds, handle_client_requests-IsServer}
use ens_sysres_proj.Server.Deletion.{
  delete_clients, disconnect_server, delete_server, delete_server_empty,
}

-- What the calls at the start give: whether `sigaction` succeeds, the memory of the server as
-- `malloc` finds it, the descriptor of the socket, and whether `bind` and `listen` succeed.
pub record Start : Type 0 where
  pub sigaction : Bool
  pub memory : Option Server
  pub sockfd : Option ℕ
  pub is_bound : Bool
  pub is_listening : Bool

-- No call at the start fails.
abbrev pub good_start : (memory : Server) (fd : ℕ) → Start
good_start memory fd = record {
  sigaction = true;
  memory = some memory;
  sockfd = some fd;
  is_bound = true;
  is_listening = true;
}

unfoldable pub install_sigint_handler : (sigaction : Bool) → Outcome (Unit {0})
install_sigint_handler true = ok tt
install_sigint_handler false = exit "sigaction() failed in installSIGINTHandler()"

-- Nothing of the server is set.
unfoldable pub create_server : (memory : Option Server) → Outcome World
create_server memory = do
  server ← or_exit memory "malloc() failed in createServer()"
  ok (record { server = server; heap = λ p. none })

-- How far the program is, and what `_main_server` points to: in the loop, with the server; ended
-- by `exit` in `main` or in a call that leaves the server as it was; or ended inside of a later
-- call.
pub data Run : Type 0 where
  in_loop : World → Run
  exited : (message : String) → (main_server : Option World) → Run
  ended_inside : Outcome (Unit {0}) → Run

-- A call of `main` that leaves what `_main_server` points to as it is, and what follows it.
abbrev pub call : {A : Type 0} → (main_server : Option World) → Outcome A → (A → Run) → Run
call main_server (ok a) next = next a
call main_server (exit message) next = exited message main_server
call main_server fault next = ended_inside fault
call main_server hang next = ended_inside hang
call main_server out_of_fuel next = ended_inside out_of_fuel

-- A call of `main` that works on the server, and what follows it.
abbrev pub call_inside : Outcome World → (World → Run) → Run
call_inside (ok w) next = next w
call_inside (exit message) next = ended_inside (exit message)
call_inside fault next = ended_inside fault
call_inside hang next = ended_inside hang
call_inside out_of_fuel next = ended_inside out_of_fuel

-- `main` up to the point where the loop has done these rounds. `_main_server` is NULL until
-- `createServer` returns, and then points to memory of which `defaultInitServer` sets each field,
-- at its end.
unfoldable pub main : Disk → Start → List Round → Run
unfolding install_sigint_handler create_server
main d start rounds = call none (install_sigint_handler start.sigaction) λ _.
    call none (create_server start.memory) λ created.
      call (some created) (default_init_server start.sockfd) λ w.
        call_inside (start_server d start.is_bound start.is_listening w)
          λ w. call_inside (handle_client_requests rounds w) in_loop

-- The clients that are still allocated behind it, by what `_main_server` points to, and whether
-- the socket of the server can be closed.
unfoldable pub clean_closing : (is_closed : Bool) → (main_server : Option World) → Outcome Heap
clean_closing is_closed none = ok (λ p. none)
clean_closing is_closed (some w) = do w ← delete_server is_closed w; ok w.heap

-- `exit` calls `cleanClosing`.
abbrev pub handle_sigint : (is_closed : Bool) → (main_server : Option World) → Outcome Heap
handle_sigint is_closed main_server = clean_closing is_closed main_server

-- What `cleanClosing`, which `main` gives to `atexit`, does when the program ends: in the loop by
-- SIGINT. `none` where the model does not say what it finds.
unfoldable pub at_exit : (is_closed : Bool) → Run → Option (Outcome Heap)
at_exit is_closed (in_loop w) = some (handle_sigint is_closed (some w))
at_exit is_closed (exited message main_server) = some (clean_closing is_closed main_server)
at_exit is_closed (ended_inside outcome) = none

-- For any disk on which the cache with the default parameters can be built, where no call at the
-- start fails, and whatever memory `malloc` finds for the server: after any number of rounds of
-- the loop the program is still in it, and if SIGINT then ends it and the socket of the server
-- can be closed, the deletion of the server at exit returns, without reading a freed client and
-- without freeing the content of a file twice, and no client is allocated behind it. Each round
-- is one in which poll succeeds with an entry of events for each client, no read for a client
-- that is ready fails, a file that is to be sent to it can be opened, no write or sendfile fails
-- but with ECONNRESET, what arrives leaves at least two bytes of the buffer, dates have at most
-- 255 bytes, and a client is to be accepted only if there is room for it, in memory that is free,
-- that has the sizes asked for, and whose content does not say that the client is being answered.
pub main-handle_sigint :
    (d : Disk) (memory : Server) (fd : ℕ) (w : World) (rounds : List Round)
    → (default_init_server (some fd) >>= start_server d true true) ≡ ok w
    → AllGoodRounds w rounds
    → (w' : World) × (h : Heap) × (main d (good_start memory fd) rounds ≡ in_loop w')
      × (at_exit true (main d (good_start memory fd) rounds) ≡ some (ok h))
      × ((p : Ptr) → h p ≡ none)
unfolding main clean_closing at_exit
main-handle_sigint d memory fd w rounds start good =
    let (cache, root, w', l, runs, r) = handle_client_requests-IsServer d fd w rounds start good in
    let (w'', deletes, empty) = delete_server_empty cache root w' l r in
    let (w0, inits, starts) = >>=-eq-ok (default_init_server (some fd)) _ start in
    let created : World = record { server = memory; heap = λ p. none } in
    let starting = λ (w : World). start_server d true true w in
    let looping = λ (w : World). call_inside (handle_client_requests rounds w) in_loop in
    let in_it : main d (good_start memory fd) rounds ≡ in_loop w' =
      ap
        (λ (o : Outcome World).
          call (some created) o (λ (w : World). call_inside (starting w) looping))
        inits
      ∙ ap (λ (o : Outcome World). call_inside o looping) starts
      ∙ ap (λ (o : Outcome World). call_inside o in_loop) runs in
    (w', w''.heap, in_it, ap (at_exit true) in_it ∙ ap some (>>=-ok _ deletes refl), empty)

-- If the handler of SIGINT can be installed, the memory that `malloc` finds for the server holds
-- a pointer to clients that is not NULL, and `socket` fails: `main` ends with that error while
-- the pointer to the main server leads to that memory. At exit the server is deleted, which is
-- not initialised: the descriptor that the memory holds is closed, and if that fails, the program
-- ends with the error of that call; if it succeeds, the pointer to clients is read, at which no
-- client is allocated, and the deletion faults.
pub main_no_socket :
    (d : Disk) (start : Start) (memory : Server) (rounds : List Round)
    → start.sigaction ≡ true
    → start.memory ≡ some memory
    → start.sockfd ≡ none
    → memory.clients ≢ null_ptr
    → (w : World) × (w.server ≡ memory)
      × (main d start rounds ≡ exited "socket() failed" (some w))
      × (at_exit true (main d start rounds) ≡ some fault)
      × (at_exit false (main d start rounds) ≡ some (exit "close() failed in disconnectServer()"))
unfolding main clean_closing at_exit delete_server disconnect_server delete_clients
    default_init_server load
main_no_socket d start memory rounds ok_ e none_ garbage =
    let w : World = record { server = memory; heap = λ p. none } in
    let exits : main d start rounds ≡ exited "socket() failed" (some w) = rw (ok_, e, none_) refl in
    (
      w,
      refl,
      exits,
      ap (at_exit true) exits ∙ ap some (ground (arith, garbage)),
      ap (at_exit false) exits,
    )
