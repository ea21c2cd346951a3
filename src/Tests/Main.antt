-- ===== src/Tests/Main.antt =====
-- The program from its start to its end.
use ens_sysres_proj.Common.{◌≡◌, refl, true, false, none, some, [], ◌∷◌, ok, exit, fault, arith}
use ens_sysres_proj.Server.{Ptr, Server, Heap, World}
use ens_sysres_proj.Server.Setup.{default_parameters}
use ens_sysres_proj.Main.{
  Start, good_start, in_loop, exited, main, at_exit, main-handle_sigint, main_no_socket,
}
use ens_sysres_proj.Tests.{small_disk}
use ens_sysres_proj.Tests.Rounds.{started, starts, accepts, reads, accepts-IsGoodRound, first_round}

-- What `malloc` may find for a server.
abbrev garbage : Server
garbage = record {
  sockfd = 77;
  is_started = true;
  clients = 4096;
  nb_clients = 12;
  cache = none;
  parameters = default_parameters;
}

main-handle_sigint_example :
    (w' : World) × (h : Heap) × (main small_disk (good_start garbage 3) (accepts ∷ reads ∷ [])
      ≡ in_loop w')
    × (at_exit true (main small_disk (good_start garbage 3) (accepts ∷ reads ∷ [])) ≡ some (ok h))
    × ((p : Ptr) → h p ≡ none)
main-handle_sigint_example =
    main-handle_sigint small_disk garbage 3 started (accepts ∷ reads ∷ []) starts
      (accepts-IsGoodRound, λ w e. (first_round w e, λ w' e'. tt))

abbrev no_socket : Start
no_socket = record (good_start garbage 3) { sockfd = none }

main_no_socket_example :
    (w : World) × (w.server ≡ garbage)
    × (main small_disk no_socket [] ≡ exited "socket() failed" (some w))
    × (at_exit true (main small_disk no_socket []) ≡ some fault)
    × (at_exit false (main small_disk no_socket [])
        ≡ some (exit "close() failed in disconnectServer()"))
main_no_socket_example = main_no_socket small_disk no_socket garbage [] refl refl refl (omega arith)
