-- ===== src/Server/Setup.antt =====
-- src/server.h, src/server.c, src/main.c: the server's default parameters, and its start.
use ens_sysres_proj.Common.{
  ℕ, Bool, true, false, Option, none, some, Bytes, codes, Outcome, ok, exit, ◌>>=◌, ◌>>◌, or_exit,
  if◌then◌else◌,
}
use ens_sysres_proj.Cache.Disk.{Disk}
use ens_sysres_proj.Cache.Build.{build_cache_from_disk}
use ens_sysres_proj.Server.{
  ClientState, waiting_for_request, processing_request, answering, null_ptr, ServParameters, Server,
  World, server_is_started,
}

abbrev pub get_client_state_as_string : Option ClientState → Bytes
get_client_state_as_string none = codes "UNKNOWN"
get_client_state_as_string (some waiting_for_request) = codes "WAITING_FOR_REQUEST"
get_client_state_as_string (some processing_request) = codes "PROCESSING_REQUEST"
get_client_state_as_string (some answering) = codes "ANSWERING"

abbrev pub init_server : (sockfd : ℕ) → ServParameters → Server
init_server sockfd parameters = record {
  sockfd = sockfd;
  is_started = false;
  clients = null_ptr;
  nb_clients = 0;
  cache = none;
  parameters = parameters;
}

abbrev pub default_parameters : ServParameters
default_parameters = record {
  queue_max_length = 5;
  max_nb_clients = 64;
  request_buffer_size = 16384;
  answer_header_buffer_size = 2048;
  root_data_directory = codes "./www";
  cache_max_size = 3200000;
}

-- With the descriptor that `socket` gave. No client is allocated then.
unfoldable pub default_init_server : (sockfd : Option ℕ) → Outcome World
default_init_server sockfd = do
  fd ← or_exit sockfd "socket() failed"
  ok (record { server = init_server fd default_parameters; heap = λ p. none })

-- The two calls, by whether they succeed.
abbrev pub bind_web_socket : Bool → Outcome (Unit {0})
bind_web_socket true = ok tt
bind_web_socket false = exit "bind() failed"

abbrev pub listen_web_socket : Bool → Outcome (Unit {0})
listen_web_socket true = ok tt
listen_web_socket false = exit "listen() failed"

unfoldable pub start_server : Disk → (is_bound is_listening : Bool) → World → Outcome World
start_server d is_bound is_listening w =
    if server_is_started w then exit "startServer() failed: server is already started" else do
      let parameters = w.server.parameters
      cache ← build_cache_from_disk d parameters.root_data_directory parameters.cache_max_size
      bind_web_socket is_bound
      listen_web_socket is_listening
      ok (record w { server = record w.server { cache = some cache; is_started = true } })
