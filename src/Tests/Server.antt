-- ===== src/Tests/Server.antt =====
-- Clients of a small server: their list, and reading from one.
use ens_sysres_proj.Common.{
  ℕ, ◌≡◌, refl, ◌≢◌, sym, subst, true, none, some, [], ◌∷◌, Bytes, codes, ok, arith,
}
use ens_sysres_proj.Cache.Sizes.{IsBuilt}
use ens_sysres_proj.Cache.Build.Space.{build_cache_from_disk-IsBuilt}
use ens_sysres_proj.Http.{init_request_http_message}
use ens_sysres_proj.Server.{
  waiting_for_request, Ptr, Client, ServParameters, Server, Heap, World, write,
}
use ens_sysres_proj.Server.Clients.{add_client_to_server, remove_client_from_server}
use ens_sysres_proj.Server.Clients.Refines.{
  Represents, Keeps, settings, add_client_to_server-Represents,
}
use ens_sysres_proj.Server.Clients.Removal.{remove_client_from_server-Represents}
use ens_sysres_proj.Server.Clients.Updates.{Updates}
use ens_sysres_proj.Server.Requests.{read_from_client}
use ens_sysres_proj.Server.Requests.Receive.{IsReading, with_chunk}
use ens_sysres_proj.Server.Requests.Process.{IsServing, Processed}
use ens_sysres_proj.Server.Requests.Reads.{read_from_client-Processed}
use ens_sysres_proj.Tests.{repeat, length-repeat, www, small_disk, small_root, small_cache}
use ens_sysres_proj.Tests.Cache.{small_disk-small_cache}
use ens_sysres_proj.Tests.Http.{today}

abbrev pub small_parameters : ServParameters
small_parameters = record {
  queue_max_length = 5;
  max_nb_clients = 3;
  request_buffer_size = 64;
  answer_header_buffer_size = 2048;
  root_data_directory = www;
  cache_max_size = 100;
}

-- A client that waits, with these links.
abbrev pub waiting : (before after : Ptr) → Client
waiting before after = record {
  fd = 7;
  previous = before;
  next = after;
  state = some waiting_for_request;
  request_buffer = repeat 64;
  request_buffer_length = 0;
  request_buffer_offset = 0;
  http_request = init_request_http_message;
  answer_header_buffer = repeat 2048;
  answer_header_buffer_length = 0;
  answer_header_buffer_offset = 0;
  http_answer = init_request_http_message;
}

abbrev pub serving : Ptr → ℕ → Server
serving first n = record {
  sockfd = 3;
  is_started = true;
  clients = first;
  nb_clients = n;
  cache = some small_cache;
  parameters = small_parameters;
}

-- Three addresses, of which the first one has no links yet.
abbrev three_heap : (c1 c2 c3 : Client) → Heap
three_heap c1 c2 c3 = write (write (write (λ p. none) 1 (some c1)) 2 (some c2)) 3 (some c3)

abbrev two_clients : World
two_clients = record {
  server = serving 2 2;
  heap = three_heap (waiting 0 0) (waiting 0 3) (waiting 2 0);
}

abbrev three_clients : World
three_clients = record {
  server = serving 1 3;
  heap = three_heap (waiting 0 2) (waiting 1 3) (waiting 2 0);
}

two_clients-Represents : Represents two_clients (2 ∷ 3 ∷ [])
two_clients-Represents = record {
  first = refl;
  chain = (omega arith, (_, refl, refl, refl), (omega arith, (_, refl, refl, refl), tt));
  distinct = ((omega arith, tt), (tt, tt));
  count = refl;
}

three_clients-Represents : Represents three_clients (1 ∷ 2 ∷ 3 ∷ [])
three_clients-Represents = record {
  first = refl;
  chain = (
    omega arith,
    (_, refl, refl, refl),
    (omega arith, (_, refl, refl, refl), (omega arith, (_, refl, refl, refl), tt)),
  );
  distinct = ((omega arith, (omega arith, tt)), ((omega arith, tt), (tt, tt)));
  count = refl;
}

add_client_to_server-Represents_example :
    (w' : World) × (add_client_to_server two_clients 1 ≡ ok w')
    × Represents w' (1 ∷ 2 ∷ 3 ∷ [])
    × ((q : Ptr) → Keeps two_clients w' q)
    × (settings w' ≡ settings two_clients)
add_client_to_server-Represents_example =
    add_client_to_server-Represents two_clients (2 ∷ 3 ∷ []) 1 (waiting 0 0) two_clients-Represents
      (omega arith) (omega arith, (omega arith, tt)) refl (omega arith)

remove_client_from_server-Represents_example :
    (w' : World) × (remove_client_from_server three_clients 2 ≡ ok w')
    × Represents w' (1 ∷ 3 ∷ [])
    × (w'.heap 2 ≡ none)
    × ((q : Ptr) → q ≢ 2 → Keeps three_clients w' q)
    × (settings w' ≡ settings three_clients)
remove_client_from_server-Represents_example =
    remove_client_from_server-Represents three_clients (1 ∷ []) 2 (3 ∷ []) three_clients-Represents
      (omega arith)

pub waiting-IsReading : (before after : Ptr) → IsReading small_parameters (waiting before after)
waiting-IsReading before after = record {
  size_int = omega arith;
  size = length-repeat 64;
  received = omega arith;
  offset = refl;
}

pub small_root-IsBuilt : IsBuilt small_root
small_root-IsBuilt =
    let (root, e, built, _, _, _) =
      build_cache_from_disk-IsBuilt small_disk www 100 (omega arith) small_disk-small_cache in
    let same : small_root ≡ root = cc in subst IsBuilt (sym same) built

small-IsServing : IsServing today small_parameters small_cache small_root
small-IsServing = record {
  has_root = refl;
  built = small_root-IsBuilt;
  date_short = omega arith;
  header_size = refl;
}

abbrev request_b : Bytes
request_b = codes "GET /sub/b HTTP/1.1\r\n\r\n"

read_from_client-Processed_example :
    (w' : World) × (c' : Client) × (read_from_client today (some request_b) three_clients 2 ≡ ok w')
    × Updates three_clients w' 2 c'
    × Processed today small_cache (with_chunk (waiting 1 3) request_b) c'
read_from_client-Processed_example =
    read_from_client-Processed today small_cache small_root three_clients 2 (waiting 1 3) request_b
      (omega arith) refl refl small-IsServing (waiting-IsReading 1 3) (length-repeat 2048)
      (omega arith) (omega arith)
