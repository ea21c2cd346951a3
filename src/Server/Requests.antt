-- ===== src/Server/Requests.antt =====
-- src/server.c: reading from a client and processing its request.
pub mod Receive
pub mod Process
pub mod Reads
use ens_sysres_proj.Common.{
  ℕ, ◌+◌, ◌-◌, ◌^◌, Bool, true, false, Option, none, some, [], ◌∷◌, Bytes, Outcome, ok, ◌>>=◌, ◌>>◌,
  in_bounds, length, take, leb, ◌==◌, if◌then◌else◌, add_int, sub_int,
}
use ens_sysres_proj.Cache.{FileCache, create_empty_file_cache}
use ens_sysres_proj.Http.{HttpMessage}
use ens_sysres_proj.Http.Parse.{buffer_contains_full_http_header, parse_http_request}
use ens_sysres_proj.Http.Answer.{produce_http_answer_from_request}
use ens_sysres_proj.Http.Header.{overwrite, room, fill_http_answer_header_buffer}
use ens_sysres_proj.Server.{
  ClientState, waiting_for_request, processing_request, answering, Ptr, Client, ServParameters,
  World, load, save,
}
use ens_sysres_proj.Server.Clients.{remove_client_from_server}

-- The number of bytes that `read` is asked for.
abbrev pub read_size : ServParameters → Client → ℕ
read_size parameters c = room (sub_int parameters.request_buffer_size c.request_buffer_length) 1

-- The first lines of `readFromClient`, with what `read` returned: the bytes that have arrived, cut
-- to the number asked for, or -1. The result has that number as an `int`.
unfoldable pub receive : ServParameters → Client → Option Bytes → Outcome (Client × ℕ)
unfolding overwrite
receive parameters c none = do
  let n = 2 ^ 32 - 1
  buffer ← overwrite c.request_buffer (add_int c.request_buffer_offset n) (0 ∷ [])
  ok (
    record c { request_buffer = buffer; request_buffer_length = add_int c.request_buffer_length n },
    n,
  )
receive parameters c (some arrived) = do
  let chunk = take (read_size parameters c) arrived
  buffer ← overwrite c.request_buffer c.request_buffer_offset chunk
  buffer ← overwrite buffer (add_int c.request_buffer_offset (length chunk)) (0 ∷ [])
  ok (
    record c {
      request_buffer = buffer;
      request_buffer_length = add_int c.request_buffer_length (length chunk);
    },
    length chunk,
  )

-- `server->cache`. Before the server is started it is NULL, and a lookup in it faults, as one in a
-- cache without root does.
abbrev pub cache_of : Option FileCache → FileCache
cache_of none = create_empty_file_cache 0
cache_of (some cache) = cache

-- The steps of `processClientRequest` behind the test, on the client. The date is that of the answer.
unfoldable pub answer_client :
    (date : Bytes) → ServParameters → Option FileCache → Client → Outcome Client
answer_client date parameters cache c = do
  (request, code) ← parse_http_request c.request_buffer
  let request' = record request { header = record request.header { code = code } }
  answer ← produce_http_answer_from_request date request' (cache_of cache)
  (buffer, n) ←
      fill_http_answer_header_buffer answer c.answer_header_buffer
        parameters.answer_header_buffer_size
  ok (record c {
    http_request = request';
    http_answer = answer;
    answer_header_buffer = buffer;
    answer_header_buffer_length = n;
    answer_header_buffer_offset = 0;
    state = some answering;
  })

unfoldable pub process_client :
    (date : Bytes) → ServParameters → Option FileCache → Client → Outcome Client
unfolding answer_client
process_client date parameters cache c = do
  full ←
      buffer_contains_full_http_header c.request_buffer c.request_buffer_offset
        c.request_buffer_length
  if full
      then answer_client date parameters cache c
      else ok (record c { state = some waiting_for_request })

unfoldable pub process_client_request : (date : Bytes) → World → Ptr → Outcome World
unfolding process_client
process_client_request date w p = do
  c ← load w p
  c' ←
      process_client date w.server.parameters w.server.cache
        (record c { state = some processing_request })
  ok (save w p c')

-- The end of `readFromClient`.
unfoldable pub after_read : (date : Bytes) (nb_bytes_read : ℕ) → World → Ptr → Outcome World
unfolding process_client_request
after_read date n w p =
    if n == 0 then remove_client_from_server w p else process_client_request date w p

unfoldable pub read_from_client :
    (date : Bytes) (arrived : Option Bytes) → World → Ptr → Outcome World
unfolding receive after_read
read_from_client date arrived w p = do
  c ← load w p
  (c', n) ← receive w.server.parameters c arrived
  after_read date n (save w p c') p
