-- ===== src/Server/Answers.antt =====
-- src/server.c: writing the answer to a client.
pub mod Header
pub mod Content
pub mod Total
pub mod Whole
pub mod Bodies
use ens_sysres_proj.Common.{
  ℕ, ◌+◌, Bool, true, false, ◌&&◌, Option, none, some, [], ◌++◌, Bytes, Outcome, ok, exit, fault,
  ◌>>=◌, ◌>>◌, in_bounds, length, take, drop, leb, min, ◌==◌, if◌then◌else◌, add_int,
}
use ens_sysres_proj.Cache.{Buffer, null, live, freed}
use ens_sysres_proj.Http.{HttpMessage, HttpContent}
use ens_sysres_proj.Http.Header.{room}
use ens_sysres_proj.Server.{ClientState, waiting_for_request, Ptr, Client, World, load, save}
use ens_sysres_proj.Server.Clients.{remove_client_from_server}

-- What `write` or `sendfile` did: it took so many bytes, or all if that is more, or it returned -1,
-- with `errno` ECONNRESET or another one.
pub data Sent : Type 0 where
  sent : ℕ → Sent
  reset failed : Sent

-- What `open` gave: a descriptor, and the bytes of the file behind it.
abbrev pub Opened : Type 0
Opened = Option (ℕ × Bytes)

-- The world behind a call, what was sent to the client, and what the call returns.
abbrev pub Written : Type 0
Written = World × Bytes × Bool

-- The bytes that `write` takes of a buffer, when it is asked for `n` and takes `k`.
abbrev pub send_bytes : Bytes → (n k : ℕ) → Outcome Bytes
send_bytes buffer n k = do in_bounds (leb n (length buffer)); ok (take (min n k) buffer)

abbrev pub remove_and_fail : World → Ptr → Outcome Written
remove_and_fail w p = do w ← remove_client_from_server w p; ok (w, [], false)

unfoldable pub write_http_header_to_client : Sent → World → Ptr → Outcome Written
write_http_header_to_client (sent k) w p = do
  c ← load w p
  out ←
      send_bytes c.answer_header_buffer
        (room c.answer_header_buffer_length c.answer_header_buffer_offset) k
  let offset = add_int c.answer_header_buffer_offset (length out)
  ok (
    save w p (record c { answer_header_buffer_offset = offset }),
    out,
    offset == c.answer_header_buffer_length,
  )
write_http_header_to_client reset w p = remove_and_fail w p
write_http_header_to_client failed w p = do
  _ ← load w p
  exit "write() failed in writeHttpHeaderToClient()"

-- The case of a content that is loaded. The number of bytes sent is forgotten.
unfoldable pub write_loaded_content : Sent → World → Ptr → HttpContent → Buffer → Outcome Written
write_loaded_content s w p content null = ok (w, [], true)
write_loaded_content s w p content freed = fault
write_loaded_content (sent k) w p content (live bytes) = do
  out ← send_bytes bytes (room content.length content.offset) k
  ok (w, out, content.offset == content.length)
write_loaded_content reset w p content (live bytes) = remove_and_fail w p
write_loaded_content failed w p content (live bytes) =
    exit "write() failed in writeHttpContentToClient()"

abbrev pub set_content : Client → HttpContent → Client
set_content c content = record c { http_answer = record c.http_answer { content = content } }

-- The steps behind a `sendfile` that did not fail, with the bytes that it sent.
unfoldable pub after_sendfile : World → Ptr → Client → (fd : ℕ) → (out : Bytes) → Outcome Written
after_sendfile w p c fd out =
    let content = record c.http_answer.content {
      file_fd = some fd;
      file_offset = c.http_answer.content.file_offset + length out;
    } in
    if c.answer_header_buffer_offset == c.answer_header_buffer_length
    then (do w ← remove_client_from_server (save w p (set_content c content)) p; ok (w, out, false))
    else ok (
      save w p (set_content c (record content { offset = add_int content.offset (length out) })),
      out,
      c.answer_header_buffer_offset == c.answer_header_buffer_length,
    )

-- The case of a content that is sent from a file.
unfoldable pub write_unloaded_content :
    Opened → Sent → World → Ptr → Client → Option Bytes → Outcome Written
unfolding after_sendfile
write_unloaded_content o s w p c none = ok (w, [], true)
write_unloaded_content none s w p c (some path) = exit "open() failed in writeHttpContentToClient()"
write_unloaded_content (some (fd, bytes)) (sent k) w p c (some path) =
    let content = c.http_answer.content in
    after_sendfile w p c fd
      (take (min (room content.length content.offset) k) (drop content.file_offset bytes))
write_unloaded_content (some (fd, bytes)) reset w p c (some path) = remove_and_fail w p
write_unloaded_content (some (fd, bytes)) failed w p c (some path) =
    exit "write() failed in writeHttpContentToClient()"

unfoldable pub write_http_content_to_client : Opened → Sent → World → Ptr → Outcome Written
unfolding write_loaded_content write_unloaded_content
write_http_content_to_client o s w p = do
  c ← load w p
  let content = c.http_answer.content
  if content.content_is_loaded
      then write_loaded_content s w p content content.body
      else write_unloaded_content o s w p c content.file_path

-- The end of `writeToClient`.
unfoldable pub finish_answer : (is_sent : Bool) → World → Ptr → Outcome World
finish_answer true w p = do
  c ← load w p
  ok (save w p (record c { state = some waiting_for_request }))
finish_answer false w p = ok w

-- The body is written only if the header was.
unfoldable pub write_rest_to_client :
    (header_is_sent : Bool) → Opened → Sent → World → Ptr → Outcome Written
unfolding write_http_content_to_client
write_rest_to_client true o s w p = write_http_content_to_client o s w p
write_rest_to_client false o s w p = ok (w, [], false)

-- The result has what was sent: of the header, then of the body.
unfoldable pub write_to_client :
    (header : Sent) → Opened → (body : Sent) → World → Ptr → Outcome (World × Bytes × Bytes)
unfolding write_http_header_to_client write_rest_to_client finish_answer
write_to_client h o s w p = do
  (w, head, header_is_sent) ← write_http_header_to_client h w p
  (w, body, body_is_sent) ← write_rest_to_client header_is_sent o s w p
  w ← finish_answer (header_is_sent && body_is_sent) w p
  ok (w, head, body)
