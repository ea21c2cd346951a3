-- ===== src/Server/Requests/Reads.antt =====
-- One read from a client, up to the answer that it may lead to.
use ens_sysres_proj.Common.{
  suc, ◌+◌, ◌-◌, ◌≤◌, ◌≡◌, refl, ap, ◌∙◌, inl, inr, Bool, false, Option, some, [], ◌∷◌, ◌++◌, Bytes,
  ok, >>=-ok, arith, length, length-append, length-drop, drop, take, length-take, ◌≢◌, ◌==◌,
  Bool-cases, if◌then◌else◌,
}
use ens_sysres_proj.Cache.{FileCache, Folder}
use ens_sysres_proj.Http.Parse.Safe.{IsTerminated}
use ens_sysres_proj.Server.{processing_request, null_ptr, save, Client, World, Ptr}
use ens_sysres_proj.Server.Requests.{
  process_client, process_client_request, after_read, read_from_client,
}
use ens_sysres_proj.Server.Clients.{remove_client_from_server}
use ens_sysres_proj.Server.Clients.Updates.{Updates, Updates-save, Updates-trans}
use ens_sysres_proj.Server.Clients.Refines.{load-some, write_self}
use ens_sysres_proj.Server.Requests.Receive.{IsReading, with_chunk, receive-with_chunk}
use ens_sysres_proj.Server.Requests.Process.{IsServing, Processed, process_client_in_state}

chunk-IsTerminated : (chunk rest : Bytes) → 1 ≤ length rest → IsTerminated (chunk ++ 0 ∷ rest)
chunk-IsTerminated [] rest more = inl (refl, more)
chunk-IsTerminated (b ∷ chunk) rest more = elim (Bool-cases (b == 0)) [
  | inl e ↦ inl (ground arith, omega (arith, length-append chunk (0 ∷ rest)))
  | inr e ↦ inr (ground arith, chunk-IsTerminated chunk rest more)
]

process_client_request-Processed :
    (date : Bytes) (cache : FileCache) (root : Folder) (w : World) (p : Ptr) (c : Client)
    → p ≢ null_ptr
    → w.heap p ≡ some c
    → w.server.cache ≡ some cache
    → IsServing date w.server.parameters cache root
    → length c.answer_header_buffer ≡ 2048
    → IsTerminated c.request_buffer
    → c.request_buffer_offset ≡ 0
    → c.request_buffer_length ≤ length c.request_buffer
    → (w' : World) × (c' : Client) × (process_client_request date w p ≡ ok w')
      × Updates w w' p c'
      × Processed date cache c c'
unfolding process_client_request
process_client_request-Processed date cache root w p c nonnull e has_cache s size t start fits =
    let (c', runs, is) =
      process_client_in_state date w.server.parameters cache root c s size t start fits in
    (
      save w p c',
      c',
      >>=-ok _ (load-some w p nonnull e) (
          >>=-ok _
            (ap
                (λ (k : Option FileCache).
                  process_client date w.server.parameters k
                    (record c { state = some processing_request }))
                has_cache
              ∙ runs)
            refl),
      Updates-save w p _,
      is,
    )

-- For a client with buffers of the right sizes, with the answers' header buffer of 2048 bytes,
-- less of a request than its buffer holds and the offset 0, on a server with a built cache and a
-- date of at most 255 bytes, where at least one byte arrives and the bytes taken leave at least
-- two bytes of the buffer: reading from it returns. Only that client changes: its buffer begins
-- with the bytes taken, whatever it held before, and a NUL. If the search for the end of the
-- header then returns false, the client waits for a request again; if it returns true, the client
-- is being answered, with the answer for the buffer, the whole text of its header in the buffer
-- for it, and nothing of it sent.
pub read_from_client-Processed :
    (date : Bytes) (cache : FileCache) (root : Folder) (w : World) (p : Ptr) (c : Client)
    (arrived : Bytes)
    → p ≢ null_ptr
    → w.heap p ≡ some c
    → w.server.cache ≡ some cache
    → IsServing date w.server.parameters cache root
    → IsReading w.server.parameters c
    → length c.answer_header_buffer ≡ 2048
    → let chunk =
        take (w.server.parameters.request_buffer_size - c.request_buffer_length - 1) arrived in
      1 ≤ length chunk
      → length chunk + 2 ≤ w.server.parameters.request_buffer_size
      → (w' : World) × (c' : Client) × (read_from_client date (some arrived) w p ≡ ok w')
        × Updates w w' p c'
        × Processed date cache (with_chunk c chunk) c'
unfolding read_from_client after_read
read_from_client-Processed date cache root w p c arrived nonnull e has_cache s r size some_bytes
      fits =
    let room = w.server.parameters.request_buffer_size - c.request_buffer_length - 1 in
    let chunk = take room arrived in
    let rest = drop (suc (length chunk)) c.request_buffer in
    let w1 = save w p (with_chunk c chunk) in
    let left : 1 ≤ length rest =
      omega (arith, r.size, length-drop (suc (length chunk)) c.request_buffer) in
    let (w', c', runs, u, is) =
      process_client_request-Processed date cache root w1 p (with_chunk c chunk) nonnull
        (write_self w.heap p _) has_cache s size (chunk-IsTerminated chunk rest left) r.offset
        (omega (
          arith,
          r.size,
          r.received,
          length-take room arrived,
          length-append chunk (0 ∷ rest),
          length-drop (suc (length chunk)) c.request_buffer,
        )) in
    let not_empty : (length chunk == 0) ≡ false = ground arith in
    (
      w',
      c',
      >>=-ok _ (load-some w p nonnull e) (
          >>=-ok _ (receive-with_chunk w.server.parameters c arrived r) (
            ap
              (λ (b : Bool).
                if b then remove_client_from_server w1 p else process_client_request date w1 p)
              not_empty
            ∙ runs)),
      Updates-trans w w1 w' p _ c' (Updates-save w p _) u,
      is,
    )
