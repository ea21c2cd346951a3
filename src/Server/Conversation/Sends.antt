-- ===== src/Server/Conversation/Sends.antt =====
-- The bytes that a client is sent for a request.
use ens_sysres_proj.Common.{
  ℕ, ◌+◌, ◌≤◌, ◌<◌, ◌^◌, ◌≡◌, refl, ap, sym, subst, ◌∙◌, ◌≢◌, Bool, true, false, Option, some, List,
  ◌∷◌, ◌++◌, Bytes, ok, ok-injective, arith, ◌==◌, if◌then◌else◌, length, length-append,
  length-take, take,
}
use ens_sysres_proj.Cache.{
  null, min_file_size_for_gzip, FileState, File, Folder, FileCache, live, loaded_raw,
  loaded_compressed, not_loaded, max_path_length,
}
use ens_sysres_proj.Cache.Disk.{regular, Disk}
use ens_sysres_proj.Cache.Build.{build_cache_from_disk}
use ens_sysres_proj.Cache.Find.{find_file_in_cache}
use ens_sysres_proj.Cache.Find.Components.{components, collapse, find_components}
use ens_sysres_proj.Cache.Mirror.{IsCopy, Reaches, here, below, HasPlainNames}
use ens_sysres_proj.Cache.Mirror.Lookup.{last_of}
use ens_sysres_proj.Cache.Mirror.Requests.{Serves, copy, find_file_in_cache-Serves}
use ens_sysres_proj.Cache.Mirror.Stores.{Stores, IsCopy-Stores}
use ens_sysres_proj.Cache.Content.Loops.{HasBytes, flatten}
use ens_sysres_proj.Http.{HttpMessage, http_get, http_v1_1}
use ens_sysres_proj.Http.Parse.{http_header_min_length}
use ens_sysres_proj.Http.Parse.RoundTrip.{IsWord, request_line}
use ens_sysres_proj.Http.Answer.Expected.{file_content, answer_for_file}
use ens_sysres_proj.Http.Answer.Laws.{answer_request, answer_request-request_line}
use ens_sysres_proj.Cache.Find.Refines.{find_file_in_cache-components}
use ens_sysres_proj.Http.Header.Text.{header_text}
use ens_sysres_proj.Server.{Ptr, null_ptr, Client, World, save}
use ens_sysres_proj.Server.Requests.{read_from_client}
use ens_sysres_proj.Server.Requests.Process.{IsAnswering}
use ens_sysres_proj.Server.Answers.{sent, Opened, write_to_client}
use ens_sysres_proj.Server.Answers.Bodies.{write_to_client_body}
use ens_sysres_proj.Server.Answers.Whole.{text_of, take_text, with_header_done}
use ens_sysres_proj.Server.Rounds.Good.{IsAnswering-IsSending}
use ens_sysres_proj.Server.Rounds.Valid.{IsServer}
use ens_sysres_proj.Server.Conversation.{blank_line, request_line-append, read_from_client-HasRead}

-- A body that is that of a file with this path and size.
pub data Sends (d : Disk) (q : Bytes) (size : ℕ) (body : Bytes) : Type 0 where
  raw_body :
      (bytes : Bytes)
      → size < min_file_size_for_gzip
      → d.content q ≡ some bytes
      → size ≤ length bytes
      → body ≡ take size bytes
      → Sends d q size body
  gzip_body :
      min_file_size_for_gzip ≤ size → body ≡ take size (flatten (d.gzip q)) → Sends d q size body

Stores-Sends :
    {d : Disk} {q : Bytes} {size : ℕ} {f : File}
    → Stores d q size f
    → f.state ≢ not_loaded
    → 1 ≤ f.size
    → (body : Bytes) × (f.content ≡ live body) × (length body ≡ f.size) × Sends d q size body
Stores-Sends (Stores.raw bytes small e le s c n _) loaded some_bytes =
    (take _ bytes, c, omega (arith, n, le, length-take _ bytes), raw_body bytes small e le refl)
Stores-Sends {d} {q} {size} (Stores.compressed large s c n _) loaded some_bytes =
    let out = take size (flatten (d.gzip q)) in
    let not_empty : (length out == 0) ≡ false = ground (arith, n) in
    (
      out,
      c ∙ ap (λ (b : Bool). if b then null else live out) not_empty,
      sym n,
      gzip_body large refl,
    )
Stores-Sends (Stores.left s _ _ _) loaded some_bytes = absurd (loaded s)

-- The answer for a loaded file has its content.
file_content-loaded :
    (s : FileState) (f : File)
    → s ≢ not_loaded
    → ((file_content s f).content_is_loaded ≡ true) × ((file_content s f).body ≡ f.content)
file_content-loaded not_loaded f h = absurd (h refl)
file_content-loaded loaded_raw f h = (refl, refl)
file_content-loaded loaded_compressed f h = (refl, refl)

answer_for_file-loaded :
    (date : Bytes) (f : File)
    → f.state ≢ not_loaded
    → let m = answer_for_file date http_get (some f) in
      (m.content.content_is_loaded ≡ true) × (m.content.body ≡ f.content)
answer_for_file-loaded date f h = file_content-loaded f.state f h

-- What is found is a copy.
Serves-some :
    {d : Disk} {path : Bytes} {names : List Bytes} {f : File}
    → Serves d path names (some f)
    → (q : Bytes) × (size : ℕ) × Reaches d path names q size × IsCopy d q (last_of names) size f
Serves-some (copy q size r c) = (q, size, r, c)

-- An entry that is reached is a regular file.
Reaches-stat :
    {d : Disk} {path : Bytes} {names : List Bytes} {q : Bytes} {size : ℕ}
    → Reaches d path names q size
    → d.stat q ≡ some (regular size)
Reaches-stat (here h) = h.is_entry.stat
Reaches-stat (below _ r) = Reaches-stat r

-- All that the header is sent.
module _ (date : Bytes) (cache : FileCache) (w' : World) (p : Ptr) (c' : Client) (f : File)
    (body : Bytes) (k j : ℕ) (o : Opened) (nonnull : p ≢ null_ptr) (at : w'.heap p ≡ some c')
    (is : IsAnswering date cache c')
    (answer : c'.http_answer ≡ answer_for_file date http_get (some f))
    (loaded : f.state ≢ not_loaded) (content : f.content ≡ live body) (some_bytes : 1 ≤ length body)
    (header_room : 2048 ≤ k) (body_room : length body ≤ j) where
  write_to_client-Sends :
      (w'' : World) × (write_to_client (sent k) o (sent j) w' p
        ≡ ok (w'', header_text (answer_for_file date http_get (some f)).header, body))
  write_to_client-Sends =
      let s = IsAnswering-IsSending date cache c' is in
      let (l, b) = answer_for_file-loaded date f loaded in
      let text_fits : length (text_of c') ≤ 2048 = omega (
        arith,
        ap length is.header.starts,
        is.header.size,
        length-append (text_of c') is.header.tail,
      ) in
      (
        _,
        write_to_client_body body j body_room o k some_bytes w' p c' nonnull at s (omega arith)
              (ap (λ (m : HttpMessage). m.content.content_is_loaded) answer ∙ l)
              (ap (λ (m : HttpMessage). m.content.body) answer ∙ b ∙ content)
            ∙ ap (λ (t : Bytes). ok (save w' p (with_header_done c'), t, body))
                (take_text c' is.offset ∙ ap (λ (m : HttpMessage). header_text m.header) answer),
      )

-- No file of the disk has a size that is no int, and the pieces that gzip writes are not empty.
pub record IsOrdinary (d : Disk) : Type 0 where
  pub plain : HasPlainNames d
  pub sizes : (q : Bytes) (size : ℕ) → d.stat q ≡ some (regular size) → size < 2 ^ 31
  pub pieces : (q : Bytes) → HasBytes (d.gzip q)

-- On a server as the rounds of the loop leave it, whose cache was built with fewer than 2 ^ 31
-- bytes of space from a disk where no listed name has a slash, files have fewer than 2 ^ 31
-- bytes, and gzip writes no empty piece: take a client that nothing was received from, and a GET
-- request for HTTP/1.1 with a target of 1 to 1024 bytes without white space and NUL, that has at
-- least 18 bytes, ends with a blank line and leaves at least two bytes of the buffer, where the
-- target is found in the cache as a file that is loaded and not empty, and the date has at most
-- 255 bytes. Reading the whole request from the client, and then writing to it, where the calls
-- take at least 2048 bytes of the header and the whole body, both return. The client is sent the
-- text of the header of the answer for that file, and the bytes of a regular file of the disk
-- that the components of the target lead to from the root directory through listed names: as many
-- of its bytes as its size says if that is less than 64, and else the output of gzip for it, cut
-- to that size.
pub conversation-Sends :
    (d : Disk) (root_path : Bytes) (max : ℕ) (cache : FileCache) (root : Folder) (w : World)
    (l : List Ptr) (p : Ptr) (c : Client) (date : Bytes) (a : ℕ) (target : Bytes) (b : ℕ)
    (rest front : Bytes) (f : File) (k j : ℕ) (o : Opened)
    → IsOrdinary d
    → max < 2 ^ 31
    → build_cache_from_disk d root_path max ≡ ok cache
    → IsServer cache root w l
    → p ≢ null_ptr
    → w.heap p ≡ some c
    → c.request_buffer_length ≡ 0
    → length date ≤ 255
    → IsWord target
    → length target ≤ max_path_length
    → request_line http_get a target b http_v1_1 rest ≡ front ++ blank_line
    → http_header_min_length ≤ length (front ++ blank_line)
    → length (front ++ blank_line) + 2 ≤ w.server.parameters.request_buffer_size
    → find_file_in_cache cache target ≡ ok (some f)
    → f.state ≢ not_loaded
    → 1 ≤ f.size
    → 2048 ≤ k
    → f.size ≤ j
    → (w' w'' : World) × (q : Bytes) × (size : ℕ) × (body : Bytes) × (read_from_client date
          (some (front ++ blank_line))
          w
          p
        ≡ ok w')
      × (write_to_client (sent k) o (sent j) w' p
          ≡ ok (w'', header_text (answer_for_file date http_get (some f)).header, body))
      × Reaches d root_path (collapse (components target)) q size
      × Sends d q size body
conversation-Sends d root_path max cache root w l p c date a target b rest front f k j o ordinary
      max_int built r nonnull at idle date_short word short shape long fits finds loaded some_bytes
      header_room body_room =
    let names = collapse (components target) in
    let (w', c', reads, has) =
      read_from_client-HasRead date cache root w l p c r nonnull at date_short idle front long
        fits in
    let (found, finds', serves) =
      find_file_in_cache-Serves ordinary.plain root_path max max_int built target short in
    let (q, size, reaches, is_copy) =
      Serves-some (subst (Serves d root_path names) (ok-injective (sym finds' ∙ finds)) serves) in
    let (body, content, n, sends) =
      Stores-Sends
        (IsCopy-Stores (ordinary.sizes q size (Reaches-stat reaches)) (ordinary.pieces q) is_copy)
        loaded some_bytes in
    let buffer : c'.request_buffer
        ≡ request_line http_get a target b http_v1_1 (rest ++ 0 ∷ has.rest) =
      has.buffer
      ∙ ap (λ (x : Bytes). x ++ 0 ∷ has.rest) (sym shape)
      ∙ request_line-append a target b rest (0 ∷ has.rest) in
    let answers =
      answer_request-request_line date cache root http_get a target b http_v1_1
        (rest ++ 0 ∷ has.rest) r.has_root (record { not_unknown = λ c. cc; not_none = λ c. cc })
        word (λ c. cc) short in
    let same : some f ≡ find_components root names =
      ok-injective (sym finds ∙ find_file_in_cache-components cache root target r.has_root short) in
    let answer : c'.http_answer ≡ answer_for_file date http_get (some f) = ok-injective (
      sym has.answering_is.answered
      ∙ ap (answer_request date cache) buffer
      ∙ answers
      ∙ ap (λ (x : Option File). ok (answer_for_file date http_get x)) (sym same)) in
    let (w'', writes) =
      write_to_client-Sends date cache w' p c' f body k j o nonnull has.updates.here
        has.answering_is answer loaded content (omega (arith, n)) header_room (omega (arith, n)) in
    (w', w'', q, size, body, reads, writes, reaches, sends)
