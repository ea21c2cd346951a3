-- ===== src/Http/Answer/Fits.antt =====
-- The headers of the answers that the server gives fit in its buffer.
use ens_sysres_proj.Common.{
  ℕ, ◌≤◌, ◌<◌, ◌^◌, ◌≡◌, sym, subst, ◌∙◌, some, ◌++◌, Bytes, ok, ok-injective, arith, length,
}
use ens_sysres_proj.Cache.{Folder, File, FileEncoding, encoding_gzip, encoding_none, FileCache}
use ens_sysres_proj.Cache.Disk.{Disk}
use ens_sysres_proj.Cache.Sizes.{IsFresh, IsBuilt}
use ens_sysres_proj.Cache.Build.{build_cache_from_disk}
use ens_sysres_proj.Cache.Build.Space.{build_cache_from_disk-IsBuilt}
use ens_sysres_proj.Http.{HttpMethod, HttpCode, HttpMessage}
use ens_sysres_proj.Http.Parse.Safe.{IsTerminated}
use ens_sysres_proj.Http.Answer.Expected.{error_message, encoding_text, answer_for_file}
use ens_sysres_proj.Http.Answer.Laws.{answer_request}
use ens_sysres_proj.Http.Answer.Safe.{answer_request-IsAnswer, IsAnswer-elim}
use ens_sysres_proj.Http.Header.{fill_http_answer_header_buffer}
use ens_sysres_proj.Http.Header.Text.{header_text}
use ens_sysres_proj.Http.Header.Bounds.{HasShortFields, fill_http_answer_header_buffer-fits}

length-encoding_text : (e : FileEncoding) → length (encoding_text e) ≤ 255
length-encoding_text encoding_gzip = omega arith
length-encoding_text encoding_none = omega arith

error-HasShortFields :
    (date : Bytes) (c : HttpCode) → length date ≤ 255 → HasShortFields (error_message date c).header
error-HasShortFields date c short = record {
  content_type = tt;
  content_encoding = tt;
  date = short;
  server = omega arith;
}

answer_for_file-HasShortFields :
    (date : Bytes) (m : HttpMethod) (file : File)
    → length date ≤ 255
    → IsFresh file
    → HasShortFields (answer_for_file date m (some file)).header
answer_for_file-HasShortFields date m file short fresh = record {
  content_type = fresh.mime_short;
  content_encoding = length-encoding_text file.encoding;
  date = short;
  server = omega arith;
}

pub answer_request-HasShortFields :
    (date : Bytes) (cache : FileCache) (root : Folder) (request : Bytes) {answer : HttpMessage}
    → cache.root ≡ some root
    → IsBuilt root
    → IsTerminated request
    → length date ≤ 255
    → answer_request date cache request ≡ ok answer
    → HasShortFields answer.header
answer_request-HasShortFields date cache root request e built t short made =
    let (answer', made', is) = answer_request-IsAnswer date cache root request e t in
    let P : HttpMessage → Type 0 = λ a. HasShortFields a.header in
    subst P (ok-injective (sym made' ∙ made)) (
      IsAnswer-elim P date root built (λ c. error-HasShortFields date c short)
        (λ m file fresh. answer_for_file-HasShortFields date m file short fresh) is)

-- With a cache that was built from a disk with fewer than 2 ^ 31 bytes of space, a request buffer
-- with a NUL and one more byte behind it, and a date of at most 255 bytes: the header of the
-- answer fits in a buffer of 2048 bytes, which is the size that the server allocates. Filling
-- that buffer succeeds, it keeps its size and begins with the whole text of the header, and the
-- number returned is the length of that text.
pub answer_request-fits :
    (d : Disk) (root_path : Bytes) (max : ℕ) (date : Bytes) (request buffer : Bytes)
    {cache : FileCache} {answer : HttpMessage}
    → max < 2 ^ 31
    → build_cache_from_disk d root_path max ≡ ok cache
    → IsTerminated request
    → length date ≤ 255
    → answer_request date cache request ≡ ok answer
    → length buffer ≡ 2048
    → (buffer' : Bytes) × (tail : Bytes) × (fill_http_answer_header_buffer answer buffer
          (length buffer)
        ≡ ok (buffer', length (header_text answer.header)))
      × (buffer' ≡ header_text answer.header ++ tail)
      × (length buffer' ≡ length buffer)
answer_request-fits d root_path max date request buffer {cache} {answer} small built t short made
      size =
    let (root, e, is_built, _, _, _) = build_cache_from_disk-IsBuilt d root_path max small built in
    fill_http_answer_header_buffer-fits answer buffer size
      (answer_request-HasShortFields date cache root request e is_built t short made)
