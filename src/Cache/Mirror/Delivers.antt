-- ===== src/Cache/Mirror/Delivers.antt =====
-- What an answer carries of a file of the disk.
use ens_sysres_proj.Cache.Mirror.Stores.{buffer_of, Stores, IsCopy-Stores}
use ens_sysres_proj.Common.{
  codes, ℕ, Option, length, ◌^◌, ◌<◌, ◌≤◌, ◌≡◌, refl, sym, ap, ◌∙◌, true, false, some, Bytes, ok,
  take,
}
use ens_sysres_proj.Cache.{
  File, FileCache, max_path_length, live, FileState, FileEncoding, loaded_raw, loaded_compressed,
  not_loaded, min_file_size_for_gzip,
}
use ens_sysres_proj.Cache.Disk.{Disk}
use ens_sysres_proj.Cache.Content.Loops.{HasBytes, flatten}
use ens_sysres_proj.Cache.Mirror.{Reaches, HasPlainNames}
use ens_sysres_proj.Cache.Mirror.Build.{build_cache_from_disk-Mirrors}
use ens_sysres_proj.Cache.Mirror.Lookup.{Reaches-found}
use ens_sysres_proj.Cache.Build.{build_cache_from_disk}
use ens_sysres_proj.Cache.Find.Components.{components, collapse}
use ens_sysres_proj.Http.Parse.RoundTrip.{IsWord, request_line}
use ens_sysres_proj.Http.{HttpMessage, http_get, http_200, http_v1_1}
use ens_sysres_proj.Http.Answer.Expected.{encoding_text, file_content, answer_for_file}
use ens_sysres_proj.Http.Answer.Laws.{answer_request, answer_request-request_line}

-- What an answer says and carries of a file with this path and size.
pub data Delivers (d : Disk) (q : Bytes) (size : ℕ) (m : HttpMessage) : Type 0 where
  raw :
      (bytes : Bytes)
      → size < min_file_size_for_gzip
      → d.content q ≡ some bytes
      → size ≤ length bytes
      → m.content.content_is_loaded ≡ true
      → m.content.body ≡ live (take size bytes)
      → m.content.length ≡ size
      → m.header.content_encoding ≡ some (codes "identity")
      → Delivers d q size m
  compressed :
      min_file_size_for_gzip ≤ size
      → m.content.content_is_loaded ≡ true
      → m.content.body ≡ buffer_of (take size (flatten (d.gzip q)))
      → m.content.length ≡ length (take size (flatten (d.gzip q)))
      → m.header.content_encoding ≡ some (codes "gzip")
      → Delivers d q size m
  from_disk :
      m.content.content_is_loaded ≡ false
      → m.content.file_path ≡ some q
      → m.content.length ≡ size
      → m.header.content_encoding ≡ some (codes "identity")
      → Delivers d q size m

file_content-raw :
    (s : FileState) (f : File)
    → s ≡ loaded_raw
    → (let b = file_content s f in
        (b.content_is_loaded ≡ true) × (b.body ≡ f.content) × (b.length ≡ f.size))
file_content-raw loaded_raw f e = (refl, refl, refl)
file_content-raw not_loaded f e = cc
file_content-raw loaded_compressed f e = cc

file_content-compressed :
    (s : FileState) (f : File)
    → s ≡ loaded_compressed
    → (let b = file_content s f in
        (b.content_is_loaded ≡ true) × (b.body ≡ f.content) × (b.length ≡ f.size))
file_content-compressed loaded_compressed f e = (refl, refl, refl)
file_content-compressed not_loaded f e = cc
file_content-compressed loaded_raw f e = cc

file_content-left :
    (s : FileState) (f : File)
    → s ≡ not_loaded
    → (let b = file_content s f in
        (b.content_is_loaded ≡ false) × (b.file_path ≡ some f.path) × (b.length ≡ f.size))
file_content-left not_loaded f e = (refl, refl, refl)
file_content-left loaded_raw f e = cc
file_content-left loaded_compressed f e = cc

answer_for_file-Delivers :
    {d : Disk} {q : Bytes} {size : ℕ} {f : File} (date : Bytes)
    → Stores d q size f
    → Delivers d q size (answer_for_file date http_get (some f))
      × ((answer_for_file date http_get (some f)).header.content_length
          ≡ (answer_for_file date http_get (some f)).content.length)
answer_for_file-Delivers {f = f} date (Stores.raw bytes lt e le s c n k) =
    let (l, b, size) = file_content-raw f.state f s in
    (
      raw bytes lt e le l (b ∙ c) (size ∙ n) (ap (λ (x : FileEncoding). some (encoding_text x)) k),
      sym size,
    )
answer_for_file-Delivers {f = f} date (Stores.compressed le s c n k) =
    let (l, b, size) = file_content-compressed f.state f s in
    (
      compressed le l (b ∙ c) (size ∙ n) (ap (λ (x : FileEncoding). some (encoding_text x)) k),
      sym size,
    )
answer_for_file-Delivers {f = f} date (Stores.left s p n k) =
    let (l, b, size) = file_content-left f.state f s in
    (
      from_disk l (b ∙ ap some p) (size ∙ n) (ap (λ (x : FileEncoding). some (encoding_text x)) k),
      sym size,
    )

-- With a cache that was built with fewer than 2 ^ 31 bytes of space from a disk where no listed
-- name has a slash: a GET request for HTTP/1.1, with a target of 1 to 1024 bytes without white
-- space and NUL whose components lead to a regular file of fewer than 2 ^ 31 bytes, for which
-- gzip writes no empty piece, is answered with 200 and with the length of the content in the
-- header. Either the file has fewer than 64 bytes, and the body in memory is as many of its bytes
-- as its size says, marked as not encoded; or it has 64 or more, and the body is the output of
-- gzip cut to its size, which is NULL if that is empty, marked as gzip; or the content is not in
-- memory, and the answer has the path of the file and its size, marked as not encoded.
pub answer_request-Delivers :
    {d : Disk} (root_path : Bytes) (max : ℕ) {cache : FileCache} (date : Bytes) (a : ℕ)
    (target : Bytes) (b : ℕ) (rest : Bytes) (q : Bytes) (size : ℕ)
    → HasPlainNames d
    → max < 2 ^ 31
    → build_cache_from_disk d root_path max ≡ ok cache
    → IsWord target
    → length target ≤ max_path_length
    → Reaches d root_path (collapse (components target)) q size
    → size < 2 ^ 31
    → HasBytes (d.gzip q)
    → (m : HttpMessage) × (answer_request date cache
          (request_line http_get a target b http_v1_1 rest)
        ≡ ok m)
      × (m.header.code ≡ http_200)
      × (m.header.content_length ≡ m.content.length)
      × Delivers d q size m
answer_request-Delivers {d} root_path max {cache} date a target b rest q size plain max_int built
      word short r int pieces =
    let (root, e, m) = build_cache_from_disk-Mirrors d root_path max max_int built in
    let (f, found, c) = Reaches-found plain m r in
    let (delivers, same) = answer_for_file-Delivers date (IsCopy-Stores int pieces c) in
    (
      answer_for_file date http_get (some f),
      answer_request-request_line date cache root http_get a target b http_v1_1 rest e
            (record { not_unknown = λ c. cc; not_none = λ c. cc }) word (λ c. cc) short
          ∙ ap (λ (o : Option File). ok (answer_for_file date http_get o)) found,
      code date f,
      same,
      delivers,
    )
  where
    code :
        (date : Bytes) (f : File) → (answer_for_file date http_get (some f)).header.code ≡ http_200
    code date f = refl
