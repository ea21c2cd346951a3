-- ===== src/Cache/Mirror/Requests.antt =====
-- What the server answers to a request for a file of the disk.
use ens_sysres_proj.Common.{
  ℕ, ◌^◌, ◌<◌, ◌≤◌, ◌≡◌, sym, ◌∙◌, Option, none, some, List, Bytes, ok, length, Option-cases, inl,
  inr, subst,
}
use ens_sysres_proj.Cache.{File, Folder, FileCache, max_path_length}
use ens_sysres_proj.Cache.Disk.{Disk}
use ens_sysres_proj.Cache.Build.{build_cache_from_disk}
use ens_sysres_proj.Cache.Find.{find_file_in_cache}
use ens_sysres_proj.Cache.Find.Components.{components, collapse, find_components}
use ens_sysres_proj.Cache.Find.Refines.{find_file_in_cache-components}
use ens_sysres_proj.Cache.Mirror.{IsCopy, Mirrors, Reaches, HasPlainNames}
use ens_sysres_proj.Cache.Mirror.Build.{build_cache_from_disk-Mirrors}
use ens_sysres_proj.Cache.Mirror.Lookup.{last_of, find_components-Reaches, Reaches-found}
use ens_sysres_proj.Http.{http_get, http_head, http_v1_1}
use ens_sysres_proj.Http.Parse.RoundTrip.{IsWord, request_line}
use ens_sysres_proj.Http.Answer.Expected.{answer_for_file}
use ens_sysres_proj.Http.Answer.Laws.{answer_request, answer_request-request_line}

-- What is found for the names: a copy of the file that they lead to, and nothing exactly when they
-- lead to none.
pub data Serves (d : Disk) (root_path : Bytes) (names : List Bytes) : Option File → Type 0 where
  copy :
      {f : File} (q : Bytes) (size : ℕ)
      → Reaches d root_path names q size
      → IsCopy d q (last_of names) size f
      → Serves d root_path names (some f)
  missing :
      ((q : Bytes) (size : ℕ) → ¬ Reaches d root_path names q size) → Serves d root_path names none

module _ {d : Disk} (plain : HasPlainNames d) where
  find_components-Serves :
      {path : Bytes} {f : Folder} (names : List Bytes)
      → Mirrors d path f
      → Serves d path names (find_components f names)
  find_components-Serves {path} {f} names m = elim (Option-cases (find_components f names)) [
    | inl e ↦
        subst (Serves d path names) (sym e)
          (missing λ q size r. let (g, found, c) = Reaches-found plain m r in cc (sym e ∙ found))
    | inr (g, e) ↦
        let (q, size, r, c) = find_components-Reaches plain names m e in
        subst (Serves d path names) (sym e) (copy q size r c)
  ]

  module _ (root_path : Bytes) (max : ℕ) {cache : FileCache} (max_int : max < 2 ^ 31)
      (built : build_cache_from_disk d root_path max ≡ ok cache) where
    -- With a cache that was built with fewer than 2 ^ 31 bytes of space from a disk where no
    -- listed name has a slash, the lookup of any path of at most MAX_PATH_LENGTH bytes returns,
    -- without a fault. It finds a copy of a regular file of the disk that the components of the
    -- path, empty ones in front of the last one left out, lead to through names that the
    -- directories list and none of which is `.` or `..`; it finds nothing only if there is no
    -- such file.
    pub find_file_in_cache-Serves :
        (path : Bytes)
        → length path ≤ max_path_length
        → (found : Option File) × (find_file_in_cache cache path ≡ ok found)
          × Serves d root_path (collapse (components path)) found
    find_file_in_cache-Serves path short =
        let (root, e, m) = build_cache_from_disk-Mirrors d root_path max max_int built in
        let names = collapse (components path) in
        (
          find_components root names,
          find_file_in_cache-components cache root path e short,
          find_components-Serves names m,
        )

    -- With a cache that was built with fewer than 2 ^ 31 bytes of space from a disk where no
    -- listed name has a slash, and a GET or HEAD request for HTTP/1.1 with a target of 1 to 1024
    -- bytes without white space and NUL, spaces between the parts and a CR behind them: if there
    -- is a regular file of the disk that the components of the target lead to, through names that
    -- the directories list and none of which is `.` or `..`, then both are answered for a copy of
    -- such a file, made with its path, its size and its name. If there is none, both are answered
    -- with 404.
    pub answer_request-Serves :
        (date : Bytes) (a : ℕ) (target : Bytes) (b : ℕ) (rest : Bytes)
        → IsWord target
        → length target ≤ max_path_length
        → (found : Option File) × Serves d root_path (collapse (components target)) found
          × (answer_request date cache (request_line http_get a target b http_v1_1 rest)
              ≡ ok (answer_for_file date http_get found))
          × (answer_request date cache (request_line http_head a target b http_v1_1 rest)
              ≡ ok (answer_for_file date http_head found))
    answer_request-Serves date a target b rest word short =
        let (root, e, m) = build_cache_from_disk-Mirrors d root_path max max_int built in
        let names = collapse (components target) in
        (
          find_components root names,
          find_components-Serves names m,
          answer_request-request_line date cache root http_get a target b http_v1_1 rest e
              (record { not_unknown = λ c. cc; not_none = λ c. cc }) word (λ c. cc) short,
          answer_request-request_line date cache root http_head a target b http_v1_1 rest e
              (record { not_unknown = λ c. cc; not_none = λ c. cc }) word (λ c. cc) short,
        )
