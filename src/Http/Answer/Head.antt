-- ===== src/Http/Answer/Head.antt =====
-- HEAD against GET.
use ens_sysres_proj.Common.{ℕ, ◌≡◌, ◌≢◌, ◌≤◌, refl, Option, none, some, Bytes, ok, length}
use ens_sysres_proj.Cache.{File, Folder, FileCache, max_path_length}
use ens_sysres_proj.Cache.Find.Components.{components, collapse, find_components}
use ens_sysres_proj.Http.{
  HttpVersion, http_v1_1, http_unknown_version, http_get, http_head, HttpMessage,
  init_empty_http_content,
}
use ens_sysres_proj.Http.Parse.RoundTrip.{IsWord, request_line}
use ens_sysres_proj.Http.Answer.Expected.{answer_for}
use ens_sysres_proj.Http.Answer.Laws.{answer_request, answer_request-request_line}

answer_by_head :
    (date : Bytes) (v : HttpVersion) (found : Option File)
    → ((answer_for date v http_head found).header ≡ (answer_for date v http_get found).header)
      × ((answer_for date v http_head found).content ≡ init_empty_http_content)
answer_by_head date http_v1_1 none = (refl, refl)
answer_by_head date http_v1_1 (some file) = (refl, refl)
answer_by_head date _ found = (refl, refl)

-- For a cache that has a root, a target of 1 to 1024 bytes without white space and NUL, and a
-- known version, with one or more spaces between the parts and a CR behind them: GET and HEAD
-- both get an answer, the two answers have the same header, and the one to HEAD has an empty
-- content.
pub answer_request-head :
    (date : Bytes) (cache : FileCache) (root : Folder) (a : ℕ) (target : Bytes) (b : ℕ)
    (v : HttpVersion) (rest : Bytes)
    → cache.root ≡ some root
    → IsWord target
    → v ≢ http_unknown_version
    → length target ≤ max_path_length
    → (get : HttpMessage) × (head : HttpMessage) × (answer_request date cache
          (request_line http_get a target b v rest)
        ≡ ok get)
      × (answer_request date cache (request_line http_head a target b v rest) ≡ ok head)
      × (head.header ≡ get.header)
      × (head.content ≡ init_empty_http_content)
answer_request-head date cache root a target b v rest e word known short =
    let found = find_components root (collapse (components target)) in
    let same = answer_by_head date v found in
    (
      answer_for date v http_get found,
      answer_for date v http_head found,
      answer_request-request_line date cache root http_get a target b v rest e
          (record { not_unknown = λ c. cc; not_none = λ c. cc }) word known short,
      answer_request-request_line date cache root http_head a target b v rest e
          (record { not_unknown = λ c. cc; not_none = λ c. cc }) word known short,
      same.0,
      same.1,
    )
