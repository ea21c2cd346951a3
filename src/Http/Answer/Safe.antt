-- ===== src/Http/Answer/Safe.antt =====
-- Whatever a client sends: how the answer to it is made, and what the answer holds.
use ens_sysres_proj.Common.{
  ℕ, ◌≤◌, ◌<◌, ◌^◌, ◌≡◌, refl, ◌≢◌, ◌⊎◌, sym, ◌∙◌, subst, inl, inr, Bool, true, false, not, ◌||◌,
  Option, none, some, List, Bytes, ok, Returns-ok, ok-injective, arith, length, if◌then◌else◌,
  Option-cases,
}
use ens_sysres_proj.Cache.{File, Folder, FileCache, max_path_length, live}
use ens_sysres_proj.Cache.Disk.{Disk}
use ens_sysres_proj.Cache.Build.{build_cache_from_disk}
use ens_sysres_proj.Cache.Build.Space.{build_cache_from_disk-IsBuilt}
use ens_sysres_proj.Cache.Sizes.{IsFresh, IsBuilt}
use ens_sysres_proj.Cache.Find.Components.{components, collapse, find_components}
use ens_sysres_proj.Cache.Find.Members.{find_components-IsFresh}
use ens_sysres_proj.Http.{
  HttpMethod, HttpCode, http_200, http_400, http_404, http_414, http_501, http_505, HttpHeader,
  HttpMessage, init_request_http_message,
}
use ens_sysres_proj.Http.Parse.{parse_http_header_first_line, parse_http_request}
use ens_sysres_proj.Http.Parse.FirstLine.{
  IsComplete, IsTarget, IsParseCode, parse_http_header_first_line-Parsed,
}
use ens_sysres_proj.Http.Parse.Safe.{IsTerminated, parse_http_header_first_line-Returns}
use ens_sysres_proj.Http.Answer.{
  is_v1_1, is_get, is_head, prepare_http_error, prepare_general_http_answer,
  produce_http_answer_from_request,
}
use ens_sysres_proj.Http.Answer.Expected.{error_message, answer_for_file}
use ens_sysres_proj.Http.Answer.Laws.{answer_request, produce_complete}

-- The codes of an answer that has no body.
abbrev pub IsErrorCode : HttpCode → Type 0
IsErrorCode http_400 = Unit {0}
IsErrorCode http_404 = Unit {0}
IsErrorCode http_414 = Unit {0}
IsErrorCode http_501 = Unit {0}
IsErrorCode http_505 = Unit {0}
IsErrorCode _ = ⊥

-- An error has length 0 and no body; a 200 is made from a file of the cache.
abbrev pub IsAnswer : Bytes → Folder → HttpMessage → Type 0
IsAnswer date root answer =
    ((c : HttpCode) × IsErrorCode c × (answer ≡ error_message date c))
    ⊎ ((m : HttpMethod) × (names : List Bytes) × (file : File) × (find_components root names
          ≡ some file)
        × (answer ≡ answer_for_file date m (some file)))

chosen-IsAnswer :
    (date : Bytes) (root : Folder) (m : HttpMethod) (names : List Bytes) (version method : Bool)
    → IsAnswer date root (
        if not version
        then error_message date http_505
        else if method
        then answer_for_file date m (find_components root names)
        else error_message date http_501)
chosen-IsAnswer date root m names false method = inl (http_505, tt, refl)
chosen-IsAnswer date root m names true false = inl (http_501, tt, refl)
chosen-IsAnswer date root m names true true = elim (Option-cases (find_components root names)) [
  | inl e ↦ rw e (inl (http_404, tt, refl))
  | inr (file, e) ↦ inr (m, names, file, e, rw e refl)
]

target-cases :
    (o : Option Bytes)
    → IsTarget o
    → (target : Bytes) × (o ≡ some target) × (length target ≤ max_path_length)
target-cases none t = absurd t
target-cases (some target) t = (target, refl, t.1)

abbrev Answers : Bytes → FileCache → Folder → HttpMessage → Type 0
Answers date cache root request =
    (answer : HttpMessage) × (produce_http_answer_from_request date request cache ≡ ok answer)
    × IsAnswer date root answer

produce-Answers :
    (date : Bytes) (cache : FileCache) (root : Folder) (h : HttpHeader) (code : HttpCode)
    → cache.root ≡ some root
    → IsParseCode code
    → (code ≡ http_200 → IsComplete h)
    → Answers date cache root
        (record init_request_http_message { header = record h { code = code } })
unfolding produce_http_answer_from_request prepare_http_error prepare_general_http_answer
produce-Answers date cache root h http_200 e p full =
    let c = full refl in
    let (target, has_target, short) = target-cases h.request_target c.target in
    let request : HttpMessage = record init_request_http_message {
      header = record h { code = http_200 };
    } in
    (
      _,
      produce_complete date cache root request target e refl has_target c.origin c.method_known
          short,
      chosen-IsAnswer date root h.method (collapse (components target)) (is_v1_1 h.version)
          (is_get h.method || is_head h.method),
    )
produce-Answers date cache root h http_400 e p full = (_, refl, inl (http_400, tt, refl))
produce-Answers date cache root h http_414 e p full = (_, refl, inl (http_414, tt, refl))
produce-Answers date cache root h http_501 e p full = (_, refl, inl (http_501, tt, refl))
produce-Answers date cache root h http_505 e p full = (_, refl, inl (http_505, tt, refl))
produce-Answers date cache root h _ e p full = absurd p

-- For a cache that has a root, every buffer with a NUL and at least one more byte behind it gets
-- an answer: an error with one of the codes 400, 404, 414, 501 and 505 and no body, or the answer
-- for a file that some names lead to in the tree of the cache. No call faults, ends the program
-- or runs out of fuel.
pub answer_request-IsAnswer :
    (date : Bytes) (cache : FileCache) (root : Folder) (buffer : Bytes)
    → cache.root ≡ some root
    → IsTerminated buffer
    → (answer : HttpMessage) × (answer_request date cache buffer ≡ ok answer)
      × IsAnswer date root answer
unfolding parse_http_request
answer_request-IsAnswer date cache root buffer e t =
    let start : HttpHeader = init_request_http_message.header in
    let returned = parse_http_header_first_line-Returns start buffer t in
    let ((h, code), parsed) = Returns-ok (parse_http_header_first_line start buffer) returned in
    let p = parse_http_header_first_line-Parsed start buffer parsed in
    let (answer, made, is) = produce-Answers date cache root h code e p.code p.complete in
    (answer, rw (parsed, parse_http_request) made, is)

-- What holds of every error, and of the answer for every file as it was loaded, holds of an answer.
pub IsAnswer-elim :
    (P : HttpMessage → Type 0) (date : Bytes) (root : Folder) {answer : HttpMessage}
    → IsBuilt root
    → ((c : HttpCode) → P (error_message date c))
    → ((m : HttpMethod) (file : File) → IsFresh file → P (answer_for_file date m (some file)))
    → IsAnswer date root answer
    → P answer
IsAnswer-elim P date root built errors files (inl (c, _, eq)) = subst P (sym eq) (errors c)
IsAnswer-elim P date root built errors files (inr (m, names, file, found, eq)) =
    subst P (sym eq) (files m file (find_components-IsFresh names root built found))

answer_for_file-body :
    (date : Bytes) (m : HttpMethod) (file : File) (bytes : Bytes)
    → IsFresh file
    → (answer_for_file date m (some file)).content.body ≡ live bytes
    → ((answer_for_file date m (some file)).header.content_length ≡ length bytes)
      × ((answer_for_file date m (some file)).content.length ≡ length bytes)
answer_for_file-body date m file bytes fresh h = ground (arith, fresh.filled bytes)

error-body :
    (date : Bytes) (c : HttpCode) (bytes : Bytes) → (error_message date c).content.body ≢ live bytes
error-body date c bytes h = cc

-- With a cache that was built from a disk with fewer than 2 ^ 31 bytes of space, and a request
-- buffer with a NUL and one more byte behind it: where the answer has a body in memory, both the
-- length that the header announces and the length of the content to send are the number of bytes
-- of that body.
pub answer_request-body :
    (d : Disk) (root_path : Bytes) (max : ℕ) (date : Bytes) (buffer : Bytes) (bytes : Bytes)
    {cache : FileCache} {answer : HttpMessage}
    → max < 2 ^ 31
    → build_cache_from_disk d root_path max ≡ ok cache
    → IsTerminated buffer
    → answer_request date cache buffer ≡ ok answer
    → answer.content.body ≡ live bytes
    → (answer.header.content_length ≡ length bytes) × (answer.content.length ≡ length bytes)
answer_request-body d root_path max date buffer bytes {cache} {answer} small built t made body =
    let (root, e, is_built, _, _, _) = build_cache_from_disk-IsBuilt d root_path max small built in
    let (answer', made', is) = answer_request-IsAnswer date cache root buffer e t in
    let P : HttpMessage → Type 0 = λ a.
      a.content.body ≡ live bytes
      → (a.header.content_length ≡ length bytes) × (a.content.length ≡ length bytes) in
    subst P (ok-injective (sym made' ∙ made))
      (IsAnswer-elim P date root is_built (λ c h. absurd (error-body date c bytes h))
        (λ m file fresh. answer_for_file-body date m file bytes fresh) is)
      body
