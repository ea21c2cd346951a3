-- ===== src/Http/Answer/Laws.antt =====
-- The answer to a request, from the bytes of the request on.
use mathlib.Core.Path.{fun_ext}
use ens_sysres_proj.Common.{
  ℕ, ◌≤◌, ◌≡◌, refl, ◌≢◌, ap, ◌∙◌, subst, inl, inr, not, ◌||◌, Option, some, Bytes, Outcome, ok,
  ◌>>=◌, arith, length, if◌then◌else◌, Option-cases,
}
use ens_sysres_proj.Cache.{
  FileState, not_loaded, loaded_raw, loaded_compressed, FileEncoding, encoding_gzip, encoding_none,
  File, Folder, FileCache, max_path_length,
}
use ens_sysres_proj.Cache.Find.Components.{components, collapse, find_components}
use ens_sysres_proj.Cache.Find.Refines.{find_file_in_cache-components}
use ens_sysres_proj.Http.{
  HttpVersion, http_v1_1, http_get, http_head, HttpCode, init_empty_http_content,
  http_unknown_version, HttpMethod, http_unknown_method, http_200, http_501, http_505,
  http_origin_form, HttpMessage, init_request_http_message,
}
use ens_sysres_proj.Http.Parse.{parse_http_request}
use ens_sysres_proj.Http.Parse.RoundTrip.{
  IsMethod, IsWord, request_line, parse_http_header_first_line-request_line,
}
use ens_sysres_proj.Http.Answer.Expected.{
  no_content, error_message, file_content, asks_body, encoding_text, answer_for_file, answer_for,
}
use ens_sysres_proj.Http.Answer.{
  encoding_name, prepare_general_http_answer, prepare_body, is_v1_1, is_get, is_head,
  prepare_http_error, prepare_http_valid_answer, answer_with_file, produce_http_answer_from_request,
}

-- Steps 1 and 2.1 of `processClientRequest`.
abbrev pub answer_request : (date : Bytes) → FileCache → (buffer : Bytes) → Outcome HttpMessage
answer_request date cache buffer = do
  (request, code) ← parse_http_request buffer
  produce_http_answer_from_request date
      (record request { header = record request.header { code = code } }) cache

is_get-asks_body : (m : HttpMethod) → is_get m ≡ asks_body m
is_get-asks_body http_get = refl
is_get-asks_body _ = refl

encoding_name-encoding_text : (e : FileEncoding) → encoding_name e ≡ encoding_text e
encoding_name-encoding_text encoding_gzip = refl
encoding_name-encoding_text encoding_none = refl

prepare_body-file_content :
    (date : Bytes) (s : FileState) (file : File)
    → prepare_body date s file init_empty_http_content ≡ file_content s file
unfolding prepare_body
prepare_body-file_content date not_loaded file = refl
prepare_body-file_content date loaded_raw file = refl
prepare_body-file_content date loaded_compressed file = refl

-- The functions of the code make the answers that are written out.
pub prepare_http_error-error_message :
    (date : Bytes) (c : HttpCode) → prepare_http_error date c ≡ error_message date c
unfolding prepare_http_error prepare_general_http_answer
prepare_http_error-error_message date c = refl

prepare_http_valid_answer-answer_for_file :
    (date : Bytes) (request : HttpMessage) (file : File)
    → prepare_http_valid_answer date request file
      ≡ answer_for_file date request.header.method (some file)
unfolding prepare_http_valid_answer prepare_general_http_answer
prepare_http_valid_answer-answer_for_file date request file = λ i. record {
  header = record (error_message date http_200).header {
    content_length = file.size;
    content_type = file.mime;
    content_encoding = some (encoding_name-encoding_text file.encoding i);
  };
  content =
      if is_get-asks_body request.header.method i
      then prepare_body-file_content date file.state file i
      else no_content;
}

answer_for-eq :
    (date : Bytes) (v : HttpVersion) (m : HttpMethod) (found : Option File)
    → (if not (is_v1_1 v)
        then error_message date http_505
        else if is_get m || is_head m
        then answer_for_file date m found
        else error_message date http_501)
      ≡ answer_for date v m found
answer_for-eq date http_v1_1 http_get found = refl
answer_for-eq date http_v1_1 http_head found = refl
answer_for-eq date http_v1_1 _ found = refl
answer_for-eq date _ m found = refl

-- A complete request of the one supported version.
module _ (date : Bytes) (cache : FileCache) (root : Folder) (request : HttpMessage) (target : Bytes)
    (e : cache.root ≡ some root) (code : request.header.code ≡ http_200)
    (has_target : request.header.request_target ≡ some target)
    (origin : request.header.request_type ≡ http_origin_form)
    (known : request.header.method ≢ http_unknown_method)
    (short : length target ≤ max_path_length) where
  answer_with_file-find :
      answer_with_file date request cache (some target)
      ≡ ok (
          answer_for_file date request.header.method
            (find_components root (collapse (components target))))
  unfolding answer_with_file
  answer_with_file-find =
      rw (find_file_in_cache-components cache root target e short)
        (elim (Option-cases (find_components root (collapse (components target)))) [
          | inl missing ↦ rw (missing, prepare_http_error-error_message)
          | inr (file, found) ↦
              rw found (ap ok (prepare_http_valid_answer-answer_for_file date request file))
        ])

  pub produce_complete :
      produce_http_answer_from_request date request cache
      ≡ ok (
          if not (is_v1_1 request.header.version)
          then error_message date http_505
          else if is_get request.header.method || is_head request.header.method
          then answer_for_file date request.header.method
              (find_components root (collapse (components target)))
          else error_message date http_501)
  unfolding produce_http_answer_from_request
  produce_complete =
      subst
        (λ (error : HttpCode → HttpMessage).
          produce_http_answer_from_request date request cache
          ≡ ok (
              if not (is_v1_1 request.header.version)
              then error http_505
              else if is_get request.header.method || is_head request.header.method
              then answer_for_file date request.header.method
                  (find_components root (collapse (components target)))
              else error http_501))
        (fun_ext (prepare_http_error-error_message date))
        (rw (code, origin, has_target) (ground (arith, known, answer_with_file-find)))

-- A request that begins with the name of a known method, a target of 1 to 1024 bytes without
-- white space and NUL, and a known version, separated by one or more spaces and followed by a CR,
-- is answered for every cache that has a root. The answer is an error with the code 505 and no
-- body if the version is not HTTP/1.1, else one with 501 if the method is neither GET nor HEAD,
-- else the answer for the file that the components of the target lead to in the tree of the
-- cache: an error with 404 if there is none, and else 200 with the file's size, type and encoding
-- in the header, and, for a GET, its content.
pub answer_request-request_line :
    (date : Bytes) (cache : FileCache) (root : Folder) (m : HttpMethod) (a : ℕ) (target : Bytes)
    (b : ℕ) (v : HttpVersion) (rest : Bytes)
    → cache.root ≡ some root
    → IsMethod m
    → IsWord target
    → v ≢ http_unknown_version
    → length target ≤ max_path_length
    → answer_request date cache (request_line m a target b v rest)
      ≡ ok (answer_for date v m (find_components root (collapse (components target))))
unfolding parse_http_request
answer_request-request_line date cache root m a target b v rest e method word known short =
    rw
      (
        parse_http_header_first_line-request_line init_request_http_message.header m a target b v
            rest method word known short,
        parse_http_request,
      )
      (produce_complete date cache root _ target e refl refl refl method.not_unknown short
        ∙ ap ok (answer_for-eq date v m (find_components root (collapse (components target)))))
