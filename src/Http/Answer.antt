-- ===== src/Http/Answer.antt =====
-- Producing the answer to a parsed request: src/http.c. The date, which `getHttpServerDate` takes
-- from the clock, is an argument.
pub mod Expected
pub mod Laws
pub mod Fits
pub mod Content
pub mod Head
pub mod Safe
use ens_sysres_proj.Common.{
  Bool, true, false, not, ◌&&◌, Option, none, some, Bytes, codes, Outcome, ok, fault, ◌>>=◌,
  if◌then◌else◌,
}
use ens_sysres_proj.Cache.{
  File, FileState, not_loaded, loaded_raw, loaded_compressed, FileEncoding, encoding_gzip,
  encoding_none, FileCache,
}
use ens_sysres_proj.Cache.Find.{find_file_in_cache}
use ens_sysres_proj.Http.Parse.{is_unknown_method}
use ens_sysres_proj.Http.{
  HttpVersion, http_v1_1, HttpMethod, http_get, http_head, http_unknown_method, HttpCode, http_200,
  http_400, http_404, http_501, http_505, HttpRequestType, http_origin_form, HttpHeader,
  HttpContent, HttpMessage, init_answer_http_message,
}

abbrev pub is_200 : HttpCode → Bool
is_200 http_200 = true
is_200 _ = false

abbrev pub is_v1_1 : HttpVersion → Bool
is_v1_1 http_v1_1 = true
is_v1_1 _ = false

abbrev pub is_get : HttpMethod → Bool
is_get http_get = true
is_get _ = false

abbrev pub is_head : HttpMethod → Bool
is_head http_head = true
is_head _ = false

abbrev pub is_origin_form : HttpRequestType → Bool
is_origin_form http_origin_form = true
is_origin_form _ = false

abbrev pub encoding_name : FileEncoding → Bytes
encoding_name encoding_gzip = codes "gzip"
encoding_name encoding_none = codes "identity"

module _ (date : Bytes) where
  unfoldable pub prepare_general_http_answer : HttpCode → HttpMessage
  prepare_general_http_answer code =
      let answer = init_answer_http_message http_v1_1 code in
      record answer {
        header = record answer.header {
          server = some (codes "MyAwesomeWebServer");
          date = some date;
        };
      }

  unfoldable pub prepare_http_error : HttpCode → HttpMessage
  unfolding prepare_general_http_answer
  prepare_http_error code =
      let answer = prepare_general_http_answer code in
      record answer { header = record answer.header { content_length = 0 } }

  -- The body of a GET, by whether the file is loaded.
  unfoldable pub prepare_body : FileState → File → HttpContent → HttpContent
  prepare_body not_loaded file content = record content {
    length = file.size;
    file_path = some file.path;
    content_is_loaded = false;
  }
  prepare_body _ file content = record content {
    length = file.size;
    body = file.content;
    content_is_loaded = true;
  }

  unfoldable pub prepare_http_valid_answer : HttpMessage → File → HttpMessage
  unfolding prepare_general_http_answer prepare_body
  prepare_http_valid_answer request file =
      let answer = prepare_general_http_answer http_200 in
      record {
        header = record answer.header {
          content_length = file.size;
          content_type = file.mime;
          content_encoding = some (encoding_name file.encoding);
        };
        content =
            if is_get request.header.method
            then prepare_body file.state file answer.content
            else answer.content;
      }

  -- The end of `produceHttpAnswerFromRequest`. A NULL target would be read.
  unfoldable pub answer_with_file : HttpMessage → FileCache → Option Bytes → Outcome HttpMessage
  answer_with_file request cache none = fault
  answer_with_file request cache (some target) = do
    found ← find_file_in_cache cache target
    ok (elim found [
      | none ↦ prepare_http_error http_404
      | some file ↦ prepare_http_valid_answer request file
    ])

  unfoldable pub produce_http_answer_from_request : HttpMessage → FileCache → Outcome HttpMessage
  unfolding answer_with_file
  produce_http_answer_from_request request cache =
      if not (is_200 request.header.code)
      then ok (prepare_http_error request.header.code)
      else if not (is_v1_1 request.header.version)
      then ok (prepare_http_error http_505)
      else if is_unknown_method request.header.method
      then ok (prepare_http_error http_400)
      else if not (is_get request.header.method) && not (is_head request.header.method)
      then ok (prepare_http_error http_501)
      else if not (is_origin_form request.header.request_type)
      then ok (prepare_http_error http_400)
      else answer_with_file request cache request.header.request_target
