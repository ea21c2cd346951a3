-- ===== src/Http/Answer/Expected.antt =====
-- The answers that the server promises, written out field by field.
use ens_sysres_proj.Common.{Bool, true, false, Option, none, some, Bytes, codes, if◌then◌else◌}
use ens_sysres_proj.Cache.{
  File, FileState, not_loaded, loaded_raw, loaded_compressed, FileEncoding, encoding_gzip,
  encoding_none, null,
}
use ens_sysres_proj.Http.{
  HttpVersion, http_v1_1, HttpMethod, http_get, http_head, http_no_method, HttpCode, http_200,
  http_404, http_501, http_505, http_no_request_type, HttpContent, HttpMessage,
}

abbrev pub no_content : HttpContent
no_content = record {
  length = 0;
  offset = 0;
  body = null;
  content_is_loaded = false;
  file_path = none;
  file_fd = none;
  file_offset = 0;
}

-- The answer of an error.
abbrev pub error_message : (date : Bytes) → HttpCode → HttpMessage
error_message date code = record {
  header = record {
    version = http_v1_1;
    method = http_no_method;
    code = code;
    request_type = http_no_request_type;
    request_target = none;
    query = none;
    host = none;
    accept = none;
    content_length = 0;
    content_type = none;
    content_encoding = none;
    date = some date;
    server = some (codes "MyAwesomeWebServer");
  };
  content = no_content;
}

-- The body for a file, by its state.
abbrev pub file_content : FileState → File → HttpContent
file_content not_loaded file = record no_content { length = file.size; file_path = some file.path }
file_content loaded_raw file = record no_content {
  length = file.size;
  body = file.content;
  content_is_loaded = true;
}
file_content loaded_compressed file = record no_content {
  length = file.size;
  body = file.content;
  content_is_loaded = true;
}

-- Only a GET gets a body.
abbrev pub asks_body : HttpMethod → Bool
asks_body http_get = true
asks_body _ = false

abbrev pub encoding_text : FileEncoding → Bytes
encoding_text encoding_gzip = codes "gzip"
encoding_text encoding_none = codes "identity"

-- The answer for a target, by the file that is found for it.
abbrev pub answer_for_file : (date : Bytes) → HttpMethod → Option File → HttpMessage
answer_for_file date m none = error_message date http_404
answer_for_file date m (some file) = record {
  header = record (error_message date http_200).header {
    content_length = file.size;
    content_type = file.mime;
    content_encoding = some (encoding_text file.encoding);
  };
  content = if asks_body m then file_content file.state file else no_content;
}

-- The answer to a complete request of HTTP/1.1, by its method.
abbrev pub answer_for_method : (date : Bytes) → HttpMethod → Option File → HttpMessage
answer_for_method date http_get found = answer_for_file date http_get found
answer_for_method date http_head found = answer_for_file date http_head found
answer_for_method date _ found = error_message date http_501

-- The answer to a complete request.
abbrev pub answer_for : (date : Bytes) → HttpVersion → HttpMethod → Option File → HttpMessage
answer_for date http_v1_1 m found = answer_for_method date m found
answer_for date _ m found = error_message date http_505
