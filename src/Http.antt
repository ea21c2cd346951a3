-- ===== src/Http.antt =====
-- src/http.h and src/http.c: the data of HTTP messages and their initialisation. A string that may
-- be NULL is an `Option`.
pub mod Parse
pub mod Answer
pub mod Names
pub mod Header
use ens_sysres_proj.Common.{ℕ, Bool, false, Option, none, Bytes}
use ens_sysres_proj.Cache.{Buffer, null}

pub data HttpVersion : Type 0 where
  http_v1_0 http_v1_1 http_v2_0 http_unknown_version : HttpVersion

pub data HttpMethod : Type 0 where
  http_get http_head http_post http_put http_delete http_connect http_options http_trace :
      HttpMethod
  http_unknown_method http_no_method : HttpMethod

pub data HttpCode : Type 0 where
  http_200 http_400 http_401 http_404 http_405 http_411 http_414 : HttpCode
  http_500 http_501 http_503 http_505 http_no_code : HttpCode

pub data HttpRequestType : Type 0 where
  http_origin_form http_absolute_form http_authority_form http_asterisk_form : HttpRequestType
  http_no_request_type : HttpRequestType

-- `content_length` is an `int`, as its pattern.
pub record HttpHeader : Type 0 where
  pub version : HttpVersion
  pub method : HttpMethod
  pub code : HttpCode
  pub request_type : HttpRequestType
  pub request_target : Option Bytes
  pub query : Option Bytes
  pub host : Option Bytes
  pub accept : Option Bytes
  pub content_length : ℕ
  pub content_type : Option Bytes
  pub content_encoding : Option Bytes
  pub date : Option Bytes
  pub server : Option Bytes

-- `body` points to the content of a file of the cache. `file_fd` is `none` for `NO_FD`.
pub record HttpContent : Type 0 where
  pub length : ℕ
  pub offset : ℕ
  pub body : Buffer
  pub content_is_loaded : Bool
  pub file_path : Option Bytes
  pub file_fd : Option ℕ
  pub file_offset : ℕ

pub record HttpMessage : Type 0 where
  pub header : HttpHeader
  pub content : HttpContent

-- The two initialisers set every field.
abbrev pub init_request_http_header : HttpHeader
init_request_http_header = record {
  version = http_unknown_version;
  method = http_unknown_method;
  code = http_no_code;
  request_type = http_no_request_type;
  request_target = none;
  query = none;
  host = none;
  accept = none;
  content_length = 0;
  content_type = none;
  content_encoding = none;
  date = none;
  server = none;
}

abbrev pub init_answer_http_header : HttpVersion → HttpCode → HttpHeader
init_answer_http_header version code = record {
  version = version;
  method = http_no_method;
  code = code;
  request_type = http_no_request_type;
  request_target = none;
  query = none;
  host = none;
  accept = none;
  content_length = 0;
  content_type = none;
  content_encoding = none;
  date = none;
  server = none;
}

abbrev pub init_empty_http_content : HttpContent
init_empty_http_content = record {
  length = 0;
  offset = 0;
  body = null;
  content_is_loaded = false;
  file_path = none;
  file_fd = none;
  file_offset = 0;
}

abbrev pub init_request_http_message : HttpMessage
init_request_http_message = record {
  header = init_request_http_header;
  content = init_empty_http_content;
}

abbrev pub init_answer_http_message : HttpVersion → HttpCode → HttpMessage
init_answer_http_message version code = record {
  header = init_answer_http_header version code;
  content = init_empty_http_content;
}
