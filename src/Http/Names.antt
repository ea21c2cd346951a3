-- ===== src/Http/Names.antt =====
-- The values and descriptions of src/http.c for the status codes and methods.
use ens_sysres_proj.Common.{ℕ, Bytes, codes}
use ens_sysres_proj.Http.{
  HttpMethod, http_get, http_head, http_post, http_put, http_delete, http_connect, http_options,
  http_trace, http_unknown_method, http_no_method, HttpCode, http_200, http_400, http_401, http_404,
  http_405, http_411, http_414, http_500, http_501, http_503, http_505, http_no_code,
}

-- As the pattern of an `int`: `HTTP_NO_CODE` is -1.
unfoldable pub get_http_code_value : HttpCode → ℕ
get_http_code_value http_200 = 200
get_http_code_value http_400 = 400
get_http_code_value http_401 = 401
get_http_code_value http_404 = 404
get_http_code_value http_405 = 405
get_http_code_value http_411 = 411
get_http_code_value http_414 = 414
get_http_code_value http_500 = 500
get_http_code_value http_501 = 501
get_http_code_value http_503 = 503
get_http_code_value http_505 = 505
get_http_code_value http_no_code = 0xffff_ffff

unfoldable pub get_http_code_description : HttpCode → Bytes
get_http_code_description http_200 = codes "OK"
get_http_code_description http_400 = codes "Bad request"
get_http_code_description http_401 = codes "Unauthorized"
get_http_code_description http_404 = codes "Not found"
get_http_code_description http_405 = codes "Method not allowed"
get_http_code_description http_411 = codes "Length required"
get_http_code_description http_414 = codes "Too-long URI"
get_http_code_description http_500 = codes "Internal server error"
get_http_code_description http_501 = codes "Not implemented"
get_http_code_description http_503 = codes "Service unavailable"
get_http_code_description http_505 = codes "HTTP version not supported"
get_http_code_description http_no_code = codes "No HTTP code"

unfoldable pub get_http_method_as_string : HttpMethod → Bytes
get_http_method_as_string http_get = codes "HTTP_GET"
get_http_method_as_string http_head = codes "HTTP_HEAD"
get_http_method_as_string http_post = codes "HTTP_POST"
get_http_method_as_string http_put = codes "HTTP_PUT"
get_http_method_as_string http_delete = codes "HTTP_DELETE"
get_http_method_as_string http_connect = codes "HTTP_CONNECT"
get_http_method_as_string http_options = codes "HTTP_OPTIONS"
get_http_method_as_string http_trace = codes "HTTP_TRACE"
get_http_method_as_string http_unknown_method = codes "HTTP_UNKNOWN_METHOD"
get_http_method_as_string http_no_method = codes "No HTTP method"
