-- ===== src/Tests/Header.antt =====
-- Writing the header of an answer.
use ens_sysres_proj.Common.{◌≡◌, refl, ◌++◌, Bytes, codes, ok, arith, length}
use ens_sysres_proj.Http.{HttpMessage, http_404}
use ens_sysres_proj.Http.Names.{get_http_code_value, get_http_code_description}
use ens_sysres_proj.Http.Answer.{prepare_general_http_answer, prepare_http_error}
use ens_sysres_proj.Http.Header.{decimal_digits, decimal, fill_http_answer_header_buffer}
use ens_sysres_proj.Http.Header.Text.{field_text, content_length_text, option_text, header_text}
use ens_sysres_proj.Http.Header.Writes.{fill_http_answer_header_buffer-header_text}
use ens_sysres_proj.Http.Header.Bounds.{HasShortFields}
use ens_sysres_proj.Tests.{repeat, length-repeat}

abbrev pub missing : HttpMessage
missing = prepare_http_error (codes "today") http_404

missing-text :
    header_text missing.header
    ≡ codes
        "HTTP/1.1 404 Not found\r\nContent-Length: 0\r\nDate: today\r\nServer: MyAwesomeWebServer\r\n\r\n"
unfolding header_text option_text content_length_text field_text decimal decimal_digits
    get_http_code_value get_http_code_description prepare_http_error prepare_general_http_answer
missing-text = refl

pub missing-length : length (header_text missing.header) ≡ 86
unfolding header_text option_text content_length_text field_text decimal decimal_digits
    get_http_code_value get_http_code_description prepare_http_error prepare_general_http_answer
missing-length = refl

missing-HasShortFields : HasShortFields missing.header
unfolding prepare_http_error prepare_general_http_answer
missing-HasShortFields = record {
  content_type = tt;
  content_encoding = tt;
  date = omega arith;
  server = omega arith;
}

fill_http_answer_header_buffer-header_text_example :
    (buffer' : Bytes) × (tail : Bytes) × (fill_http_answer_header_buffer missing
        (repeat 100)
        (length (repeat 100))
      ≡ ok (buffer', length (header_text missing.header)))
    × (buffer' ≡ header_text missing.header ++ tail)
    × (length buffer' ≡ length (repeat 100))
fill_http_answer_header_buffer-header_text_example =
    fill_http_answer_header_buffer-header_text missing (repeat 100)
      (omega (arith, length-repeat 100)) (omega (arith, missing-length, length-repeat 100))
