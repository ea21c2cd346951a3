-- ===== src/Tests/Http.antt =====
-- Requests to the small cache, and their answers.
use ens_sysres_proj.Common.{
  length, ◌≡◌, refl, ap, sym, ◌∙◌, inl, inr, true, not, some, [], ◌∷◌, ◌++◌, Bytes, codes, bytes_eq,
  ok, arith, all, ◌==◌,
}
use ens_sysres_proj.Toolbox.{consume_leading_string_white_space}
use ens_sysres_proj.Cache.{live}
use ens_sysres_proj.Cache.Find.{
  find_subfolder, find_subfolder_in_folder, find_file, find_file_in_folder,
}
use ens_sysres_proj.Cache.Find.Components.{components, collapse, find_components}
use ens_sysres_proj.Http.{
  http_v1_1, http_get, http_200, http_origin_form, HttpHeader, HttpMessage,
  init_request_http_header, init_empty_http_content, http_head,
}
use ens_sysres_proj.Http.Parse.{
  find_option_value_from_string, skip_space, take_word, scan_word, parse_line_end, parse_version,
  parse_target, parse_http_header_first_line,
}
use ens_sysres_proj.Http.Parse.Safe.{IsTerminated}
use ens_sysres_proj.Http.Parse.RoundTrip.{
  IsMethod, IsWord, request_line, method_name, version_name,
  parse_http_header_first_line-request_line,
}
use ens_sysres_proj.Http.Answer.Expected.{answer_for_file, answer_for}
use ens_sysres_proj.Http.Answer.Laws.{answer_request, answer_request-request_line}
use ens_sysres_proj.Http.Answer.Safe.{IsAnswer, answer_request-IsAnswer, answer_request-body}
use ens_sysres_proj.Http.Answer.Head.{answer_request-head}
use ens_sysres_proj.Http.Answer.Fits.{answer_request-fits}
use ens_sysres_proj.Http.Header.{fill_http_answer_header_buffer}
use ens_sysres_proj.Http.Header.Text.{header_text}
use ens_sysres_proj.Tests.{repeat, length-repeat, www, small_disk, file_b, small_root, small_cache}
use ens_sysres_proj.Tests.Cache.{small_disk-small_cache}

abbrev pub today : Bytes
today = codes "Thu, 01 Jan 1970 00:00:00 GMT"

abbrev pub target_b : Bytes
target_b = codes "/sub/b"

abbrev pub end_bytes : Bytes
end_bytes = b'\n' ∷ b'\r' ∷ b'\n' ∷ 0 ∷ 0 ∷ []

abbrev get_b : Bytes
get_b = codes "GET /sub/b  HTTP/1.1\r\n\r\n" ++ 0 ∷ 0 ∷ []

get_b-request_line : request_line http_get 0 target_b 1 http_v1_1 end_bytes ≡ get_b
unfolding method_name version_name
get_b-request_line = refl

get-IsMethod : IsMethod http_get
get-IsMethod = record { not_unknown = λ c. cc; not_none = λ c. cc }

pub target_b-IsWord : IsWord target_b
target_b-IsWord = record { nonempty = omega arith; plain = refl }

parse_http_header_first_line-request_line_example :
    parse_http_header_first_line init_request_http_header
      (request_line http_get 0 target_b 1 http_v1_1 end_bytes)
    ≡ ok (
      record init_request_http_header {
        method = http_get;
        request_type = http_origin_form;
        request_target = some target_b;
        version = http_v1_1;
      },
      http_200,
    )
parse_http_header_first_line-request_line_example =
    parse_http_header_first_line-request_line init_request_http_header http_get 0 target_b 1
      http_v1_1 end_bytes get-IsMethod target_b-IsWord (λ c. cc) (omega arith)

answer_request-request_line_example :
    answer_request today small_cache (request_line http_get 0 target_b 1 http_v1_1 end_bytes)
    ≡ ok (
        answer_for today http_v1_1 http_get
          (find_components small_root (collapse (components target_b))))
answer_request-request_line_example =
    answer_request-request_line today small_cache small_root http_get 0 target_b 1 http_v1_1
      end_bytes refl get-IsMethod target_b-IsWord (λ c. cc) (omega arith)

finds_b : find_components small_root (collapse (components target_b)) ≡ some file_b
unfolding find_components collapse components find_file_in_folder find_file find_subfolder_in_folder
    find_subfolder bytes_eq
finds_b = refl

abbrev answer_b : HttpMessage
answer_b = answer_for_file today http_get (some file_b)

answers_b : answer_request today small_cache get_b ≡ ok answer_b
answers_b =
    ap (answer_request today small_cache) (sym get_b-request_line)
    ∙ answer_request-request_line today small_cache small_root http_get 0 target_b 1 http_v1_1
        end_bytes refl get-IsMethod target_b-IsWord (λ c. cc) (omega arith)
    ∙ ap (λ found. ok (answer_for_file today http_get found)) finds_b

-- A string without NUL, followed by two of them.
IsTerminated-append :
    (text : Bytes) → all (λ c. not (c == 0)) text ≡ true → IsTerminated (text ++ 0 ∷ 0 ∷ [])
IsTerminated-append [] h = inl (refl, omega arith)
IsTerminated-append (c ∷ cs) h = inr (ground arith, IsTerminated-append cs (ground arith))

get_b-IsTerminated : IsTerminated get_b
get_b-IsTerminated = IsTerminated-append (codes "GET /sub/b  HTTP/1.1\r\n\r\n") refl

answer_request-IsAnswer_example :
    (answer : HttpMessage) × (answer_request today small_cache get_b ≡ ok answer)
    × IsAnswer today small_root answer
answer_request-IsAnswer_example =
    answer_request-IsAnswer today small_cache small_root get_b refl get_b-IsTerminated

body_b : answer_b.content.body ≡ live (codes "abcde")
body_b = refl

answer_request-body_example : (answer_b.header.content_length ≡ 5) × (answer_b.content.length ≡ 5)
answer_request-body_example =
    answer_request-body small_disk www 100 today get_b (codes "abcde") (omega arith)
      small_disk-small_cache get_b-IsTerminated answers_b body_b

abbrev header_b : HttpHeader
header_b = record init_request_http_header {
  method = http_get;
  request_type = http_origin_form;
  request_target = some target_b;
  version = http_v1_1;
}

parses_b : parse_http_header_first_line init_request_http_header get_b ≡ ok (header_b, http_200)
unfolding parse_http_header_first_line parse_target parse_version parse_line_end
    find_option_value_from_string scan_word skip_space take_word consume_leading_string_white_space
    bytes_eq
parses_b = refl

-- The condition at the end of the line lets a line pass that ends in a lone LF.
abbrev lone_lf : Bytes
lone_lf = codes "GET /a HTTP/1.1 x\n" ++ 0 ∷ 0 ∷ []

passes_lone_lf :
    parse_http_header_first_line init_request_http_header lone_lf
    ≡ ok (record header_b { request_target = some (codes "/a") }, http_200)
unfolding parse_http_header_first_line parse_target parse_version parse_line_end
    find_option_value_from_string scan_word skip_space take_word consume_leading_string_white_space
    bytes_eq
passes_lone_lf = refl

answer_request-head_example :
    (get : HttpMessage) × (head : HttpMessage) × (answer_request today small_cache
        (request_line http_get 0 target_b 1 http_v1_1 end_bytes)
      ≡ ok get)
    × (answer_request today small_cache (request_line http_head 0 target_b 1 http_v1_1 end_bytes)
        ≡ ok head)
    × (head.header ≡ get.header)
    × (head.content ≡ init_empty_http_content)
answer_request-head_example =
    answer_request-head today small_cache small_root 0 target_b 1 http_v1_1 end_bytes refl
      target_b-IsWord (λ c. cc) (omega arith)

answer_request-fits_example :
    (buffer' : Bytes) × (tail : Bytes) × (fill_http_answer_header_buffer answer_b
        (repeat 2048)
        (length (repeat 2048))
      ≡ ok (buffer', length (header_text answer_b.header)))
    × (buffer' ≡ header_text answer_b.header ++ tail)
    × (length buffer' ≡ length (repeat 2048))
answer_request-fits_example =
    answer_request-fits small_disk www 100 today get_b (repeat 2048) (omega arith)
      small_disk-small_cache get_b-IsTerminated (omega arith) answers_b (length-repeat 2048)
