-- ===== src/Http/Header/Bounds.antt =====
-- The length of a header that is written.
use ens_sysres_proj.Common.{
  ℕ, zero, suc, ◌+◌, ◌/◌, ◌≤◌, ◌<◌, ◌≡◌, Bool, true, false, if◌then◌else◌, Option, none, some, [],
  ◌∷◌, ◌++◌, Bytes, codes, ok, arith, length, length-append, ltb, is_negative, ◌%◌, ◌-◌, ◌^◌,
}
use ens_sysres_proj.Cache.Sizes.{IsShort}
use ens_sysres_proj.Http.{
  HttpHeader, HttpMessage, HttpCode, http_200, http_400, http_401, http_404, http_405, http_411,
  http_414, http_500, http_501, http_503, http_505, http_no_code,
}
use ens_sysres_proj.Http.Names.{get_http_code_value, get_http_code_description}
use ens_sysres_proj.Http.Header.{
  decimal_digits, decimal, crlf, first_line, fill_http_answer_header_buffer,
}
use ens_sysres_proj.Http.Header.Text.{field_text, content_length_text, option_text, header_text}
use ens_sysres_proj.Http.Header.Writes.{fill_http_answer_header_buffer-header_text}

-- The strings of a header that are written have at most 255 bytes each.
pub record HasShortFields (h : HttpHeader) : Type 0 where
  pub content_type : IsShort h.content_type
  pub content_encoding : IsShort h.content_encoding
  pub date : IsShort h.date
  pub server : IsShort h.server

length-if :
    (b : Bool) (xs ys : Bytes) (n : ℕ)
    → length xs ≤ n
    → length ys ≤ n
    → length (if b then xs else ys) ≤ n
length-if true xs ys n h h' = h
length-if false xs ys n h h' = h'

length-decimal_digits : (k n : ℕ) → length (decimal_digits k n) ≤ k
unfolding decimal_digits
length-decimal_digits zero n = omega arith
length-decimal_digits (suc k) n =
    let high = decimal_digits k (n / 10) in
    length-if (ltb n 10) ((n + b'0') ∷ []) (high ++ (n % 10 + b'0') ∷ []) (suc k) (omega arith)
      (omega (arith, length-append high ((n % 10 + b'0') ∷ []), length-decimal_digits k (n / 10)))

length-decimal : (n : ℕ) → length (decimal n) ≤ 11
unfolding decimal
length-decimal n =
    length-if (is_negative n) (b'-' ∷ decimal_digits 10 (2 ^ 32 - n)) (decimal_digits 10 n) 11
      (omega (arith, length-decimal_digits 10 (2 ^ 32 - n)))
      (omega (arith, length-decimal_digits 10 n))

length-description : (c : HttpCode) → length (get_http_code_description c) ≤ 26
unfolding get_http_code_description
length-description http_200 = omega arith
length-description http_400 = omega arith
length-description http_401 = omega arith
length-description http_404 = omega arith
length-description http_405 = omega arith
length-description http_411 = omega arith
length-description http_414 = omega arith
length-description http_500 = omega arith
length-description http_501 = omega arith
length-description http_503 = omega arith
length-description http_505 = omega arith
length-description http_no_code = omega arith

length-first_line : (h : HttpHeader) → length (first_line h) ≤ 49
length-first_line h =
    let code = decimal (get_http_code_value h.code) in
    let text = get_http_code_description h.code in
    omega (
      arith,
      length-append code (b' ' ∷ (text ++ crlf)),
      length-append text crlf,
      length-decimal (get_http_code_value h.code),
      length-description h.code,
    )

length-field_text :
    (name : Bytes) (value : Option Bytes)
    → IsShort value
    → length (field_text name value) ≤ length name + 257
unfolding field_text
length-field_text name none s = omega arith
length-field_text name (some value) s =
    omega (arith, length-append name (value ++ crlf), length-append value crlf)

length-content_length_text : (n : ℕ) → length (content_length_text n) ≤ 29
unfolding content_length_text
length-content_length_text n =
    length-if (is_negative n) [] (codes "Content-Length: " ++ (decimal n ++ crlf)) 29 (omega arith)
      (omega (arith, length-append (decimal n) crlf, length-decimal n))

length-option_text : (h : HttpHeader) → HasShortFields h → length (option_text h) ≤ 1111
unfolding option_text
length-option_text h s =
    let size = content_length_text h.content_length in
    let kind = field_text (codes "Content-Type: ") h.content_type in
    let encoding = field_text (codes "Content-Encoding: ") h.content_encoding in
    let date = field_text (codes "Date: ") h.date in
    let server = field_text (codes "Server: ") h.server in
    omega (
      arith,
      length-append size (kind ++ (encoding ++ (date ++ server))),
      length-append kind (encoding ++ (date ++ server)),
      length-append encoding (date ++ server),
      length-append date server,
      length-content_length_text h.content_length,
      length-field_text (codes "Content-Type: ") h.content_type s.content_type,
      length-field_text (codes "Content-Encoding: ") h.content_encoding s.content_encoding,
      length-field_text (codes "Date: ") h.date s.date,
      length-field_text (codes "Server: ") h.server s.server,
    )

length-header_text : (h : HttpHeader) → HasShortFields h → length (header_text h) < 2048
unfolding header_text
length-header_text h s = omega (
  arith,
  length-append (first_line h) (option_text h ++ crlf),
  length-append (option_text h) crlf,
  length-first_line h,
  length-option_text h s,
)

-- If the content type, the encoding, the date and the server's name have at most 255 bytes each,
-- or are absent, then the header fits in a buffer of 2048 bytes, whatever the code and the
-- content length: filling the buffer succeeds, the buffer begins with the whole text, and the
-- number returned is its length.
pub fill_http_answer_header_buffer-fits :
    (answer : HttpMessage) (buffer : Bytes)
    → length buffer ≡ 2048
    → HasShortFields answer.header
    → (buffer' : Bytes) × (tail : Bytes) × (fill_http_answer_header_buffer answer buffer
          (length buffer)
        ≡ ok (buffer', length (header_text answer.header)))
      × (buffer' ≡ header_text answer.header ++ tail)
      × (length buffer' ≡ length buffer)
fill_http_answer_header_buffer-fits answer buffer e s =
    fill_http_answer_header_buffer-header_text answer buffer (omega arith)
      (omega (arith, length-header_text answer.header s))
