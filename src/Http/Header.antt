-- ===== src/Http/Header.antt =====
-- Writing the header of an answer into its buffer: the end of src/http.c. The buffer is the list of
-- its bytes, and a position in it stands for a pointer.
pub mod Appends
pub mod Text
pub mod Writes
pub mod Bounds
use ens_sysres_proj.Common.{
  ℕ, zero, suc, ◌+◌, ◌-◌, ◌/◌, ◌%◌, ◌^◌, Bool, true, false, not, Option, none, some, [], ◌∷◌, ◌++◌,
  Bytes, codes, Outcome, ok, ◌>>=◌, ◌>>◌, in_bounds, length, take, drop, leb, ltb, ◌==◌,
  if◌then◌else◌, is_negative, add_int, sub_int,
}
use ens_sysres_proj.Http.{HttpHeader, HttpMessage}
use ens_sysres_proj.Http.Names.{get_http_code_value, get_http_code_description}

-- The decimal digits of a number, at most `k` of them.
unfoldable pub decimal_digits : (k n : ℕ) → Bytes
decimal_digits zero n = []
decimal_digits (suc k) n =
    let high = decimal_digits k (n / 10) in
    if ltb n 10 then (n + b'0') ∷ [] else high ++ (n % 10 + b'0') ∷ []

-- `%d`. An `int` has at most ten digits.
unfoldable pub decimal : ℕ → Bytes
unfolding decimal_digits
decimal n = if is_negative n then b'-' ∷ decimal_digits 10 (2 ^ 32 - n) else decimal_digits 10 n

abbrev pub crlf : Bytes
crlf = b'\r' ∷ b'\n' ∷ []

-- A write of `out` at the position `at`.
unfoldable pub overwrite : Bytes → (at_ : ℕ) → (out : Bytes) → Outcome Bytes
overwrite buffer at_ out = do
  in_bounds (leb (at_ + length out) (length buffer))
  ok (take at_ buffer ++ (out ++ drop (at_ + length out) buffer))

-- `max - nb` on `int`s, extended to the `size_t` that `snprintf` takes.
abbrev pub room : (max nb : ℕ) → ℕ
room max nb = let left = sub_int max nb in if is_negative left then 2 ^ 64 + left - 2 ^ 32 else left

-- `snprintf` of that text: it writes what fits, with a NUL, and returns the length of the text.
unfoldable pub snprintf : Bytes → (at_ n : ℕ) → (text : Bytes) → Outcome (Bytes × ℕ)
unfolding overwrite
snprintf buffer at_ zero text = ok (buffer, length text)
snprintf buffer at_ (suc n) text = do
  buffer' ← overwrite buffer at_ (take n text ++ 0 ∷ [])
  ok (buffer', length text)

-- `nb += snprintf(base + nb, max - nb, text)`, on the buffer and `nb`.
unfoldable pub append_text : (base max : ℕ) → (text : Bytes) → Bytes × ℕ → Outcome (Bytes × ℕ)
unfolding snprintf
append_text base max text (buffer, nb) = do
  (buffer', n) ← snprintf buffer (base + nb) (room max nb) text
  ok (buffer', add_int nb n)

abbrev pub first_line : HttpHeader → Bytes
first_line h =
    codes "HTTP/1.1 "
    ++ (decimal (get_http_code_value h.code) ++ (b' ' ∷ (get_http_code_description h.code ++ crlf)))

unfoldable pub write_http_answer_first_line :
    HttpHeader → (base max : ℕ) → Bytes → Outcome (Bytes × ℕ)
write_http_answer_first_line h base max buffer = append_text base max (first_line h) (buffer, 0)

-- A field with a text, if its pointer is not NULL.
unfoldable pub write_field :
    (name : Bytes) → Option Bytes → (base max : ℕ) → Bytes × ℕ → Outcome (Bytes × ℕ)
write_field name none base max s = ok s
write_field name (some value) base max s = append_text base max (name ++ (value ++ crlf)) s

unfoldable pub write_content_length : ℕ → (base max : ℕ) → Bytes × ℕ → Outcome (Bytes × ℕ)
write_content_length n base max s =
    if is_negative n
    then ok s
    else append_text base max (codes "Content-Length: " ++ (decimal n ++ crlf)) s

unfoldable pub write_http_option_fields : HttpHeader → (base max : ℕ) → Bytes → Outcome (Bytes × ℕ)
write_http_option_fields h base max buffer = do
  s ← write_content_length h.content_length base max (buffer, 0)
  s ← write_field (codes "Content-Type: ") h.content_type base max s
  s ← write_field (codes "Content-Encoding: ") h.content_encoding base max s
  s ← write_field (codes "Date: ") h.date base max s
  write_field (codes "Server: ") h.server base max s

-- The buffer, and the number that the function returns.
unfoldable pub fill_http_answer_header_buffer :
    HttpMessage → (buffer : Bytes) → (buffer_max_length : ℕ) → Outcome (Bytes × ℕ)
fill_http_answer_header_buffer answer buffer max = do
  (buffer', n) ← write_http_answer_first_line answer.header 0 max buffer
  (buffer'', k) ← write_http_option_fields answer.header n (sub_int max n) buffer'
  append_text 0 max crlf (buffer'', add_int n k)
