-- ===== src/Http/Parse.antt =====
-- src/parse_header.c: finding the end of a request's header, and parsing its first line. A pointer
-- into the request buffer is the list of the bytes from it to the end of the buffer, the NUL that
-- ends the string and what stands behind it included.
pub mod Complete
pub mod FirstLine
pub mod RoundTrip
pub mod Safe
use ens_sysres_proj.Common.{
  ℕ, zero, suc, ◌+◌, ◌-◌, Bool, true, false, ◌&&◌, ◌||◌, not, Option, none, some, List, [], ◌∷◌,
  Bytes, codes, bytes_eq, Outcome, ok, fault, ◌>>=◌, ◌>>◌, in_bounds, length, drop, get_elem?, leb,
  ltb, ◌==◌, if◌then◌else◌,
}
use ens_sysres_proj.Toolbox.{strings_are_equal, consume_leading_string_white_space}
use ens_sysres_proj.Cache.{max_path_length}
use ens_sysres_proj.Http.{
  HttpVersion, http_v1_0, http_v1_1, http_v2_0, http_unknown_version, HttpMethod, http_get,
  http_head, http_post, http_put, http_delete, http_connect, http_options, http_trace,
  http_unknown_method, http_no_method, HttpCode, http_200, http_400, http_414, http_501, http_505,
  HttpHeader, http_origin_form, HttpMessage, init_request_http_message,
}

abbrev pub http_header_min_length : ℕ
http_header_min_length = 18

-- `buffer[i]`.
abbrev pub read_byte : Bytes → ℕ → Outcome ℕ
read_byte buffer i = elim (get_elem? buffer i) [ none ↦ fault | some c ↦ ok c ]

-- One operand of a `&&`: the rest is read only if it holds.
abbrev pub and_byte : Bytes → ℕ → ℕ → Outcome Bool → Outcome Bool
and_byte buffer i c rest = do x ← read_byte buffer i; if x == c then rest else ok false

-- The condition of the loop's `if`.
unfoldable pub blank_line_at : Bytes → (index : ℕ) → Outcome Bool
blank_line_at buffer index = do
  in_bounds (leb 3 index)
  and_byte buffer (index - 3) b'\r' (
      and_byte buffer (index - 2) b'\n'
        (and_byte buffer (index - 1) b'\r' (and_byte buffer index b'\n' (ok true))))

-- One round of the loop, before the rounds for smaller indices.
abbrev pub search_round : Bytes → (end_index index : ℕ) → Outcome Bool → Outcome Bool
search_round buffer end_index index next =
    if leb end_index index
    then (do found ← blank_line_at buffer index; if found then ok true else next)
    else ok false

-- The loop. Below index 2, `index -= 2` gives a negative number, which ends it.
unfoldable pub search_blank_line : Bytes → (end_index index : ℕ) → Outcome Bool
search_blank_line buffer end zero = search_round buffer end 0 (ok false)
search_blank_line buffer end (suc zero) = search_round buffer end 1 (ok false)
search_blank_line buffer end (suc (suc index)) =
    let next = search_blank_line buffer end index in search_round buffer end (suc (suc index)) next

-- Of a length and an offset that are not negative, as they are where it is called: the offset is
-- 0 there, and the length is that of the bytes in the buffer.
unfoldable pub buffer_contains_full_http_header :
    (buffer : Bytes) (start_offset content_length : ℕ) → Outcome Bool
buffer_contains_full_http_header buffer start_offset content_length =
    if ltb content_length http_header_min_length
    then ok false
    else search_blank_line buffer (if leb 3 start_offset then start_offset - 3 else 3)
        (content_length - 1)

-- The tables, without the entry of key NULL that ends each of them.
abbrev pub accepted_methods : List (Bytes × HttpMethod)
accepted_methods =
    (codes "GET", http_get)
    ∷ (codes "HEAD", http_head)
    ∷ (codes "POST", http_post)
    ∷ (codes "PUT", http_put)
    ∷ (codes "DELETE", http_delete)
    ∷ (codes "CONNECT", http_connect)
    ∷ (codes "OPTIONS", http_options)
    ∷ (codes "TRACE", http_trace)
    ∷ []

abbrev pub accepted_versions : List (Bytes × HttpVersion)
accepted_versions =
    (codes "HTTP/1.0", http_v1_0)
    ∷ (codes "HTTP/1.1", http_v1_1)
    ∷ (codes "HTTP/2.0", http_v2_0)
    ∷ []

-- `last` is the value of the entry of key NULL. Every call has `to_uppercase` false.
unfoldable pub find_option_value_from_string {ℓ} :
    {A : Type ℓ} → List (Bytes × A) → (last : A) → Bytes → A
find_option_value_from_string [] last string = last
find_option_value_from_string ((key, value) ∷ options) last string =
    if strings_are_equal key string
    then value
    else find_option_value_from_string options last string

-- `isspace` in the C locale.
abbrev pub is_space : ℕ → Bool
is_space c = c == b' ' || (leb 9 c && leb c 13)

unfoldable pub skip_space : Bytes → Bytes
skip_space [] = []
skip_space (c ∷ cs) = if is_space c then skip_space cs else c ∷ cs

unfoldable pub take_word : Bytes → Bytes
take_word [] = []
take_word (c ∷ cs) = if is_space c || c == 0 then [] else c ∷ take_word cs

-- A word, if there is one.
abbrev pub some_word : Bytes → Option Bytes
some_word [] = none
some_word (c ∷ cs) = some (c ∷ cs)

-- `sscanf(buffer, "%ms", &word) == 1`.
unfoldable pub scan_word : Bytes → Option Bytes
unfolding skip_space take_word
scan_word buffer = some_word (take_word (skip_space buffer))

-- The pointer behind a word of that length, and behind the spaces that follow.
abbrev pub advance : Bytes → Bytes → Bytes
advance word buffer = consume_leading_string_white_space (drop (length word) buffer)

abbrev pub is_unknown_method : HttpMethod → Bool
is_unknown_method http_unknown_method = true
is_unknown_method _ = false

abbrev pub is_unknown_version : HttpVersion → Bool
is_unknown_version http_unknown_version = true
is_unknown_version _ = false

-- `buffer[0] != '\r' && buffer[1] != '\n'` gives 400.
unfoldable pub parse_line_end : HttpHeader → Bytes → Outcome (HttpHeader × HttpCode)
parse_line_end header buffer = do
  c ← read_byte buffer 0
  if c == b'\r'
      then ok (header, http_200)
      else do e ← read_byte buffer 1; ok (header, if e == b'\n' then http_200 else http_400)

-- The three parts of `parseHttpHeaderFirstLine`; each goes on with the next one. The header is
-- returned as it was filled in until then.
unfoldable pub parse_version : HttpHeader → Bytes → Outcome (HttpHeader × HttpCode)
parse_version header buffer = elim (scan_word buffer) [
  | none ↦ ok (header, http_400)
  | some word ↦
      let version = find_option_value_from_string accepted_versions http_unknown_version word in
      let header' = record header { version = version } in
      if is_unknown_version version
      then ok (header', http_505)
      else parse_line_end header' (advance word buffer)
]

unfoldable pub parse_target : HttpHeader → Bytes → Outcome (HttpHeader × HttpCode)
parse_target header buffer = elim (scan_word buffer) [
  | none ↦ ok (header, http_400)
  | some word ↦
      if ltb max_path_length (length word)
      then ok (header, http_414)
      else parse_version
          (record header { request_type = http_origin_form; request_target = some word })
          (advance word buffer)
]

unfoldable pub parse_http_header_first_line : HttpHeader → Bytes → Outcome (HttpHeader × HttpCode)
parse_http_header_first_line header buffer = elim (scan_word buffer) [
  | none ↦ ok (header, http_400)
  | some word ↦
      let method = find_option_value_from_string accepted_methods http_unknown_method word in
      let header' = record header { method = method } in
      if is_unknown_method method
      then ok (header', http_501)
      else parse_target header' (advance word buffer)
]

-- The whole message is initialised first; the result is the code of the answer.
unfoldable pub parse_http_request : Bytes → Outcome (HttpMessage × HttpCode)
parse_http_request buffer = do
  (header, code) ← parse_http_header_first_line init_request_http_message.header buffer
  ok (record init_request_http_message { header = header }, code)
