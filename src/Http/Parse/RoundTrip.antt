-- ===== src/Http/Parse/RoundTrip.antt =====
-- A request line that is written by the rules is read back.
use ens_sysres_proj.Common.{
  ℕ, suc, ◌≤◌, ◌≡◌, refl, ◌≢◌, ap, ◌∙◌, Bool, true, false, not, ◌||◌, some, [], ◌∷◌, ◌++◌, Bytes,
  codes, bytes_eq, ok, arith, length, drop-append, all, le→not_ltb, ◌==◌,
}
use ens_sysres_proj.Toolbox.{consume_leading_string_white_space}
use ens_sysres_proj.Toolbox.Spaces.{spaces, consume-spaces}
use ens_sysres_proj.Cache.{max_path_length}
use ens_sysres_proj.Http.{
  HttpVersion, http_v1_0, http_v1_1, http_v2_0, http_unknown_version, HttpMethod, http_get,
  http_head, http_post, http_put, http_delete, http_connect, http_options, http_trace,
  http_unknown_method, http_no_method, http_200, HttpHeader, http_origin_form,
}
use ens_sysres_proj.Http.Parse.{
  accepted_methods, accepted_versions, find_option_value_from_string, is_space, take_word,
  is_unknown_method, is_unknown_version, scan_word, advance, parse_line_end, parse_version,
  parse_target, parse_http_header_first_line,
}

-- The name of a method in a request, and of a version.
unfoldable pub method_name : HttpMethod → Bytes
method_name http_get = codes "GET"
method_name http_head = codes "HEAD"
method_name http_post = codes "POST"
method_name http_put = codes "PUT"
method_name http_delete = codes "DELETE"
method_name http_connect = codes "CONNECT"
method_name http_options = codes "OPTIONS"
method_name http_trace = codes "TRACE"
method_name http_unknown_method = []
method_name http_no_method = []

unfoldable pub version_name : HttpVersion → Bytes
version_name http_v1_0 = codes "HTTP/1.0"
version_name http_v1_1 = codes "HTTP/1.1"
version_name http_v2_0 = codes "HTTP/2.0"
version_name http_unknown_version = []

-- A word: bytes that are no white space and no NUL, at least one.
abbrev pub ends_word : ℕ → Bool
ends_word c = is_space c || c == 0

pub record IsWord (word : Bytes) : Type 0 where
  pub nonempty : 1 ≤ length word
  pub plain : all (λ c. not (ends_word c)) word ≡ true

pub record IsMethod (m : HttpMethod) : Type 0 where
  pub not_unknown : m ≢ http_unknown_method
  pub not_none : m ≢ http_no_method

method_name-IsWord : (m : HttpMethod) → IsMethod m → IsWord (method_name m)
unfolding method_name
method_name-IsWord http_unknown_method h = absurd (h.not_unknown refl)
method_name-IsWord http_no_method h = absurd (h.not_none refl)
method_name-IsWord _ h = record { nonempty = omega arith; plain = refl }

find-method_name :
    (m : HttpMethod)
    → IsMethod m
    → find_option_value_from_string accepted_methods http_unknown_method (method_name m) ≡ m
unfolding method_name find_option_value_from_string bytes_eq
find-method_name http_unknown_method h = absurd (h.not_unknown refl)
find-method_name http_no_method h = absurd (h.not_none refl)
find-method_name _ h = refl

version_name-IsWord : (v : HttpVersion) → v ≢ http_unknown_version → IsWord (version_name v)
unfolding version_name
version_name-IsWord http_unknown_version h = absurd (h refl)
version_name-IsWord _ h = record { nonempty = omega arith; plain = refl }

find-version_name :
    (v : HttpVersion)
    → v ≢ http_unknown_version
    → find_option_value_from_string accepted_versions http_unknown_version (version_name v) ≡ v
unfolding version_name find_option_value_from_string bytes_eq
find-version_name http_unknown_version h = absurd (h refl)
find-version_name _ h = refl

method_known : (m : HttpMethod) → IsMethod m → is_unknown_method m ≡ false
method_known http_unknown_method h = absurd (h.not_unknown refl)
method_known _ h = refl

version_known : (v : HttpVersion) → v ≢ http_unknown_version → is_unknown_version v ≡ false
version_known http_unknown_version h = absurd (h refl)
version_known _ h = refl

take_word-append :
    (word : Bytes) (c : ℕ) (rest : Bytes)
    → all (λ c. not (ends_word c)) word ≡ true
    → ends_word c ≡ true
    → take_word (word ++ c ∷ rest) ≡ word
unfolding take_word
take_word-append [] c rest h e = rw e
take_word-append (x ∷ xs) c rest h e = ground (arith, take_word-append xs c rest)

-- A word in front of its end is what `sscanf` reads.
pub scan_word-append :
    (word : Bytes) (c : ℕ) (rest : Bytes)
    → IsWord word
    → ends_word c ≡ true
    → scan_word (word ++ c ∷ rest) ≡ some word
unfolding scan_word
scan_word-append [] c rest h e = absurd (omega arith)
scan_word-append (x ∷ xs) c rest h e = ground (arith, take_word-append (x ∷ xs) c rest h.plain e)

advance-append :
    (word : Bytes) (n c : ℕ) (rest : Bytes)
    → (c == b' ') ≡ false
    → advance word (word ++ (spaces n ++ c ∷ rest)) ≡ c ∷ rest
advance-append word n c rest h =
    ap consume_leading_string_white_space (drop-append word (spaces n ++ c ∷ rest))
    ∙ consume-spaces n c rest h

-- Where the next word begins with `x`.
advance-word :
    (word : Bytes) (n : ℕ) (next rest : Bytes)
    → IsWord next
    → advance word (word ++ (spaces n ++ (next ++ rest))) ≡ next ++ rest
advance-word word n [] rest h = absurd (omega arith)
advance-word word n (x ∷ xs) rest h = advance-append word n x (xs ++ rest) (ground (arith, h.plain))

-- One or more spaces stand behind the method and behind the target.
abbrev pub after_target : (b : ℕ) → HttpVersion → (rest : Bytes) → Bytes
after_target b v rest = spaces (suc b) ++ (version_name v ++ b'\r' ∷ rest)

abbrev pub request_line : HttpMethod → ℕ → Bytes → ℕ → HttpVersion → Bytes → Bytes
request_line m a target b v rest =
    method_name m ++ (spaces (suc a) ++ (target ++ after_target b v rest))

parse_version-name :
    (h : HttpHeader) (v : HttpVersion) (rest : Bytes)
    → v ≢ http_unknown_version
    → parse_version h (version_name v ++ b'\r' ∷ rest) ≡ ok (record h { version = v }, http_200)
unfolding parse_version parse_line_end
parse_version-name h v rest known = rw (
  scan_word-append (version_name v) b'\r' rest (version_name-IsWord v known) refl,
  find-version_name v known,
  version_known v known,
  advance-append (version_name v) 0 b'\r' rest refl,
  parse_version,
)

parse_target-word :
    (h : HttpHeader) (target : Bytes) (b : ℕ) (v : HttpVersion) (rest : Bytes)
    → IsWord target
    → v ≢ http_unknown_version
    → length target ≤ max_path_length
    → parse_target h (target ++ after_target b v rest)
      ≡ ok (
        record h { request_type = http_origin_form; request_target = some target; version = v },
        http_200,
      )
unfolding parse_target
parse_target-word h target b v rest word known short =
    rw
      (
        scan_word-append target b' ' (spaces b ++ (version_name v ++ b'\r' ∷ rest)) word refl,
        le→not_ltb (length target) max_path_length short,
        advance-word target (suc b) (version_name v) (b'\r' ∷ rest) (version_name-IsWord v known),
        parse_target,
      )
      (parse_version-name _ v rest known)

-- Printing a known method, a target of 1 to MAX_PATH_LENGTH bytes without white space and NUL,
-- and a known version, with one or more spaces between them and a CR behind them, and parsing the
-- result gives code 200 and a header with that method, target and version in origin form, all
-- other fields kept.
pub parse_http_header_first_line-request_line :
    (h : HttpHeader) (m : HttpMethod) (a : ℕ) (target : Bytes) (b : ℕ) (v : HttpVersion)
    (rest : Bytes)
    → IsMethod m
    → IsWord target
    → v ≢ http_unknown_version
    → length target ≤ max_path_length
    → parse_http_header_first_line h (request_line m a target b v rest)
      ≡ ok (
        record h {
          method = m;
          request_type = http_origin_form;
          request_target = some target;
          version = v;
        },
        http_200,
      )
unfolding parse_http_header_first_line
parse_http_header_first_line-request_line h m a target b v rest method word known short =
    rw
      (
        scan_word-append (method_name m) b' ' (spaces a ++ (target ++ after_target b v rest))
            (method_name-IsWord m method) refl,
        find-method_name m method,
        method_known m method,
        advance-word (method_name m) (suc a) target (after_target b v rest) word,
        parse_http_header_first_line,
      )
      (parse_target-word _ target b v rest word known short)
