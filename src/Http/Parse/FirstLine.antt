-- ===== src/Http/Parse/FirstLine.antt =====
-- What every call of `parseHttpHeaderFirstLine` returns, and what it reads.
use ens_sysres_proj.Common.{
  ◌≤◌, ◌≡◌, refl, ◌≢◌, inl, inr, false, Option, none, some, [], ◌∷◌, Bytes, ok, AllOk, AllOk-bind,
  AllOk-elim, not_ltb→le, arith, length, ltb, ◌==◌, Bool-cases, Option-cases,
}
use ens_sysres_proj.Cache.{max_path_length}
use ens_sysres_proj.Http.{
  HttpVersion, http_unknown_version, HttpMethod, http_unknown_method, HttpCode, http_200, http_400,
  http_414, http_501, http_505, HttpHeader, http_origin_form,
}
use ens_sysres_proj.Http.Parse.{
  accepted_methods, accepted_versions, find_option_value_from_string, skip_space, take_word,
  some_word, is_unknown_method, is_unknown_version, scan_word, advance, read_byte, parse_line_end,
  parse_version, parse_target, parse_http_header_first_line,
}

-- The codes that the parser gives.
abbrev pub IsParseCode : HttpCode → Type 0
IsParseCode http_200 = Unit {0}
IsParseCode http_400 = Unit {0}
IsParseCode http_414 = Unit {0}
IsParseCode http_501 = Unit {0}
IsParseCode http_505 = Unit {0}
IsParseCode _ = ⊥

-- A target that the cache can be asked for.
abbrev pub IsTarget : Option Bytes → Type 0
IsTarget none = ⊥
IsTarget (some target) = (1 ≤ length target) × (length target ≤ max_path_length)

-- A header with all that the first line gives.
pub record IsComplete (h : HttpHeader) : Type 0 where
  pub method_known : h.method ≢ http_unknown_method
  pub version_known : h.version ≢ http_unknown_version
  pub origin : h.request_type ≡ http_origin_form
  pub target : IsTarget h.request_target

pub record Parsed (h : HttpHeader) (c : HttpCode) : Type 0 where
  pub code : IsParseCode c
  pub complete : c ≡ http_200 → IsComplete h

scan_word-length : (buffer : Bytes) {word : Bytes} → scan_word buffer ≡ some word → 1 ≤ length word
unfolding scan_word
scan_word-length buffer h = go (take_word (skip_space buffer)) h
  where
    go : (w : Bytes) {word : Bytes} → some_word w ≡ some word → 1 ≤ length word
    go [] h = cc
    go (c ∷ cs) h = ground arith

abbrev Post : HttpHeader × HttpCode → Type 0
Post (h, c) = Parsed h c

unknown_version : (v : HttpVersion) → is_unknown_version v ≡ false → v ≢ http_unknown_version
unknown_version v h e = ground arith

unknown_method : (m : HttpMethod) → is_unknown_method m ≡ false → m ≢ http_unknown_method
unknown_method m h e = ground arith

parse_line_end-Parsed :
    (h : HttpHeader) (buffer : Bytes) → IsComplete h → AllOk Post (parse_line_end h buffer)
unfolding parse_line_end
parse_line_end-Parsed h buffer full = AllOk-bind Post (read_byte buffer 0) _ λ c _.
    elim (Bool-cases (c == b'\r')) [
      | inl e ↦ rw e (record { code = tt; complete = λ _. full })
      | inr e ↦ rw e (
          AllOk-bind Post (read_byte buffer 1) _ λ d _. elim (Bool-cases (d == b'\n')) [
            | inl e' ↦ rw e' (record { code = tt; complete = λ _. full })
            | inr e' ↦ rw e' (record { code = tt; complete = λ x. cc })
          ])
    ]

parse_version-Parsed :
    (h : HttpHeader) (buffer : Bytes)
    → h.method ≢ http_unknown_method
    → h.request_type ≡ http_origin_form
    → IsTarget h.request_target
    → AllOk Post (parse_version h buffer)
unfolding parse_version
parse_version-Parsed h buffer method origin target = elim (Option-cases (scan_word buffer)) [
  | inl e ↦ rw (e, parse_version) (record { code = tt; complete = λ x. cc })
  | inr (word, e) ↦
      let v = find_option_value_from_string accepted_versions http_unknown_version word in
      elim (Bool-cases (is_unknown_version v)) [
        | inl e' ↦ rw (e, e', parse_version) (record { code = tt; complete = λ x. cc })
        | inr e' ↦
            rw (e, e', parse_version)
              (parse_line_end-Parsed (record h { version = v }) (advance word buffer)
                (record {
                  method_known = method;
                  version_known = unknown_version v e';
                  origin = origin;
                  target = target;
                }))
      ]
]

parse_target-Parsed :
    (h : HttpHeader) (buffer : Bytes)
    → h.method ≢ http_unknown_method
    → AllOk Post (parse_target h buffer)
unfolding parse_target
parse_target-Parsed h buffer method = elim (Option-cases (scan_word buffer)) [
  | inl e ↦ rw (e, parse_target) (record { code = tt; complete = λ x. cc })
  | inr (word, e) ↦ elim (Bool-cases (ltb max_path_length (length word))) [
    | inl e' ↦ rw (e, e', parse_target) (record { code = tt; complete = λ x. cc })
    | inr e' ↦
        rw (e, e', parse_target)
          (parse_version-Parsed
            (record h { request_type = http_origin_form; request_target = some word })
            (advance word buffer) method refl
            (scan_word-length buffer e, not_ltb→le max_path_length (length word) e'))
  ]
]

parse-Parsed :
    (h : HttpHeader) (buffer : Bytes) → AllOk Post (parse_http_header_first_line h buffer)
unfolding parse_http_header_first_line
parse-Parsed h buffer = elim (Option-cases (scan_word buffer)) [
  | inl e ↦ rw (e, parse_http_header_first_line) (record { code = tt; complete = λ x. cc })
  | inr (word, e) ↦
      let m = find_option_value_from_string accepted_methods http_unknown_method word in
      elim (Bool-cases (is_unknown_method m)) [
        | inl e' ↦
            rw (e, e', parse_http_header_first_line) (record { code = tt; complete = λ x. cc })
        | inr e' ↦
            rw (e, e', parse_http_header_first_line)
              (parse_target-Parsed (record h { method = m }) (advance word buffer)
                (unknown_method m e'))
      ]
]

-- Where the parser of the first line returns, its code is 200, 400, 414, 501 or 505, and with 200
-- the method and the version are known, the request is in origin form, and the target has 1 to
-- MAX_PATH_LENGTH bytes.
pub parse_http_header_first_line-Parsed :
    (h : HttpHeader) (buffer : Bytes) {h' : HttpHeader} {c : HttpCode}
    → parse_http_header_first_line h buffer ≡ ok (h', c)
    → Parsed h' c
parse_http_header_first_line-Parsed h buffer = AllOk-elim Post _ (parse-Parsed h buffer)
