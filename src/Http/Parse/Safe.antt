-- ===== src/Http/Parse/Safe.antt =====
-- The parser reads inside of the request buffer.
use ens_sysres_proj.Common.{
  ℕ, zero, suc, ◌≤◌, ◌≡◌, refl, ◌≢◌, ◌⊎◌, inl, inr, false, some, [], ◌∷◌, Bytes, Returns, arith,
  length, drop, ltb, ◌==◌, if◌then◌else◌, Bool-cases, Option-cases,
}
use ens_sysres_proj.Toolbox.{consume_leading_string_white_space}
use ens_sysres_proj.Cache.{max_path_length}
use ens_sysres_proj.Http.{http_unknown_version, http_unknown_method, HttpHeader}
use ens_sysres_proj.Http.Parse.{
  accepted_methods, accepted_versions, find_option_value_from_string, skip_space, take_word,
  some_word, is_unknown_method, is_unknown_version, scan_word, advance, parse_line_end,
  parse_version, parse_target, parse_http_header_first_line,
}

-- A string that ends, with at least one more byte of the buffer behind its NUL.
abbrev pub IsTerminated : Bytes → Type 0
IsTerminated [] = ⊥
IsTerminated (c ∷ cs) = ((c ≡ 0) × (1 ≤ length cs)) ⊎ ((c ≢ 0) × IsTerminated cs)

-- `strlen`.
abbrev string_length : Bytes → ℕ
string_length [] = 0
string_length (c ∷ cs) = if c == 0 then 0 else suc (string_length cs)

drop-IsTerminated :
    (n : ℕ) (s : Bytes) → n ≤ string_length s → IsTerminated s → IsTerminated (drop n s)
drop-IsTerminated zero s h t = t
drop-IsTerminated (suc n) [] h t = t
drop-IsTerminated (suc n) (c ∷ cs) h (inl (e, more)) = absurd (ground arith)
drop-IsTerminated (suc n) (c ∷ cs) h (inr (ne, t)) = drop-IsTerminated n cs (ground arith) t

take_word-le : (s : Bytes) → length (take_word s) ≤ string_length s
unfolding take_word
take_word-le [] = omega arith
take_word-le (c ∷ cs) = ground (arith, take_word-le cs)

skip_space-le : (s : Bytes) → string_length (skip_space s) ≤ string_length s
unfolding skip_space
skip_space-le [] = omega arith
skip_space-le (c ∷ cs) = ground (arith, skip_space-le cs)

scan_word-le : (s : Bytes) {word : Bytes} → scan_word s ≡ some word → length word ≤ string_length s
unfolding scan_word
scan_word-le s h = go (take_word (skip_space s)) h (take_word-le (skip_space s))
  where
    go :
        (w : Bytes) {word : Bytes}
        → some_word w ≡ some word
        → length w ≤ string_length (skip_space s)
        → length word ≤ string_length s
    go [] h le = cc
    go (c ∷ cs) h le = ground (arith, skip_space-le s)

consume-IsTerminated :
    (s : Bytes) → IsTerminated s → IsTerminated (consume_leading_string_white_space s)
unfolding consume_leading_string_white_space
consume-IsTerminated [] t = t
consume-IsTerminated (c ∷ cs) (inl (e, more)) =
    let not_blank : (c == b' ') ≡ false = ground arith in rw not_blank (inl (e, more))
consume-IsTerminated (c ∷ cs) (inr (ne, t)) = elim (Bool-cases (c == b' ')) [
  | inl e ↦ rw e (consume-IsTerminated cs t)
  | inr e ↦ rw e (inr (ne, t))
]

advance-IsTerminated :
    (s : Bytes) {word : Bytes}
    → scan_word s ≡ some word
    → IsTerminated s
    → IsTerminated (advance word s)
advance-IsTerminated s {word} e t =
    consume-IsTerminated _ (drop-IsTerminated (length word) s (scan_word-le s e) t)

parse_line_end-Returns :
    (h : HttpHeader) (s : Bytes) → IsTerminated s → Returns (parse_line_end h s)
unfolding parse_line_end
parse_line_end-Returns h [] t = absurd t
parse_line_end-Returns h (c ∷ []) (inl (e, more)) = absurd (omega arith)
parse_line_end-Returns h (c ∷ []) (inr (ne, t)) = absurd t
parse_line_end-Returns h (c ∷ d ∷ cs) t = ground arith

parse_version-Returns : (h : HttpHeader) (s : Bytes) → IsTerminated s → Returns (parse_version h s)
unfolding parse_version
parse_version-Returns h s t = elim (Option-cases (scan_word s)) [
  | inl e ↦ rw (e, parse_version) refl
  | inr (word, e) ↦
      let v = find_option_value_from_string accepted_versions http_unknown_version word in
      elim (Bool-cases (is_unknown_version v)) [
        | inl e' ↦ rw (e, e', parse_version) refl
        | inr e' ↦
            rw (e, e', parse_version)
              (parse_line_end-Returns _ (advance word s) (advance-IsTerminated s e t))
      ]
]

parse_target-Returns : (h : HttpHeader) (s : Bytes) → IsTerminated s → Returns (parse_target h s)
unfolding parse_target
parse_target-Returns h s t = elim (Option-cases (scan_word s)) [
  | inl e ↦ rw (e, parse_target) refl
  | inr (word, e) ↦ elim (Bool-cases (ltb max_path_length (length word))) [
    | inl e' ↦ rw (e, e', parse_target) refl
    | inr e' ↦
        rw (e, e', parse_target)
          (parse_version-Returns _ (advance word s) (advance-IsTerminated s e t))
  ]
]

-- On a buffer with a NUL and at least one more byte behind it, the parser of the first line
-- returns: it reads no byte outside of the buffer.
pub parse_http_header_first_line-Returns :
    (h : HttpHeader) (s : Bytes) → IsTerminated s → Returns (parse_http_header_first_line h s)
unfolding parse_http_header_first_line
parse_http_header_first_line-Returns h s t = elim (Option-cases (scan_word s)) [
  | inl e ↦ rw (e, parse_http_header_first_line) refl
  | inr (word, e) ↦
      let m = find_option_value_from_string accepted_methods http_unknown_method word in
      elim (Bool-cases (is_unknown_method m)) [
        | inl e' ↦ rw (e, e', parse_http_header_first_line) refl
        | inr e' ↦
            rw (e, e', parse_http_header_first_line)
              (parse_target-Returns _ (advance word s) (advance-IsTerminated s e t))
      ]
]
