-- ===== src/Tests/Search.antt =====
-- The search for the end of a request's header.
use ens_sysres_proj.Common.{
  ℕ, zero, suc, ◌+◌, ◌≤◌, ◌<◌, ◌≡◌, refl, [], ◌∷◌, ◌++◌, Bytes, codes, ok, true, false, some, not,
  all, ◌==◌, arith, length, get_elem?, Bool-cases, inl, inr,
}
use ens_sysres_proj.Http.Parse.{blank_line_at, search_blank_line, buffer_contains_full_http_header}
use ens_sysres_proj.Http.Parse.Complete.{
  BlankLine, Searches, buffer_contains_full_http_header-Searches,
  buffer_contains_full_http_header_parity,
}

abbrev whole : Bytes
whole = codes "GET / HTTP/1.1\r\n\r\n"

-- The same with one byte behind it.
abbrev odd : Bytes
odd = codes "GET / HTTP/1.1\r\n\r\nx"

buffer_contains_full_http_header-Searches_example :
    Searches whole 3 17 (buffer_contains_full_http_header whole 0 18)
buffer_contains_full_http_header-Searches_example =
    buffer_contains_full_http_header-Searches whole 18 (omega arith) (omega arith)

whole-BlankLine : BlankLine whole 14
whole-BlankLine = record { first = refl; second = refl; third = refl; fourth = refl }

odd-BlankLine : BlankLine odd 14
odd-BlankLine = record { first = refl; second = refl; third = refl; fourth = refl }

get_elem?-bound : (xs : Bytes) (i : ℕ) {c : ℕ} → get_elem? xs i ≡ some c → i < length xs
get_elem?-bound [] i e = cc
get_elem?-bound (x ∷ xs) zero e = omega arith
get_elem?-bound (x ∷ xs) (suc i) e = omega (arith, get_elem?-bound xs i e)

get_elem?-front :
    (front rest : Bytes) (i : ℕ)
    → all (λ c. not (c == b'\r')) front ≡ true
    → get_elem? (front ++ rest) i ≡ some b'\r'
    → length front ≤ i
get_elem?-front [] rest i h e = omega arith
get_elem?-front (c ∷ cs) rest zero h e = ground arith
get_elem?-front (c ∷ cs) rest (suc i) h e =
    omega (arith, get_elem?-front cs rest i (ground arith) e)

-- A CR stands at indices 14 and 16 only.
odd_only : (i : ℕ) → BlankLine odd i → i ≡ 14
odd_only i b =
    let low = get_elem?-front (codes "GET / HTTP/1.1") (codes "\r\n\r\nx") i refl b.first in
    let high = get_elem?-bound odd (i + 3) b.fourth in
    elim (Bool-cases (i == 15)) [
      | inl e ↦ let same : i ≡ 15 = ground arith in cc (rw same at b.first)
      | inr e ↦ ground arith
    ]

buffer_contains_full_http_header_parity_example :
    buffer_contains_full_http_header odd 0 19 ≡ ok false
buffer_contains_full_http_header_parity_example =
    buffer_contains_full_http_header_parity odd 14 1 19 (omega arith) (omega arith) (omega arith)
      odd-BlankLine (λ i _ b. odd_only i b)

misses_odd : buffer_contains_full_http_header odd 0 19 ≡ ok false
unfolding buffer_contains_full_http_header search_blank_line blank_line_at
misses_odd = refl
