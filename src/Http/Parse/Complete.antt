-- ===== src/Http/Parse/Complete.antt =====
-- When `bufferContainsFullHttpHeader` finds the blank line that ends a header.
use ens_sysres_proj.Common.{
  ◌==◌, ◌%◌, ◌/◌, ap, sym, ℕ, zero, suc, ◌+◌, ◌-◌, ◌*◌, ◌≤◌, ◌<◌, ◌≡◌, refl, ◌⊎◌, ◌∙◌, inl, inr,
  Bool, true, false, some, List, [], ◌∷◌, Bytes, Outcome, ok, arith, length, get_elem?, leb, le→leb,
  le→not_ltb, if◌then◌else◌, Bool-cases,
}
use ens_sysres_proj.Http.Parse.{
  http_header_min_length, blank_line_at, search_round, search_blank_line,
  buffer_contains_full_http_header,
}

-- A CR LF CR LF whose last byte stands at index `i + 3`.
pub record BlankLine (buffer : Bytes) (i : ℕ) : Type 0 where
  pub first : get_elem? buffer i ≡ some b'\r'
  pub second : get_elem? buffer (i + 1) ≡ some b'\n'
  pub third : get_elem? buffer (i + 2) ≡ some b'\r'
  pub fourth : get_elem? buffer (i + 3) ≡ some b'\n'

get_elem?-some :
    {A : Type 0} (xs : List A) (i : ℕ) → i < length xs → (x : A) × (get_elem? xs i ≡ some x)
get_elem?-some [] i h = absurd (omega arith)
get_elem?-some (x ∷ xs) zero h = (x, refl)
get_elem?-some (x ∷ xs) (suc i) h = get_elem?-some xs i (omega arith)

-- Inside of the buffer the test returns, and says whether a blank line ends there.
blank_line_at-BlankLine :
    (buffer : Bytes) (i : ℕ)
    → i + 3 < length buffer
    → ((blank_line_at buffer (i + 3) ≡ ok true) × BlankLine buffer i)
      ⊎ ((blank_line_at buffer (i + 3) ≡ ok false) × ¬ BlankLine buffer i)
unfolding blank_line_at
blank_line_at-BlankLine buffer i h =
    let (a, ea) = get_elem?-some buffer i (omega arith) in
    let (b, eb) = get_elem?-some buffer (i + 1) (omega arith) in
    let (c, ec) = get_elem?-some buffer (i + 2) (omega arith) in
    let (d, ed) = get_elem?-some buffer (i + 3) (omega arith) in
    let i3 : i + 3 - 3 ≡ i = omega arith in
    let i2 : i + 3 - 2 ≡ i + 1 = omega arith in
    let i1 : i + 3 - 1 ≡ i + 2 = omega arith in
    rw (le→leb 3 (i + 3) (omega arith), i3, i2, i1) (ground (arith, ea, eb, ec, ed))

-- A blank line ends at one of the indices `index`, `index - 2`, …, from `end_index` on.
abbrev pub Found : Bytes → (end_index index : ℕ) → Type 0
Found buffer end_index index =
    (i : ℕ) × (j : ℕ) × (i + 3 + 2 * j ≡ index) × (end_index ≤ i + 3) × BlankLine buffer i

-- The loop returns, and finds exactly those blank lines.
abbrev pub Searches : Bytes → (end_index index : ℕ) → Outcome Bool → Type 0
Searches buffer end_index index m =
    ((m ≡ ok true) × Found buffer end_index index)
    ⊎ ((m ≡ ok false) × ¬ Found buffer end_index index)

search_round-eq :
    (buffer : Bytes) (end index : ℕ) (found : Bool) (next : Outcome Bool)
    → leb end index ≡ true
    → blank_line_at buffer index ≡ ok found
    → search_round buffer end index next ≡ (if found then ok true else next)
search_round-eq buffer end index found next e e' = rw (e, e')

search_step :
    (buffer : Bytes) (end index i : ℕ) {next : Outcome Bool}
    → i + 3 ≡ suc (suc index)
    → leb end (suc (suc index)) ≡ true
    → ((blank_line_at buffer (i + 3) ≡ ok true) × BlankLine buffer i)
      ⊎ ((blank_line_at buffer (i + 3) ≡ ok false) × ¬ BlankLine buffer i)
    → Searches buffer end index next
    → Searches buffer end (suc (suc index)) (search_round buffer end (suc (suc index)) next)
search_step buffer end index i {next} n large (inl (t, b)) rest = inl (
  search_round-eq buffer end (suc (suc index)) true next large (rw n at t),
  (i, 0, omega arith, ground arith, b),
)
search_step buffer end index i {next} n large (inr (t, nb)) (inl (e, (i', j, e', le, b))) = inl (
  search_round-eq buffer end (suc (suc index)) false next large (rw n at t) ∙ e,
  (i', suc j, omega arith, le, b),
)
search_step buffer end index i {next} n large (inr (t, nb)) (inr (e, none_found)) =
    inr (search_round-eq buffer end (suc (suc index)) false next large (rw n at t) ∙ e, not_found)
  where
    not_found : ¬ Found buffer end (suc (suc index))
    not_found (i', zero, e', le, b) = let same : i' ≡ i = omega arith in nb (rw same at b)
    not_found (i', suc j, e', le, b) = none_found (i', j, omega arith, le, b)

search_blank_line-Searches :
    (buffer : Bytes) (end index : ℕ)
    → 3 ≤ end
    → index < length buffer
    → Searches buffer end index (search_blank_line buffer end index)
unfolding search_blank_line
search_blank_line-Searches buffer end zero lo hi =
    inr (ground arith, λ (i, j, e, le, b). omega arith)
search_blank_line-Searches buffer end (suc zero) lo hi =
    inr (ground arith, λ (i, j, e, le, b). omega arith)
search_blank_line-Searches buffer end (suc (suc index)) lo hi =
    elim (Bool-cases (leb end (suc (suc index)))) [
      | inr small ↦ inr (rw (small, search_blank_line), λ (i, j, e, le, b). ground arith)
      | inl large ↦
          let i = suc (suc index) - 3 in
          let n : i + 3 ≡ suc (suc index) = ground arith in
          search_step buffer end index i n (ground arith)
            (blank_line_at-BlankLine buffer i (rw n hi))
            (search_blank_line-Searches buffer end index lo (omega arith))
    ]

-- For a content of at least 18 bytes that lies inside of the buffer, the search from offset 0
-- returns, without reading outside of the buffer. It returns true exactly if a CR LF CR LF ends
-- at the content's last index or at an even distance in front of it.
pub buffer_contains_full_http_header-Searches :
    (buffer : Bytes) (content_length : ℕ)
    → http_header_min_length ≤ content_length
    → content_length ≤ length buffer
    → Searches buffer 3
        (content_length - 1)
        (buffer_contains_full_http_header buffer 0 content_length)
unfolding buffer_contains_full_http_header
buffer_contains_full_http_header-Searches buffer n long fits =
    rw (le→not_ltb http_header_min_length n long)
      (search_blank_line-Searches buffer 3 (n - 1) (omega arith) (omega arith))

-- For a content of at least 18 bytes that lies inside of the buffer, if the content ends with a
-- CR LF CR LF, then the search from offset 0 returns true.
pub buffer_contains_full_http_header_at_end :
    (buffer : Bytes) (i content_length : ℕ)
    → http_header_min_length ≤ content_length
    → content_length ≤ length buffer
    → i + 4 ≡ content_length
    → BlankLine buffer i
    → buffer_contains_full_http_header buffer 0 content_length ≡ ok true
buffer_contains_full_http_header_at_end buffer i n long fits e b =
    elim (buffer_contains_full_http_header-Searches buffer n long fits) [
      | inl (h, _) ↦ h
      | inr (_, none_found) ↦ absurd (none_found (i, 0, omega arith, omega arith, b))
    ]

-- For a content of at least 18 bytes that lies inside of the buffer, and in which exactly one CR
-- LF CR LF stands, followed by n bytes of the content: the search from offset 0 returns true if n
-- is even, and false if it is odd, whatever stands in the buffer behind the content.
pub buffer_contains_full_http_header_parity :
    (buffer : Bytes) (i n content_length : ℕ)
    → http_header_min_length ≤ content_length
    → content_length ≤ length buffer
    → i + 4 + n ≡ content_length
    → BlankLine buffer i
    → ((i' : ℕ) → i' + 4 ≤ content_length → BlankLine buffer i' → i' ≡ i)
    → buffer_contains_full_http_header buffer 0 content_length ≡ ok (n % 2 == 0)
buffer_contains_full_http_header_parity buffer i n size long fits e b only =
    elim (buffer_contains_full_http_header-Searches buffer size long fits) [
      | inl (h, (i', j, e', _, b')) ↦
          let same : i' ≡ i = only i' (omega arith) b' in
          let even : n ≡ 2 * j = omega arith in h ∙ ap ok (sym (rw even (ground arith)))
      | inr (h, none_found) ↦ elim (Bool-cases (n % 2 == 0)) [
        | inl even ↦ absurd (none_found (i, n / 2, ground arith, omega arith, b))
        | inr odd ↦ h ∙ ap ok (sym odd)
      ]
    ]
