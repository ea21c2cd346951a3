-- ===== src/Toolbox/Paths.antt =====
-- Paths: what `appendNameToPath` builds, `extractLastNameOfPath` takes apart.
use native.Mathlib.Numerals.{add-one, one-add}
use ens_sysres_proj.Common.{
  >>=-eq-ok, Bool-cases, ℕ, suc, ◌+◌, ◌≤◌, ◌≡◌, refl, ap, ◌∙◌, ◌⊎◌, inl, inr, Bool, true, false,
  not, some, [], ◌∷◌, ◌++◌, append_assoc, Bytes, ok, ok-injective, sym, arith, length,
  length-append, drop, all, ◌==◌, if◌then◌else◌,
}
use ens_sysres_proj.Toolbox.{
  last_slash, extract_last_name_of_path, ends_with_slash, append_name, append_name_to_path,
}

-- No `/` among the characters.
abbrev pub is_plain : Bytes → Bool
is_plain = all (λ c. not (c == b'/'))

last_slash_plain :
    (name : Bytes) (i last : ℕ) → is_plain name ≡ true → last_slash name i last ≡ last
unfolding last_slash
last_slash_plain [] i last h = refl
last_slash_plain (c ∷ cs) i last h = ground (arith, last_slash_plain cs (i + 1) last)

last_slash-append :
    (front name : Bytes) (i last : ℕ)
    → is_plain name ≡ true
    → last_slash (front ++ b'/' ∷ name) i last ≡ i + length front
unfolding last_slash
last_slash-append [] name i last h = ground (arith, last_slash_plain name (i + 1) i h)
last_slash-append (c ∷ cs) name i last h =
    ground (arith, last_slash-append cs name (i + 1) (if c == b'/' then i else last) h)

drop-suc-append :
    (front name : Bytes) (c : ℕ) → drop (suc (length front)) (front ++ c ∷ name) ≡ name
drop-suc-append [] name c = refl
drop-suc-append (x ∷ xs) name c = drop-suc-append xs name c

-- The last name of a path that ends with a slash and a name without a slash is that name.
pub extract-slash :
    (front name : Bytes)
    → is_plain name ≡ true
    → extract_last_name_of_path (front ++ b'/' ∷ name) ≡ ok name
unfolding extract_last_name_of_path
extract-slash [] name h = rw (last_slash_plain name 1 0 h)
extract-slash (c ∷ cs) name h =
    rw (last_slash-append cs name 1 0 h, add-one, one-add)
      (ap ok (drop-suc-append (c ∷ cs) name b'/'))

-- What a folder is named by its path: what stands behind the last slash, or, in a path without a
-- slash, what stands behind its first character.
abbrev pub IsLastName : (path name : Bytes) → Type 0
IsLastName path name =
    ((front : Bytes) × (path ≡ front ++ b'/' ∷ name) × (is_plain name ≡ true))
    ⊎ ((c : ℕ) × (path ≡ c ∷ name) × (is_plain path ≡ true))

last-or-plain :
    (cs : Bytes)
    → (is_plain cs ≡ true)
      ⊎ ((front : Bytes) × (name : Bytes) × (cs ≡ front ++ b'/' ∷ name) × (is_plain name ≡ true))
last-or-plain [] = inl refl
last-or-plain (c ∷ cs) = elim (last-or-plain cs) [
  | inr (front, name, e, plain) ↦ inr (c ∷ front, name, ap (◌∷◌ c) e, plain)
  | inl plain ↦ elim (Bool-cases (c == b'/')) [
    | inl e ↦
        inr ([], cs, (let same : c ≡ b'/' = ground arith in ap (λ (x : ℕ). x ∷ cs) same), plain)
    | inr e ↦ inl (rw (e, plain) refl)
  ]
]

extract_plain :
    (c : ℕ) (cs : Bytes) → is_plain cs ≡ true → extract_last_name_of_path (c ∷ cs) ≡ ok cs
unfolding extract_last_name_of_path
extract_plain c cs plain = rw (last_slash_plain cs 1 0 plain)

pub extract-IsLastName :
    (path name : Bytes) → extract_last_name_of_path path ≡ ok name → IsLastName path name
unfolding extract_last_name_of_path
extract-IsLastName [] name h = cc
extract-IsLastName (c ∷ cs) name h = elim (last-or-plain (c ∷ cs)) [
  | inr (front, n, e, plain) ↦
      let same : n ≡ name =
        ok-injective
          (sym (extract-slash front n plain) ∙ sym (ap extract_last_name_of_path e) ∙ h) in
      inl (front, e ∙ ap (λ (x : Bytes). front ++ b'/' ∷ x) same, sym (ap is_plain same) ∙ plain)
  | inl plain ↦
      let rest : is_plain cs ≡ true = ground (arith, plain) in
      inr (c, ap (◌∷◌ c) (ok-injective (sym (extract_plain c cs rest) ∙ h)), plain)
]

pub IsLastName-extract :
    (path name : Bytes) → IsLastName path name → extract_last_name_of_path path ≡ ok name
IsLastName-extract path name (inl (front, e, plain)) =
    ap extract_last_name_of_path e ∙ extract-slash front name plain
IsLastName-extract path name (inr (c, e, plain)) =
    let rest : is_plain name ≡ true = ground (arith, sym (ap is_plain e) ∙ plain) in
    ap extract_last_name_of_path e ∙ extract_plain c name rest

ends_with_slash-cases :
    (c : ℕ) (cs : Bytes)
    → (ends_with_slash (c ∷ cs) ≡ ok false)
      ⊎ ((front : Bytes) × (c ∷ cs ≡ front ++ b'/' ∷ []) × (ends_with_slash (c ∷ cs) ≡ ok true))
unfolding ends_with_slash
ends_with_slash-cases c [] = elim (Bool-cases (c == b'/')) [
  | inl e ↦ inr ([], ground arith, ap ok e)
  | inr e ↦ inl (ap ok e)
]
ends_with_slash-cases c (d ∷ cs) = elim (ends_with_slash-cases d cs) [
  | inl e ↦ inl e
  | inr (front, e, t) ↦ inr (c ∷ front, ap (◌∷◌ c) e, t)
]

-- What `appendNameToPath` leaves in `path`, and when it says that the name does not fit.
pub record Joins (path name : Bytes) (max : ℕ) (p : Bytes) : Type 0 where
  pub last_name : is_plain name ≡ true → extract_last_name_of_path p ≡ ok name
  pub front : Bytes
  pub starts : p ≡ path ++ front
  pub grows : length path + length name ≤ length p
  pub fits : length p ≤ max + 1
  pub size : length p ≤ length path + length name + 1

-- What stands between the path and the name.
abbrev separator : Bool → Bytes
separator true = []
separator false = b'/' ∷ []

separator-length : (slash : Bool) → length (separator slash) ≤ 1
separator-length true = omega arith
separator-length false = omega arith

append_name-eq :
    (slash : Bool) (path name : Bytes) (max : ℕ) {p : Bytes}
    → append_name slash path name max ≡ some p
    → (p ≡ path ++ (separator slash ++ name))
      × (length path + length name + length (separator slash) ≤ max + 1)
unfolding append_name
append_name-eq true path name max h = ground arith
append_name-eq false path name max h = ground arith

separator-last_name :
    (slash : Bool) (c : ℕ) (cs name : Bytes)
    → ends_with_slash (c ∷ cs) ≡ ok slash
    → is_plain name ≡ true
    → extract_last_name_of_path ((c ∷ cs) ++ (separator slash ++ name)) ≡ ok name
separator-last_name slash c cs name e h = elim (ends_with_slash-cases c cs) [
  | inl t ↦ let s : slash ≡ false = cc in rw s (extract-slash (c ∷ cs) name h)
  | inr (front, eq, t) ↦
      let s : slash ≡ true = cc in
      rw s (
        ap (λ (q : Bytes). extract_last_name_of_path (q ++ name)) eq
        ∙ rw append_assoc (extract-slash front name h))
]

append_name-Joins :
    (slash : Bool) (c : ℕ) (cs name : Bytes) (max : ℕ) {p : Bytes}
    → ends_with_slash (c ∷ cs) ≡ ok slash
    → append_name slash (c ∷ cs) name max ≡ some p
    → Joins (c ∷ cs) name max p
append_name-Joins slash c cs name max {p} e h = record {
  last_name = λ plain. rw q.0 (separator-last_name slash c cs name e plain);
  front = separator slash ++ name;
  starts = q.0;
  grows = omega (arith, sum, q.1);
  fits = omega (arith, sum, q.1);
  size = omega (arith, sum, separator-length slash);
}
  where
    q :
        (p ≡ (c ∷ cs) ++ (separator slash ++ name))
        × (length (c ∷ cs) + length name + length (separator slash) ≤ max + 1)
    q = append_name-eq slash (c ∷ cs) name max h

    sum : length p ≡ length (c ∷ cs) + length (separator slash) + length name
    sum =
        ap length q.0
        ∙ omega (
          arith,
          length-append (c ∷ cs) (separator slash ++ name),
          length-append (separator slash) name,
        )

-- Where a name is appended to a path, the result begins with the path, has at most one byte more
-- than both and at most one byte more than the maximal length, and its last name is the appended
-- name, if that has no slash.
pub append_name_to_path-Joins :
    (path name : Bytes) (max : ℕ) {p : Bytes}
    → append_name_to_path path name max ≡ ok (some p)
    → Joins path name max p
unfolding append_name_to_path ends_with_slash
append_name_to_path-Joins [] name max h = cc
append_name_to_path-Joins (c ∷ cs) name max h =
    let (slash, e, t) = >>=-eq-ok (ends_with_slash (c ∷ cs)) _ h in
    append_name-Joins slash c cs name max e (cc t)
