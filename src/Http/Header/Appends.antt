-- ===== src/Http/Header/Appends.antt =====
-- The steps that write one text behind another into the header's buffer.
use ens_sysres_proj.Common.{
  take-append_length, ℕ, suc, ◌+◌, ◌-◌, ◌≤◌, ◌<◌, ◌≡◌, refl, ap, sym, subst, ◌∙◌, true, [], ◌∷◌,
  ◌++◌, append_assoc, append-nil, Bytes, Outcome, ok, ◌>>=◌, >>=-ok, arith, length, length-append,
  length-drop, take, drop, take_all, leb, le→leb, add_int, ◌^◌,
}
use ens_sysres_proj.Http.Header.{overwrite, room, snprintf, append_text}

-- The state of a writer that began at `base`: the buffer begins with the text so far.
pub record Holds (size base : ℕ) (s : Bytes × ℕ) (text : Bytes) : Type 0 where
  pub tail : Bytes
  pub starts : s.0 ≡ text ++ tail
  pub capacity : length s.0 ≡ size
  pub position : base + s.1 ≡ length text

-- A step of the writer that adds a text, if the whole fits with its NUL.
abbrev pub Appends : (size base : ℕ) → (Bytes × ℕ → Outcome (Bytes × ℕ)) → Bytes → Type 0
Appends size base step t =
    (s : Bytes × ℕ) (text : Bytes)
    → Holds size base s text
    → length text + length t < size
    → (s' : Bytes × ℕ) × (step s ≡ ok s') × Holds size base s' (text ++ t)

overwrite-Holds :
    (size base : ℕ) (s : Bytes × ℕ) (text t : Bytes)
    → Holds size base s text
    → length text + length t < size
    → overwrite s.0 (base + s.1) (t ++ 0 ∷ [])
      ≡ ok (text ++ ((t ++ 0 ∷ []) ++ drop (length text + length (t ++ 0 ∷ [])) s.0))
unfolding overwrite
overwrite-Holds size base s text t h lt =
    let fits : leb (length text + length (t ++ 0 ∷ [])) (length s.0) ≡ true =
      le→leb _ _ (omega (arith, length-append t (0 ∷ []), h.capacity)) in
    let begins : take (length text) s.0 ≡ text =
      ap (take (length text)) h.starts ∙ take-append_length text h.tail in
    rw (h.position, fits, begins)

snprintf-Holds :
    (size base : ℕ) (s : Bytes × ℕ) (text t : Bytes) (n : ℕ)
    → Holds size base s text
    → length text + suc n ≡ size
    → length t ≤ n
    → (buffer : Bytes) × (snprintf s.0 (base + s.1) (suc n) t ≡ ok (buffer, length t))
      × Holds size base (buffer, s.1 + length t) (text ++ t)
unfolding snprintf
snprintf-Holds size base s text t n h e le =
    let out : Bytes = t ++ 0 ∷ [] in
    let rest : Bytes = drop (length text + length out) s.0 in
    let lt : length text + length t < size = omega arith in
    (
      text ++ (out ++ rest),
      (rw (take_all n t le, overwrite-Holds size base s text t h lt)),
      record {
        tail = 0 ∷ rest;
        starts = simp append_assoc;
        capacity = omega (
          arith,
          length-append text (out ++ rest),
          length-append out rest,
          length-append t (0 ∷ []),
          length-drop (length text + length out) s.0,
          h.capacity,
        );
        position = omega (arith, h.position, length-append text t);
      },
    )

append_text-ok :
    (base max n : ℕ) (t buffer : Bytes) (s : Bytes × ℕ)
    → room max s.1 ≡ suc n
    → snprintf s.0 (base + s.1) (suc n) t ≡ ok (buffer, length t)
    → append_text base max t s ≡ ok (buffer, add_int s.1 (length t))
unfolding append_text
append_text-ok base max n t buffer s left runs = rw (left, runs)

room_left : (max nb n : ℕ) → max < 2 ^ 31 → nb + suc n ≡ max → room max nb ≡ suc n
room_left max nb n small e = ground arith

pub append_text-Appends :
    (size base max : ℕ) (t : Bytes)
    → max ≡ size - base
    → base ≤ size
    → size < 2 ^ 31
    → Appends size base (append_text base max t) t
append_text-Appends size base max t e b small s text h lt =
    let n = size - suc (length text) in
    let (buffer, runs, holds) = snprintf-Holds size base s text t n h (omega arith) (omega arith) in
    (
      (buffer, add_int s.1 (length t)),
      append_text-ok base max n t buffer s
          (room_left max s.1 n (omega arith) (omega (arith, h.position))) runs,
      record {
        tail = holds.tail;
        starts = holds.starts;
        capacity = holds.capacity;
        position = omega (arith, holds.position, h.position, length-append text t);
      },
    )

pub Appends-then :
    (size base : ℕ) (f g : Bytes × ℕ → Outcome (Bytes × ℕ)) (t u : Bytes)
    → Appends size base f t
    → Appends size base g u
    → Appends size base (λ s. f s >>= g) (t ++ u)
Appends-then size base f g t u first next s text h lt =
    let (s', runs, holds) = first s text h (omega (arith, length-append t u)) in
    let (s'', runs', holds') =
      next s' (text ++ t) holds (omega (arith, length-append t u, length-append text t)) in
    (s'', >>=-ok g runs runs', subst (Holds size base s'') (append_assoc text t u) holds')

pub Appends-none : (size base : ℕ) → Appends size base ok []
Appends-none size base s text h lt = (s, refl, subst (Holds size base s) (sym (append-nil text)) h)
