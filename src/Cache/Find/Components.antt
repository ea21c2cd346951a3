-- ===== src/Cache/Find/Components.antt =====
-- The components of a path, and the lookup of a file along them.
use ens_sysres_proj.Common.{
  inl, inr, ℕ, ◌+◌, ◌≤◌, ◌≡◌, refl, ◌≢◌, ap, ◌∙◌, Option, none, some, List, [], ◌∷◌, Bytes, arith,
  length, Bool-cases, Option-cases, ◌==◌, if◌then◌else◌,
}
use ens_sysres_proj.Cache.{File, Folder}
use ens_sysres_proj.Cache.Find.{
  find_subfolder_in_folder, find_file_in_folder, skip_slashes, split_slash,
}

-- One more character in front of the first component.
abbrev push_front : ℕ → List Bytes → List Bytes
push_front c [] = (c ∷ []) ∷ []
push_front c (x ∷ xs) = (c ∷ x) ∷ xs

-- The parts of a path between the slashes.
unfoldable pub components : Bytes → List Bytes
components [] = [] ∷ []
components (c ∷ cs) = if c == b'/' then [] ∷ components cs else push_front c (components cs)

-- The parts that count: an empty one only at the end.
unfoldable pub collapse : List Bytes → List Bytes
collapse [] = []
collapse (x ∷ []) = x ∷ []
collapse ([] ∷ y ∷ ys) = collapse (y ∷ ys)
collapse ((c ∷ x) ∷ y ∷ ys) = (c ∷ x) ∷ collapse (y ∷ ys)

-- The file with the last name, in the folder that the other names lead to.
unfoldable pub find_components : Folder → List Bytes → Option File
find_components f [] = none
find_components f (x ∷ []) = find_file_in_folder f x
find_components f (x ∷ y ∷ ys) = elim (find_subfolder_in_folder f x) [
  | none ↦ none
  | some sub ↦ find_components sub (y ∷ ys)
]

components-cons : (path : Bytes) → (x : Bytes) × (xs : List Bytes) × (components path ≡ x ∷ xs)
unfolding components
components-cons [] = ([], [], refl)
components-cons (c ∷ cs) =
    let (x, xs, e) = components-cons cs in
    elim (Bool-cases (c == b'/')) [
      | inl h ↦ ([], components cs, ground arith)
      | inr h ↦ (c ∷ x, xs, ground (arith, e))
    ]

pub collapse-skip :
    (path : Bytes) → collapse (components (skip_slashes path)) ≡ collapse (components path)
unfolding skip_slashes collapse components
collapse-skip [] = refl
collapse-skip (c ∷ cs) = let (x, xs, e) = components-cons cs in ground (arith, collapse-skip cs, e)

pub split_slash-none : (path : Bytes) → split_slash path ≡ none → components path ≡ path ∷ []
unfolding split_slash components
split_slash-none [] h = refl
split_slash-none (c ∷ cs) h = ground (arith, split_slash-none cs)

-- What `strchr` finds in a path.
pub record Splits (path name rest : Bytes) : Type 0 where
  pub tail : Bytes
  pub slash : rest ≡ b'/' ∷ tail
  pub parts : components path ≡ name ∷ components tail
  pub sizes : length path ≡ length name + length rest

pub split_slash-Splits :
    (path : Bytes) {name rest : Bytes}
    → split_slash path ≡ some (name, rest)
    → Splits path name rest
unfolding split_slash components
split_slash-Splits [] h = cc
split_slash-Splits (c ∷ cs) {name} {rest} h = elim (Bool-cases (c == b'/')) [
  | inl e ↦ record { tail = cs; slash = ground arith; parts = ground arith; sizes = ground arith }
  | inr e ↦ elim (Option-cases (split_slash cs)) [
    | inl none_left ↦ absurd (ground arith)
    | inr ((n, r), found) ↦
        let s = split_slash-Splits cs found in
        record {
          tail = s.tail;
          slash = ground (arith, s.slash);
          parts = ground (arith, s.parts);
          sizes = ground (arith, s.sizes);
        }
  ]
]

-- Where the path does not begin with a slash, the name is not empty.
pub skip_slashes-split : (path rest : Bytes) → split_slash (skip_slashes path) ≢ some ([], rest)
unfolding skip_slashes split_slash
skip_slashes-split [] rest h = cc
skip_slashes-split (c ∷ cs) rest h = elim (Bool-cases (c == b'/')) [
  | inl e ↦ ground (arith, skip_slashes-split cs rest)
  | inr e ↦ ground arith
]

pub skip_slashes-length : (path : Bytes) → length (skip_slashes path) ≤ length path
unfolding skip_slashes
skip_slashes-length [] = omega arith
skip_slashes-length (c ∷ cs) = ground (arith, skip_slashes-length cs)

-- A name in front of other parts stays, if it is not empty.
pub collapse-name :
    (name path : Bytes)
    → name ≢ []
    → collapse (name ∷ components path) ≡ name ∷ collapse (components path)
unfolding collapse
collapse-name [] path ne = absurd (ne refl)
collapse-name (c ∷ name) path ne = let (x, xs, e) = components-cons path in rw e

pub collapse-one : (x : Bytes) → collapse (x ∷ []) ≡ x ∷ []
unfolding collapse
collapse-one [] = refl
collapse-one (c ∷ x) = refl

collapse-cons :
    (x : Bytes) (xs : List Bytes) → (y : Bytes) × (ys : List Bytes) × (collapse (x ∷ xs) ≡ y ∷ ys)
unfolding collapse
collapse-cons [] [] = ([], [], refl)
collapse-cons (c ∷ x) [] = (c ∷ x, [], refl)
collapse-cons [] (y ∷ ys) = collapse-cons y ys
collapse-cons (c ∷ x) (y ∷ ys) = (c ∷ x, collapse (y ∷ ys), refl)

pub skip_slashes-slash : (path : Bytes) → skip_slashes (b'/' ∷ path) ≡ skip_slashes path
unfolding skip_slashes
skip_slashes-slash path = refl

pub find_components_last :
    (f : Folder) (x : Bytes) → find_components f (x ∷ []) ≡ find_file_in_folder f x
unfolding find_components
find_components_last f x = refl

collapse-components-cons :
    (path : Bytes) → (y : Bytes) × (ys : List Bytes) × (collapse (components path) ≡ y ∷ ys)
collapse-components-cons path =
    let (x, xs, e) = components-cons path in
    let (y, ys, e') = collapse-cons x xs in (y, ys, ap collapse e ∙ e')

-- The specification with one more name in front.
module _ (f : Folder) (name path : Bytes) where
  pub find_components_missing :
      find_subfolder_in_folder f name ≡ none
      → find_components f (name ∷ collapse (components path)) ≡ none
  unfolding find_components
  find_components_missing missing =
      let (y, ys, e) = collapse-components-cons path in rw e (rw (missing, find_components))

  pub find_components_found :
      {sub : Folder}
      → find_subfolder_in_folder f name ≡ some sub
      → find_components f (name ∷ collapse (components path))
        ≡ find_components sub (collapse (components path))
  unfolding find_components
  find_components_found found =
      let (y, ys, e) = collapse-components-cons path in rw e (step y ys found)
    where
      step :
          (y : Bytes) (ys : List Bytes) {sub : Folder}
          → find_subfolder_in_folder f name ≡ some sub
          → find_components f (name ∷ y ∷ ys) ≡ find_components sub (y ∷ ys)
      step y ys h = rw (h, find_components)
