-- ===== src/Cache/Mirror/Files.antt =====
-- The lookup of a file in a folder that mirrors a directory.
use mathlib.Core.List.{Memᴰ}
use ens_sysres_proj.Common.{
  ℕ, ◌≡◌, ap, sym, ◌∙◌, subst, inl, inr, Bool, true, false, some, List, ◌∷◌, Bytes, ok,
  ok-injective, Bool-cases, arith, bytes_eq→eq, bytes_eq_self,
}
use ens_sysres_proj.Toolbox.{strings_are_equal}
use ens_sysres_proj.Cache.{File, Folders, filename_is_special}
use ens_sysres_proj.Cache.Disk.{Stat, regular, Disk}
use ens_sysres_proj.Cache.Content.{set_file_type}
use ens_sysres_proj.Cache.Content.Bounds.{set_file_content_loaded, set_file_content_too_large}
use ens_sysres_proj.Cache.Build.Fill.{new_file, stored}
use ens_sysres_proj.Cache.Find.{find_file}
use ens_sysres_proj.Cache.Mirror.{IsCopy, IsEntry, Lists, done, special, file, subfolder, skipped}

-- An entry has one path and one kind.
pub IsEntry-unique :
    {d : Disk} {path name p p' : Bytes} {s s' : Stat}
    → IsEntry d path name p s
    → IsEntry d path name p' s'
    → (p ≡ p') × (s ≡ s')
IsEntry-unique {d} {path} {name} {p} {p'} {s} {s'} a b =
    let same : p ≡ p' = ok-injective (sym a.entry ∙ b.entry) in
    (same, some-injective (sym a.stat ∙ ap d.stat same ∙ b.stat))
  where
    some-injective : {s s' : Stat} → some s ≡ some s' → s ≡ s'
    some-injective h = cc

stored-name :
    (d : Disk) (g : File) (loaded : Bool)
    → ((stored d g loaded).name ≡ g.name) × ((stored d g loaded).path ≡ g.path)
unfolding stored set_file_type
stored-name d g true = ground arith
stored-name d g false = ground arith

-- A copy bears the entry's name, and its path.
IsCopy-name :
    {d : Disk} {path name : Bytes} {size : ℕ} {f : File}
    → IsCopy d path name size f
    → (f.name ≡ name) × (f.path ≡ path)
IsCopy-name {d} {path} {name} {size} {f} c = elim (Bool-cases c.loaded) [
  | inl e ↦
      let (_, _, kept) =
        set_file_content_loaded d (new_file path name size) c.free c.free_int (omega arith)
          (c.runs ∙ ap (λ (b : Bool). ok (c.content, b)) e) in
      let (n, p) = stored-name d c.content c.loaded in
      (
        ap (λ (f : File). f.name) c.is_stored ∙ n ∙ kept.name,
        ap (λ (f : File). f.path) c.is_stored ∙ p ∙ kept.path,
      )
  | inr e ↦
      let (same, _, _) =
        set_file_content_too_large d (new_file path name size) c.free c.free_int (omega arith)
          (c.runs ∙ ap (λ (b : Bool). ok (c.content, b)) e) in
      let (n, p) = stored-name d c.content c.loaded in
      (
        ap (λ (f : File). f.name) c.is_stored ∙ n ∙ ap (λ (f : File). f.name) same,
        ap (λ (f : File). f.path) c.is_stored ∙ p ∙ ap (λ (f : File). f.path) same,
      )
]

-- A name that is not the first one's is among the others.
pub later :
    {x : Bytes} (named name : Bytes) {names : List Bytes}
    → Memᴰ x (name ∷ names)
    → strings_are_equal x named ≡ false
    → named ≡ name
    → Memᴰ x names
later {x} named name (Memᴰ.head e) t n =
    cc (bytes_eq_self x, n, e, t, ap (strings_are_equal x) (e ∙ sym n))
later named name (Memᴰ.tail m) t n = m

module _ {d : Disk} {path : Bytes} where
  -- What the loop over the files finds is a listed regular file.
  pub find_file_sound :
      (x : Bytes) {names : List Bytes} {files : List File} {subs : Folders} {f : File}
      → Lists d path names files subs
      → find_file files x ≡ some f
      → (q : Bytes) × (size : ℕ) × Memᴰ x names
        × IsEntry d path x q (regular size)
        × IsCopy d q x size f
  unfolding find_file
  find_file_sound x done h = cc
  find_file_sound x (special e rest) h =
      let (q, size, m, e', copy) = find_file_sound x rest h in (q, size, Memᴰ.tail m, e', copy)
  find_file_sound x {f = f} (skipped e rest) h =
      let (q, size, m, e', copy) = find_file_sound x rest h in (q, size, Memᴰ.tail m, e', copy)
  find_file_sound x (subfolder e s rest) h =
      let (q, size, m, e', copy) = find_file_sound x rest h in (q, size, Memᴰ.tail m, e', copy)
  find_file_sound x {f = f} (file {name} {p} {size} {f = g} e copy rest) h =
      elim (Bool-cases (strings_are_equal x g.name)) [
        | inl t ↦
            let same : x ≡ name = bytes_eq→eq x g.name t ∙ (IsCopy-name copy).0 in
            let it : g ≡ f = cc (rw (t, find_file) at h) in
            (
              p,
              size,
              Memᴰ.head same,
              subst (λ (y : Bytes). IsEntry d path y p (regular size)) (sym same) e,
              subst (λ (y : Bytes). IsCopy d p y size f) (sym same)
                  (subst (IsCopy d p name size) it copy),
            )
        | inr t ↦
            let (q, size', m, e', copy') = find_file_sound x rest (rw (t, find_file) at h) in
            (q, size', Memᴰ.tail m, e', copy')
      ]

  -- A listed regular file is found.
  pub find_file_complete :
      (x : Bytes) {names : List Bytes} {files : List File} {subs : Folders} (q : Bytes) (size : ℕ)
      → Lists d path names files subs
      → Memᴰ x names
      → IsEntry d path x q (regular size)
      → (f : File) × (find_file files x ≡ some f) × IsCopy d q x size f
  unfolding find_file
  find_file_complete x q size done m h = elim m [ ]
  find_file_complete x q size (special e rest) (Memᴰ.head t) h =
      cc (ap filename_is_special t, h.ordinary)
  find_file_complete x q size (special e rest) (Memᴰ.tail m) h =
      find_file_complete x q size rest m h
  find_file_complete x q size (skipped {name} e rest) (Memᴰ.head t) h =
      let (_, s) =
        IsEntry-unique (subst (λ (y : Bytes). IsEntry d path y q (regular size)) t h) e in
      cc
  find_file_complete x q size (skipped e rest) (Memᴰ.tail m) h =
      find_file_complete x q size rest m h
  find_file_complete x q size (subfolder {name} e s rest) (Memᴰ.head t) h =
      let (_, s) =
        IsEntry-unique (subst (λ (y : Bytes). IsEntry d path y q (regular size)) t h) e in
      cc
  find_file_complete x q size (subfolder e s rest) (Memᴰ.tail m) h =
      find_file_complete x q size rest m h
  find_file_complete x q size (file {name} {p} {size = n} {f = g} {names} e copy rest) m h =
      elim (Bool-cases (strings_are_equal x g.name)) [
        | inl t ↦
            let same : name ≡ x = sym (bytes_eq→eq x g.name t ∙ (IsCopy-name copy).0) in
            let e' : IsEntry d path x p (regular n) =
              subst (λ (y : Bytes). IsEntry d path y p (regular n)) same e in
            let c : IsCopy d p x n g = subst (λ (y : Bytes). IsCopy d p y n g) same copy in
            let (at, s) = IsEntry-unique e' h in
            (
              g,
              rw (t, find_file),
              subst (λ (r : Bytes). IsCopy d r x size g) at
                  (subst (λ (k : ℕ). IsCopy d p x k g) (regular-injective s) c),
            )
        | inr t ↦
            let (f, found, copy') =
              find_file_complete x q size rest (later g.name name m t (IsCopy-name copy).0) h in
            (f, rw (t, find_file) found, copy')
      ]
    where
      regular-injective : {a b : ℕ} → regular a ≡ regular b → a ≡ b
      regular-injective t = cc
