-- ===== src/Cache/Mirror/Lookup.antt =====
-- The lookup in a folder that mirrors a directory, along a list of names.
use ens_sysres_proj.Cache.Mirror.Files.{find_file_sound, find_file_complete}
use ens_sysres_proj.Cache.Mirror.Subfolders.{find_subfolder_sound, find_subfolder_complete}
use mathlib.Core.List.{Memᴰ}
use ens_sysres_proj.Common.{
  ℕ, ◌≡◌, sym, ◌∙◌, subst, inl, inr, some, List, [], ◌∷◌, Bytes, Option-cases,
}
use ens_sysres_proj.Cache.{File, Folder}
use ens_sysres_proj.Cache.Disk.{regular, directory, Disk}
use ens_sysres_proj.Cache.Find.{find_file_in_folder, find_subfolder_in_folder}
use ens_sysres_proj.Cache.Find.Components.{find_components}
use ens_sysres_proj.Cache.Mirror.{
  IsCopy, Mirrors, mirrors, Holds, Reaches, here, below, HasPlainNames,
}

some-injective : {a b : List Bytes} → some a ≡ some b → a ≡ b
some-injective h = cc

-- The last of the names.
unfoldable pub last_of : List Bytes → Bytes
last_of [] = []
last_of (x ∷ []) = x
last_of (x ∷ y ∷ ys) = last_of (y ∷ ys)

module _ {d : Disk} {path : Bytes} (x : Bytes) where
  file_sound :
      {f : Folder} {g : File}
      → Mirrors d path f
      → find_file_in_folder f x ≡ some g
      → (q : Bytes) × (size : ℕ) × Holds d path x q (regular size) × IsCopy d q x size g
  unfolding find_file_in_folder
  file_sound (mirrors {names} e _ lists) h =
      let (q, size, m, t, c) = find_file_sound x lists h in
      (q, size, record { names = names; listed = e; member = m; is_entry = t }, c)

  file_complete :
      {f : Folder} (q : Bytes) (size : ℕ)
      → Mirrors d path f
      → Holds d path x q (regular size)
      → (g : File) × (find_file_in_folder f x ≡ some g) × IsCopy d q x size g
  unfolding find_file_in_folder
  file_complete q size (mirrors {names} e _ lists) h =
      find_file_complete x q size lists
        (subst (Memᴰ x) (some-injective (sym h.listed ∙ e)) h.member) h.is_entry

  module _ (plain : HasPlainNames d) where
    subfolder_sound :
        {f g : Folder}
        → Mirrors d path f
        → find_subfolder_in_folder f x ≡ some g
        → (p : Bytes) × Holds d path x p directory × Mirrors d p g
    unfolding find_subfolder_in_folder
    subfolder_sound (mirrors {names} e _ lists) h =
        let (p, m, t, s) = find_subfolder_sound x lists (plain.plain path names e) h in
        (p, record { names = names; listed = e; member = m; is_entry = t }, s)

    subfolder_complete :
        {f : Folder} (p : Bytes)
        → Mirrors d path f
        → Holds d path x p directory
        → (g : Folder) × (find_subfolder_in_folder f x ≡ some g) × Mirrors d p g
    unfolding find_subfolder_in_folder
    subfolder_complete p (mirrors {names} e _ lists) h =
        find_subfolder_complete x p lists (plain.plain path names e)
          (subst (Memᴰ x) (some-injective (sym h.listed ∙ e)) h.member) h.is_entry

module _ {d : Disk} (plain : HasPlainNames d) where
  -- A file that is found is a copy of one that the names lead to.
  pub find_components-Reaches :
      (names : List Bytes) {path : Bytes} {f : Folder} {g : File}
      → Mirrors d path f
      → find_components f names ≡ some g
      → (q : Bytes) × (size : ℕ) × Reaches d path names q size × IsCopy d q (last_of names) size g
  unfolding find_components last_of
  find_components-Reaches [] m h = cc
  find_components-Reaches (x ∷ []) m h =
      let (q, size, t, c) = file_sound x m h in (q, size, here t, c)
  find_components-Reaches (x ∷ y ∷ ys) {f = f} m h =
      elim (Option-cases (find_subfolder_in_folder f x)) [
        | inl e ↦ cc (rw (e, find_components) at h)
        | inr (sub, e) ↦
            let (p, t, s) = subfolder_sound x plain m e in
            let (q, size, r, c) =
              find_components-Reaches (y ∷ ys) s (rw (e, find_components) at h) in
            (q, size, below t r, c)
      ]

  -- A file that the names lead to has a copy that is found.
  pub Reaches-found :
      {path : Bytes} {names : List Bytes} {q : Bytes} {size : ℕ} {f : Folder}
      → Mirrors d path f
      → Reaches d path names q size
      → (g : File) × (find_components f names ≡ some g) × IsCopy d q (last_of names) size g
  unfolding find_components last_of
  Reaches-found {q} {size} m (here {name} t) = file_complete name q size m t
  Reaches-found m (below {name} {p} {next} {names} t r) =
      let (sub, e, s) = subfolder_complete name plain p m t in
      let (g, found, c) = Reaches-found s r in (g, rw (e, find_components) found, c)
