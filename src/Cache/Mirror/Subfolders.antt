-- ===== src/Cache/Mirror/Subfolders.antt =====
-- The lookup of a subfolder in a folder that mirrors a directory.
use ens_sysres_proj.Cache.Mirror.Files.{IsEntry-unique, later}
use mathlib.Core.List.{Memᴰ}
use ens_sysres_proj.Common.{
  ◌+◌, ◌≡◌, refl, ap, sym, ◌∙◌, subst, inl, inr, true, some, List, Bytes, ok, ok-injective,
  >>=-eq-ok, Bool-cases, in_bounds, length, leb, bytes_eq→eq, or_exit, or_exit-eq-ok,
}
use ens_sysres_proj.Toolbox.{extract_last_name_of_path, append_name_to_path, strings_are_equal}
use ens_sysres_proj.Toolbox.Paths.{is_plain, IsLastName-extract, append_name_to_path-Joins}
use ens_sysres_proj.Cache.{File, Folder, Folders, folder_name, max_path_length, filename_is_special}
use ens_sysres_proj.Cache.Disk.{directory, Disk}
use ens_sysres_proj.Cache.Build.{entry_path}
use ens_sysres_proj.Cache.Find.{find_subfolder}
use ens_sysres_proj.Cache.Mirror.{
  IsEntry, Lists, done, special, file, subfolder, skipped, Mirrors, mirrors,
}

-- The last name of an entry's path.
entry_path-last_name :
    (path name : Bytes) {p : Bytes}
    → entry_path path name ≡ ok p
    → is_plain name ≡ true
    → extract_last_name_of_path p ≡ ok name
unfolding entry_path
entry_path-last_name path name {p} h plain =
    let (_, _, t) = >>=-eq-ok (in_bounds (leb (length path + 1) max_path_length)) _ h in
    let (built, e, t') = >>=-eq-ok (append_name_to_path path name max_path_length) _ t in
    let (p', e', t'') = >>=-eq-ok (or_exit built _) _ t' in
    let joins =
      append_name_to_path-Joins path name max_path_length (e ∙ ap ok (or_exit-eq-ok built _ e')) in
    let (_, _, t''') = >>=-eq-ok (in_bounds (leb (length p' + 1) max_path_length)) _ t'' in
    let same : p' ≡ p = ok-injective t''' in
    subst (λ (q : Bytes). extract_last_name_of_path q ≡ ok name) same (joins.last_name plain)

Mirrors-name :
    (path name : Bytes) {d : Disk} {p : Bytes} {sub : Folder}
    → entry_path path name ≡ ok p
    → is_plain name ≡ true
    → Mirrors d p sub
    → folder_name sub ≡ name
Mirrors-name path name {p} {sub} e plain (mirrors _ named _) =
    ok-injective
      (sym (IsLastName-extract p (folder_name sub) named) ∙ entry_path-last_name path name e plain)

-- Every name is plain.
abbrev pub ArePlain : List Bytes → Type 0
ArePlain names = (name : Bytes) → Memᴰ name names → is_plain name ≡ true

module _ {d : Disk} {path : Bytes} where
  -- What the loop over the subfolders finds is a listed directory.
  pub find_subfolder_sound :
      (x : Bytes) {names : List Bytes} {files : List File} {subs : Folders} {f : Folder}
      → Lists d path names files subs
      → ArePlain names
      → find_subfolder subs x ≡ some f
      → (p : Bytes) × Memᴰ x names × IsEntry d path x p directory × Mirrors d p f
  unfolding find_subfolder
  find_subfolder_sound x done plain h = cc
  find_subfolder_sound x (special e rest) plain h =
      let (p, m, e', s) = find_subfolder_sound x rest (λ y m. plain y (Memᴰ.tail m)) h in
      (p, Memᴰ.tail m, e', s)
  find_subfolder_sound x (skipped e rest) plain h =
      let (p, m, e', s) = find_subfolder_sound x rest (λ y m. plain y (Memᴰ.tail m)) h in
      (p, Memᴰ.tail m, e', s)
  find_subfolder_sound x (file e c rest) plain h =
      let (p, m, e', s) = find_subfolder_sound x rest (λ y m. plain y (Memᴰ.tail m)) h in
      (p, Memᴰ.tail m, e', s)
  find_subfolder_sound x {f = f} (subfolder {name} {p} {sub = g} e s rest) plain h =
      elim (Bool-cases (strings_are_equal x (folder_name g))) [
        | inl t ↦
            let named = Mirrors-name path name e.entry (plain name (Memᴰ.head refl)) s in
            let same : x ≡ name = bytes_eq→eq x (folder_name g) t ∙ named in
            let it : g ≡ f = cc (rw (t, find_subfolder) at h) in
            (
              p,
              Memᴰ.head same,
              subst (λ (y : Bytes). IsEntry d path y p directory) (sym same) e,
              subst (Mirrors d p) it s,
            )
        | inr t ↦
            let (p', m, e', s') =
              find_subfolder_sound x rest (λ y m. plain y (Memᴰ.tail m))
                (rw (t, find_subfolder) at h) in
            (p', Memᴰ.tail m, e', s')
      ]

  -- A listed directory is found.
  pub find_subfolder_complete :
      (x : Bytes) {names : List Bytes} {files : List File} {subs : Folders} (p : Bytes)
      → Lists d path names files subs
      → ArePlain names
      → Memᴰ x names
      → IsEntry d path x p directory
      → (f : Folder) × (find_subfolder subs x ≡ some f) × Mirrors d p f
  unfolding find_subfolder
  find_subfolder_complete x p done plain m h = elim m [ ]
  find_subfolder_complete x p (special e rest) plain (Memᴰ.head t) h =
      cc (ap filename_is_special t, h.ordinary)
  find_subfolder_complete x p (special e rest) plain (Memᴰ.tail m) h =
      find_subfolder_complete x p rest (λ y m. plain y (Memᴰ.tail m)) m h
  find_subfolder_complete x p (skipped e rest) plain (Memᴰ.head t) h =
      let (_, s) = IsEntry-unique (subst (λ (y : Bytes). IsEntry d path y p directory) t h) e in cc
  find_subfolder_complete x p (skipped e rest) plain (Memᴰ.tail m) h =
      find_subfolder_complete x p rest (λ y m. plain y (Memᴰ.tail m)) m h
  find_subfolder_complete x p (file e c rest) plain (Memᴰ.head t) h =
      let (_, s) = IsEntry-unique (subst (λ (y : Bytes). IsEntry d path y p directory) t h) e in cc
  find_subfolder_complete x p (file e c rest) plain (Memᴰ.tail m) h =
      find_subfolder_complete x p rest (λ y m. plain y (Memᴰ.tail m)) m h
  find_subfolder_complete x p (subfolder {name} {p = p'} {sub = g} e s rest) plain m h =
      let named = Mirrors-name path name e.entry (plain name (Memᴰ.head refl)) s in
      elim (Bool-cases (strings_are_equal x (folder_name g))) [
        | inl t ↦
            let same : name ≡ x = sym (bytes_eq→eq x (folder_name g) t ∙ named) in
            let (at, _) =
              IsEntry-unique (subst (λ (y : Bytes). IsEntry d path y p' directory) same e) h in
            (g, rw (t, find_subfolder), subst (λ (r : Bytes). Mirrors d r g) at s)
        | inr t ↦
            let (f, found, s') =
              find_subfolder_complete x p rest (λ y m. plain y (Memᴰ.tail m))
                (later (folder_name g) name m t named) h in
            (f, rw (t, find_subfolder) found, s')
      ]
