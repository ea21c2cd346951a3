-- ===== src/Cache/Build/Safe.antt =====
-- Building the cache stays within its buffers and arrays, if the paths on the disk are short.
use ens_sysres_proj.Common.{
  inl, inr, Avoids, faulted, ending, bind-Avoids, or_exit-Avoids, faulted-IsAbort, in_bounds, ap,
  ◌∙◌, sym, ℕ, zero, suc, ◌+◌, ◌^◌, ◌≤◌, ◌<◌, ◌≡◌, refl, ◌≢◌, false, some, List, [], ◌∷◌, Bytes,
  Outcome, ok, fault, or_exit, >>=-eq-ok, or_exit-eq-ok, Bool-cases, arith, length, length-append,
  leb,
}
use ens_sysres_proj.Toolbox.{
  append_name, append_name_to_path, ends_with_slash, extract_last_name_of_path,
}
use ens_sysres_proj.Toolbox.Paths.{append_name_to_path-Joins}
use ens_sysres_proj.Cache.{
  File, Folder, folder, filename_is_special, max_path_length, create_empty_folder,
  add_file_to_folder, add_subfolder_to_folder,
}
use ens_sysres_proj.Cache.Disk.{Stat, regular, directory, other, Disk}
use ens_sysres_proj.Cache.Content.{set_file_content}
use ens_sysres_proj.Cache.Build.{
  entry_path, count_stat, count_files_and_folders, fill_file, fill_stat, fill_folder, build_folder,
  build_cache_from_disk,
}
use ens_sysres_proj.Cache.Build.Fill.{
  new_file, IsPartial, used, capacity, IsBuilder, fill_stat-Adds,
}
use ens_sysres_proj.Cache.Build.Space.{count_special, count_entry, build_folder-IsBuilder}
use ens_sysres_proj.Cache.Build.Depth.{AllNames, set_file_content-Avoids, entry_path-length}

-- Each path of the disk fits a buffer of `MAX_PATH_LENGTH` bytes, with a `/` and the NUL.
pub record HasShortPaths (d : Disk) : Type 0 where
  pub paths_fit :
      (path : Bytes) (names : List Bytes)
      → d.entries path ≡ some names
      → AllNames (λ name. length path + length name + 2 ≤ max_path_length) names

ends_with_slash-faulted : (path : Bytes) → 1 ≤ length path → Avoids faulted (ends_with_slash path)
unfolding ends_with_slash
ends_with_slash-faulted [] h = absurd (omega arith)
ends_with_slash-faulted (c ∷ []) h = λ e. cc
ends_with_slash-faulted (c ∷ d ∷ cs) h = ends_with_slash-faulted (d ∷ cs) (omega arith)

in_bounds-faulted : (a b : ℕ) → a ≤ b → Avoids faulted (in_bounds (leb a b))
in_bounds-faulted a b h = ground arith

entry_path-faulted :
    (path name : Bytes)
    → 1 ≤ length path
    → length path + length name + 2 ≤ max_path_length
    → Avoids faulted (entry_path path name)
unfolding entry_path append_name_to_path
entry_path-faulted path name nonempty short =
    bind-Avoids (in_bounds (leb (length path + 1) max_path_length)) _
      (in_bounds-faulted (length path + 1) max_path_length (omega arith))
      λ _ _.
        bind-Avoids (append_name_to_path path name max_path_length) _
          (bind-Avoids (ends_with_slash path) _ (ends_with_slash-faulted path nonempty) λ _ _ c. cc)
          λ built e.
            bind-Avoids (or_exit built _) _ (or_exit-Avoids built _ faulted-IsAbort) λ p e'.
              let joins =
                append_name_to_path-Joins path name max_path_length
                  (e ∙ ap ok (or_exit-eq-ok built _ e')) in
              bind-Avoids (in_bounds (leb (length p + 1) max_path_length)) _
                (in_bounds-faulted (length p + 1) max_path_length (omega (arith, joins.size)))
                λ _ _ c. cc

-- Counting an entry never lowers a counter.
count_stat-le : (s : Stat) (c : ℕ × ℕ) → (c.0 ≤ (count_stat s c).0) × (c.1 ≤ (count_stat s c).1)
unfolding count_stat
count_stat-le (regular n) c = omega arith
count_stat-le directory c = omega arith
count_stat-le other c = omega arith

count-le :
    (d : Disk) (path : Bytes) (names : List Bytes) (c c' : ℕ × ℕ)
    → count_files_and_folders d path names c ≡ ok c'
    → (c.0 ≤ c'.0) × (c.1 ≤ c'.1)
unfolding count_files_and_folders
count-le d path [] c c' h = ground (arith, h)
count-le d path (name ∷ rest) c c' h = elim (Bool-cases (filename_is_special name)) [
  | inl e ↦ count-le d path rest c c' (sym (count_special d path name rest c e) ∙ h)
  | inr e ↦
      let (p, e', t) = >>=-eq-ok (entry_path path name) _ (rw (e, count_files_and_folders) at h) in
      let (s, _, t') = >>=-eq-ok (or_exit (d.stat p) _) _ t in
      omega (arith, count_stat-le s c, count-le d path rest (count_stat s c) c' t')
]

-- There is a place for one more entry of the kind `s`.
abbrev HasRoom : Stat → Folder → Type 0
HasRoom s f =
    ((count_stat s (used f)).0 ≤ (capacity f).0) × ((count_stat s (used f)).1 ≤ (capacity f).1)

add_file-faulted :
    (n : ℕ) (f : Folder) (file : File)
    → HasRoom (regular n) f
    → Avoids faulted (add_file_to_folder f file)
unfolding add_file_to_folder count_stat
add_file-faulted n (folder name size files nf subs ns) file room = ground arith

add_subfolder-faulted :
    (f g : Folder) → HasRoom directory f → Avoids faulted (add_subfolder_to_folder f g)
unfolding add_subfolder_to_folder count_stat
add_subfolder-faulted (folder name size files nf subs ns) g room = ground arith

abbrev SafeBelow : (Bytes → ℕ → Outcome (Folder × ℕ)) → Type 0
SafeBelow build =
    (p : Bytes) (free : ℕ) → 1 ≤ length p → free < 2 ^ 31 → Avoids faulted (build p free)

module _ (d : Disk) (build : Bytes → ℕ → Outcome (Folder × ℕ)) (is : IsBuilder build)
    (safe : SafeBelow build) (path : Bytes) (nonempty : 1 ≤ length path) where
  fill_stat-faulted :
      (p name : Bytes) (s : Stat) (f : Folder) (free : ℕ)
      → 1 ≤ length p
      → free < 2 ^ 31
      → HasRoom s f
      → Avoids faulted (fill_stat d build p name s f free)
  unfolding fill_stat fill_file
  fill_stat-faulted p name (regular n) f free pos small room =
      bind-Avoids (set_file_content d (new_file p name n) free) _
        (set_file_content-Avoids faulted-IsAbort d (new_file p name n) free)
        λ (file, loaded) _.
          bind-Avoids (add_file_to_folder f _) _ (add_file-faulted n f _ room) λ _ _ c. cc
  fill_stat-faulted p name directory f free pos small room =
      bind-Avoids (build p free) _ (safe p free pos small) λ r _.
        bind-Avoids (add_subfolder_to_folder f r.0) _ (add_subfolder-faulted f r.0 room) λ _ _ c. cc
  fill_stat-faulted p name other f free pos small room = λ c. cc

  fill_folder-faulted :
      (names : List Bytes) (f : Folder) (free : ℕ)
      → free < 2 ^ 31
      → IsPartial f
      → AllNames (λ name. length path + length name + 2 ≤ max_path_length) names
      → count_files_and_folders d path names (used f) ≡ ok (capacity f)
      → Avoids faulted (fill_folder d build path names f free)
  unfolding fill_folder
  fill_folder-faulted [] f free small p short counted = λ c. cc
  fill_folder-faulted (name ∷ rest) f free small p short counted =
      elim (Bool-cases (filename_is_special name)) [
        | inl e ↦
            rw (e, fill_folder)
              (fill_folder-faulted rest f free small p short.1
                (sym (count_special d path name rest (used f) e) ∙ counted))
        | inr e ↦
            rw (e, fill_folder)
              (bind-Avoids (entry_path path name) _ (entry_path-faulted path name nonempty short.0)
                λ p' e'.
                  bind-Avoids (or_exit (d.stat p') _) _
                    (or_exit-Avoids (d.stat p') _ faulted-IsAbort)
                    λ s e''.
                      let more =
                        sym (
                          count_entry d path name rest (used f) e e'
                            (or_exit-eq-ok (d.stat p') _ e''))
                        ∙ counted in
                      let room = count-le d path rest (count_stat s (used f)) (capacity f) more in
                      let size = entry_path-length path name e' in
                      bind-Avoids (fill_stat d build p' name s f free) _
                        (fill_stat-faulted p' name s f free (omega (arith, size.0)) small room)
                        λ r e'''.
                          let a = fill_stat-Adds d build p' name s f free is small p e''' in
                          fill_folder-faulted rest r.0 r.1 (omega (arith, a.free_le)) a.partial
                            short.1 (rw (a.used_is, a.capacity_is) more))
      ]

count-faulted :
    (d : Disk) (path : Bytes) (names : List Bytes) (c : ℕ × ℕ)
    → 1 ≤ length path
    → AllNames (λ name. length path + length name + 2 ≤ max_path_length) names
    → Avoids faulted (count_files_and_folders d path names c)
unfolding count_files_and_folders
count-faulted d path [] c pos short = λ e. cc
count-faulted d path (name ∷ rest) c pos short = elim (Bool-cases (filename_is_special name)) [
  | inl e ↦ rw (e, count_files_and_folders) (count-faulted d path rest c pos short.1)
  | inr e ↦
      rw (e, count_files_and_folders)
        (bind-Avoids (entry_path path name) _ (entry_path-faulted path name pos short.0) λ p _.
          bind-Avoids (or_exit (d.stat p) _) _ (or_exit-Avoids (d.stat p) _ faulted-IsAbort)
            λ s _. count-faulted d path rest (count_stat s c) pos short.1)
]

extract-faulted : (path : Bytes) → 1 ≤ length path → Avoids faulted (extract_last_name_of_path path)
unfolding extract_last_name_of_path
extract-faulted [] h = absurd (omega arith)
extract-faulted (c ∷ cs) h = λ e. cc

module _ (d : Disk) (short : HasShortPaths d) where
  build_folder-faulted : (depth : ℕ) → SafeBelow (build_folder d depth)
  unfolding build_folder
  build_folder-faulted zero path free pos small = λ c. cc
  build_folder-faulted (suc k) path free pos small =
      bind-Avoids (or_exit (d.entries path) _) _ (or_exit-Avoids (d.entries path) _ faulted-IsAbort)
        λ names e.
          let fit = short.paths_fit path names (or_exit-eq-ok (d.entries path) _ e) in
          bind-Avoids (count_files_and_folders d path names (0, 0)) _
            (count-faulted d path names (0, 0) pos fit)
            λ c e'.
              bind-Avoids (extract_last_name_of_path path) _ (extract-faulted path pos) λ name _.
                fill_folder-faulted d (build_folder d k) (build_folder-IsBuilder d k)
                  (build_folder-faulted k) path pos names (create_empty_folder name c.0 c.1) free
                  small (refl, tt, tt) fit e'

  -- On a disk where every path of an entry, with a slash and a NUL, fits in MAX_PATH_LENGTH
  -- bytes, with a root path that is not empty and fewer than 2 ^ 31 bytes of space, building the
  -- cache writes and reads inside of its buffers and arrays only: the arrays that the first pass
  -- over a directory sizes have room for all that the second pass adds.
  pub build_cache_from_disk-ne-fault :
      (root_path : Bytes) (max : ℕ)
      → 1 ≤ length root_path
      → max < 2 ^ 31
      → build_cache_from_disk d root_path max ≢ fault
  unfolding build_cache_from_disk
  build_cache_from_disk-ne-fault root_path max pos small h =
      bind-Avoids (build_folder d max_path_length root_path max) _
        (build_folder-faulted max_path_length root_path max pos small) (λ _ _ c. cc) (ap ending h)

-- If a path does not end with a slash, and the path of an entry in it has 1024 or 1025 bytes,
-- then building that path writes behind the buffer of MAX_PATH_LENGTH bytes.
pub entry_path_overflow :
    (path name : Bytes)
    → ends_with_slash path ≡ ok false
    → max_path_length ≤ length path + length name + 1
    → length path + length name ≤ max_path_length
    → entry_path path name ≡ fault
unfolding entry_path append_name_to_path append_name
entry_path_overflow path name e lo hi = ground (arith, length-append path (b'/' ∷ name))
