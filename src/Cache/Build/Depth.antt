-- ===== src/Cache/Build/Depth.antt =====
-- The recursion over subdirectories ends: each level makes the path longer, and a path that does
-- not fit its buffer stops the program.
use ens_sysres_proj.Common.{
  inl, inr, Avoids, exhausted, lt_int, is_negative, Ending, ending, IsAbort, exhausted-IsAbort,
  bind-Avoids, or_exit-Avoids, ltb, in_bounds, ap, ◌∙◌, ℕ, zero, suc, ◌+◌, ◌≤◌, ◌<◌, ◌≡◌, ◌≢◌, some,
  List, [], ◌∷◌, Bytes, Outcome, ok, out_of_fuel, or_exit, >>=-eq-ok, or_exit-eq-ok, Bool-cases,
  arith, length, leb,
}
use ens_sysres_proj.Toolbox.{append_name_to_path, ends_with_slash, extract_last_name_of_path}
use ens_sysres_proj.Toolbox.Paths.{append_name_to_path-Joins}
use ens_sysres_proj.Cache.{
  File, Folder, folder, filename_is_special, max_path_length, min_file_size_for_gzip,
  add_file_to_folder, add_subfolder_to_folder,
}
use ens_sysres_proj.Cache.Disk.{Stat, regular, directory, other, Disk}
use ens_sysres_proj.Cache.Content.{set_file_content, set_raw_file_content, raw_loop}
use ens_sysres_proj.Cache.Build.Fill.{new_file}
use ens_sysres_proj.Cache.Build.{
  entry_path, count_stat, count_files_and_folders, fill_file, fill_stat, fill_folder, build_folder,
  build_cache_from_disk,
}

-- Every name that a directory lists satisfies a predicate.
abbrev pub AllNames : (Bytes → Type 0) → List Bytes → Type 0
AllNames P [] = Unit {0}
AllNames P (name ∷ rest) = P name × AllNames P rest

-- `readdir` returns no empty name.
pub record HasNames (d : Disk) : Type 0 where
  pub names_nonempty :
      (path : Bytes) (names : List Bytes)
      → d.entries path ≡ some names
      → AllNames (λ name. 1 ≤ length name) names

ends_with_slash-exhausted : (path : Bytes) → Avoids exhausted (ends_with_slash path)
unfolding ends_with_slash
ends_with_slash-exhausted [] = λ c. cc
ends_with_slash-exhausted (c ∷ []) = λ e. cc
ends_with_slash-exhausted (c ∷ d ∷ cs) = ends_with_slash-exhausted (d ∷ cs)

entry_path-exhausted : (path name : Bytes) → Avoids exhausted (entry_path path name)
unfolding entry_path append_name_to_path
entry_path-exhausted path name c = ground (arith, ends_with_slash-exhausted path)

-- An entry's path is longer than the directory's, and fits its buffer.
pub entry_path-length :
    (path name : Bytes) {p : Bytes}
    → entry_path path name ≡ ok p
    → (length path + length name ≤ length p) × (length p < max_path_length)
unfolding entry_path
entry_path-length path name h =
    let (_, _, t) = >>=-eq-ok (in_bounds (leb (length path + 1) max_path_length)) _ h in
    let (built, e, t') = >>=-eq-ok (append_name_to_path path name max_path_length) _ t in
    let (p', e', t'') = >>=-eq-ok (or_exit built _) _ t' in
    let joins =
      append_name_to_path-Joins path name max_path_length (e ∙ ap ok (or_exit-eq-ok built _ e')) in
    ground (arith, joins.grows, t'')

module _ {k : Ending} (abort : IsAbort k) where
  raw_loop-Avoids :
      (rounds : ℕ) (data_ : Bytes) (size nb : ℕ) (buffer : Bytes)
      → Avoids k (raw_loop rounds data_ size nb buffer)
  unfolding raw_loop
  raw_loop-Avoids zero data_ size nb buffer = abort.not_hung
  raw_loop-Avoids (suc n) data_ size nb buffer = elim (Bool-cases (ltb nb size)) [
    | inl e ↦ rw (e, raw_loop) (raw_loop-Avoids n data_ size _ _)
    | inr e ↦ rw (e, raw_loop) abort.not_returned
  ]

  set_raw-Avoids : (d : Disk) (f : File) → Avoids k (set_raw_file_content d f)
  unfolding set_raw_file_content
  set_raw-Avoids d f = elim (Bool-cases (is_negative f.size)) [
    | inl e ↦ rw (e, set_raw_file_content) abort.not_exited
    | inr e ↦
        rw (e, set_raw_file_content)
          (bind-Avoids (or_exit (d.content f.path) _) _ (or_exit-Avoids (d.content f.path) _ abort)
            λ bytes _.
              bind-Avoids (raw_loop 2 bytes f.size 0 []) _ (raw_loop-Avoids 2 bytes f.size 0 [])
                λ _ _. abort.not_returned)
  ]

  pub set_file_content-Avoids :
      (d : Disk) (f : File) (free : ℕ) → Avoids k (set_file_content d f free)
  unfolding set_file_content
  set_file_content-Avoids d f free = elim (Bool-cases (lt_int free f.size)) [
    | inl e ↦ rw (e, set_file_content) abort.not_returned
    | inr e ↦ elim (Bool-cases (lt_int f.size min_file_size_for_gzip)) [
      | inl e' ↦
          rw (e, e', set_file_content)
            (bind-Avoids (set_raw_file_content d f) _ (set_raw-Avoids d f)
              λ _ _. abort.not_returned)
      | inr e' ↦ rw (e, e', set_file_content) abort.not_returned
    ]
  ]

count-exhausted :
    (d : Disk) (path : Bytes) (names : List Bytes) (c : ℕ × ℕ)
    → Avoids exhausted (count_files_and_folders d path names c)
unfolding count_files_and_folders
count-exhausted d path [] c = λ e. cc
count-exhausted d path (name ∷ rest) c = elim (Bool-cases (filename_is_special name)) [
  | inl e ↦ rw (e, count_files_and_folders) (count-exhausted d path rest c)
  | inr e ↦
      rw (e, count_files_and_folders)
        (bind-Avoids (entry_path path name) _ (entry_path-exhausted path name) λ p _.
          bind-Avoids (or_exit (d.stat p) _) _ (or_exit-Avoids (d.stat p) _ exhausted-IsAbort)
            λ s _. count-exhausted d path rest (count_stat s c))
]

add_file-exhausted : (f : Folder) (file : File) → Avoids exhausted (add_file_to_folder f file)
unfolding add_file_to_folder
add_file-exhausted (folder name size files nf subs ns) file = ground arith

add_subfolder-exhausted : (f g : Folder) → Avoids exhausted (add_subfolder_to_folder f g)
unfolding add_subfolder_to_folder
add_subfolder-exhausted (folder name size files nf subs ns) g = ground arith

fill_file-exhausted :
    (d : Disk) (path name : Bytes) (st_size : ℕ) (f : Folder) (free : ℕ)
    → Avoids exhausted (fill_file d path name st_size f free)
unfolding fill_file
fill_file-exhausted d path name st_size f free =
    bind-Avoids (set_file_content d (new_file path name st_size) free) _
      (set_file_content-Avoids exhausted-IsAbort d (new_file path name st_size) free)
      λ (file, loaded) _.
        bind-Avoids (add_file_to_folder f _) _ (add_file-exhausted f _) λ _ _ c. cc

-- A call that builds the subfolder at any path that is longer than `path`, and fits its buffer.
abbrev EndsBelow : Bytes → (Bytes → ℕ → Outcome (Folder × ℕ)) → Type 0
EndsBelow path build =
    (p : Bytes) (free : ℕ)
    → length path < length p
    → length p < max_path_length
    → Avoids exhausted (build p free)

module _ (d : Disk) (build : Bytes → ℕ → Outcome (Folder × ℕ)) (path : Bytes)
    (ends : EndsBelow path build) where
  fill_stat-exhausted :
      (p name : Bytes) (s : Stat) (f : Folder) (free : ℕ)
      → length path < length p
      → length p < max_path_length
      → Avoids exhausted (fill_stat d build p name s f free)
  unfolding fill_stat
  fill_stat-exhausted p name (regular st_size) f free lo hi =
      fill_file-exhausted d p name st_size f free
  fill_stat-exhausted p name directory f free lo hi =
      bind-Avoids (build p free) _ (ends p free lo hi) λ r _.
        bind-Avoids (add_subfolder_to_folder f r.0) _ (add_subfolder-exhausted f r.0) λ _ _ c. cc
  fill_stat-exhausted p name other f free lo hi = λ c. cc

  fill_folder-exhausted :
      (names : List Bytes) (f : Folder) (free : ℕ)
      → AllNames (λ name. 1 ≤ length name) names
      → Avoids exhausted (fill_folder d build path names f free)
  unfolding fill_folder
  fill_folder-exhausted [] f free named = λ c. cc
  fill_folder-exhausted (name ∷ rest) f free named = elim (Bool-cases (filename_is_special name)) [
    | inl e ↦ rw (e, fill_folder) (fill_folder-exhausted rest f free named.1)
    | inr e ↦
        rw (e, fill_folder)
          (bind-Avoids (entry_path path name) _ (entry_path-exhausted path name) λ p e'.
            bind-Avoids (or_exit (d.stat p) _) _ (or_exit-Avoids (d.stat p) _ exhausted-IsAbort)
              λ s _.
                let size = entry_path-length path name e' in
                bind-Avoids (fill_stat d build p name s f free) _
                  (fill_stat-exhausted p name s f free (omega (arith, named.0, size.0)) size.1)
                  λ r _. fill_folder-exhausted rest r.0 r.1 named.1)
  ]

extract-exhausted : (path : Bytes) → Avoids exhausted (extract_last_name_of_path path)
unfolding extract_last_name_of_path
extract-exhausted [] = λ c. cc
extract-exhausted (c ∷ cs) = λ e. cc

module _ (d : Disk) (named : HasNames d) where
  -- The fuel and the length of the path together exceed the greatest length of a path.
  build_folder-exhausted :
      (depth : ℕ) (path : Bytes) (free : ℕ)
      → max_path_length ≤ depth + length path
      → 1 ≤ depth
      → Avoids exhausted (build_folder d depth path free)
  unfolding build_folder
  build_folder-exhausted zero path free enough pos = absurd (omega arith)
  build_folder-exhausted (suc k) path free enough pos =
      bind-Avoids (or_exit (d.entries path) _) _
        (or_exit-Avoids (d.entries path) _ exhausted-IsAbort)
        λ names e.
          bind-Avoids (count_files_and_folders d path names (0, 0)) _
            (count-exhausted d path names (0, 0))
            λ c _. bind-Avoids (extract_last_name_of_path path) _ (extract-exhausted path) λ name _.
              fill_folder-exhausted d (build_folder d k) path
                (λ p free' lo hi. build_folder-exhausted k p free' (omega arith) (omega arith))
                names _ free (named.names_nonempty path names (or_exit-eq-ok (d.entries path) _ e))

  -- On a disk where no directory lists an empty name, the recursion over subdirectories ends
  -- within the depth of MAX_PATH_LENGTH that the model gives it, for every root path and space.
  pub build_cache_from_disk-ne-out_of_fuel :
      (root_path : Bytes) (max : ℕ) → build_cache_from_disk d root_path max ≢ out_of_fuel
  unfolding build_cache_from_disk
  build_cache_from_disk-ne-out_of_fuel root_path max h =
      bind-Avoids (build_folder d max_path_length root_path max) _
        (build_folder-exhausted max_path_length root_path max (omega arith) (omega arith))
        (λ _ _ c. cc) (ap ending h)
