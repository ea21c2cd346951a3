-- ===== src/Tests/Cache.antt =====
-- The cache of the small disk.
use ens_sysres_proj.Common.{
  ℕ, zero, suc, ◌∙◌, ◌≡◌, ◌≢◌, refl, ◌≤◌, ap, subst, Bool, true, false, none, some, List, [], ◌∷◌,
  ◌++◌, Bytes, codes, bytes_eq, ok, fault, out_of_fuel, arith, length, ◌+◌, inl, inr, bytes_eq→eq,
  Bool-cases,
}
use ens_sysres_proj.Toolbox.{
  last_slash, extract_last_name_of_path, ends_with_slash, append_name, append_name_to_path,
}
use ens_sysres_proj.Cache.{
  Folder, add_file_to_folder, add_subfolder_to_folder, filename_is_special, max_path_length,
}
use ens_sysres_proj.Cache.Content.{
  read_pipe, run_readable_process, set_file_type, raw_loop, set_raw_file_content,
  set_compressed_file_content, set_file_content,
}
use ens_sysres_proj.Cache.Build.{
  entry_path, count_stat, count_files_and_folders, fill_file, fill_stat, fill_folder, build_folder,
  build_cache_from_disk,
}
use ens_sysres_proj.Cache.Sizes.{cached, IsBuilt, IsFresh}
use ens_sysres_proj.Cache.Build.Space.{build_cache_from_disk-IsBuilt}
use ens_sysres_proj.Cache.Build.Depth.{AllNames}
use ens_sysres_proj.Cache.Build.Depth.{HasNames, build_cache_from_disk-ne-out_of_fuel}
use ens_sysres_proj.Cache.Build.Safe.{
  HasShortPaths, build_cache_from_disk-ne-fault, entry_path_overflow,
}
use ens_sysres_proj.Cache.Find.{
  find_subfolder, find_subfolder_in_folder, find_file, find_file_in_folder, skip_slashes,
  split_slash, find_loop, find_file_in_cache,
}
use ens_sysres_proj.Cache.Find.Components.{components, collapse, find_components}
use ens_sysres_proj.Cache.Find.Refines.{find_file_in_cache-components, find_file_in_cache_overflow}
use ens_sysres_proj.Tests.{
  repeat, length-repeat, www, small_disk, names_of, file_a, file_b, small_root, small_cache,
}

pub small_disk-small_cache : build_cache_from_disk small_disk www 100 ≡ ok small_cache
unfolding build_cache_from_disk build_folder fill_folder fill_stat fill_file count_files_and_folders
    count_stat entry_path set_file_content set_compressed_file_content set_raw_file_content raw_loop
    set_file_type run_readable_process read_pipe filename_is_special add_subfolder_to_folder
    add_file_to_folder append_name_to_path append_name ends_with_slash extract_last_name_of_path
    last_slash bytes_eq
small_disk-small_cache = refl

pub small_disk-default_cache :
    build_cache_from_disk small_disk www 3200000 ≡ ok (record small_cache { max_size = 3200000 })
unfolding build_cache_from_disk build_folder fill_folder fill_stat fill_file count_files_and_folders
    count_stat entry_path set_file_content set_compressed_file_content set_raw_file_content raw_loop
    set_file_type run_readable_process read_pipe filename_is_special add_subfolder_to_folder
    add_file_to_folder append_name_to_path append_name ends_with_slash extract_last_name_of_path
    last_slash bytes_eq
small_disk-default_cache = refl

build_cache_from_disk-IsBuilt_example :
    (root : Folder) × (small_cache.root ≡ some root)
    × IsBuilt root
    × (small_cache.size ≡ cached root)
    × (small_cache.size ≤ 100)
    × (small_cache.max_size ≡ 100)
build_cache_from_disk-IsBuilt_example =
    build_cache_from_disk-IsBuilt small_disk www 100 (omega arith) small_disk-small_cache

some_injective : {A : Type 0} {x y : A} → some x ≡ some y → x ≡ y
some_injective e = cc

-- What holds of the names of both directories holds of every list that is read.
pub names_of-all :
    (P : List Bytes → Type 0) (r s : Bool) (names : List Bytes)
    → P (codes "." ∷ codes ".." ∷ codes "a" ∷ codes "sub" ∷ [])
    → P (codes "." ∷ codes ".." ∷ codes "b" ∷ [])
    → names_of r s ≡ some names
    → P names
names_of-all P true s names p q e = subst P (some_injective e) p
names_of-all P false true names p q e = subst P (some_injective e) q
names_of-all P false false names p q e = cc

small_disk-HasNames : HasNames small_disk
small_disk-HasNames = record {
  names_nonempty = λ path names e.
      names_of-all (AllNames (λ name. 1 ≤ length name)) _ _ names
        (omega arith, (omega arith, (omega arith, (omega arith, tt))))
        (omega arith, (omega arith, (omega arith, tt))) e;
}

names_of-short :
    (path : Bytes) (r s : Bool) (names : List Bytes)
    → length path ≤ 1000
    → names_of r s ≡ some names
    → AllNames (λ name. length path + length name + 2 ≤ max_path_length) names
names_of-short path r s names short e =
    names_of-all (AllNames (λ name. length path + length name + 2 ≤ max_path_length)) r s names
      (omega arith, (omega arith, (omega arith, (omega arith, tt))))
      (omega arith, (omega arith, (omega arith, tt))) e

-- The two directories have short paths.
known_path :
    (path : Bytes) (names : List Bytes) → small_disk.entries path ≡ some names → length path ≤ 1000
known_path path names e = elim (Bool-cases (bytes_eq path www)) [
  | inl h ↦ omega (arith, ap length (bytes_eq→eq path www h))
  | inr h ↦ elim (Bool-cases (bytes_eq path (codes "./www/sub"))) [
    | inl h' ↦ omega (arith, ap length (bytes_eq→eq path (codes "./www/sub") h'))
    | inr h' ↦ cc (rw (h, h') at e)
  ]
]

small_disk-HasShortPaths : HasShortPaths small_disk
small_disk-HasShortPaths = record {
  paths_fit = λ path names e. names_of-short path _ _ names (known_path path names e) e;
}

build_cache_from_disk-ne-out_of_fuel_example :
    build_cache_from_disk small_disk www 100 ≢ out_of_fuel
build_cache_from_disk-ne-out_of_fuel_example =
    build_cache_from_disk-ne-out_of_fuel small_disk small_disk-HasNames www 100

build_cache_from_disk-ne-fault_example : build_cache_from_disk small_disk www 100 ≢ fault
build_cache_from_disk-ne-fault_example =
    build_cache_from_disk-ne-fault small_disk small_disk-HasShortPaths www 100 (omega arith)
      (omega arith)

find_file_in_cache-components_example :
    find_file_in_cache small_cache (codes "//sub/b")
    ≡ ok (find_components small_root (collapse (components (codes "//sub/b"))))
find_file_in_cache-components_example =
    find_file_in_cache-components small_cache small_root (codes "//sub/b") refl (omega arith)

finds_b : find_file_in_cache small_cache (codes "//sub/b") ≡ ok (some file_b)
unfolding find_file_in_cache find_loop skip_slashes split_slash find_file_in_folder find_file
    find_subfolder_in_folder find_subfolder bytes_eq
finds_b = refl

finds_no_folder : find_file_in_cache small_cache (codes "/sub") ≡ ok none
unfolding find_file_in_cache find_loop skip_slashes split_slash find_file_in_folder find_file
    find_subfolder_in_folder find_subfolder bytes_eq
finds_no_folder = refl

file_a-IsFresh : IsFresh file_a
file_a-IsFresh = record {
  size_int = omega arith;
  not_freed = λ c. cc;
  unload_loaded = λ c e. cc;
  unload_unloaded = λ c. cc;
  filled = λ bytes e. ground (arith, e);
  empty = λ n c. cc;
  mime_short = omega arith;
}

file_b-IsFresh : IsFresh file_b
file_b-IsFresh = record {
  size_int = omega arith;
  not_freed = λ c. cc;
  unload_loaded = λ c e. cc;
  unload_unloaded = λ c. cc;
  filled = λ bytes e. ground (arith, e);
  empty = λ n c. cc;
  mime_short = omega arith;
}

small_root-IsBuilt : IsBuilt small_root
small_root-IsBuilt =
    (refl, refl, refl, (file_a-IsFresh, tt), ((refl, refl, refl, (file_b-IsFresh, tt), tt), tt))

-- A name of 1024 bytes.
split-repeat : (n : ℕ) → split_slash (repeat n ++ b'/' ∷ []) ≡ some (repeat n, b'/' ∷ [])
unfolding split_slash
split-repeat zero = refl
split-repeat (suc n) = rw (split-repeat n)

skip-repeat : (n : ℕ) → skip_slashes (repeat (suc n) ++ b'/' ∷ []) ≡ repeat (suc n) ++ b'/' ∷ []
unfolding skip_slashes
skip-repeat n = refl

abbrev long_name : Bytes
long_name = repeat 1024

find_file_in_cache_overflow_example :
    find_file_in_cache small_cache (long_name ++ b'/' ∷ []) ≡ fault
find_file_in_cache_overflow_example =
    find_file_in_cache_overflow small_cache small_root (long_name ++ b'/' ∷ []) long_name
      (b'/' ∷ []) refl (ap split_slash (skip-repeat 1023) ∙ split-repeat 1024)
      (omega (arith, length-repeat 1024))

www-slash : ends_with_slash www ≡ ok false
unfolding ends_with_slash
www-slash = refl

entry_path_overflow_example : entry_path www (repeat 1018) ≡ fault
entry_path_overflow_example =
    entry_path_overflow www (repeat 1018) www-slash (omega (arith, length-repeat 1018))
      (omega (arith, length-repeat 1018))
