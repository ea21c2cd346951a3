-- ===== src/Cache/Build.antt =====
-- Building the cache from the disk: the last part of src/file_cache.c. A directory is read twice,
-- to count and to fill. The recursion over subdirectories runs on fuel.
pub mod Fill
pub mod Space
pub mod Depth
pub mod Safe
use ens_sysres_proj.Common.{
  ℕ, zero, suc, ◌+◌, ◌-◌, Bool, true, false, some, List, [], ◌∷◌, Bytes, Outcome, ok, exit,
  out_of_fuel, ◌>>=◌, ◌>>◌, in_bounds, or_exit, length, leb, if◌then◌else◌, to_int, sub_int,
}
use ens_sysres_proj.Toolbox.{append_name_to_path, extract_last_name_of_path}
use ens_sysres_proj.Cache.{
  File, Folder, FileCache, init_file, create_empty_folder, create_empty_file_cache,
  add_file_to_folder, add_subfolder_to_folder, filename_is_special, max_path_length,
}
use ens_sysres_proj.Cache.Disk.{Stat, regular, directory, other, Disk}
use ens_sysres_proj.Cache.Content.{set_file_content, set_file_metadata}

-- `strcpy` and `appendNameToPath` into a buffer of `MAX_PATH_LENGTH` bytes.
unfoldable pub entry_path : (current_folder_path current_entry_name : Bytes) → Outcome Bytes
entry_path path name = do
  in_bounds (leb (length path + 1) max_path_length)
  built ← append_name_to_path path name max_path_length
  p ← or_exit built "appendNameToPath() failed in recursivelyFillFolder(): path is too long!"
  in_bounds (leb (length p + 1) max_path_length)
  ok p

unfoldable pub count_stat : Stat → ℕ × ℕ → ℕ × ℕ
count_stat (regular size) (nf, ns) = (nf + 1, ns)
count_stat directory (nf, ns) = (nf, ns + 1)
count_stat other (nf, ns) = (nf, ns)

module _ (d : Disk) where
  -- The counters `nb_files` and `nb_subfolders` are a pair.
  unfoldable pub count_files_and_folders : (path : Bytes) → List Bytes → ℕ × ℕ → Outcome (ℕ × ℕ)
  count_files_and_folders path [] counts = ok counts
  count_files_and_folders path (name ∷ rest) counts = elim (filename_is_special name) [
    | true ↦ count_files_and_folders path rest counts
    | false ↦ do
      p ← entry_path path name
      s ← or_exit (d.stat p) "stat() failed in countFilesAndFoldersInDirectory()"
      count_files_and_folders path rest (count_stat s counts)
  ]

  -- Case 1 of `recursivelyFillFolder`.
  unfoldable pub fill_file : (path name : Bytes) → ℕ → Folder → ℕ → Outcome (Folder × ℕ)
  fill_file path name st_size f free = do
    let new_file = record init_file { name = name; path = path; size = to_int st_size }
    (file, loaded) ← set_file_content d new_file free
    let free' = if loaded then sub_int free file.size else free
    let file' = if loaded then file else record file { must_unload = true }
    (f', _) ← add_file_to_folder f (set_file_metadata d file')
    ok (f', free')

  module _ (build : Bytes → ℕ → Outcome (Folder × ℕ)) where
    -- The branches on the kind of the entry at `path`.
    unfoldable pub fill_stat : (path name : Bytes) → Stat → Folder → ℕ → Outcome (Folder × ℕ)
    fill_stat path name (regular st_size) f free = fill_file path name st_size f free
    fill_stat path name directory f free = do
      (sub, free') ← build path free
      (f', _) ← add_subfolder_to_folder f sub
      ok (f', free')
    fill_stat path name other f free = ok (f, free)

    -- The loop of `recursivelyFillFolder`, over the names that are left.
    unfoldable pub fill_folder : (path : Bytes) → List Bytes → Folder → ℕ → Outcome (Folder × ℕ)
    fill_folder path [] f free = ok (f, free)
    fill_folder path (name ∷ rest) f free = elim (filename_is_special name) [
      | true ↦ fill_folder path rest f free
      | false ↦ do
        p ← entry_path path name
        s ← or_exit (d.stat p) "stat() failed in recursivelyBuildFolder()"
        (f', free') ← fill_stat p name s f free
        fill_folder path rest f' free'
    ]

  unfoldable pub build_folder : (depth : ℕ) → (path : Bytes) → ℕ → Outcome (Folder × ℕ)
  build_folder zero path free = out_of_fuel
  build_folder (suc k) path free = do
    names ← or_exit (d.entries path) "opendir() failed in recursivelyBuildFolder()"
    (nf, ns) ← count_files_and_folders path names (0, 0)
    name ← extract_last_name_of_path path
    fill_folder (build_folder k) path names (create_empty_folder name nf ns) free

  -- The depth is bounded by `MAX_PATH_LENGTH`, as each level makes the path longer.
  unfoldable pub build_cache_from_disk : (root_path : Bytes) → (max_size : ℕ) → Outcome FileCache
  build_cache_from_disk root_path max_size = do
    (root, free) ← build_folder max_path_length root_path max_size
    ok (record (create_empty_file_cache max_size) {
      root = some root;
      size = sub_int max_size free;
    })
