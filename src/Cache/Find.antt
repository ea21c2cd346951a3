-- ===== src/Cache/Find.antt =====
-- Fetching a file from the cache by its path: the end of src/file_cache.c.
pub mod Components
pub mod Refines
pub mod Members
use ens_sysres_proj.Common.{
  ℕ, zero, suc, ◌+◌, Option, none, some, List, [], ◌∷◌, ◌++◌, Bytes, Outcome, ok, fault,
  out_of_fuel, ◌>>=◌, ◌>>◌, in_bounds, length, ltb, ◌==◌, if◌then◌else◌,
}
use ens_sysres_proj.Toolbox.{strings_are_equal}
use ens_sysres_proj.Cache.{
  File, Folder, folder, Folders, nil, cons, FileCache, folder_name, max_name_length,
}

unfoldable pub find_subfolder : Folders → Bytes → Option Folder
find_subfolder nil name = none
find_subfolder (cons f fs) name =
    if strings_are_equal name (folder_name f) then some f else find_subfolder fs name

unfoldable pub find_subfolder_in_folder : Folder → Bytes → Option Folder
unfolding find_subfolder
find_subfolder_in_folder (folder n size files nf subs ns) name = find_subfolder subs name

unfoldable pub find_file : List File → Bytes → Option File
find_file [] name = none
find_file (f ∷ fs) name = if strings_are_equal name f.name then some f else find_file fs name

unfoldable pub find_file_in_folder : Folder → Bytes → Option File
unfolding find_file
find_file_in_folder (folder n size files nf subs ns) name = find_file files name

-- `while (remaining_path[0] == '/') remaining_path++;`
unfoldable pub skip_slashes : Bytes → Bytes
skip_slashes [] = []
skip_slashes (c ∷ cs) = if c == b'/' then skip_slashes cs else c ∷ cs

-- `strchr(path, '/')`: the characters in front of the first `/`, and the string that begins there.
unfoldable pub split_slash : Bytes → Option (Bytes × Bytes)
split_slash [] = none
split_slash (c ∷ cs) =
    if c == b'/'
    then some ([], c ∷ cs)
    else elim (split_slash cs) [ none ↦ none | some (name, rest) ↦ some (c ∷ name, rest) ]

-- The `for` loop. The name and its NUL go into a buffer of `MAX_NAME_LENGTH` bytes.
unfoldable pub find_loop : (rounds : ℕ) → Folder → (remaining_path : Bytes) → Outcome (Option File)
find_loop zero current path = out_of_fuel
find_loop (suc k) current path = elim (split_slash path) [
  | none ↦ ok (find_file_in_folder current path)
  | some (name, rest) ↦ do
    in_bounds (ltb (length name) max_name_length)
    elim (find_subfolder_in_folder current name) [
      | none ↦ ok none
      | some sub ↦ find_loop k sub (skip_slashes rest)
    ]
]

-- Each round takes a `/` from the path. Without a root the code dereferences NULL.
unfoldable pub find_file_in_cache : FileCache → Bytes → Outcome (Option File)
find_file_in_cache cache path = elim cache.root [
  | none ↦ fault
  | some root ↦ find_loop (length path + 1) root (skip_slashes path)
]
