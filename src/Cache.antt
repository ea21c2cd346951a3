-- ===== src/Cache.antt =====
-- src/file_cache.h and the basic operations of src/file_cache.c: files, folders and the cache.
-- An array of pointers is the list of its used entries with the capacity that it was allocated at,
-- and the number of used entries is the length of that list.
pub mod Disk
pub mod Content
pub mod Build
pub mod Find
pub mod Delete
pub mod Mirror
pub mod Sizes
use ens_sysres_proj.Common.{
  ℕ, suc, Bool, false, ◌||◌, Option, none, some, List, [], ◌∷◌, ◌++◌, Bytes, codes, Outcome, ok,
  ◌>>=◌, ◌>>◌, in_bounds, length, ltb, add_int,
}
use ens_sysres_proj.Toolbox.{strings_are_equal}

abbrev pub max_name_length : ℕ
max_name_length = 1024

abbrev pub max_path_length : ℕ
max_path_length = 1024

abbrev pub max_file_type_length : ℕ
max_file_type_length = 256

abbrev pub min_file_size_for_gzip : ℕ
min_file_size_for_gzip = 64

pub data FileState : Type 0 where
  not_loaded loaded_raw loaded_compressed : FileState

pub data FileEncoding : Type 0 where
  encoding_gzip encoding_none : FileEncoding

-- The pointer to a file's content: NULL, to an allocated buffer, or to one that was freed.
pub data Buffer : Type 0 where
  null : Buffer
  live : Bytes → Buffer
  freed : Buffer

-- `name` and `path` are `[]` where the source has NULL, before the caller sets them. `size` is an
-- `int`, as its pattern. `mime` is the source's `type`.
pub record File : Type 0 where
  pub name : Bytes
  pub path : Bytes
  pub state : FileState
  pub content : Buffer
  pub size : ℕ
  pub must_unload : Bool
  pub mime : Option Bytes
  pub encoding : FileEncoding

-- `folder name size files max_nb_files subfolders max_nb_subfolders`.
mutual
  pub data Folder : Type 0 where
    folder : Bytes → ℕ → List File → ℕ → Folders → ℕ → Folder

  pub data Folders : Type 0 where
    nil : Folders
    cons : Folder → Folders → Folders

pub record FileCache : Type 0 where
  pub root : Option Folder
  pub size : ℕ
  pub max_size : ℕ

-- `createAndInitFile`.
abbrev pub get_file_state_as_string : Option FileState → Bytes
get_file_state_as_string none = codes "UNKNOWN STATE"
get_file_state_as_string (some not_loaded) = codes "NOT_LOADED"
get_file_state_as_string (some loaded_raw) = codes "LOADED_RAW"
get_file_state_as_string (some loaded_compressed) = codes "LOADED_COMPRESSED"

abbrev pub init_file : File
init_file = record {
  name = [];
  path = [];
  state = not_loaded;
  content = null;
  size = 0;
  must_unload = false;
  mime = some [];
  encoding = encoding_none;
}

abbrev pub create_empty_folder : (name : Bytes) → (max_nb_files max_nb_subfolders : ℕ) → Folder
create_empty_folder name nf ns = folder name 0 [] nf nil ns

abbrev pub folder_name : Folder → Bytes
folder_name (folder name size files nf subs ns) = name

abbrev pub folder_size : Folder → ℕ
folder_size (folder name size files nf subs ns) = size

abbrev pub nb_subfolders : Folders → ℕ
nb_subfolders nil = 0
nb_subfolders (cons f fs) = suc (nb_subfolders fs)

-- `subfolders[nb_subfolders] = subfolder`.
abbrev pub append_folder : Folders → Folder → Folders
append_folder nil g = cons g nil
append_folder (cons f fs) g = cons f (append_folder fs g)

-- Both return the folder with its new size. A write behind the end of the array is a fault.
unfoldable pub add_file_to_folder : Folder → File → Outcome (Folder × ℕ)
add_file_to_folder (folder name size files nf subs ns) file = do
  in_bounds (ltb (length files) nf)
  let new_size = add_int size file.size
  ok (folder name new_size (files ++ file ∷ []) nf subs ns, new_size)

unfoldable pub add_subfolder_to_folder : Folder → Folder → Outcome (Folder × ℕ)
add_subfolder_to_folder (folder name size files nf subs ns) sub = do
  in_bounds (ltb (nb_subfolders subs) ns)
  let new_size = add_int size (folder_size sub)
  ok (folder name new_size files nf (append_folder subs sub) ns, new_size)

abbrev pub create_empty_file_cache : ℕ → FileCache
create_empty_file_cache max_size = record { root = none; size = 0; max_size = max_size }

unfoldable pub filename_is_special : Bytes → Bool
filename_is_special name = strings_are_equal name (codes ".") || strings_are_equal name (codes "..")
