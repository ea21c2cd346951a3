-- ===== src/Cache/Mirror.antt =====
-- The relations between the cache and the disk that it was built from.
pub mod Build
pub mod Files
pub mod Subfolders
pub mod Lookup
pub mod Requests
pub mod Stores
pub mod Delivers
use ens_sysres_proj.Common.{ℕ, ◌<◌, ◌^◌, ◌≡◌, Bool, true, false, some, List, [], ◌∷◌, Bytes, ok}
use mathlib.Core.List.{Memᴰ}
use ens_sysres_proj.Toolbox.Paths.{is_plain, IsLastName}
use ens_sysres_proj.Cache.{File, Folder, folder, Folders, nil, cons, filename_is_special}
use ens_sysres_proj.Cache.Disk.{Stat, regular, directory, other, Disk}
use ens_sysres_proj.Cache.Content.{set_file_content}
use ens_sysres_proj.Cache.Build.{entry_path}
use ens_sysres_proj.Cache.Build.Fill.{new_file, stored}

-- The file that is made of a regular file of the disk, with some free space.
pub record IsCopy (d : Disk) (path name : Bytes) (st_size : ℕ) (file : File) : Type 0 where
  pub free : ℕ
  pub free_int : free < 2 ^ 31
  pub content : File
  pub loaded : Bool
  pub runs : set_file_content d (new_file path name st_size) free ≡ ok (content, loaded)
  pub is_stored : file ≡ stored d content loaded

-- An entry that a directory lists: not a special one, and with a path that fits.
pub record IsEntry (d : Disk) (path name p : Bytes) (s : Stat) : Type 0 where
  pub ordinary : filename_is_special name ≡ false
  pub entry : entry_path path name ≡ ok p
  pub stat : d.stat p ≡ some s

module _ (d : Disk) where
  mutual
    -- The files and folders for the names of a directory, in their order.
    pub data Lists : Bytes → List Bytes → List File → Folders → Type 0 where
      done : {path : Bytes} → Lists path [] [] nil
      special :
          {path name : Bytes} {names : List Bytes} {files : List File} {subs : Folders}
          → filename_is_special name ≡ true
          → Lists path names files subs
          → Lists path (name ∷ names) files subs
      file :
          {path name p : Bytes} {size : ℕ} {f : File} {names : List Bytes} {files : List File}
          {subs : Folders}
          → IsEntry d path name p (regular size)
          → IsCopy d p name size f
          → Lists path names files subs
          → Lists path (name ∷ names) (f ∷ files) subs
      subfolder :
          {path name p : Bytes} {sub : Folder} {names : List Bytes} {files : List File}
          {subs : Folders}
          → IsEntry d path name p directory
          → Mirrors p sub
          → Lists path names files subs
          → Lists path (name ∷ names) files (cons sub subs)
      skipped :
          {path name p : Bytes} {names : List Bytes} {files : List File} {subs : Folders}
          → IsEntry d path name p other
          → Lists path names files subs
          → Lists path (name ∷ names) files subs

    -- The folder for a directory.
    pub data Mirrors : Bytes → Folder → Type 0 where
      mirrors :
          {path name : Bytes} {size nf ns : ℕ} {names : List Bytes} {files : List File}
          {subs : Folders}
          → d.entries path ≡ some names
          → IsLastName path name
          → Lists path names files subs
          → Mirrors path (folder name size files nf subs ns)

-- A directory lists a name, which stands for an entry.
pub record Holds (d : Disk) (path name p : Bytes) (s : Stat) : Type 0 where
  pub names : List Bytes
  pub listed : d.entries path ≡ some names
  pub member : Memᴰ name names
  pub is_entry : IsEntry d path name p s

-- From a directory, the names lead through listed subdirectories to a listed regular file.
pub data Reaches (d : Disk) : Bytes → List Bytes → Bytes → ℕ → Type 0 where
  here :
      {path name q : Bytes} {size : ℕ}
      → Holds d path name q (regular size)
      → Reaches d path (name ∷ []) q size
  below :
      {path name p next q : Bytes} {names : List Bytes} {size : ℕ}
      → Holds d path name p directory
      → Reaches d p (next ∷ names) q size
      → Reaches d path (name ∷ next ∷ names) q size

-- `readdir` returns no name with a slash.
pub record HasPlainNames (d : Disk) : Type 0 where
  pub plain :
      (path : Bytes) (names : List Bytes)
      → d.entries path ≡ some names
      → (name : Bytes) → Memᴰ name names
      → is_plain name ≡ true
