-- ===== src/Cache/Sizes.antt =====
-- Measures of a folder that are computed from its files alone, at every depth.
use ens_sysres_proj.Common.{
  Option, none, some, ◌≤◌, ℕ, ◌+◌, ◌%◌, ◌^◌, ◌<◌, ◌≡◌, ◌≢◌, true, false, List, [], ◌∷◌, ◌++◌, arith,
  length, Bytes,
}
use ens_sysres_proj.Cache.{
  File, freed, live, not_loaded, FileState, Folder, folder, Folders, nil, cons, folder_size, null,
  append_folder, nb_subfolders,
}

-- The bytes of the cache that a file takes.
abbrev pub cached_size : FileState → ℕ → ℕ
cached_size not_loaded size = 0
cached_size _ size = size

abbrev pub files_cached : List File → ℕ
files_cached [] = 0
files_cached (f ∷ fs) = cached_size f.state f.size + files_cached fs

abbrev pub files_size : List File → ℕ
files_size [] = 0
files_size (f ∷ fs) = f.size + files_size fs

-- The bytes that the loaded files below a folder take.
abbrev mutual
  pub cached : Folder → ℕ
  cached (folder name size files nf subs ns) = files_cached files + cached_all subs

  pub cached_all : Folders → ℕ
  cached_all nil = 0
  cached_all (cons f fs) = cached f + cached_all fs

-- The sizes of all the files below a folder.
abbrev mutual
  pub total : Folder → ℕ
  total (folder name size files nf subs ns) = files_size files + total_all subs

  pub total_all : Folders → ℕ
  total_all nil = 0
  total_all (cons f fs) = total f + total_all fs

-- A string of at most 255 bytes, if there is one.
abbrev pub IsShort : Option Bytes → Type 0
IsShort none = Unit {0}
IsShort (some value) = length value ≤ 255

-- A file of a cache that was just built: an unloaded one is marked, and no buffer was freed.
pub record IsFresh (f : File) : Type 0 where
  pub size_int : f.size < 2 ^ 31
  pub not_freed : f.content ≢ freed
  pub unload_loaded : f.must_unload ≡ false → f.state ≢ not_loaded
  pub unload_unloaded : f.must_unload ≡ true → f.state ≡ not_loaded
  pub filled : (bytes : Bytes) → f.content ≡ live bytes → length bytes ≡ f.size
  pub empty : f.state ≢ not_loaded → f.content ≡ null → f.size ≡ 0
  pub mime_short : IsShort f.mime

abbrev pub AllFresh : List File → Type 0
AllFresh [] = Unit {0}
AllFresh (f ∷ fs) = IsFresh f × AllFresh fs

-- At every depth: the stored size is the sum of the files' sizes, wrapped to an `int`, the arrays
-- are filled up to their capacity, and the files are fresh.
abbrev mutual
  pub IsBuilt : Folder → Type 0
  IsBuilt (folder name size files nf subs ns) =
      (size ≡ (files_size files + total_all subs) % 2 ^ 32)
      × (length files ≡ nf)
      × (nb_subfolders subs ≡ ns)
      × AllFresh files
      × AreBuilt subs

  pub AreBuilt : Folders → Type 0
  AreBuilt nil = Unit {0}
  AreBuilt (cons f fs) = IsBuilt f × AreBuilt fs

pub files_cached-append :
    (fs : List File) (f : File)
    → files_cached (fs ++ f ∷ []) ≡ files_cached fs + cached_size f.state f.size
files_cached-append [] f = omega arith
files_cached-append (g ∷ fs) f = omega (arith, files_cached-append fs f)

pub files_size-append :
    (fs : List File) (f : File) → files_size (fs ++ f ∷ []) ≡ files_size fs + f.size
files_size-append [] f = omega arith
files_size-append (g ∷ fs) f = omega (arith, files_size-append fs f)

pub AllFresh-append :
    (fs : List File) (f : File) → AllFresh fs → IsFresh f → AllFresh (fs ++ f ∷ [])
AllFresh-append [] f a v = (v, tt)
AllFresh-append (g ∷ fs) f a v = (a.0, AllFresh-append fs f a.1 v)

pub cached_all-append :
    (fs : Folders) (f : Folder) → cached_all (append_folder fs f) ≡ cached_all fs + cached f
cached_all-append nil f = omega arith
cached_all-append (cons g fs) f = omega (arith, cached_all-append fs f)

pub total_all-append :
    (fs : Folders) (f : Folder) → total_all (append_folder fs f) ≡ total_all fs + total f
total_all-append nil f = omega arith
total_all-append (cons g fs) f = omega (arith, total_all-append fs f)

pub nb_subfolders-append :
    (fs : Folders) (f : Folder) → nb_subfolders (append_folder fs f) ≡ nb_subfolders fs + 1
nb_subfolders-append nil f = omega arith
nb_subfolders-append (cons g fs) f = omega (arith, nb_subfolders-append fs f)

pub AreBuilt-append :
    (fs : Folders) (f : Folder) → AreBuilt fs → IsBuilt f → AreBuilt (append_folder fs f)
AreBuilt-append nil f a v = (v, tt)
AreBuilt-append (cons g fs) f a v = (a.0, AreBuilt-append fs f a.1 v)

-- The stored size of a built folder.
pub folder_size-total : (f : Folder) → IsBuilt f → folder_size f ≡ total f % 2 ^ 32
folder_size-total (folder name size files nf subs ns) b = b.0
