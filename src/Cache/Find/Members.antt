-- ===== src/Cache/Find/Members.antt =====
-- A file that is found stands in the cache: what holds of all its files holds of it.
use ens_sysres_proj.Common.{
  ◌≡◌, inl, inr, some, some, List, [], ◌∷◌, Bytes, ok, ok-injective, length, Option-cases,
  Bool-cases, sym, ◌∙◌, ◌≤◌,
}
use ens_sysres_proj.Toolbox.{strings_are_equal}
use ens_sysres_proj.Cache.{
  File, Folder, folder, Folders, nil, cons, FileCache, folder_name, max_path_length,
}
use ens_sysres_proj.Cache.Find.{
  find_subfolder, find_subfolder_in_folder, find_file, find_file_in_folder, find_file_in_cache,
}
use ens_sysres_proj.Cache.Find.Components.{components, collapse, find_components}
use ens_sysres_proj.Cache.Find.Refines.{find_file_in_cache-components}
use ens_sysres_proj.Cache.Sizes.{IsFresh, AllFresh, IsBuilt, AreBuilt}

find_file-IsFresh :
    (files : List File) (name : Bytes) {f : File}
    → AllFresh files
    → find_file files name ≡ some f
    → IsFresh f
unfolding find_file
find_file-IsFresh [] name a h = cc
find_file-IsFresh (g ∷ files) name {f} a h = elim (Bool-cases (strings_are_equal name g.name)) [
  | inl e ↦ let same : g ≡ f = cc (rw (e, find_file) at h) in rw same at a.0
  | inr e ↦ find_file-IsFresh files name a.1 (rw (e, find_file) at h)
]

find_file_in_folder-IsFresh :
    (d : Folder) (name : Bytes) {f : File}
    → IsBuilt d
    → find_file_in_folder d name ≡ some f
    → IsFresh f
unfolding find_file_in_folder
find_file_in_folder-IsFresh (folder n size files nf subs ns) name b h =
    find_file-IsFresh files name b.3 h

find_subfolder-IsBuilt :
    (fs : Folders) (name : Bytes) {d : Folder}
    → AreBuilt fs
    → find_subfolder fs name ≡ some d
    → IsBuilt d
unfolding find_subfolder
find_subfolder-IsBuilt nil name a h = cc
find_subfolder-IsBuilt (cons g fs) name {d} a h =
    elim (Bool-cases (strings_are_equal name (folder_name g))) [
      | inl e ↦ let same : g ≡ d = cc (rw (e, find_subfolder) at h) in rw same at a.0
      | inr e ↦ find_subfolder-IsBuilt fs name a.1 (rw (e, find_subfolder) at h)
    ]

find_subfolder_in_folder-IsBuilt :
    (d : Folder) (name : Bytes) {sub : Folder}
    → IsBuilt d
    → find_subfolder_in_folder d name ≡ some sub
    → IsBuilt sub
unfolding find_subfolder_in_folder
find_subfolder_in_folder-IsBuilt (folder n size files nf subs ns) name b h =
    find_subfolder-IsBuilt subs name b.4 h

pub find_components-IsFresh :
    (names : List Bytes) (d : Folder) {f : File}
    → IsBuilt d
    → find_components d names ≡ some f
    → IsFresh f
unfolding find_components
find_components-IsFresh [] d b h = cc
find_components-IsFresh (x ∷ []) d b h = find_file_in_folder-IsFresh d x b h
find_components-IsFresh (x ∷ y ∷ ys) d b h = elim (Option-cases (find_subfolder_in_folder d x)) [
  | inl e ↦ cc (rw (e, find_components) at h)
  | inr (sub, e) ↦
      find_components-IsFresh (y ∷ ys) sub (find_subfolder_in_folder-IsBuilt d x b e)
        (rw (e, find_components) at h)
]

-- A file that is found by a path of at most MAX_PATH_LENGTH bytes, in a cache whose tree is as
-- building leaves it, is as it was loaded: it is loaded exactly if it is not marked, its buffer
-- was not freed and has as many bytes as its size says, and its type has at most 255 bytes.
find_file_in_cache-IsFresh :
    (cache : FileCache) (root : Folder) (path : Bytes) {f : File}
    → cache.root ≡ some root
    → IsBuilt root
    → length path ≤ max_path_length
    → find_file_in_cache cache path ≡ ok (some f)
    → IsFresh f
find_file_in_cache-IsFresh cache root path e b short h =
    find_components-IsFresh (collapse (components path)) root b
      (ok-injective (sym (find_file_in_cache-components cache root path e short) ∙ h))
