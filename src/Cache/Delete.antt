-- ===== src/Cache/Delete.antt =====
-- src/file_cache.c: the deletion of files, folders and caches. What is freed is not used again, so
-- only a second `free` of a file's content can go wrong.
use ens_sysres_proj.Common.{
  Option, none, some, List, [], ◌∷◌, Outcome, ok, fault, ◌>>◌, ◌≡◌, refl, ◌≢◌, >>=-ok,
}
use ens_sysres_proj.Cache.{
  Buffer, null, live, freed, File, Folder, folder, Folders, nil, cons, FileCache,
}
use ens_sysres_proj.Cache.Sizes.{AllFresh, IsBuilt, AreBuilt}

-- `free` of a pointer to content.
abbrev pub free_buffer : Buffer → Outcome (Unit {0})
free_buffer freed = fault
free_buffer _ = ok tt

abbrev pub delete_file : File → Outcome (Unit {0})
delete_file f = free_buffer f.content

unfoldable pub delete_files : List File → Outcome (Unit {0})
delete_files [] = ok tt
delete_files (f ∷ fs) = do delete_file f; delete_files fs

unfoldable mutual
  pub recursively_delete_folder : Folder → Outcome (Unit {0})
  recursively_delete_folder (folder name size files nf subs ns) = do
    delete_files files
    delete_subfolders subs

  pub delete_subfolders : Folders → Outcome (Unit {0})
  delete_subfolders nil = ok tt
  delete_subfolders (cons f fs) = do recursively_delete_folder f; delete_subfolders fs

abbrev pub delete_root : Option Folder → Outcome (Unit {0})
delete_root none = ok tt
delete_root (some f) = recursively_delete_folder f

abbrev pub delete_file_cache : FileCache → Outcome (Unit {0})
delete_file_cache cache = delete_root cache.root

free_buffer-Returns : (b : Buffer) → b ≢ freed → free_buffer b ≡ ok tt
free_buffer-Returns null n = refl
free_buffer-Returns (live bytes) n = refl
free_buffer-Returns freed n = absurd (n refl)

delete_files-Returns : (fs : List File) → AllFresh fs → delete_files fs ≡ ok tt
unfolding delete_files
delete_files-Returns [] a = refl
delete_files-Returns (f ∷ fs) a =
    >>=-ok _ (free_buffer-Returns f.content a.0.not_freed) (delete_files-Returns fs a.1)

mutual
  unfolding recursively_delete_folder delete_subfolders

  pub recursively_delete_folder-Returns :
      (f : Folder) → IsBuilt f → recursively_delete_folder f ≡ ok tt
  recursively_delete_folder-Returns (folder name size files nf subs ns) (_, _, _, fresh, built) =
      >>=-ok _ (delete_files-Returns files fresh) (delete_subfolders-Returns subs built)

  delete_subfolders-Returns : (fs : Folders) → AreBuilt fs → delete_subfolders fs ≡ ok tt
  delete_subfolders-Returns nil a = refl
  delete_subfolders-Returns (cons f fs) a =
      >>=-ok _ (recursively_delete_folder-Returns f a.0) (delete_subfolders-Returns fs a.1)
