-- ===== src/Cache/Content/Removal.antt =====
-- Removing the content of a file.
use ens_sysres_proj.Common.{◌≡◌, ◌≢◌, refl, ◌>>=◌, Returns}
use ens_sysres_proj.Cache.{
  File, FileState, not_loaded, loaded_raw, loaded_compressed, Buffer, null, live, freed,
}
use ens_sysres_proj.Cache.Content.{remove_content, remove_file_content}
use ens_sysres_proj.Cache.Sizes.{IsFresh}

remove_content_twice :
    (s : FileState) (b : Buffer) (f : File)
    → f.state ≡ s
    → f.content ≡ b
    → (remove_content s b f >>= remove_file_content) ≡ remove_content s b f
unfolding remove_content remove_file_content
remove_content_twice not_loaded b f e e' = rw e
remove_content_twice loaded_raw null f e e' = rw (e, e')
remove_content_twice loaded_raw (live bytes) f e e' = refl
remove_content_twice loaded_raw freed f e e' = refl
remove_content_twice loaded_compressed null f e e' = rw (e, e')
remove_content_twice loaded_compressed (live bytes) f e e' = refl
remove_content_twice loaded_compressed freed f e e' = refl

-- For every file, removing its content and then removing it again ends as removing it once does.
pub remove_file_content_twice :
    (f : File) → (remove_file_content f >>= remove_file_content) ≡ remove_file_content f
unfolding remove_file_content
remove_file_content_twice f = remove_content_twice f.state f.content f refl refl

remove_content-Returns :
    (s : FileState) (b : Buffer) (f : File) → b ≢ freed → Returns (remove_content s b f)
unfolding remove_content
remove_content-Returns not_loaded b f h = refl
remove_content-Returns loaded_raw null f h = refl
remove_content-Returns loaded_raw (live bytes) f h = refl
remove_content-Returns loaded_raw freed f h = absurd (h refl)
remove_content-Returns loaded_compressed null f h = refl
remove_content-Returns loaded_compressed (live bytes) f h = refl
remove_content-Returns loaded_compressed freed f h = absurd (h refl)

-- Removing the content of a file that is as it was loaded returns: no buffer is freed twice.
pub remove_file_content-Returns : (f : File) → IsFresh f → Returns (remove_file_content f)
unfolding remove_file_content
remove_file_content-Returns f fresh = remove_content-Returns f.state f.content f fresh.not_freed
