-- ===== src/Cache/Find/Refines.antt =====
-- `findFileInCache` against the lookup along the components of the path.
use ens_sysres_proj.Common.{
  lt→ltb, inl, inr, ℕ, zero, suc, ◌+◌, ◌≤◌, ◌<◌, ◌≡◌, ◌≢◌, ap, ◌∙◌, sym, none, some, [], ◌∷◌, Bytes,
  ok, fault, arith, length, Option-cases,
}
use native.Mathlib.Numerals.{add-one}
use ens_sysres_proj.Cache.{Folder, FileCache, max_name_length, max_path_length}
use ens_sysres_proj.Cache.Find.{
  find_subfolder_in_folder, find_file_in_folder, skip_slashes, split_slash, find_loop,
  find_file_in_cache,
}
use ens_sysres_proj.Cache.Find.Components.{
  components, collapse, find_components, collapse-skip, split_slash-none, split_slash-Splits,
  skip_slashes-split, skip_slashes-length, collapse-name, collapse-one, skip_slashes-slash,
  find_components_last, find_components_missing, find_components_found,
}

-- One round of the loop.
module _ (k : ℕ) (f : Folder) (path : Bytes) where
  find_loop_last :
      split_slash path ≡ none → find_loop (suc k) f path ≡ ok (find_file_in_folder f path)
  unfolding find_loop
  find_loop_last e = rw (e, find_loop)

  module _ (name rest : Bytes) (e : split_slash path ≡ some (name, rest)) where
    find_loop_long : max_name_length ≤ length name → find_loop (suc k) f path ≡ fault
    unfolding find_loop
    find_loop_long long = rw (e, find_loop) (ground arith)

    find_loop_missing :
        length name < max_name_length
        → find_subfolder_in_folder f name ≡ none
        → find_loop (suc k) f path ≡ ok none
    unfolding find_loop
    find_loop_missing fits missing = rw (e, find_loop, lt→ltb _ _ fits, missing)

    find_loop_found :
        {sub : Folder}
        → length name < max_name_length
        → find_subfolder_in_folder f name ≡ some sub
        → find_loop (suc k) f path ≡ find_loop k sub (skip_slashes rest)
    unfolding find_loop
    find_loop_found fits found = rw (e, lt→ltb _ _ fits, found, find_loop)

-- What remains is shorter in each round, and every name fits its buffer.
find_loop-components :
    (k : ℕ) (f : Folder) (path : Bytes)
    → length (skip_slashes path) < k
    → length (skip_slashes path) ≤ max_path_length
    → find_loop k f (skip_slashes path) ≡ ok (find_components f (collapse (components path)))
find_loop-components zero f path fuel short = absurd (omega arith)
find_loop-components (suc k) f path fuel short =
    elim (Option-cases (split_slash (skip_slashes path))) [
      | inl e ↦ find_loop_last k f (skip_slashes path) e ∙ ap ok (sym (last e))
      | inr ((name, rest), e) ↦ split name rest e (find_loop-components k)
    ]
  where
    last :
        split_slash (skip_slashes path) ≡ none
        → find_components f (collapse (components path)) ≡ find_file_in_folder f (skip_slashes path)
    last e =
        rw
          (
            sym (collapse-skip path),
            split_slash-none (skip_slashes path) e,
            collapse-one (skip_slashes path),
          )
          (find_components_last f (skip_slashes path))

    split :
        (name rest : Bytes)
        → split_slash (skip_slashes path) ≡ some (name, rest)
        → ((f : Folder) (path : Bytes)
            → length (skip_slashes path) < k
            → length (skip_slashes path) ≤ max_path_length
            → find_loop k f (skip_slashes path)
              ≡ ok (find_components f (collapse (components path))))
        → find_loop (suc k) f (skip_slashes path)
          ≡ ok (find_components f (collapse (components path)))
    split name rest e ih =
        let s = split_slash-Splits (skip_slashes path) e in
        let named : name ≢ [] = λ empty. skip_slashes-split path rest (rw empty at e) in
        let parts : collapse (components path) ≡ name ∷ collapse (components s.tail) =
          sym (collapse-skip path) ∙ ap collapse s.parts ∙ collapse-name name s.tail named in
        let next : skip_slashes rest ≡ skip_slashes s.tail =
          ap skip_slashes s.slash ∙ skip_slashes-slash s.tail in
        let size : length rest ≡ suc (length s.tail) = ap length s.slash in
        let le = skip_slashes-length s.tail in
        let fits : length name < max_name_length = omega (arith, s.sizes) in
        elim (Option-cases (find_subfolder_in_folder f name)) [
          | inl missing ↦
              find_loop_missing k f (skip_slashes path) name rest e fits missing
              ∙ rw parts (ap ok (sym (find_components_missing f name s.tail missing)))
          | inr (sub, found) ↦
              find_loop_found k f (skip_slashes path) name rest e fits found
              ∙ rw (next, parts, find_components_found f name s.tail found)
                  (ih sub s.tail (omega (arith, s.sizes)) (omega (arith, s.sizes)))
        ]

-- For a cache that has a root and a path of at most MAX_PATH_LENGTH bytes, the walk over the
-- characters returns without a fault, and with the file that the components of the path lead to,
-- empty components in front of the last one left out.
pub find_file_in_cache-components :
    (cache : FileCache) (root : Folder) (path : Bytes)
    → cache.root ≡ some root
    → length path ≤ max_path_length
    → find_file_in_cache cache path ≡ ok (find_components root (collapse (components path)))
unfolding find_file_in_cache
find_file_in_cache-components cache root path e short =
    let le = skip_slashes-length path in
    rw e (find_loop-components (length path + 1) root path (omega arith) (omega arith))

-- In a cache that has a root, a path whose first component, behind the leading slashes, is
-- followed by a slash and has MAX_NAME_LENGTH bytes or more makes the lookup write behind the
-- buffer for a folder's name.
pub find_file_in_cache_overflow :
    (cache : FileCache) (root : Folder) (path name rest : Bytes)
    → cache.root ≡ some root
    → split_slash (skip_slashes path) ≡ some (name, rest)
    → max_name_length ≤ length name
    → find_file_in_cache cache path ≡ fault
unfolding find_file_in_cache
find_file_in_cache_overflow cache root path name rest e e' long =
    rw (e, add-one) (find_loop_long (length path) root (skip_slashes path) name rest e' long)
