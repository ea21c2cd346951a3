-- ===== src/Cache/Build/Space.antt =====
-- What a cache that was built from the disk satisfies.
use ens_sysres_proj.Common.{
  inl, inr, ℕ, zero, suc, ◌+◌, ◌^◌, ◌≤◌, ◌<◌, ◌≡◌, refl, ◌∙◌, sym, subst, true, false, some, List,
  [], ◌∷◌, Bytes, Outcome, ok, ok-injective, or_exit, or_exit-eq-ok, >>=-eq-ok, Bool-cases, arith,
}
use ens_sysres_proj.Toolbox.{extract_last_name_of_path}
use ens_sysres_proj.Cache.{
  Folder, folder, folder_name, FileCache, filename_is_special, max_path_length, create_empty_folder,
}
use ens_sysres_proj.Cache.Disk.{Stat, Disk}
use ens_sysres_proj.Cache.Build.{
  entry_path, count_stat, count_files_and_folders, fill_stat, fill_folder, build_folder,
  build_cache_from_disk,
}
use ens_sysres_proj.Cache.Build.Fill.{IsPartial, used, capacity, IsBuilder, fill_stat-Adds}
use ens_sysres_proj.Cache.Sizes.{cached, IsBuilt}

-- What the loop over the names of a directory adds, and that the counting loop agrees.
record Fills (d : Disk) (path : Bytes) (names : List Bytes) (f : Folder) (free : ℕ) (f' : Folder)
    (free' : ℕ) : Type 0 where
  partial : IsPartial f'
  space : cached f' + free' ≡ cached f + free
  capacity_is : capacity f' ≡ capacity f
  counts : count_files_and_folders d path names (used f) ≡ ok (used f')
  name_is : folder_name f' ≡ folder_name f

module _ (d : Disk) (path name : Bytes) (rest : List Bytes) (c : ℕ × ℕ) where
  pub count_special :
      filename_is_special name ≡ true
      → count_files_and_folders d path (name ∷ rest) c ≡ count_files_and_folders d path rest c
  unfolding count_files_and_folders
  count_special e = ground arith

  pub count_entry :
      {p : Bytes} {s : Stat}
      → filename_is_special name ≡ false
      → entry_path path name ≡ ok p
      → d.stat p ≡ some s
      → count_files_and_folders d path (name ∷ rest) c
        ≡ count_files_and_folders d path rest (count_stat s c)
  unfolding count_files_and_folders
  count_entry e e' e'' = ground arith

module _ (d : Disk) (build : Bytes → ℕ → Outcome (Folder × ℕ)) (is : IsBuilder build)
    (path : Bytes) where
  fill_folder-Fills :
      (names : List Bytes) (f : Folder) (free : ℕ) (f' : Folder) (free' : ℕ)
      → free < 2 ^ 31
      → IsPartial f
      → fill_folder d build path names f free ≡ ok (f', free')
      → Fills d path names f free f' free'
  unfolding fill_folder count_files_and_folders
  fill_folder-Fills [] f free f' free' small p h =
      subst (λ (q : Folder × ℕ). Fills d path [] f free q.0 q.1) (ok-injective h)
        (record { partial = p; space = refl; capacity_is = refl; counts = refl; name_is = refl })
  fill_folder-Fills (name ∷ rest) f free f' free' small p h =
      elim (Bool-cases (filename_is_special name)) [
        | inl e ↦
            let r = fill_folder-Fills rest f free f' free' small p (rw (e, fill_folder) at h) in
            record {
              partial = r.partial;
              space = r.space;
              capacity_is = r.capacity_is;
              counts = count_special d path name rest (used f) e ∙ r.counts;
              name_is = r.name_is;
            }
        | inr e ↦
            let (p', e', t') = >>=-eq-ok (entry_path path name) _ (rw (e, fill_folder) at h) in
            let (s, e'', t'') = >>=-eq-ok (or_exit (d.stat p') _) _ t' in
            let (r, e''', t''') = >>=-eq-ok (fill_stat d build p' name s f free) _ t'' in
            let a = fill_stat-Adds d build p' name s f free is small p e''' in
            let le : r.1 ≤ free = a.free_le in
            let more = fill_folder-Fills rest r.0 r.1 f' free' (omega arith) a.partial t''' in
            record {
              partial = more.partial;
              space = more.space ∙ a.space;
              capacity_is = more.capacity_is ∙ a.capacity_is;
              counts =
                  count_entry d path name rest (used f) e e' (or_exit-eq-ok (d.stat p') _ e'')
                  ∙ rw (← a.used_is) more.counts;
              name_is = more.name_is ∙ a.name_is;
            }
      ]

-- The folder that is returned: its arrays are full, since the first loop counted what the second
-- one added.
filled-IsBuilt :
    (f : Folder) (counts : ℕ × ℕ) → IsPartial f → capacity f ≡ counts → used f ≡ counts → IsBuilt f
filled-IsBuilt (folder name size files nf subs ns) counts p c u = ground (arith, c, u, p)

module _ (d : Disk) where
  pub build_folder-IsBuilder : (depth : ℕ) → IsBuilder (build_folder d depth)
  unfolding build_folder
  build_folder-IsBuilder zero path free f free' small h = cc
  build_folder-IsBuilder (suc k) path free f free' small h =
      let (names, e, t) = >>=-eq-ok (or_exit (d.entries path) _) _ h in
      let (c, e', t') = >>=-eq-ok (count_files_and_folders d path names (0, 0)) _ t in
      let (name, e'', t'') = >>=-eq-ok (extract_last_name_of_path path) _ t' in
      let filled =
        fill_folder-Fills d (build_folder d k) (build_folder-IsBuilder k) path names
          (create_empty_folder name c.0 c.1) free f free' small (refl, tt, tt) t'' in
      record {
        built =
            filled-IsBuilt f c filled.partial filled.capacity_is
              (ok-injective (sym filled.counts ∙ e'));
        space = omega (arith, filled.space);
      }

  -- A cache that was built from any disk, with fewer than 2 ^ 31 bytes of space, has a root in
  -- which every folder at every depth stores the sum of the sizes of its files, wrapped to an
  -- int, fills its two arrays up to their capacity, and holds files that are loaded exactly if
  -- they are not marked, with a content of as many bytes as their size says, or NULL with a size
  -- of 0, and with a type of at most 255 bytes. The cache's size is what the loaded files take,
  -- and it is no more than the space.
  pub build_cache_from_disk-IsBuilt :
      (root_path : Bytes) (max : ℕ) {cache : FileCache}
      → max < 2 ^ 31
      → build_cache_from_disk d root_path max ≡ ok cache
      → (root : Folder) × (cache.root ≡ some root)
        × IsBuilt root
        × (cache.size ≡ cached root)
        × (cache.size ≤ max)
        × (cache.max_size ≡ max)
  unfolding build_cache_from_disk
  build_cache_from_disk-IsBuilt root_path max {cache} small h =
      let (r, e, t) = >>=-eq-ok (build_folder d max_path_length root_path max) _ h in
      let b = build_folder-IsBuilder max_path_length root_path max r.0 r.1 small e in
      (
        r.0,
        ground (arith, t),
        b.built,
        ground (arith, b.space, t),
        ground (arith, b.space, t),
        ground (arith, t),
      )
