-- ===== src/Cache/Mirror/Build.antt =====
-- What building the cache adds to the folders, and the mirror that it makes.
use ens_sysres_proj.Common.{
  ℕ, zero, suc, ◌^◌, ◌<◌, ◌≡◌, refl, ap, sym, ◌∙◌, subst, inl, inr, some, List, [], ◌∷◌, ◌++◌,
  append_assoc, append-nil, Bytes, Outcome, ok, ok-injective, or_exit, or_exit-eq-ok, >>=-eq-ok,
  Bool-cases, arith, add_int, ltb, in_bounds, length,
}
use ens_sysres_proj.Toolbox.{extract_last_name_of_path}
use ens_sysres_proj.Toolbox.Paths.{IsLastName, extract-IsLastName}
use ens_sysres_proj.Cache.{
  File, Folder, folder, Folders, nil, cons, append_folder, folder_size, nb_subfolders, FileCache,
  filename_is_special, max_path_length, create_empty_folder, add_file_to_folder,
  add_subfolder_to_folder,
}
use ens_sysres_proj.Cache.Disk.{Stat, regular, directory, other, Disk}
use ens_sysres_proj.Cache.Content.{set_file_content}
use ens_sysres_proj.Cache.Build.{
  entry_path, count_files_and_folders, fill_file, fill_stat, fill_folder, build_folder,
  build_cache_from_disk,
}
use ens_sysres_proj.Cache.Build.Fill.{IsPartial, IsBuilder, fill_stat-Adds, new_file, stored}
use ens_sysres_proj.Cache.Build.Space.{build_folder-IsBuilder}
use ens_sysres_proj.Cache.Mirror.{
  IsCopy, IsEntry, Lists, done, special, file, subfolder, skipped, Mirrors, mirrors,
}

abbrev join : Folders → Folders → Folders
join nil gs = gs
join (cons f fs) gs = cons f (join fs gs)

append_folder-join : (fs : Folders) (f : Folder) → append_folder fs f ≡ join fs (cons f nil)
append_folder-join nil f = refl
append_folder-join (cons g fs) f = ap (cons g) (append_folder-join fs f)

join-nil : (fs : Folders) → join fs nil ≡ fs
join-nil nil = refl
join-nil (cons f fs) = ap (cons f) (join-nil fs)

-- The second folder has these files and subfolders more than the first one.
abbrev Extends : Folder → List File → Folders → Folder → Type 0
Extends (folder name size files nf subs ns) fs gs (folder name' size' files' nf' subs' ns') =
    (name' ≡ name) × (files' ≡ files ++ fs) × (subs' ≡ join subs gs)

Extends-file :
    (f : Folder) (g : File) (f1 f2 : Folder) (fs : List File) (gs : Folders)
    → Extends f (g ∷ []) nil f1
    → Extends f1 fs gs f2
    → Extends f (g ∷ fs) gs f2
Extends-file (folder n s files nf subs ns) g (folder n1 s1 files1 nf1 subs1 ns1)
      (folder n2 s2 files2 nf2 subs2 ns2) fs gs e e' =
    (
      e'.0 ∙ e.0,
      e'.1 ∙ ap (λ (x : List File). x ++ fs) e.1 ∙ append_assoc files (g ∷ []) fs,
      e'.2 ∙ ap (λ (x : Folders). join x gs) (e.2 ∙ join-nil subs),
    )

Extends-subfolder :
    (f g f1 f2 : Folder) (fs : List File) (gs : Folders)
    → Extends f [] (cons g nil) f1
    → Extends f1 fs gs f2
    → Extends f fs (cons g gs) f2
Extends-subfolder (folder n s files nf subs ns) g (folder n1 s1 files1 nf1 subs1 ns1)
      (folder n2 s2 files2 nf2 subs2 ns2) fs gs e e' =
    (
      e'.0 ∙ e.0,
      e'.1 ∙ ap (λ (x : List File). x ++ fs) (e.1 ∙ append-nil files),
      e'.2 ∙ ap (λ (x : Folders). join x gs) e.2 ∙ join_assoc subs g gs,
    )
  where
    join_assoc :
        (subs : Folders) (g : Folder) (gs : Folders)
        → join (join subs (cons g nil)) gs ≡ join subs (cons g gs)
    join_assoc nil g gs = refl
    join_assoc (cons h hs) g gs = ap (cons h) (join_assoc hs g gs)

Extends-self : (f : Folder) → Extends f [] nil f
Extends-self (folder n s files nf subs ns) = (refl, sym (append-nil files), sym (join-nil subs))

add_file-Extends :
    (f : Folder) (g : File) {r : Folder × ℕ}
    → add_file_to_folder f g ≡ ok r
    → Extends f (g ∷ []) nil r.0
unfolding add_file_to_folder
add_file-Extends (folder n s files nf subs ns) g {r} h =
    let (_, _, t) = >>=-eq-ok (in_bounds (ltb (length files) nf)) _ h in
    let same = ok-injective t in
    subst (λ (q : Folder × ℕ). Extends (folder n s files nf subs ns) (g ∷ []) nil q.0)
      {x = (folder n (add_int s g.size) (files ++ g ∷ []) nf subs ns, add_int s g.size)} same
      (refl, refl, sym (join-nil subs))

add_subfolder-Extends :
    (f g : Folder) {r : Folder × ℕ}
    → add_subfolder_to_folder f g ≡ ok r
    → Extends f [] (cons g nil) r.0
unfolding add_subfolder_to_folder
add_subfolder-Extends (folder n s files nf subs ns) g {r} h =
    let (_, _, t) = >>=-eq-ok (in_bounds (ltb (nb_subfolders subs) ns)) _ h in
    let same = ok-injective t in
    let size = add_int s (folder_size g) in
    subst (λ (q : Folder × ℕ). Extends (folder n s files nf subs ns) [] (cons g nil) q.0)
      {x = (folder n size files nf (append_folder subs g) ns, size)} same
      (refl, sym (append-nil files), append_folder-join subs g)

module _ (d : Disk) where
  -- What one entry adds.
  data Adds (p name : Bytes) (s : Stat) (f f' : Folder) : Type 0 where
    a_file :
        (size : ℕ) (g : File)
        → s ≡ regular size
        → IsCopy d p name size g
        → Extends f (g ∷ []) nil f'
        → Adds p name s f f'
    a_folder :
        (g : Folder)
        → s ≡ directory
        → Mirrors d p g
        → Extends f [] (cons g nil) f'
        → Adds p name s f f'
    nothing : s ≡ other → f ≡ f' → Adds p name s f f'

  fill_file-IsCopy :
      (p name : Bytes) (size : ℕ) (f : Folder) (free : ℕ) {f' : Folder} {free' : ℕ}
      → free < 2 ^ 31
      → fill_file d p name size f free ≡ ok (f', free')
      → (g : File) × IsCopy d p name size g × Extends f (g ∷ []) nil f'
  unfolding fill_file stored
  fill_file-IsCopy p name size f free {f'} small h =
      let ((g, loaded), e, t) = >>=-eq-ok (set_file_content d (new_file p name size) free) _ h in
      let (r, e', t') = >>=-eq-ok (add_file_to_folder f (stored d g loaded)) _ t in
      (
        stored d g loaded,
        record {
          free = free;
          free_int = small;
          content = g;
          loaded = loaded;
          runs = e;
          is_stored = refl;
        },
        subst (Extends f (stored d g loaded ∷ []) nil)
            (ap (λ (q : Folder × ℕ). q.0) (ok-injective t'))
            (add_file-Extends f (stored d g loaded) e'),
      )

  module _ (build : Bytes → ℕ → Outcome (Folder × ℕ)) (is : IsBuilder build)
      (builds : (p : Bytes) (free : ℕ) (f : Folder) (free' : ℕ)
        → free < 2 ^ 31
        → build p free ≡ ok (f, free')
        → Mirrors d p f) where
    fill_stat-Mirror :
        (p name : Bytes) (s : Stat) (f : Folder) (free : ℕ) {f' : Folder} {free' : ℕ}
        → free < 2 ^ 31
        → fill_stat d build p name s f free ≡ ok (f', free')
        → Adds p name s f f'
    unfolding fill_stat
    fill_stat-Mirror p name (regular size) f free small h =
        let (g, copy, extends) = fill_file-IsCopy p name size f free small h in
        a_file size g refl copy extends
    fill_stat-Mirror p name directory f free {f'} small h =
        let (r, e, t) = >>=-eq-ok (build p free) _ h in
        let (r', e', t') = >>=-eq-ok (add_subfolder_to_folder f r.0) _ t in
        a_folder r.0 refl (builds p free r.0 r.1 small e) (
          subst (Extends f [] (cons r.0 nil)) (ap (λ (q : Folder × ℕ). q.0) (ok-injective t'))
            (add_subfolder-Extends f r.0 e'))
    fill_stat-Mirror p name other f free small h =
        nothing refl (ap (λ (q : Folder × ℕ). q.0) (ok-injective h))

    -- What the loop over the names adds.
    abbrev Filled : Bytes → List Bytes → Folder → Folder → Type 0
    Filled path names f f' =
        (fs : List File) × (gs : Folders) × Lists d path names fs gs × Extends f fs gs f'

    entry-Filled :
        (path name p : Bytes) (s : Stat) (names : List Bytes) (f f1 f2 : Folder)
        → IsEntry d path name p s
        → Adds p name s f f1
        → Filled path names f1 f2
        → Filled path (name ∷ names) f f2
    entry-Filled path name p s names f f1 f2 is (a_file size g e copy ext) (fs, gs, lists, more) = (
      g ∷ fs,
      gs,
      file (subst (IsEntry d path name p) e is) copy lists,
      Extends-file f g f1 f2 fs gs ext more,
    )
    entry-Filled path name p s names f f1 f2 is (a_folder g e m ext) (fs, gs, lists, more) = (
      fs,
      cons g gs,
      subfolder (subst (IsEntry d path name p) e is) m lists,
      Extends-subfolder f g f1 f2 fs gs ext more,
    )
    entry-Filled path name p s names f f1 f2 is (nothing e same) (fs, gs, lists, more) = (
      fs,
      gs,
      skipped (subst (IsEntry d path name p) e is) lists,
      subst (λ (x : Folder). Extends x fs gs f2) (sym same) more,
    )

    fill_folder-Filled :
        (path : Bytes) (names : List Bytes) (f : Folder) (free : ℕ) (f' : Folder) (free' : ℕ)
        → free < 2 ^ 31
        → IsPartial f
        → fill_folder d build path names f free ≡ ok (f', free')
        → Filled path names f f'
    unfolding fill_folder
    fill_folder-Filled path [] f free f' free' small p h = (
      [],
      nil,
      done,
      subst (Extends f [] nil) (ap (λ (q : Folder × ℕ). q.0) (ok-injective h)) (Extends-self f),
    )
    fill_folder-Filled path (name ∷ rest) f free f' free' small p h =
        elim (Bool-cases (filename_is_special name)) [
          | inl e ↦
              let (fs, gs, lists, more) =
                fill_folder-Filled path rest f free f' free' small p (rw (e, fill_folder) at h) in
              (fs, gs, special e lists, more)
          | inr e ↦
              let (p', e', t') = >>=-eq-ok (entry_path path name) _ (rw (e, fill_folder) at h) in
              let (s, e'', t'') = >>=-eq-ok (or_exit (d.stat p') _) _ t' in
              let (r, e''', t''') = >>=-eq-ok (fill_stat d build p' name s f free) _ t'' in
              let a = fill_stat-Adds d build p' name s f free is small p e''' in
              let is_entry : IsEntry d path name p' s = record {
                ordinary = e;
                entry = e';
                stat = or_exit-eq-ok (d.stat p') _ e'';
              } in
              entry-Filled path name p' s rest f r.0 f' is_entry
                (fill_stat-Mirror p' name s f free small e''')
                (fill_folder-Filled path rest r.0 r.1 f' free' (omega (arith, a.free_le)) a.partial
                  t''')
        ]

  Extends-Mirrors :
      (path name : Bytes) (nf ns : ℕ) (names : List Bytes) (f : Folder) (fs : List File)
      (gs : Folders)
      → d.entries path ≡ some names
      → extract_last_name_of_path path ≡ ok name
      → Lists d path names fs gs
      → Extends (create_empty_folder name nf ns) fs gs f
      → Mirrors d path f
  Extends-Mirrors path name nf ns names (folder n s files nf' subs ns') fs gs e e' lists ext =
      mirrors e (subst (IsLastName path) (sym ext.0) (extract-IsLastName path name e')) (
        subst (λ (x : List File). Lists d path names x subs) (sym ext.1)
          (subst (Lists d path names fs) (sym ext.2) lists))

  build_folder-Mirrors :
      (depth : ℕ) (path : Bytes) (free : ℕ) (f : Folder) (free' : ℕ)
      → free < 2 ^ 31
      → build_folder d depth path free ≡ ok (f, free')
      → Mirrors d path f
  unfolding build_folder
  build_folder-Mirrors zero path free f free' small h = absurd (cc)
  build_folder-Mirrors (suc k) path free f free' small h =
      let (names, e, t) = >>=-eq-ok (or_exit (d.entries path) _) _ h in
      let (c, e', t') = >>=-eq-ok (count_files_and_folders d path names (0, 0)) _ t in
      let (name, e'', t'') = >>=-eq-ok (extract_last_name_of_path path) _ t' in
      let (fs, gs, lists, ext) =
        fill_folder-Filled (build_folder d k) (build_folder-IsBuilder d k) (build_folder-Mirrors k)
          path names (create_empty_folder name c.0 c.1) free f free' small (refl, tt, tt) t'' in
      Extends-Mirrors path name c.0 c.1 names f fs gs (or_exit-eq-ok (d.entries path) _ e) e'' lists
        ext

  -- A cache that was built from any disk, with fewer than 2 ^ 31 bytes of space, has a root that
  -- mirrors the root directory: a folder that mirrors a directory bears the name that stands
  -- behind the last slash of its path, or, if that path has no slash, what stands behind its
  -- first character, and has, in the order in which the directory lists them, exactly one file
  -- for each regular file, made from it with some amount of free space, and exactly one folder
  -- for each subdirectory, which mirrors it; the names `.` and `..`, and entries of other kinds,
  -- have nothing.
  pub build_cache_from_disk-Mirrors :
      (root_path : Bytes) (max : ℕ) {cache : FileCache}
      → max < 2 ^ 31
      → build_cache_from_disk d root_path max ≡ ok cache
      → (root : Folder) × (cache.root ≡ some root) × Mirrors d root_path root
  unfolding build_cache_from_disk
  build_cache_from_disk-Mirrors root_path max {cache} small h =
      let (r, e, t) = >>=-eq-ok (build_folder d max_path_length root_path max) _ h in
      (r.0, ground (arith, t), build_folder-Mirrors max_path_length root_path max r.0 r.1 small e)
