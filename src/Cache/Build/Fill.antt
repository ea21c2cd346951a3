-- ===== src/Cache/Build/Fill.antt =====
-- What one entry of a directory adds to the folder that is being filled.
use ens_sysres_proj.Cache.{max_file_type_length}
use ens_sysres_proj.Cache.Content.{run_readable_process}
use ens_sysres_proj.Cache.Content.Loops.{run_readable_process-length}
use ens_sysres_proj.Cache.Sizes.{IsShort}
use ens_sysres_proj.Common.{
  Bool-cases, ltb, ◌-◌, length-take, inl, inr, ℕ, ◌+◌, ◌%◌, ◌^◌, ◌≤◌, ◌<◌, ◌≡◌, refl, ◌∙◌, sym,
  Bool, true, false, Bytes, Outcome, subst, ok-injective, [], ◌∷◌, if◌then◌else◌, ◌>>=◌, ok,
  >>=-eq-ok, arith, length, length-append, to_int, sub_int,
}
use ens_sysres_proj.Cache.{
  File, Folder, folder, folder_name, not_loaded, init_file, add_file_to_folder,
  add_subfolder_to_folder, nb_subfolders, null,
}
use ens_sysres_proj.Cache.Disk.{Stat, regular, directory, other, Disk}
use ens_sysres_proj.Cache.Content.{set_file_content, set_file_type}
use ens_sysres_proj.Cache.Content.Bounds.{set_file_content_loaded, set_file_content_too_large}
use ens_sysres_proj.Cache.Build.{count_stat, fill_file, fill_stat}
use ens_sysres_proj.Cache.Sizes.{
  cached, cached_size, total_all, files_size, IsFresh, AllFresh, IsBuilt, AreBuilt,
  files_cached-append, files_size-append, AllFresh-append, cached_all-append, total_all-append,
  nb_subfolders-append, AreBuilt-append, folder_size-total,
}

-- A folder that is being filled: `IsBuilt` without the capacities.
abbrev pub IsPartial : Folder → Type 0
IsPartial (folder name size files nf subs ns) =
    (size ≡ (files_size files + total_all subs) % 2 ^ 32) × AllFresh files × AreBuilt subs

-- The numbers of entries, and of places.
abbrev pub used : Folder → ℕ × ℕ
used (folder name size files nf subs ns) = (length files, nb_subfolders subs)

abbrev pub capacity : Folder → ℕ × ℕ
capacity (folder name size files nf subs ns) = (nf, ns)

-- From `f` and `free` to `f'` and `free'` by an entry of the kind `s`.
pub record Adds (s : Stat) (f : Folder) (free : ℕ) (f' : Folder) (free' : ℕ) : Type 0 where
  pub partial : IsPartial f'
  pub space : cached f' + free' ≡ cached f + free
  pub free_le : free' ≤ free
  pub used_is : used f' ≡ count_stat s (used f)
  pub capacity_is : capacity f' ≡ capacity f
  pub name_is : folder_name f' ≡ folder_name f

set_file_type-File :
    (d : Disk) (f : File)
    → let g = set_file_type d f in
      (g.size ≡ f.size)
      × (g.state ≡ f.state)
      × (g.content ≡ f.content)
      × (g.must_unload ≡ f.must_unload)
      × (g.name ≡ f.name)
unfolding set_file_type
set_file_type-File d f = ground arith

set_file_type-IsShort : (d : Disk) (f : File) → IsShort (set_file_type d f).mime
unfolding set_file_type
set_file_type-IsShort d f =
    let out = run_readable_process (d.mime f.path) (max_file_type_length - 1) in
    let short = run_readable_process-length (d.mime f.path) (max_file_type_length - 1) in
    elim (Bool-cases (ltb (length out) 2)) [
      | inl e ↦ rw e tt
      | inr e ↦ rw e (omega (arith, length-take (length out - 1) out))
    ]

-- The file that is added, and what it takes of the free space.
pub record Loads (f : Folder) (free : ℕ) (f' : Folder) (free' : ℕ) : Type 0 where
  pub file : File
  pub new_size : ℕ
  pub adds : add_file_to_folder f file ≡ ok (f', new_size)
  pub fresh : IsFresh file
  pub space : cached_size file.state file.size + free' ≡ free

abbrev pub new_file : (path name : Bytes) → ℕ → File
new_file path name st_size = record init_file { name = name; path = path; size = to_int st_size }

-- The file as it is stored, by whether its content was loaded.
unfoldable pub stored : Disk → File → Bool → File
stored d g loaded = set_file_type d (if loaded then g else record g { must_unload = true })

module _ (d : Disk) (new g : File) (free : ℕ) (small : free < 2 ^ 31) (int : new.size < 2 ^ 32)
    (new_kept : new.must_unload ≡ false) (new_state : new.state ≡ not_loaded)
    (new_content : new.content ≡ null) where
  stored_loaded :
      set_file_content d new free ≡ ok (g, true)
      → IsFresh (stored d g true)
        × (cached_size (stored d g true).state (stored d g true).size + sub_int free g.size ≡ free)
  unfolding stored
  stored_loaded e =
      let (fits, le, kept) = set_file_content_loaded d new free small int e in
      let same = set_file_type-File d g in
      (
        record {
          size_int = ground (arith, same, le);
          not_freed = ground (arith, kept, same);
          unload_loaded = ground (arith, kept, same);
          unload_unloaded = ground (arith, kept, same);
          filled = λ b c. ground (arith, same, kept.filled b (sym same.2 ∙ c));
          empty = λ n c. ground (arith, same, kept.empty (sym same.2 ∙ c));
          mime_short = set_file_type-IsShort d g;
        },
        ground (arith, kept, same, le),
      )

  stored_unloaded :
      set_file_content d new free ≡ ok (g, false)
      → IsFresh (stored d g false)
        × (cached_size (stored d g false).state (stored d g false).size + free ≡ free)
  unfolding stored
  stored_unloaded e =
      let (eq, gt, le) = set_file_content_too_large d new free small int e in
      let same = set_file_type-File d (record g { must_unload = true }) in
      (
        record {
          size_int = ground (arith, eq, same);
          not_freed = ground (arith, eq, same);
          unload_loaded = ground (arith, same);
          unload_unloaded = ground (arith, eq, same);
          filled = λ b c. ground (arith, eq, same, c);
          empty = λ n c. absurd (n (ground (arith, eq, same)));
          mime_short = set_file_type-IsShort d (record g { must_unload = true });
        },
        ground (arith, eq, same),
      )

fill_stored :
    (f : Folder) (file : File) (free : ℕ) {f' : Folder} {free' start : ℕ}
    → IsFresh file
    → cached_size file.state file.size + free ≡ start
    → ◌>>=◌ {Y = Folder × ℕ} (add_file_to_folder f file) (λ r. ok (r.0, free)) ≡ ok (f', free')
    → Loads f start f' free'
fill_stored f file free fresh space h =
    let (r, e, t) = >>=-eq-ok (add_file_to_folder f file) _ h in
    record {
      file = file;
      new_size = r.1;
      adds = rw e (ground (arith, t));
      fresh = fresh;
      space = ground (arith, t);
    }

pub fill_file-Loads :
    (d : Disk) (path name : Bytes) (st_size : ℕ) (f : Folder) (free : ℕ) {f' : Folder} {free' : ℕ}
    → free < 2 ^ 31
    → fill_file d path name st_size f free ≡ ok (f', free')
    → Loads f free f' free'
unfolding fill_file stored
fill_file-Loads d path name st_size f free {f'} {free'} small h =
    let ((g, loaded), e, t) =
      >>=-eq-ok (set_file_content d (new_file path name st_size) free) _ h in
    go loaded g e t
  where
    go :
        (loaded : Bool) (g : File)
        → set_file_content d (new_file path name st_size) free ≡ ok (g, loaded)
        → ◌>>=◌ {Y = Folder × ℕ}
            (add_file_to_folder f (stored d g loaded))
            (λ r. ok (r.0, if loaded then sub_int free g.size else free))
          ≡ ok (f', free')
        → Loads f free f' free'
    go true g e t =
        let fresh =
          stored_loaded d (new_file path name st_size) g free small (omega arith) refl refl refl
            e in
        fill_stored f (stored d g true) (sub_int free g.size) fresh.0 fresh.1 t
    go false g e t =
        let fresh =
          stored_unloaded d (new_file path name st_size) g free small (omega arith) refl refl refl
            e in
        fill_stored f (stored d g false) free fresh.0 fresh.1 t

add_file-Adds :
    (st_size : ℕ) (f : Folder) {free : ℕ} {f' : Folder} {free' : ℕ}
    → IsPartial f
    → Loads f free f' free'
    → Adds (regular st_size) f free f' free'
unfolding add_file_to_folder count_stat
add_file-Adds st_size (folder name size files nf subs ns) p l = ground (
  arith,
  l.adds,
  files_cached-append files l.file,
  files_size-append files l.file,
  AllFresh-append files l.file p.1 l.fresh,
  length-append files (l.file ∷ []),
  l.space,
)

-- A folder as `recursivelyBuildFolder` returns it, with what it leaves of the free space.
pub record Builds (free : ℕ) (f : Folder) (free' : ℕ) : Type 0 where
  pub built : IsBuilt f
  pub space : cached f + free' ≡ free

add_subfolder-Adds :
    (f sub : Folder) (size' : ℕ) {free : ℕ} {f' : Folder} {free' : ℕ}
    → IsPartial f
    → Builds free sub free'
    → add_subfolder_to_folder f sub ≡ ok (f', size')
    → Adds directory f free f' free'
unfolding add_subfolder_to_folder count_stat
add_subfolder-Adds (folder name size files nf subs ns) sub size' p b e = ground (
  arith,
  b,
  cached_all-append subs sub,
  total_all-append subs sub,
  nb_subfolders-append subs sub,
  folder_size-total sub b.built,
  AreBuilt-append subs sub p.2 b.built,
)

-- What is asked of the call that builds a subfolder.
abbrev pub IsBuilder : (Bytes → ℕ → Outcome (Folder × ℕ)) → Type 0
IsBuilder build =
    (path : Bytes) (free : ℕ) (f : Folder) (free' : ℕ)
    → free < 2 ^ 31
    → build path free ≡ ok (f, free')
    → Builds free f free'

pub fill_stat-Adds :
    (d : Disk) (build : Bytes → ℕ → Outcome (Folder × ℕ)) (path name : Bytes) (s : Stat)
    (f : Folder) (free : ℕ) {f' : Folder} {free' : ℕ}
    → IsBuilder build
    → free < 2 ^ 31
    → IsPartial f
    → fill_stat d build path name s f free ≡ ok (f', free')
    → Adds s f free f' free'
unfolding fill_stat count_stat
fill_stat-Adds d build path name (regular st_size) f free is small p h =
    add_file-Adds st_size f p (fill_file-Loads d path name st_size f free small h)
fill_stat-Adds d build path name directory f free is small p h =
    let (r, e, t) = >>=-eq-ok (build path free) _ h in
    let (r', e', t') = >>=-eq-ok (add_subfolder_to_folder f r.0) _ t in
    subst (λ (q : Folder × ℕ). Adds directory f free q.0 q.1) (ok-injective t')
      (add_subfolder-Adds f r.0 r'.1 p (is path free r.0 r.1 small e) e')
fill_stat-Adds d build path name other f free is small p h =
    subst (λ (q : Folder × ℕ). Adds other f free q.0 q.1) (ok-injective h)
      (record {
        partial = p;
        space = refl;
        free_le = omega arith;
        used_is = refl;
        capacity_is = refl;
        name_is = refl;
      })
