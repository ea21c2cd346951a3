-- ===== src/Cache/Content/Bounds.antt =====
-- What `setFileContent` loads, and how much of the free space that takes.
use ens_sysres_proj.Common.{
  ℕ, ◌*◌, ◌^◌, ◌≤◌, ◌<◌, ◌≡◌, refl, ◌≢◌, ap, ◌∙◌, sym, true, false, some, Bytes, ok, hang,
  >>=-eq-ok, subst, or_exit, ok-injective, leb, leb→le, [], inl, inr, arith, length, length-take,
  take, ◌==◌, Bool-cases, is_negative,
}
use ens_sysres_proj.Cache.{
  File, null, live, freed, not_loaded, loaded_raw, loaded_compressed, encoding_gzip, encoding_none,
  min_file_size_for_gzip,
}
use ens_sysres_proj.Cache.Disk.{Disk}
use ens_sysres_proj.Cache.Content.{
  set_raw_file_content, set_compressed_file_content, set_file_content, run_readable_process,
  raw_loop,
}
use ens_sysres_proj.Cache.Content.Loops.{
  HasBytes, flatten, run_readable_process-take, run_readable_process-length, raw_loop-take,
  raw_loop_short,
}

-- What loading sets, whatever the content, and what it leaves alone.
pub record Kept (f g : File) : Type 0 where
  pub not_freed : g.content ≢ freed
  pub loaded : g.state ≢ not_loaded
  pub must_unload : g.must_unload ≡ f.must_unload
  pub name : g.name ≡ f.name
  pub path : g.path ≡ f.path
  -- The buffer holds as many bytes as `size` says.
  pub filled : (bytes : Bytes) → g.content ≡ live bytes → length bytes ≡ g.size
  pub empty : g.content ≡ null → g.size ≡ 0

raw_loop-length :
    (data_ : Bytes) (size : ℕ) {buffer : Bytes}
    → raw_loop 2 data_ size 0 [] ≡ ok buffer
    → length buffer ≡ size
raw_loop-length data_ size h = elim (Bool-cases (leb size (length data_))) [
  | inl e ↦ omega (
    arith,
    ap length (ok-injective (sym (raw_loop-take 0 data_ size (leb→le size (length data_) e)) ∙ h)),
    length-take size data_,
    leb→le size (length data_) e,
  )
  | inr e ↦ cc (raw_loop_short 2 data_ size (ground arith))
]

set_raw-size :
    (d : Disk) (f : File) {g : File}
    → set_raw_file_content d f ≡ ok g
    → (g.size ≡ f.size) × (f.size < 2 ^ 31) × Kept f g
unfolding set_raw_file_content
set_raw-size d f {g} h = elim (Bool-cases (is_negative f.size)) [
  | inl e ↦ cc (rw (e, set_raw_file_content) at h)
  | inr e ↦
      let (bytes, e', t) =
        >>=-eq-ok (or_exit (d.content f.path) _) _ (rw (e, set_raw_file_content) at h) in
      let (buffer, e'', t') = >>=-eq-ok (raw_loop 2 bytes f.size 0 []) _ t in
      let size = raw_loop-length bytes f.size e'' in
      subst (λ (g : File). (g.size ≡ f.size) × (f.size < 2 ^ 31) × Kept f g) (ok-injective t')
        (
          refl,
          ground arith,
          record {
            not_freed = λ c. cc;
            loaded = λ c. cc;
            must_unload = refl;
            name = refl;
            path = refl;
            filled = λ b c. ground (arith, size, c);
            empty = λ c. cc;
          },
        )
]

set_compressed-size :
    (d : Disk) (f : File)
    → ((set_compressed_file_content d f).size ≤ f.size) × Kept f (set_compressed_file_content d f)
unfolding set_compressed_file_content
set_compressed-size d f =
    let out = run_readable_process (d.gzip f.path) (1 * f.size) in
    let short = run_readable_process-length (d.gzip f.path) (1 * f.size) in
    elim (Bool-cases (length out == 0)) [
      | inl e ↦ (
        omega arith,
        rw e (record {
          not_freed = λ c. cc;
          loaded = λ c. cc;
          must_unload = refl;
          name = refl;
          path = refl;
          filled = λ b c. cc;
          empty = λ c. ground (arith, e);
        }),
      )
      | inr e ↦ (
        omega arith,
        rw e (record {
          not_freed = λ c. cc;
          loaded = λ c. cc;
          must_unload = refl;
          name = refl;
          path = refl;
          filled = λ b c. ground (arith, c);
          empty = λ c. cc;
        }),
      )
    ]

module _ (d : Disk) (f : File) (free : ℕ) {g : File} (free_int : free < 2 ^ 31)
    (size_int : f.size < 2 ^ 32) where
  -- With fewer than 2 ^ 31 bytes of free space and a size that is an int, a file that is loaded
  -- takes no more than the free space, and no more than its size before. Its name, path and mark
  -- are kept, and its content is a buffer of as many bytes as its new size says, which was not
  -- freed, or NULL with a size of 0.
  pub set_file_content_loaded :
      set_file_content d f free ≡ ok (g, true) → (g.size ≤ free) × (g.size ≤ f.size) × Kept f g
  unfolding set_file_content
  set_file_content_loaded h = ground (arith, set_compressed-size d f, set_raw-size d f {g = g})

  -- With fewer than 2 ^ 31 bytes of free space and a size that is an int, a file that is not
  -- loaded is left as it is, and its size is not negative and greater than the free space.
  pub set_file_content_too_large :
      set_file_content d f free ≡ ok (g, false) → (g ≡ f) × (free < f.size) × (f.size < 2 ^ 31)
  unfolding set_file_content
  set_file_content_too_large h = ground (arith, set_compressed-size d f)

-- A file of fewer than 64 bytes that fits in the free space of fewer than 2 ^ 31 bytes, and that
-- can be opened and has at least as many bytes as its size says, is loaded raw, with its first
-- bytes, as many as its size says.
set_file_content_small :
    (d : Disk) (f : File) (free : ℕ) (bytes : Bytes)
    → free < 2 ^ 31
    → f.size ≤ free
    → f.size < min_file_size_for_gzip
    → d.content f.path ≡ some bytes
    → f.size ≤ length bytes
    → set_file_content d f free
      ≡ ok (
        record f {
          content = live (take f.size bytes);
          state = loaded_raw;
          encoding = encoding_none;
        },
        true,
      )
unfolding set_file_content set_raw_file_content
set_file_content_small d f free bytes free_int fits small e whole =
    ground (arith, raw_loop-take 0 bytes f.size whole)

-- A file of fewer than 64 bytes that fits in the free space of fewer than 2 ^ 31 bytes, and that
-- can be opened and has fewer bytes than its size says, keeps the read loop running for ever.
pub set_file_content_shrunk :
    (d : Disk) (f : File) (free : ℕ) (bytes : Bytes)
    → free < 2 ^ 31
    → f.size ≤ free
    → f.size < min_file_size_for_gzip
    → d.content f.path ≡ some bytes
    → length bytes < f.size
    → set_file_content d f free ≡ hang
unfolding set_file_content set_raw_file_content
set_file_content_shrunk d f free bytes free_int fits small e short =
    ground (arith, raw_loop_short 2 bytes f.size short)

-- A file of at least 64 bytes that fits in the free space of fewer than 2 ^ 31 bytes, for which
-- gzip writes at least one byte, in pieces that are not empty, is loaded as compressed, with the
-- output of gzip cut to the size of the file.
set_file_content_compressed :
    (d : Disk) (f : File) (free : ℕ)
    → free < 2 ^ 31
    → f.size ≤ free
    → min_file_size_for_gzip ≤ f.size
    → HasBytes (d.gzip f.path)
    → 1 ≤ length (flatten (d.gzip f.path))
    → let out = take f.size (flatten (d.gzip f.path)) in
      set_file_content d f free
      ≡ ok (
        record f {
          content = live out;
          size = length out;
          state = loaded_compressed;
          encoding = encoding_gzip;
        },
        true,
      )
unfolding set_file_content set_compressed_file_content
set_file_content_compressed d f free free_int fits large pieces some_output =
    let one : 1 * f.size ≡ f.size = omega arith in
    rw (one, run_readable_process-take (d.gzip f.path) f.size pieces)
      (ground (arith, length-take f.size (flatten (d.gzip f.path))))

-- If a file of at least 64 bytes fits in the free space of fewer than 2 ^ 31 bytes, and gzip
-- writes more bytes than the file has, in pieces that are not empty, then a loaded file keeps its
-- size, and its content is not the output of gzip.
pub set_file_content_truncated :
    (d : Disk) (f : File) (free : ℕ) {g : File}
    → free < 2 ^ 31
    → f.size ≤ free
    → min_file_size_for_gzip ≤ f.size
    → HasBytes (d.gzip f.path)
    → f.size < length (flatten (d.gzip f.path))
    → set_file_content d f free ≡ ok (g, true)
    → (g.size ≡ f.size) × (g.content ≢ live (flatten (d.gzip f.path)))
set_file_content_truncated d f free {g} free_int fits large pieces longer h =
    let out : Bytes = flatten (d.gzip f.path) in
    ground (
      arith,
      length-take f.size out,
      set_file_content_compressed d f free free_int fits large pieces (omega arith),
      λ (e : take f.size out ≡ out). ap length e,
    )
