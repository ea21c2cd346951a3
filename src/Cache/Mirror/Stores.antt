-- ===== src/Cache/Mirror/Stores.antt =====
-- What the cache keeps of a file of the disk.
use ens_sysres_proj.Common.{
  ℕ, ◌*◌, [], length, ◌^◌, ◌<◌, ◌≤◌, ◌≡◌, refl, sym, ap, ◌∙◌, subst, Bool, true, false, some, Bytes,
  ok, ok-injective, arith, take, Bool-cases, inl, inr, ◌==◌, if◌then◌else◌, is_negative, lt_int,
  >>=-eq-ok, or_exit, or_exit-eq-ok, leb, leb→le,
}
use ens_sysres_proj.Cache.{
  File, Buffer, live, null, loaded_raw, loaded_compressed, not_loaded, encoding_gzip, encoding_none,
  min_file_size_for_gzip,
}
use ens_sysres_proj.Cache.Disk.{Disk}
use ens_sysres_proj.Cache.Content.{
  set_file_content, set_raw_file_content, set_compressed_file_content, set_file_type, raw_loop,
  run_readable_process,
}
use ens_sysres_proj.Cache.Content.Loops.{
  HasBytes, flatten, run_readable_process-take, raw_loop-take, raw_loop_short,
}
use ens_sysres_proj.Cache.Build.Fill.{new_file, stored}
use ens_sysres_proj.Cache.Mirror.{IsCopy}

-- A buffer for these bytes: NULL for none.
abbrev pub buffer_of : Bytes → Buffer
buffer_of out = if length out == 0 then null else live out

-- What the cache keeps of a file with this path and size.
pub data Stores (d : Disk) (q : Bytes) (size : ℕ) (f : File) : Type 0 where
  raw :
      (bytes : Bytes)
      → size < min_file_size_for_gzip
      → d.content q ≡ some bytes
      → size ≤ length bytes
      → f.state ≡ loaded_raw
      → f.content ≡ live (take size bytes)
      → f.size ≡ size
      → f.encoding ≡ encoding_none
      → Stores d q size f
  compressed :
      min_file_size_for_gzip ≤ size
      → f.state ≡ loaded_compressed
      → f.content ≡ buffer_of (take size (flatten (d.gzip q)))
      → f.size ≡ length (take size (flatten (d.gzip q)))
      → f.encoding ≡ encoding_gzip
      → Stores d q size f
  left :
      f.state ≡ not_loaded
      → f.path ≡ q
      → f.size ≡ size
      → f.encoding ≡ encoding_none
      → Stores d q size f

-- The type and the mark of a file count for nothing here.
stored-Stores :
    {d : Disk} {q : Bytes} {size : ℕ} (g : File) (loaded : Bool)
    → Stores d q size g
    → Stores d q size (stored d g loaded)
unfolding stored set_file_type
stored-Stores g true (raw bytes lt e le s c n k) =
    raw bytes lt e le (ground (arith, s)) (ground (arith, c)) (ground (arith, n))
      (ground (arith, k))
stored-Stores g true (compressed le s c n k) =
    compressed le (ground (arith, s)) (ground (arith, c)) (ground (arith, n)) (ground (arith, k))
stored-Stores g true (left s p n k) =
    left (ground (arith, s)) (ground (arith, p)) (ground (arith, n)) (ground (arith, k))
stored-Stores g false (raw bytes lt e le s c n k) =
    raw bytes lt e le (ground (arith, s)) (ground (arith, c)) (ground (arith, n))
      (ground (arith, k))
stored-Stores g false (compressed le s c n k) =
    compressed le (ground (arith, s)) (ground (arith, c)) (ground (arith, n)) (ground (arith, k))
stored-Stores g false (left s p n k) =
    left (ground (arith, s)) (ground (arith, p)) (ground (arith, n)) (ground (arith, k))

module _ (d : Disk) (f : File) where
  set_raw-Stores :
      {g : File}
      → f.size < min_file_size_for_gzip
      → set_raw_file_content d f ≡ ok g
      → Stores d f.path f.size g
  unfolding set_raw_file_content
  set_raw-Stores {g} small h = elim (Bool-cases (is_negative f.size)) [
    | inl e ↦ cc (rw (e, set_raw_file_content) at h)
    | inr e ↦
        let (bytes, e', t) =
          >>=-eq-ok (or_exit (d.content f.path) _) _ (rw (e, set_raw_file_content) at h) in
        let (buffer, e'', t') = >>=-eq-ok (raw_loop 2 bytes f.size 0 []) _ t in
        elim (Bool-cases (leb f.size (length bytes))) [
          | inl le ↦
              let enough = leb→le f.size (length bytes) le in
              let is : buffer ≡ take f.size bytes =
                ok-injective (sym e'' ∙ raw_loop-take 0 bytes f.size enough) in
              subst (Stores d f.path f.size) (ok-injective t') (
                raw bytes small (or_exit-eq-ok (d.content f.path) _ e') enough refl (ap live is)
                  refl refl)
          | inr gt ↦ cc (raw_loop_short 2 bytes f.size (ground arith), e'')
        ]
  ]

  set_compressed-Stores :
      HasBytes (d.gzip f.path)
      → min_file_size_for_gzip ≤ f.size
      → Stores d f.path f.size (set_compressed_file_content d f)
  unfolding set_compressed_file_content
  set_compressed-Stores pieces large =
      let one : 1 * f.size ≡ f.size = omega arith in
      let out : run_readable_process (d.gzip f.path) (1 * f.size)
          ≡ take f.size (flatten (d.gzip f.path)) =
        rw one (run_readable_process-take (d.gzip f.path) f.size pieces) in
      compressed large refl (ap buffer_of out) (ap length out) refl

  set_file_content-Stores :
      (free : ℕ) {g : File} {loaded : Bool}
      → free < 2 ^ 31
      → f.size < 2 ^ 31
      → f.state ≡ not_loaded
      → f.encoding ≡ encoding_none
      → HasBytes (d.gzip f.path)
      → set_file_content d f free ≡ ok (g, loaded)
      → Stores d f.path f.size g
  unfolding set_file_content
  set_file_content-Stores free {g} free_int size_int unloaded plain pieces h =
      elim (Bool-cases (lt_int free f.size)) [
        | inl e ↦
            subst (Stores d f.path f.size)
              (ap (λ (r : File × Bool). r.0) (ok-injective (rw (e, set_file_content) at h)))
              (left unloaded refl refl plain)
        | inr e ↦ elim (Bool-cases (lt_int f.size min_file_size_for_gzip)) [
          | inl e' ↦
              let (g', runs, t) =
                >>=-eq-ok (set_raw_file_content d f) _ (rw (e, e', set_file_content) at h) in
              subst (Stores d f.path f.size) (ap (λ (r : File × Bool). r.0) (ok-injective t))
                (set_raw-Stores (ground (arith, e')) runs)
          | inr e' ↦
              subst (Stores d f.path f.size)
                (ap (λ (r : File × Bool). r.0) (ok-injective (rw (e, e', set_file_content) at h)))
                (set_compressed-Stores pieces (ground (arith, e')))
        ]
      ]

-- A copy keeps what the disk has.
pub IsCopy-Stores :
    {d : Disk} {q name : Bytes} {size : ℕ} {f : File}
    → size < 2 ^ 31
    → HasBytes (d.gzip q)
    → IsCopy d q name size f
    → Stores d q size f
IsCopy-Stores {d} {q} {name} {size} {f} int pieces c =
    let same : (new_file q name size).size ≡ size = omega arith in
    subst (Stores d q size) (sym c.is_stored) (
      stored-Stores c.content c.loaded (
        subst (λ (n : ℕ). Stores d q n c.content) same
          (set_file_content-Stores d (new_file q name size) c.free c.free_int (omega arith) refl
            refl pieces c.runs)))
