-- ===== src/Tests/Content.antt =====
-- Loading the content of files.
use ens_sysres_proj.Common.{ℕ, ◌≡◌, ◌≢◌, ◌≤◌, refl, true, false, [], ◌∷◌, codes, ok, hang, arith}
use ens_sysres_proj.Cache.{
  File, live, init_file, loaded_raw, loaded_compressed, encoding_none, encoding_gzip,
}
use ens_sysres_proj.Cache.Disk.{Disk}
use ens_sysres_proj.Cache.Content.{
  read_pipe, run_readable_process, set_compressed_file_content, set_file_content,
}
use ens_sysres_proj.Cache.Content.Loops.{HasBytes, flatten}
use ens_sysres_proj.Cache.Content.Bounds.{
  Kept, set_file_content_loaded, set_file_content_shrunk, set_file_content_truncated,
}
use ens_sysres_proj.Cache.Sizes.{IsFresh}
use ens_sysres_proj.Tests.{repeat, length-repeat, small_disk, zipped}

abbrev file_of : ℕ → File
file_of n = record init_file { path = codes "./www/a"; size = n }

abbrev raw_file : File
raw_file = record (file_of 2) {
  content = live (codes "xy");
  state = loaded_raw;
  encoding = encoding_none;
}

abbrev gzip_file : File
gzip_file = record (file_of 70) {
  content = live (codes "abcde");
  size = 5;
  state = loaded_compressed;
  encoding = encoding_gzip;
}

loads_gzip : set_file_content small_disk (file_of 70) 80 ≡ ok (gzip_file, true)
unfolding set_file_content set_compressed_file_content run_readable_process read_pipe
loads_gzip = refl

set_file_content_loaded_example : (5 ≤ 80) × (5 ≤ 70) × Kept (file_of 70) gzip_file
set_file_content_loaded_example =
    set_file_content_loaded small_disk (file_of 70) 80 (omega arith) (omega arith) loads_gzip

leaves_large : set_file_content small_disk (file_of 70) 60 ≡ ok (file_of 70, false)
unfolding set_file_content
leaves_large = refl

set_file_content_shrunk_example : set_file_content small_disk (file_of 9) 80 ≡ hang
set_file_content_shrunk_example =
    set_file_content_shrunk small_disk (file_of 9) 80 (codes "xyz") (omega arith) (omega arith)
      (omega arith) refl (omega arith)

zipped-HasBytes : HasBytes zipped
zipped-HasBytes = (omega arith, (omega arith, tt))

-- A disk on which `gzip` makes 70 bytes longer.
abbrev long_disk : Disk
long_disk = record small_disk { gzip = λ path. repeat 90 ∷ [] }

abbrev cut_file : File
cut_file = record (file_of 70) {
  content = live (repeat 70);
  size = 70;
  state = loaded_compressed;
  encoding = encoding_gzip;
}

loads_cut : set_file_content long_disk (file_of 70) 80 ≡ ok (cut_file, true)
unfolding set_file_content set_compressed_file_content run_readable_process read_pipe
loads_cut = refl

set_file_content_truncated_example :
    (cut_file.size ≡ 70) × (cut_file.content ≢ live (flatten (repeat 90 ∷ [])))
set_file_content_truncated_example =
    set_file_content_truncated long_disk (file_of 70) 80 (omega arith) (omega arith) (omega arith)
      (omega (arith, length-repeat 90), tt) (omega arith) loads_cut

gzip_file-IsFresh : IsFresh gzip_file
gzip_file-IsFresh = record {
  size_int = omega arith;
  not_freed = λ c. cc;
  unload_loaded = λ c e. cc;
  unload_unloaded = λ c. cc;
  filled = λ bytes e. ground (arith, e);
  empty = λ c. cc;
  mime_short = omega arith;
}
