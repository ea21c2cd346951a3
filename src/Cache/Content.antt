-- ===== src/Cache/Content.antt =====
-- The operations of src/file_cache.c on a file's content, and `runReadableProcess` of src/system.c.
pub mod Bounds
pub mod Removal
pub mod Loops
use ens_sysres_proj.Common.{
  ℕ, zero, suc, ◌+◌, ◌-◌, ◌*◌, Bool, true, false, none, some, List, [], ◌∷◌, ◌++◌, Bytes, Outcome,
  ok, exit, fault, hang, ◌>>=◌, or_exit, length, take, drop, ltb, ◌==◌, if◌then◌else◌, is_negative,
  lt_int,
}
use ens_sysres_proj.Cache.{
  File, Buffer, null, live, freed, FileState, not_loaded, loaded_raw, loaded_compressed,
  encoding_gzip, encoding_none, max_file_type_length, min_file_size_for_gzip,
}
use ens_sysres_proj.Cache.Disk.{Disk}

-- The read loop of `runReadableProcess`, over the pieces that arrive. It ends when the buffer is
-- full and when `read` returns 0, at the end of the output.
unfoldable pub read_pipe :
    List Bytes → (output_buffer_length nb_bytes_read : ℕ) → (output_buffer : Bytes) → Bytes
read_pipe [] len nb out = out
read_pipe (piece ∷ rest) len nb out =
    let chunk = take (len - nb) piece in
    let more = read_pipe rest len (nb + length chunk) (out ++ chunk) in
    if ltb nb len then (if length chunk == 0 then out else more) else out

-- The bytes that the call leaves in the buffer; the call returns their number.
unfoldable pub run_readable_process : List Bytes → (output_buffer_length : ℕ) → Bytes
unfolding read_pipe
run_readable_process output len = read_pipe output len 0 []

-- By `file`. The last byte, a newline, is replaced by the NUL.
unfoldable pub set_file_type : Disk → File → File
set_file_type d f =
    let out = run_readable_process (d.mime f.path) (max_file_type_length - 1) in
    if ltb (length out) 2
    then record f { mime = none }
    else record f { mime = some (take (length out - 1) out) }

abbrev pub set_file_metadata : Disk → File → File
set_file_metadata = set_file_type

-- The read loop of `setRawFileContent`, on a file with the bytes `data_`. Each `read` goes on where
-- the last one ended in the file, and writes to the start of the buffer.
unfoldable pub raw_loop :
    (rounds : ℕ) (data_ : Bytes) (size nb_bytes_read : ℕ) (buffer : Bytes) → Outcome Bytes
raw_loop zero data_ size nb buffer = hang
raw_loop (suc k) data_ size nb buffer =
    let chunk = take (size - nb) (drop nb data_) in
    let next = raw_loop k data_ size (nb + length chunk) (chunk ++ drop (length chunk) buffer) in
    if ltb nb size then next else ok buffer

-- `malloc` fails at a negative size, which it takes for a huge one. A second round in which bytes
-- are still missing reads nothing, and so does every later one: the code then loops for ever.
unfoldable pub set_raw_file_content : Disk → File → Outcome File
set_raw_file_content d f =
    if is_negative f.size then exit "malloc() failed in setRawFileContent()" else do
      bytes ← or_exit (d.content f.path) "open() failed in setRawFileContent()"
      buffer ← raw_loop 2 bytes f.size 0 []
      ok (record f { content = live buffer; state = loaded_raw; encoding = encoding_none })

-- `(int) 1.2 * file->size` casts first: the buffer has the size of the file. `realloc` to 0 bytes
-- frees the buffer and returns NULL.
unfoldable pub set_compressed_file_content : Disk → File → File
set_compressed_file_content d f =
    let out = run_readable_process (d.gzip f.path) (1 * f.size) in
    record f {
      content = if length out == 0 then null else live out;
      size = length out;
      state = loaded_compressed;
      encoding = encoding_gzip;
    }

-- Frees the buffer and keeps the pointer. The warnings are not modelled.
unfoldable pub remove_content : FileState → Buffer → File → Outcome File
remove_content not_loaded _ f = ok f
remove_content _ null f = ok f
remove_content _ (live bytes) f = ok (record f { content = freed; size = 0; state = not_loaded })
remove_content _ freed f = fault

unfoldable pub remove_file_content : File → Outcome File
unfolding remove_content
remove_file_content f = remove_content f.state f.content f

unfoldable pub set_file_content : Disk → File → (cache_free_space : ℕ) → Outcome (File × Bool)
set_file_content d f free =
    if lt_int free f.size
    then ok (f, false)
    else if lt_int f.size min_file_size_for_gzip
    then (do g ← set_raw_file_content d f; ok (g, true))
    else ok (set_compressed_file_content d f, true)
