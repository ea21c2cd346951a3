-- ===== src/Tests.antt =====
-- A small disk, the cache that is built from it, and runs and instances of the theorems on them.
mod Strings
mod Cache
mod Content
mod Mirror
mod Header
mod Search
mod Http
mod Server
mod Answers
mod Rounds
mod Main
mod Conversation
use ens_sysres_proj.Common.{
  ℕ, zero, suc, arith, length, Bool, true, false, ◌≡◌, refl, Option, none, some, List, [], ◌∷◌,
  Bytes, codes, bytes_eq, if◌then◌else◌,
}
use ens_sysres_proj.Cache.{
  File, Folder, folder, nil, cons, FileCache, live, loaded_raw, loaded_compressed, encoding_none,
  encoding_gzip,
}
use ens_sysres_proj.Cache.Disk.{Stat, regular, directory, Disk}

abbrev pub www : Bytes
www = codes "./www"

-- The directories, by whether the path is that of the root or of `sub`.
abbrev pub names_of : Bool → Bool → Option (List Bytes)
names_of true _ = some (codes "." ∷ codes ".." ∷ codes "a" ∷ codes "sub" ∷ [])
names_of false true = some (codes "." ∷ codes ".." ∷ codes "b" ∷ [])
names_of false false = none

-- The file `a` has 3 bytes, and `sub/b` has 70.
abbrev pub stat_of : Bytes → Option Stat
stat_of path =
    if bytes_eq path (codes "./www/a")
    then some (regular 3)
    else if bytes_eq path (codes "./www/sub")
    then some directory
    else if bytes_eq path (codes "./www/sub/b")
    then some (regular 70)
    else none

abbrev pub zipped : List Bytes
zipped = codes "ab" ∷ codes "cde" ∷ []

abbrev pub small_disk : Disk
small_disk = record {
  entries = λ path. names_of (bytes_eq path www) (bytes_eq path (codes "./www/sub"));
  stat = stat_of;
  content = λ path. some (codes "xyz");
  gzip = λ path. zipped;
  mime = λ path. codes "text/html" ∷ (b'\n' ∷ []) ∷ [];
}

abbrev pub file_a : File
file_a = record {
  name = codes "a";
  path = codes "./www/a";
  state = loaded_raw;
  content = live (codes "xyz");
  size = 3;
  must_unload = false;
  mime = some (codes "text/html");
  encoding = encoding_none;
}

abbrev pub file_b : File
file_b = record {
  name = codes "b";
  path = codes "./www/sub/b";
  state = loaded_compressed;
  content = live (codes "abcde");
  size = 5;
  must_unload = false;
  mime = some (codes "text/html");
  encoding = encoding_gzip;
}

abbrev pub small_root : Folder
small_root =
    folder (codes "www") 8 (file_a ∷ []) 1 (cons (folder (codes "sub") 5 (file_b ∷ []) 1 nil 0) nil)
      1

abbrev pub small_cache : FileCache
small_cache = record { root = some small_root; size = 8; max_size = 100 }

-- `n` bytes.
abbrev pub repeat : ℕ → Bytes
repeat zero = []
repeat (suc n) = b'x' ∷ repeat n

pub length-repeat : (n : ℕ) → length (repeat n) ≡ n
length-repeat zero = refl
length-repeat (suc n) = omega (arith, length-repeat n)
