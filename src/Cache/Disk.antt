-- ===== src/Cache/Disk.antt =====
-- The file system and the programs `file` and `gzip`, which the cache is built from: a parameter.
-- They do not change while the cache is built. `close` and the reads of an open file or pipe do
-- not fail.
use ens_sysres_proj.Common.{ℕ, Option, List, Bytes}

-- `st_mode` and `st_size`.
pub data Stat : Type 0 where
  regular : (st_size : ℕ) → Stat
  directory : Stat
  other : Stat

pub record Disk : Type 0 where
  -- The names that `readdir` returns, one after the other; `none` if `opendir` fails.
  pub entries : Bytes → Option (List Bytes)
  pub stat : Bytes → Option Stat
  -- The bytes of a file; `none` if `open` fails.
  pub content : Bytes → Option Bytes
  -- What the programs write for a path, in the pieces that arrive in the pipe.
  pub gzip : Bytes → List Bytes
  pub mime : Bytes → List Bytes
