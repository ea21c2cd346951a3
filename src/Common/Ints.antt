-- ===== src/Common/Ints.antt =====
-- A C `int` as its 32-bit pattern: a number below `2 ^ 32` that is negative from `2 ^ 31` on.
use Prim.Native.Nat.{ℕ, ◌+◌, ◌-◌, ◌%◌, ◌^◌, ◌<◌}
use mathlib.Core.Path.{◌≡◌}
use mathlib.Core.Bool.{Bool}
use native.Mathlib.Omega.{arith}
use ens_sysres_proj.Common.Tests.{ltb, leb}

abbrev pub int_mod : ℕ
int_mod = 2 ^ 32

abbrev pub is_negative : ℕ → Bool
is_negative a = leb (2 ^ 31) a

-- The conversion of an `off_t` to an `int` keeps the low 32 bits.
abbrev pub to_int : ℕ → ℕ
to_int a = a % 2 ^ 32

abbrev pub add_int : ℕ → ℕ → ℕ
add_int a b = (a + b) % 2 ^ 32

abbrev pub sub_int : ℕ → ℕ → ℕ
sub_int a b = (a + 2 ^ 32 - b) % 2 ^ 32

-- `a < b` for signed values: moving both by `2 ^ 31` makes it the order of the patterns.
abbrev pub lt_int : ℕ → ℕ → Bool
lt_int a b = ltb ((a + 2 ^ 31) % 2 ^ 32) ((b + 2 ^ 31) % 2 ^ 32)

pub lt_int_small : (a b : ℕ) → a < 2 ^ 31 → b < 2 ^ 31 → lt_int a b ≡ ltb a b
lt_int_small a b ha hb = ground arith
