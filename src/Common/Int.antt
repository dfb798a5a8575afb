-- ===== src/Common/Int.antt =====
-- Go's signed integers, as far as the source compares them with unsigned ones.
use Prim.Native.Nat.{ℕ, suc, ◌/◌, ◌%◌, ◌^◌, ◌-◌}
use mathlib.Core.Bool.{Bool, true, false}
use team5_ewaste_platform.Common.Tests.{leb, ltb, ◌==◌}

-- `negsuc n` is -(n + 1).
pub data ℤ : Type 0 where
  pos : ℕ → ℤ
  negsuc : ℕ → ℤ

-- `z > 0`
abbrev pub is_positive : ℤ → Bool
is_positive (pos n) = ltb 0 n
is_positive (negsuc n) = false

-- `z == int64(n)`
abbrev pub equals : ℤ → ℕ → Bool
equals (pos m) n = m == n
equals (negsuc m) n = false

-- `lo <= z && z <= hi`, for lo and hi of zero or more.
abbrev pub is_within : ℕ → ℕ → ℤ → Bool
is_within lo hi (pos n) = elim (leb lo n) [ true ↦ leb n hi | false ↦ false ]
is_within lo hi (negsuc n) = false

-- The conversion uint32(z), which keeps the lowest 32 bits.
abbrev pub to_uint32 : ℤ → ℕ
to_uint32 (pos n) = n % 2 ^ 32
to_uint32 (negsuc n) = 2 ^ 32 - suc (n % 2 ^ 32)

-- Duration.Milliseconds, on a duration in nanoseconds.
abbrev pub milliseconds : ℕ → ℕ
milliseconds duration = duration / 1_000_000
