-- ===== src/RateLimit/Tests.antt =====
-- The limiter on a server that holds one counter, and forgets it only when it is to live for 0 ms.
use team5_ewaste_platform.Common.{ℕ, zero, suc, ◌<◌, ◌≡◌, refl, arith}
use team5_ewaste_platform.RateLimit.{Counter}
use team5_ewaste_platform.RateLimit.Window.{allowed, allowed_lem}

abbrev live_for : ℕ → ℕ → ℕ
live_for zero s = 0
live_for (suc ms) s = s

live_for-positive : (ms s : ℕ) → 0 < ms → live_for ms s ≡ s
live_for-positive zero s h = absurd (omega (arith, h))
live_for-positive (suc ms) s h = refl

abbrev memory : Counter ℕ
memory = record {
  value = λ s. s;
  incr = λ s. (suc s, suc s);
  pexpire = λ ms s. live_for ms s;
  incr-value = λ s. (refl, refl);
  value-pexpire = λ ms s positive. live_for-positive ms s positive;
  value-pexpire_zero = λ s. refl;
}

allowed_lem_example : allowed memory 3 60_000_000_000 5 1 ≡ 2
allowed_lem_example = allowed_lem memory 3 60_000_000_000 5 1 (omega arith) (omega arith)
