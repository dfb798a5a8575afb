-- ===== src/RateLimit.antt =====
-- The fixed-window rate limiter. Source: src/backend/internal/ratelimit/redis.go.
pub mod Window
mod Tests
use team5_ewaste_platform.Common.{
  ℕ, suc, Bool, true, false, ◌||◌, List, ◌≡◌, leb, ◌==◌, ◌<◌, milliseconds, if◌then◌else◌, ℤ, pos,
  negsuc, is_positive, not,
}

-- The commands of a Redis server that the limiter's script uses, on one key: INCR, whose answer is
-- the count and which takes a missing key for 0, and PEXPIRE, which deletes the key when its time to
-- live is 0; `value` is the count that the key holds, 0 when it is missing.
pub record Counter (Server : Type 0) : Type 0 where
  pub value : Server → ℕ
  pub incr : Server → ℕ × Server
  pub pexpire : ℕ → Server → Server
  pub incr-value : (s : Server) → ((incr s).0 ≡ suc (value s)) × (value (incr s).1 ≡ suc (value s))
  pub value-pexpire : (ms : ℕ) (s : Server) → 0 < ms → value (pexpire ms s) ≡ value s
  pub value-pexpire_zero : (s : Server) → value (pexpire 0 s) ≡ 0

module _ {Server : Type 0} (r : Counter Server) where
  -- The Lua script, and the argument that it is run with.
  unfoldable pub count_call : ℕ → Server → ℕ × Server
  count_call window s =
      let answer = r.incr s in
      if answer.0 == 1 then (answer.0, r.pexpire (milliseconds window) answer.1) else answer

  -- Allow; a limit or a window of 0 stands for every one that is not positive.
  unfoldable pub allow : ℕ → ℕ → Server → Bool × Server
  unfolding count_call
  allow limit window s =
      if limit == 0 || window == 0
      then (true, s)
      else (leb (count_call window s).0 limit, (count_call window s).1)
