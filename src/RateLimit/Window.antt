-- ===== src/RateLimit/Window.antt =====
-- How many calls of one window are allowed. Source: src/backend/internal/ratelimit/redis.go.
use team5_ewaste_platform.Common.{
  ℕ, zero, suc, ◌+◌, ◌-◌, ◌<◌, ◌≤◌, milliseconds, ◌≡◌, arith, if◌then◌else◌, leb, ltb, Bool-cases,
  inl, inr, ◌==◌,
}
use team5_ewaste_platform.RateLimit.{Counter, count_call, allow}

module _ {Server : Type 0} (r : Counter Server) where
  count_call_lem :
      (window : ℕ) (s : Server)
      → 0 < milliseconds window
      → ((count_call r window s).0 ≡ suc (r.value s))
        × (r.value (count_call r window s).1 ≡ suc (r.value s))
  unfolding count_call
  count_call_lem window s lives =
      let (answer, now) = r.incr-value s in
      elim (Bool-cases ((r.incr s).0 == 1)) [
        | inl e ↦ (
          ground (arith, e, answer),
          ground (arith, e, now, r.value-pexpire (milliseconds window) (r.incr s).1 lives),
        )
        | inr e ↦ (ground (arith, e, answer), ground (arith, e, now))
      ]

  allow_lem :
      (limit window : ℕ) (s : Server)
      → 0 < limit
      → 1_000_000 ≤ window
      → ((allow r limit window s).0 ≡ leb (suc (r.value s)) limit)
        × (r.value (allow r limit window s).1 ≡ suc (r.value s))
  unfolding allow
  allow_lem limit window s l w =
      let (answer, now) = count_call_lem window s (omega (arith, w)) in
      (ground (arith, answer), ground (arith, now))

  -- How many of the given number of calls are allowed, one after the other.
  unfoldable pub allowed : ℕ → ℕ → ℕ → Server → ℕ
  unfolding allow
  allowed limit window zero s = 0
  allowed limit window (suc calls) s =
      (if (allow r limit window s).0 then 1 else 0)
      + allowed limit window calls (allow r limit window s).1

-- With a positive limit, of the calls of one window of a millisecond or more, in which the key does not expire, exactly the first ones up to the
-- limit are allowed: all when they are no more than the limit less the count so far, and else that
-- many.
pub allowed_lem :
    {Server : Type 0} (r : Counter Server) (limit window calls : ℕ) (s : Server)
    → 0 < limit
    → 1_000_000 ≤ window
    → allowed r limit window calls s
      ≡ (if ltb calls (limit - r.value s) then calls else limit - r.value s)
unfolding allowed
allowed_lem r limit window zero s l w = ground arith
allowed_lem r limit window (suc calls) s l w =
    let (first, now) = allow_lem r limit window s l w in
    ground (arith, first, now, allowed_lem r limit window calls (allow r limit window s).1 l w)
