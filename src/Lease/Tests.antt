-- ===== src/Lease/Tests.antt =====
-- The leases on a server that holds one key, and forgets it only when it is to live for 0 ms.
use team5_ewaste_platform.Common.{
  ℕ, zero, suc, ◌<◌, Bool, true, false, Option, none, some, [], ◌∷◌, ◌≡◌, ◌≢◌, refl, arith, Text,
  codes, text_eq, text_eq_iff,
}
use team5_ewaste_platform.Lease.{
  Redis, LeaseResult, LeaseCall, acquire_lease, renew_lease, release_lease,
}
use team5_ewaste_platform.Lease.Exclusion.{
  run_calls, acquire_lease-exclusive, release_lease-acquire_lease,
}

abbrev set_if_free : Text → Option Text → Bool × Option Text
set_if_free token none = (true, some token)
set_if_free token (some owner) = (false, some owner)

set_if_free-free :
    (token : Text) (s : Option Text)
    → s ≡ none
    → ((set_if_free token s).0 ≡ true) × ((set_if_free token s).1 ≡ some token)
set_if_free-free token none h = (refl, refl)
set_if_free-free token (some owner) h = cc

set_if_free-taken :
    (token owner : Text) (s : Option Text) → s ≡ some owner → set_if_free token s ≡ (false, s)
set_if_free-taken token owner none h = cc
set_if_free-taken token owner (some other) h = refl

abbrev live_for : ℕ → Option Text → Option Text
live_for zero s = none
live_for (suc ms) s = s

live_for-positive : (ms : ℕ) (s : Option Text) → 0 < ms → live_for ms s ≡ s
live_for-positive zero s h = absurd (omega (arith, h))
live_for-positive (suc ms) s h = refl

abbrev memory : Redis (Option Text)
memory = record {
  get = λ s. s;
  set_nx = λ token ttl s. set_if_free token s;
  pexpire = λ ms s. live_for ms s;
  del = λ s. none;
  set_nx-free = λ token ttl s h. set_if_free-free token s h;
  set_nx-taken = λ token owner ttl s h. set_if_free-taken token owner s h;
  get-pexpire = λ ms s positive. live_for-positive ms s positive;
  get-pexpire_zero = λ s. refl;
  get-del = λ s. refl;
}

abbrev first : Text
first = codes "t1"

abbrev second : Text
second = codes "t2"

acquired : acquire_lease memory first 30 none ≡ (LeaseResult.done, some first)
unfolding acquire_lease
acquired = refl

different : text_eq first second ≡ false
unfolding text_eq
different = refl

apart : first ≢ second
apart e = ground (arith, different, (text_eq_iff first second).1 e)

acquire_lease-exclusive_example :
    (run_calls memory (LeaseCall.release second ∷ LeaseCall.acquire second 9 ∷ []) (some first)
      ≡ some first)
    × ((acquire_lease memory second 30 (
          run_calls memory
            (LeaseCall.release second ∷ LeaseCall.acquire second 9 ∷ [])
            (some first))).0
        ≢ LeaseResult.done)
    × ((renew_lease memory second 30 (
          run_calls memory
            (LeaseCall.release second ∷ LeaseCall.acquire second 9 ∷ [])
            (some first))).0
        ≢ LeaseResult.done)
acquire_lease-exclusive_example =
    acquire_lease-exclusive memory first second 30 30 none (some first)
      (LeaseCall.release second ∷ LeaseCall.acquire second 9 ∷ []) acquired (apart, (apart, tt))
      apart

release_lease-acquire_lease_example :
    ((acquire_lease memory second 30 (release_lease memory first (some first)).1).0
      ≡ LeaseResult.done)
    × ((acquire_lease memory second 30 (release_lease memory first (some first)).1).1 ≡ some second)
release_lease-acquire_lease_example =
    release_lease-acquire_lease memory first second 30 (some first) refl (omega arith)
