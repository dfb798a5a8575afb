-- ===== src/Lease.antt =====
-- The leases that guard a batch's claim and the relay's leadership: one Redis key, which holds its
-- owner's token. Source: src/backend/internal/lease/redis.go, src/backend/internal/outbox/lease.go.
pub mod Exclusion
mod Tests
use team5_ewaste_platform.Common.{
  ℕ, Bool, true, false, Option, none, some, ◌≡◌, Text, text_eq, ◌==◌, if◌then◌else◌, ◌<◌,
  milliseconds,
}

-- The commands of a Redis server that the leases use, on one key: GET, SET NX with a time to live
-- (whether the key was set, and the server then), PEXPIRE and DEL.
pub record Redis (Server : Type 0) : Type 0 where
  pub get : Server → Option Text
  pub set_nx : Text → ℕ → Server → Bool × Server
  pub pexpire : ℕ → Server → Server
  pub del : Server → Server
  -- SET NX sets the key when it is not set, and does nothing when it is.
  pub set_nx-free :
      (token : Text) (ttl : ℕ) (s : Server)
      → get s ≡ none
      → ((set_nx token ttl s).0 ≡ true) × (get (set_nx token ttl s).1 ≡ some token)
  pub set_nx-taken :
      (token owner : Text) (ttl : ℕ) (s : Server)
      → get s ≡ some owner
      → set_nx token ttl s ≡ (false, s)
  -- PEXPIRE does not change the value, but deletes a key that is to live for 0 milliseconds; DEL
  -- removes it.
  pub get-pexpire : (ms : ℕ) (s : Server) → 0 < ms → get (pexpire ms s) ≡ get s
  pub get-pexpire_zero : (s : Server) → get (pexpire 0 s) ≡ none
  pub get-del : (s : Server) → get (del s) ≡ none

-- Acquired, held by another, not to be reached, or no longer held.
pub data LeaseResult : Type 0 where
  done busy unavailable lost : LeaseResult

-- The calls of a holder, by its token.
pub data LeaseCall : Type 0 where
  acquire renew : Text → ℕ → LeaseCall
  release : Text → LeaseCall

module _ {Server : Type 0} (r : Redis Server) where
  -- GET == ARGV[1], the guard of both scripts.
  abbrev pub is_owner_of : Server → Text → Bool
  is_owner_of s token = elim (r.get s) [ none ↦ false | some owner ↦ text_eq owner token ]

  abbrev pub set_result : Bool × Server → LeaseResult × Server
  set_result (true, s) = (LeaseResult.done, s)
  set_result (false, s) = (LeaseResult.busy, s)

  -- Acquire, for a client that is not nil; a ttl of 0 stands for every one that is not positive.
  unfoldable pub acquire_lease : Text → ℕ → Server → LeaseResult × Server
  acquire_lease token ttl s =
      if ttl == 0 then (LeaseResult.unavailable, s) else set_result (r.set_nx token ttl s)

  -- The renewal script, and the test of its answer.
  unfoldable pub renew_lease : Text → ℕ → Server → LeaseResult × Server
  renew_lease token ttl s =
      if ttl == 0
      then (LeaseResult.unavailable, s)
      else if is_owner_of s token
      then (LeaseResult.done, r.pexpire (milliseconds ttl) s)
      else (LeaseResult.lost, s)

  -- The release script; its answer is not looked at.
  unfoldable pub release_lease : Text → Server → LeaseResult × Server
  release_lease token s =
      if is_owner_of s token then (LeaseResult.done, r.del s) else (LeaseResult.done, s)

  unfoldable pub run_call : LeaseCall → Server → LeaseResult × Server
  unfolding acquire_lease renew_lease release_lease
  run_call (LeaseCall.acquire token ttl) s = acquire_lease token ttl s
  run_call (LeaseCall.renew token ttl) s = renew_lease token ttl s
  run_call (LeaseCall.release token) s = release_lease token s

abbrev pub token_of : LeaseCall → Text
token_of (LeaseCall.acquire token ttl) = token
token_of (LeaseCall.renew token ttl) = token
token_of (LeaseCall.release token) = token
