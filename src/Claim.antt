-- ===== src/Claim.antt =====
-- The recycler's claim of a matched batch. Source: src/backend/internal/service/claim.go.
pub mod Statements
pub mod Prepare
mod Transaction
pub mod Effects
pub mod Capacity
pub mod Replay
pub mod Outcome
pub mod Answers
pub mod Quiet
pub mod Guarantees
pub mod Samples
pub mod Tests
unfoldable pub use Transaction.*
use team5_ewaste_platform.Common.{
  ℕ, ◌*◌, ◌/◌, Bool, true, false, ◌&&◌, not, Option, none, some, List, [], ◌∷◌, ◌++◌, Text, codes,
  text_eq, ◌==◌, is_none, to_uint32, ClaimError, claim, Error, store, StoreError,
  claim_opportunity_not_found, claim_batch_not_found, claim_actor_not_eligible, claim_concurrency,
  Result, ok, err, require, cancelled,
}
use team5_ewaste_platform.Decimal.{print_int}
use team5_ewaste_platform.Store.{
  Time, Batch, BatchStatus, status_eq, AuditEvent, AuditType, EventType, Db, Tx, pure, fail_if,
  lift, ◌>>=◌, ◌>>◌, transaction,
}
use team5_ewaste_platform.Store.Allocation.{
  BatchClaim, ClaimStatus, CapacityReservation, ReservationStatus,
}
use team5_ewaste_platform.Dto.{
  BatchCommandMetadata, ClaimRequest, ClaimResult, EventPayload, EventHeader,
}
use team5_ewaste_platform.Platform.{Platform}
use team5_ewaste_platform.Command.{Call, new_command, new_audit_event}
use team5_ewaste_platform.Actor.{validate_recycler_actor}
use team5_ewaste_platform.Batch.Validate.{normalize_stored_weight}
use team5_ewaste_platform.Batch.View.{new_outbox}
use team5_ewaste_platform.Replay.{ReplayRules, load_replay, or_replay}
use team5_ewaste_platform.Lease.{LeaseResult}
use Statements.{
  ClaimMatch, find_claim_batch, claim_key_exists, create_claim_command, find_eligible_match,
  lock_capacity_pool, reserve_capacity, create_claim, create_reservation, approve_batch,
  append_claim_audit, enqueue_claim_outbox, complete_claim_command,
}
use Prepare.{prepare_claim}

-- What happens around a claim: whether a lease client is configured and what Acquire answers;
-- whether the transaction is cancelled; whether the renewal fails before it is stopped; and what
-- others do to the store between this claim's transactions.
pub record Surroundings : Type 0 where
  pub has_leases : Bool
  pub acquired : LeaseResult
  pub is_cancelled : Bool
  pub renewal_fails : Bool
  pub before_claim : Db → Db
  pub before_resolve : Db → Db

unfoldable pub map_claim_error : Error → Error
map_claim_error (store claim_batch_not_found) = claim ClaimError.opportunity_not_found
map_claim_error (store claim_opportunity_not_found) = claim ClaimError.opportunity_not_found
map_claim_error (store claim_actor_not_eligible) = claim ClaimError.forbidden
map_claim_error (store claim_concurrency) = claim ClaimError.concurrent
map_claim_error e = e

-- `resolveReplay`: a transaction that looks for a replay, and for nothing else.
unfoldable pub resolve_replay : Platform → BatchCommandMetadata → Tx (Option ClaimResult)
resolve_replay p m = do
  validate_recycler_actor m.actor.user_id m.actor.organisation_id
  load_replay (claim_rules p) m

-- A call that ran its transaction: the error that a failed renewal puts in place of success and of
-- a cancellation.
abbrev pub or_lost : Error → Error
or_lost cancelled = claim ClaimError.lease_unavailable
or_lost e = e

abbrev pub after_renewal {ℓ} : {A : Type ℓ} → Bool → Result A → Result A
after_renewal false r = r
after_renewal true (ok a) = err (claim ClaimError.lease_unavailable)
after_renewal true (err e) = err (or_lost e)

module _ (p : Platform) (s : Surroundings) (m : BatchCommandMetadata) where
  -- `if err == nil { return result, nil }`, and the last look for a replay otherwise.
  abbrev pub last_answer : Error → Result (Option ClaimResult) × Db → Result ClaimResult × Db
  last_answer e (ok (some result), db) = (ok result, db)
  last_answer e (ok none, db) = (err (map_claim_error e), db)
  last_answer e (err again, db) = (err again, db)

  unfoldable pub finish : Result ClaimResult × Db → Result ClaimResult × Db
  unfolding resolve_replay
  finish (ok result, db) = (ok result, db)
  finish (err e, db) = last_answer e (transaction (resolve_replay p m) (s.before_resolve db))

  -- The transaction, or its rollback when the context is cancelled before it commits.
  unfoldable pub run_transaction : Bool → Tx ClaimResult → Db → Result ClaimResult × Db
  run_transaction true body db = (err cancelled, db)
  run_transaction false body db = transaction body db

  unfoldable pub renewed : Result ClaimResult × Db → Result ClaimResult × Db
  renewed (r, db) = (after_renewal s.renewal_fails r, db)

  -- `s.leases == nil`, and the answers of Acquire.
  unfoldable pub acquire_and_run :
      Bool → LeaseResult → Tx ClaimResult → Db → Result ClaimResult × Db
  unfolding finish renewed run_transaction
  acquire_and_run false acquired body db = (err (claim ClaimError.lease_unavailable), db)
  acquire_and_run true LeaseResult.busy body db = (err (claim ClaimError.concurrent), db)
  acquire_and_run true LeaseResult.unavailable body db =
      (err (claim ClaimError.lease_unavailable), db)
  acquire_and_run true LeaseResult.lost body db = (err (claim ClaimError.lease_unavailable), db)
  acquire_and_run true LeaseResult.done body db =
      finish (renewed (run_transaction s.is_cancelled body (s.before_claim db)))

  -- The first look for a replay, which comes before the lease.
  unfoldable pub or_answered :
      Tx ClaimResult → Result (Option ClaimResult) × Db → Result ClaimResult × Db
  unfolding acquire_and_run
  or_answered body (ok (some result), db) = (ok result, db)
  or_answered body (ok none, db) = acquire_and_run s.has_leases s.acquired body db
  or_answered body (err e, db) = (err e, db)

unfoldable pub run_claim :
    Platform
    → Surroundings
    → ClaimCall
    → Text
    → Option Text
    → Result (BatchCommandMetadata × ℕ)
    → Db
    → Result ClaimResult × Db
unfolding claim_transaction or_answered resolve_replay
run_claim p s c batch_id notes (err e) db = (err e, db)
run_claim p s c batch_id notes (ok (m, claim_epoch)) db =
    or_answered p s m (claim_transaction p c m batch_id claim_epoch notes)
      (transaction (resolve_replay p m) db)

unfoldable pub claim_batch :
    Platform
    → Surroundings
    → ClaimCall
    → Text
    → ClaimRequest
    → BatchCommandMetadata
    → Db
    → Result ClaimResult × Db
unfolding prepare_claim run_claim
claim_batch p s c batch_id request m =
    run_claim p s c batch_id request.notes (prepare_claim p batch_id request m)
