-- ===== src/Claim/Transaction.antt =====
-- The transaction of a claim. Source: `Claim` of src/backend/internal/service/claim.go.
use team5_ewaste_platform.Common.{
  ℕ, ◌*◌, ◌/◌, ◌&&◌, not, Option, none, some, Text, codes, ◌==◌, is_none, to_uint32, ClaimError,
  claim, store, claim_opportunity_not_found, Result, ok, err,
}
use team5_ewaste_platform.Decimal.{print_int}
use team5_ewaste_platform.Store.{
  Time, Batch, BatchStatus, status_eq, AuditEvent, AuditType, EventType, Tx, pure, fail_if, lift,
  ◌>>=◌, ◌>>◌,
}
use team5_ewaste_platform.Store.Allocation.{
  BatchClaim, ClaimStatus, CapacityReservation, ReservationStatus,
}
use team5_ewaste_platform.Dto.{BatchCommandMetadata, ClaimResult, EventPayload}
use team5_ewaste_platform.Platform.{Platform}
use team5_ewaste_platform.Command.{Call, new_command, new_audit_event}
use team5_ewaste_platform.Actor.{validate_recycler_actor}
use team5_ewaste_platform.Batch.Validate.{normalize_stored_weight}
use team5_ewaste_platform.Batch.View.{new_outbox}
use team5_ewaste_platform.Replay.{ReplayRules, or_replay}
use team5_ewaste_platform.Claim.Statements.{
  ClaimMatch, find_claim_batch, claim_key_exists, create_claim_command, find_eligible_match,
  lock_capacity_pool, reserve_capacity, create_claim, create_reservation, approve_batch,
  append_claim_audit, enqueue_claim_outbox, complete_claim_command,
}

abbrev pub claim_rules : Platform → ReplayRules ClaimResult
claim_rules p = record {
  conflict = claim ClaimError.idempotency_conflict;
  busy = claim ClaimError.in_progress;
  undecodable = claim ClaimError.decode_replay;
  read = p.read_claim_result;
}

-- A call's clocks and identifiers, those of `Call` and these: the reading for the command's row, the
-- database's own clock, and the identifiers of the claim and of the reservation.
pub record ClaimCall : Type 0 where
  pub call : Call
  pub command_at : Time
  pub database_now : Time
  pub claim_id : Text
  pub reservation_id : Text

-- Truncate(time.Microsecond)
abbrev pub to_micros : Time → Time
to_micros t = t / 1000 * 1000

-- `*batch.EstimatedWeightKg`, when that and the deadline are there.
abbrev pub required_weight : Option Text → Option Time → Result Text
required_weight (some weight) (some deadline) = ok weight
required_weight none deadline = err (claim ClaimError.invalid)
required_weight (some weight) none = err (claim ClaimError.invalid)

abbrev pub naming_opportunity {ℓ} : {A : Type ℓ} → Result A → Result A
naming_opportunity (err (store claim_opportunity_not_found)) =
    err (claim ClaimError.opportunity_not_found)
naming_opportunity r = r

-- Any error becomes the given one.
abbrev pub or_error {ℓ} : {A : Type ℓ} → ClaimError → Result A → Result A
or_error e (ok a) = ok a
or_error e (err x) = err (claim e)

abbrev pub claim_confirmed_topic : Text
claim_confirmed_topic = codes "ewaste.claim.events"

module _ (p : Platform) (c : ClaimCall) (m : BatchCommandMetadata) where
  abbrev pub claim_at : Time
  claim_at = to_micros c.call.now

  unfoldable pub new_claim : Batch → ℕ → Option Text → BatchClaim
  new_claim batch claim_epoch notes = record {
    id = c.claim_id;
    batch_id = batch.id;
    claim_epoch = claim_epoch;
    recycler_org_id = m.actor.organisation_id;
    claimed_by = m.actor.user_id;
    claim_status = ClaimStatus.accepted;
    idempotency_key = m.idempotency_key;
    claimed_at = claim_at;
    superseded_at = none;
    notes = notes;
    created_at = claim_at;
  }

  unfoldable pub new_reservation : Batch → Text → Text → CapacityReservation
  new_reservation batch pool_id weight_kg = record {
    id = c.reservation_id;
    batch_id = batch.id;
    claim_id = c.claim_id;
    capacity_pool_id = pool_id;
    reserved_kg = weight_kg;
    status = ReservationStatus.reserved;
    reserved_at = claim_at;
    released_at = none;
    release_reason = none;
    release_command_id = none;
    version = 1;
  }

  unfoldable pub claim_audit : Batch → AuditEvent
  claim_audit approved =
      record (new_audit_event c.call m c.call.command_id approved AuditType.claim_confirmed
        BatchStatus.matched BatchStatus.approved claim_at) { claim_id = some c.claim_id }

  unfoldable pub build_claim_confirmed_payload : Text → Text → Batch → BatchClaim → Text → Text
  unfolding print_int
  build_claim_confirmed_payload event_id command_id batch made correlation_id = p.payload_json (
      EventPayload.claim_confirmed
        (record {
          event_id = event_id;
          command_id = command_id;
          batch_id = batch.id;
          batch_version = batch.version;
          claim_epoch = print_int batch.claim_epoch;
          occurred_at = made.claimed_at;
          correlation_id = correlation_id;
        })
        (record {
          claim_id = made.id;
          recycler_org_id = made.recycler_org_id;
          actor_user_id = made.claimed_by;
          claimed_at = made.claimed_at;
        }))

  unfoldable pub claim_result : Batch → ClaimResult
  unfolding print_int
  claim_result approved = record {
    batch_id = approved.id;
    status = approved.status;
    version = approved.version;
    claim_epoch = print_int approved.claim_epoch;
    claim_id = c.claim_id;
    reservation_id = c.reservation_id;
    event_id = c.call.event_id;
    event_state = codes "PENDING";
    correlation_id = m.correlation_id;
  }

  -- The rest of the transaction, on the batch that was found, its weight and its match.
  unfoldable pub claim_matched : ℕ → Option Text → Batch → Text → ClaimMatch → Tx ClaimResult
  unfolding new_claim new_reservation claim_audit build_claim_confirmed_payload claim_result
  claim_matched claim_epoch notes batch stored_weight match = do
    weight_kg ← lift (or_error ClaimError.invalid (normalize_stored_weight p stored_weight))
    lock_capacity_pool match.capacity_pool_id m.actor.organisation_id
    (λ db. or_error ClaimError.capacity (
        reserve_capacity p.decimal_cents match.capacity_pool_id m.actor.organisation_id weight_kg
          claim_at db))
    create_claim (new_claim batch claim_epoch notes)
    create_reservation (new_reservation batch match.capacity_pool_id weight_kg)
    approved ← approve_batch batch.id claim_epoch (to_uint32 m.expected_version) c.claim_id claim_at
    append_claim_audit (claim_audit approved)
    enqueue_claim_outbox (
        new_outbox c.call.event_id c.call.command_id approved EventType.claim_confirmed
          claim_confirmed_topic
          (build_claim_confirmed_payload c.call.event_id c.call.command_id approved
            (new_claim batch claim_epoch notes) m.correlation_id)
          m.correlation_id claim_at)
    complete_claim_command c.call.command_id 200 (p.claim_result_json (claim_result approved))
        claim_at
    pure (claim_result approved)

  -- The part of the transaction that runs when no replay was found.
  unfoldable pub claim_new : Text → ℕ → Option Text → Tx ClaimResult
  claim_new batch_id claim_epoch notes = do
    batch ← find_claim_batch batch_id
    is_used ← claim_key_exists m.idempotency_key
    fail_if is_used (claim ClaimError.idempotency_conflict)
    fail_if
        (not (batch.version == to_uint32 m.expected_version && batch.claim_epoch == claim_epoch))
        (claim ClaimError.stale_version)
    fail_if (not (status_eq batch.status BatchStatus.matched && is_none batch.current_claim_id))
        (claim ClaimError.invalid_state)
    weight ← lift (required_weight batch.estimated_weight_kg batch.collection_deadline)
    create_claim_command (new_command c.call m batch.id c.command_at)
    match ← (λ db.
        naming_opportunity
          (find_eligible_match p.decimal_cents c.database_now batch m.actor.organisation_id db))
    claim_matched claim_epoch notes batch weight match

  unfoldable pub claim_transaction : Text → ℕ → Option Text → Tx ClaimResult
  unfolding claim_new
  claim_transaction batch_id claim_epoch notes = do
    validate_recycler_actor m.actor.user_id m.actor.organisation_id
    or_replay (claim_rules p) m (claim_new batch_id claim_epoch notes)
