-- ===== src/Claim/Statements.antt =====
-- The statements of a claim's transaction. Source: src/backend/internal/repository/claim.go.
use mathlib.Core.Option.{get_or}
use team5_ewaste_platform.Common.{
  ℕ, ◌+◌, ◌-◌, ◌*◌, ◌%◌, ◌^◌, Bool, false, ◌&&◌, ◌||◌, not, Option, none, some, List, [], Text,
  codes, text_eq, leb, ◌==◌, is_none, store, ok, err, claim_batch_not_found,
  claim_opportunity_not_found, claim_pool_not_found, claim_concurrency,
}
use team5_ewaste_platform.Store.{
  Time, Batch, BatchStatus, status_eq, Command, AuditEvent, OutboxEvent, Tx, find, exists, update,
}
use team5_ewaste_platform.Store.Allocation.{BatchClaim, CapacityReservation, CapacityPool}
use team5_ewaste_platform.Store.Directory.{
  Directory, MatchedResult, MatchingDecision, MatchingProfile, CategoryCapability, ServiceZone,
}
use team5_ewaste_platform.Store.Statements.{
  has_id, find_row, insert_row, create_command, update_batch, complete_command, append_audit,
  enqueue_outbox,
}
use team5_ewaste_platform.Actor.{is_active_organisation}

unfoldable pub find_claim_batch : Text → Tx Batch
find_claim_batch batch_id = find_row claim_batch_not_found (has_id batch_id) (λ db. db.batches)

unfoldable pub claim_key_exists : Text → Tx Bool
claim_key_exists idempotency_key db =
    ok (exists (λ c. text_eq c.idempotency_key idempotency_key) db.claims, db)

-- A test on a column that may be NULL: SQL's comparison with NULL is not true.
abbrev pub known_and {ℓ} : {A : Type ℓ} → (A → Bool) → Option A → Bool
known_and test none = false
known_and test (some a) = test a

-- model.ClaimMatch
pub record ClaimMatch : Type 0 where
  pub decision_id : Text
  pub matched_result_id : Text
  pub batch_id : Text
  pub recycler_org_id : Text
  pub capacity_pool_id : Text

-- md.batch_version = batch.Version-1, a difference of type uint32.
abbrev decides : Batch → MatchedResult → MatchingDecision → Bool
decides b r d =
    text_eq d.id r.decision_id
    && text_eq d.batch_id r.batch_id
    && text_eq d.outcome (codes "MATCHED")
    && d.claim_epoch == b.claim_epoch
    && d.batch_version == (b.version + (2 ^ 32 - 1)) % 2 ^ 32

abbrev is_capable : Batch → MatchedResult → CategoryCapability → Bool
is_capable b r c =
    text_eq c.recycler_org_id r.recycler_org_id
    && known_and (text_eq c.capacity_pool_id) r.capacity_pool_id
    && known_and (text_eq c.category) b.category
    && c.is_active
    && (not b.is_data_bearing || c.supports_data_bearing)
    && known_and (λ condition. exists (text_eq condition) c.accepted_conditions) b.condition_rating

abbrev minute : Time
minute = 60_000_000_000

-- The deadline leaves the zone's lead time, from the clock of the database.
abbrev serves : Time → Batch → MatchedResult → ServiceZone → Bool
serves database_now b r z =
    text_eq z.recycler_org_id r.recycler_org_id
    && known_and (text_eq z.zone) b.zone
    && z.is_active
    && known_and (leb (database_now + z.minimum_lead_minutes * minute)) b.collection_deadline

-- total_kg - reserved_kg >= weight, with no subtraction.
abbrev pub has_room : ℕ → CapacityPool → Bool
has_room cents q = leb (q.reserved_kg + cents) q.total_kg

abbrev offers : (Text → ℕ) → Batch → MatchedResult → CapacityPool → Bool
offers decimal_cents b r q =
    known_and (text_eq q.id) r.capacity_pool_id
    && text_eq q.recycler_org_id r.recycler_org_id
    && q.is_active
    && known_and (λ w. has_room (decimal_cents w) q) b.estimated_weight_kg

-- The rows that FindEligibleMatch joins and filters. Each joined table is tied to the match alone,
-- so that the join has a row when each of them has one.
unfoldable pub is_opportunity :
    (Text → ℕ) → Time → Directory → List CapacityPool → Batch → Text → MatchedResult → Bool
is_opportunity decimal_cents database_now directory pools b recycler_org_id r =
    text_eq r.batch_id b.id
    && text_eq r.recycler_org_id recycler_org_id
    && (r.is_matched && r.category_match && r.capability_match)
    && (r.capacity_available && r.zone_match && r.deadline_viable)
    && exists (decides b r) directory.decisions
    && exists (is_active_organisation r.recycler_org_id (codes "PROCESSING_FACILITY"))
        directory.organisations
    && exists (λ (f : MatchingProfile). text_eq f.recycler_org_id r.recycler_org_id && f.is_active)
        directory.profiles
    && exists (is_capable b r) directory.capabilities
    && exists (serves database_now b r) directory.zones
    && exists (offers decimal_cents b r) pools

abbrev pub match_of : MatchedResult → ClaimMatch
match_of r = record {
  decision_id = r.decision_id;
  matched_result_id = r.id;
  batch_id = r.batch_id;
  recycler_org_id = r.recycler_org_id;
  capacity_pool_id = get_or r.capacity_pool_id [];
}

-- LIMIT 1 with no order: the first row of a table whose order nothing fixes.
unfoldable pub find_eligible_match : (Text → ℕ) → Time → Batch → Text → Tx ClaimMatch
find_eligible_match decimal_cents database_now b recycler_org_id db =
    elim (find (is_opportunity decimal_cents database_now db.directory db.pools b recycler_org_id)
      db.directory.matched_results) [
        | none ↦ err (store claim_opportunity_not_found)
        | some r ↦ ok (match_of r, db)
      ]

abbrev owned_pool : Text → Text → CapacityPool → Bool
owned_pool pool_id recycler_org_id q =
    text_eq q.id pool_id && text_eq q.recycler_org_id recycler_org_id

unfoldable pub lock_capacity_pool : Text → Text → Tx CapacityPool
lock_capacity_pool pool_id recycler_org_id =
    find_row claim_pool_not_found (owned_pool pool_id recycler_org_id) (λ db. db.pools)

abbrev pub has_pool_id : Text → CapacityPool → Bool
has_pool_id pool_id q = text_eq q.id pool_id

abbrev pub may_reserve : Text → ℕ → CapacityPool → Bool
may_reserve recycler_org_id cents q =
    text_eq q.recycler_org_id recycler_org_id && q.is_active && has_room cents q

abbrev pub with_reserved : ℕ → Time → CapacityPool → CapacityPool
with_reserved cents updated_at q = record q {
  reserved_kg = q.reserved_kg + cents;
  version = q.version + 1;
  updated_at = updated_at;
}

unfoldable pub reserve_capacity : (Text → ℕ) → Text → Text → Text → Time → Tx (Unit {0})
reserve_capacity decimal_cents pool_id recycler_org_id weight_kg updated_at db =
    elim (update (has_pool_id pool_id) (may_reserve recycler_org_id (decimal_cents weight_kg))
      (with_reserved (decimal_cents weight_kg) updated_at) db.pools) [
        | none ↦ err (store claim_concurrency)
        | some pools ↦ ok (tt, record db { pools = pools })
      ]

-- The unique keys id, (batch_id, claim_epoch) and idempotency_key.
abbrev pub same_claim : BatchClaim → BatchClaim → Bool
same_claim c d =
    text_eq d.id c.id
    || text_eq d.batch_id c.batch_id && d.claim_epoch == c.claim_epoch
    || text_eq d.idempotency_key c.idempotency_key

unfoldable pub create_claim : BatchClaim → Tx (Unit {0})
create_claim = insert_row same_claim (λ db. db.claims) (λ rows db. record db { claims = rows })

-- The unique keys id and claim_id.
abbrev pub same_reservation : CapacityReservation → CapacityReservation → Bool
same_reservation r s = text_eq s.id r.id || text_eq s.claim_id r.claim_id

unfoldable pub create_reservation : CapacityReservation → Tx (Unit {0})
create_reservation =
    insert_row same_reservation (λ db. db.reservations)
      (λ rows db. record db { reservations = rows })

-- status = 'MATCHED' AND current_claim_id IS NULL AND claim_epoch = ? AND version = ?
abbrev pub is_claimable : ℕ → ℕ → Batch → Bool
is_claimable claim_epoch version b =
    status_eq b.status BatchStatus.matched
    && is_none b.current_claim_id
    && b.claim_epoch == claim_epoch
    && b.version == version

abbrev pub approved_row : Text → Time → Batch → Batch
approved_row claim_id updated_at b = record b {
  status = BatchStatus.approved;
  current_claim_id = some claim_id;
  version = b.version + 1;
  updated_at = updated_at;
}

unfoldable pub approve_batch : Text → ℕ → ℕ → Text → Time → Tx Batch
unfolding update_batch
approve_batch batch_id claim_epoch expected_version claim_id updated_at =
    update_batch claim_concurrency batch_id (is_claimable claim_epoch expected_version)
      (approved_row claim_id updated_at)

-- The statements that claims have in common with the donor's commands.
abbrev pub create_claim_command : Command → Tx (Unit {0})
create_claim_command = create_command

abbrev pub complete_claim_command : Text → ℕ → Text → Time → Tx (Unit {0})
complete_claim_command = complete_command claim_concurrency

abbrev pub append_claim_audit : AuditEvent → Tx (Unit {0})
append_claim_audit = append_audit

abbrev pub enqueue_claim_outbox : OutboxEvent → Tx (Unit {0})
enqueue_claim_outbox = enqueue_outbox
