-- ===== src/Claim/Effects.antt =====
-- What a claim that was no replay has done to the store.
use team5_ewaste_platform.Common.{
  ℕ, Bool, true, false, ◌&&◌, not, Option, none, some, List, ◌∷◌, ◌≡◌, refl, Text, text_eq, ◌==◌,
  is_none, arith, to_uint32, Result, ok, err, inl, inr, Option-cases, ClaimError, claim,
  claim_batch_not_found, claim_pool_not_found, claim_concurrency,
}
use team5_ewaste_platform.Store.{
  Time, Batch, BatchStatus, status_eq, EventType, Db, find, exists, update, Tx, ◌>>=◌, ◌>>◌,
  fail_if-then, lift-then, pure-ok,
}
use team5_ewaste_platform.Store.Allocation.{CapacityPool}
use team5_ewaste_platform.Store.Directory.{MatchedResult}
use team5_ewaste_platform.Store.Statements.{has_id}
use team5_ewaste_platform.Store.Laws.{
  create_command-then, append_audit-then, enqueue_outbox-then, complete_command-then, BatchUpdated,
  completed,
}
use team5_ewaste_platform.Store.Updates.{find_row-then, insert_row-then, update_batch-then}
use team5_ewaste_platform.Dto.{BatchCommandMetadata, ClaimResult}
use team5_ewaste_platform.Platform.{Platform}
use team5_ewaste_platform.Command.{new_command}
use team5_ewaste_platform.Batch.Validate.{normalize_stored_weight}
use team5_ewaste_platform.Batch.View.{new_outbox}
use team5_ewaste_platform.Claim.Statements.{
  ClaimMatch, find_claim_batch, claim_key_exists, is_opportunity, match_of, find_eligible_match,
  lock_capacity_pool, has_pool_id, may_reserve, with_reserved, reserve_capacity, same_claim,
  create_claim, same_reservation, create_reservation, is_claimable, approved_row, approve_batch,
}
use team5_ewaste_platform.Claim.{
  ClaimCall, claim_at, new_claim, new_reservation, claim_audit, build_claim_confirmed_payload,
  claim_result, claim_confirmed_topic, required_weight, naming_opportunity, or_error, claim_matched,
  claim_new,
}

not-false : (t : Bool) → not t ≡ false → t ≡ true
not-false t h = ground arith

-- A step whose error is replaced, taken apart.
or_error-ok {ℓ} :
    {A : Type ℓ} (e : ClaimError) (r : Result A) {a : A} → or_error e r ≡ ok a → r ≡ ok a
or_error-ok e (ok b) h = h
or_error-ok e (err x) h = cc

naming_opportunity-ok {ℓ} :
    {A : Type ℓ} (r : Result A) {a : A} → naming_opportunity r ≡ ok a → r ≡ ok a
naming_opportunity-ok r h = ground arith

claimable_from :
    (b : Batch) (claim_epoch version : ℕ)
    → not (b.version == version && b.claim_epoch == claim_epoch) ≡ false
    → not (status_eq b.status BatchStatus.matched && is_none b.current_claim_id) ≡ false
    → is_claimable claim_epoch version b ≡ true
claimable_from b claim_epoch version h k = ground (arith, h, k)

required_weight-ok :
    (weight : Option Text) (deadline : Option Time) {w : Text}
    → required_weight weight deadline ≡ ok w
    → weight ≡ some w
required_weight-ok (some v) (some d) h = cc
required_weight-ok none d h = cc
required_weight-ok (some v) none h = cc

module _ {ℓ} {B : Type ℓ} (decimal_cents : Text → ℕ) (db : Db) {x : B × Db} where
  -- The match that was found, and the rest of the sequence on it.
  find_eligible_match-then :
      (now : Time) (b : Batch) (recycler_org_id : Text) (f : ClaimMatch → Tx B)
      → ((λ e. naming_opportunity (find_eligible_match decimal_cents now b recycler_org_id e))
            >>= f)
          db
        ≡ ok x
      → (r : MatchedResult) × (find
            (is_opportunity decimal_cents now db.directory db.pools b recycler_org_id)
            db.directory.matched_results
          ≡ some r)
        × (f (match_of r) db ≡ ok x)
  unfolding find_eligible_match
  find_eligible_match-then now b recycler_org_id f h =
      elim (Option-cases (
        find (is_opportunity decimal_cents now db.directory db.pools b recycler_org_id)
          db.directory.matched_results)) [
            | inl e ↦ absurd (ground (arith, e))
            | inr (r, e) ↦ (r, e, ground (arith, e))
          ]

  reserve_capacity-then :
      (pool_id recycler_org_id weight_kg : Text) (at : Time) (k : Tx B)
      → ((λ e.
              or_error ClaimError.capacity
                (reserve_capacity decimal_cents pool_id recycler_org_id weight_kg at e))
            >> k)
          db
        ≡ ok x
      → (pools : List CapacityPool) × (update
            (has_pool_id pool_id)
            (may_reserve recycler_org_id (decimal_cents weight_kg))
            (with_reserved (decimal_cents weight_kg) at)
            db.pools
          ≡ some pools)
        × (k (record db { pools = pools }) ≡ ok x)
  unfolding reserve_capacity
  reserve_capacity-then pool_id recycler_org_id weight_kg at k h =
      elim (Option-cases (
        update (has_pool_id pool_id) (may_reserve recycler_org_id (decimal_cents weight_kg))
          (with_reserved (decimal_cents weight_kg) at) db.pools)) [
            | inl e ↦ absurd (ground (arith, e))
            | inr (pools, e) ↦ (pools, e, ground (arith, e))
          ]

module _ (p : Platform) (c : ClaimCall) (m : BatchCommandMetadata) (batch_id : Text)
    (claim_epoch : ℕ) (notes : Option Text) (db : Db) (result : ClaimResult) (db' : Db) where
  -- A claim that was no replay: what it checked, the batch and the pool that it changed, and the
  -- rows that it added.
  pub record Claimed : Type 0 where
    pub before : Batch
    pub chosen : MatchedResult
    pub batches : List Batch
    pub pools : List CapacityPool
    pub stored_weight : Text
    pub weight_kg : Text
    pub key_unused : exists (λ d. text_eq d.idempotency_key m.idempotency_key) db.claims ≡ false
    pub claimable : is_claimable claim_epoch (to_uint32 m.expected_version) before ≡ true
    pub weighs : before.estimated_weight_kg ≡ some stored_weight
    pub normalized : normalize_stored_weight p stored_weight ≡ ok weight_kg
    pub matched :
        find
          (is_opportunity p.decimal_cents c.database_now db.directory db.pools before
            m.actor.organisation_id)
          db.directory.matched_results
        ≡ some chosen
    pub reserved :
        update
          (has_pool_id (match_of chosen).capacity_pool_id)
          (may_reserve m.actor.organisation_id (p.decimal_cents weight_kg))
          (with_reserved (p.decimal_cents weight_kg) (claim_at p c m))
          db.pools
        ≡ some pools
    pub claim_fresh :
        exists (same_claim (new_claim p c m before claim_epoch notes)) db.claims ≡ false
    pub updated :
        BatchUpdated batch_id db.batches batches before
          (approved_row c.claim_id (claim_at p c m) before)
    pub answer : result ≡ claim_result p c m (approved_row c.claim_id (claim_at p c m) before)
    pub final : db' ≡ record db {
      batches = batches;
      pools = pools;
      claims = new_claim p c m before claim_epoch notes ∷ db.claims;
      reservations =
          new_reservation p c m before (match_of chosen).capacity_pool_id weight_kg
          ∷ db.reservations;
      commands =
          completed
            (new_command c.call m before.id c.command_at)
            200
            (p.claim_result_json
              (claim_result p c m (approved_row c.claim_id (claim_at p c m) before)))
            (claim_at p c m)
          ∷ db.commands;
      audits = claim_audit p c m (approved_row c.claim_id (claim_at p c m) before) ∷ db.audits;
      outbox =
          new_outbox c.call.event_id c.call.command_id
            (approved_row c.claim_id (claim_at p c m) before)
            EventType.claim_confirmed
            claim_confirmed_topic
            (build_claim_confirmed_payload p c m c.call.event_id c.call.command_id
              (approved_row c.claim_id (claim_at p c m) before)
              (new_claim p c m before claim_epoch notes)
              m.correlation_id)
            m.correlation_id
            (claim_at p c m)
          ∷ db.outbox;
    }

  pub claim_new-Claimed : claim_new p c m batch_id claim_epoch notes db ≡ ok (result, db') → Claimed
  unfolding claim_new find_claim_batch claim_key_exists claim_matched lock_capacity_pool
      create_claim create_reservation approve_batch new_command
  claim_new-Claimed h =
      let (before, found, k1) =
        find_row-then claim_batch_not_found (has_id batch_id) (λ (d : Db). d.batches) _ db h in
      let (unused, k2) =
        fail_if-then (exists (λ d. text_eq d.idempotency_key m.idempotency_key) db.claims)
          (claim ClaimError.idempotency_conflict) _ db k1 in
      let (current, k3) =
        fail_if-then
          (not
            (before.version == to_uint32 m.expected_version && before.claim_epoch == claim_epoch))
          (claim ClaimError.stale_version) _ db k2 in
      let (free, k4) =
        fail_if-then
          (not (status_eq before.status BatchStatus.matched && is_none before.current_claim_id))
          (claim ClaimError.invalid_state) _ db k3 in
      let (stored, weighs, k5) =
        lift-then (required_weight before.estimated_weight_kg before.collection_deadline) _ db k4 in
      let command = new_command c.call m before.id c.command_at in
      let (_, k6) = create_command-then _ db command k5 in
      let db1 : Db = record db { commands = command ∷ db.commands } in
      let (chosen, matched, k7) =
        find_eligible_match-then p.decimal_cents db1 c.database_now before m.actor.organisation_id _
          k6 in
      let (weight_kg, normalized, k8) =
        lift-then (or_error ClaimError.invalid (normalize_stored_weight p stored)) _ db1 k7 in
      let (_, _, k9) = find_row-then claim_pool_not_found _ (λ (d : Db). d.pools) _ db1 k8 in
      let at = claim_at p c m in
      let (pools, reserved, k10) =
        reserve_capacity-then p.decimal_cents db1 (match_of chosen).capacity_pool_id
          m.actor.organisation_id weight_kg at _ k9 in
      let db2 : Db = record db1 { pools = pools } in
      let made = new_claim p c m before claim_epoch notes in
      let (claim_fresh, k11) =
        insert_row-then same_claim (λ (d : Db). d.claims) (λ rows d. record d { claims = rows })
          made _ db2 k10 in
      let db3 : Db = record db2 { claims = made ∷ db.claims } in
      let room = new_reservation p c m before (match_of chosen).capacity_pool_id weight_kg in
      let (_, k12) =
        insert_row-then same_reservation (λ (d : Db). d.reservations)
          (λ rows d. record d { reservations = rows }) room _ db3 k11 in
      let db4 : Db = record db3 { reservations = room ∷ db.reservations } in
      let (batches, updated, _, k13) =
        update_batch-then claim_concurrency batch_id
          (is_claimable claim_epoch (to_uint32 m.expected_version)) (approved_row c.claim_id at) db4
          (λ b. refl) before found _ k12 in
      let after = approved_row c.claim_id at before in
      let (_, k14) =
        append_audit-then _ (record db4 { batches = batches }) (claim_audit p c m after) k13 in
      let event =
        new_outbox c.call.event_id c.call.command_id after EventType.claim_confirmed
          claim_confirmed_topic
          (build_claim_confirmed_payload p c m c.call.event_id c.call.command_id after made
            m.correlation_id)
          m.correlation_id at in
      let (_, k15) = enqueue_outbox-then _ _ event k14 in
      let k16 =
        complete_command-then claim_concurrency _ command 200
          (p.claim_result_json (claim_result p c m after)) at db.commands
          (record db4 {
            batches = batches;
            audits = claim_audit p c m after ∷ db.audits;
            outbox = event ∷ db.outbox;
          })
          refl k15 in
      let (answer, final) = pure-ok k16 in
      record {
        before = before;
        chosen = chosen;
        batches = batches;
        pools = pools;
        stored_weight = stored;
        weight_kg = weight_kg;
        key_unused = unused;
        claimable = claimable_from before claim_epoch (to_uint32 m.expected_version) current free;
        weighs = required_weight-ok _ _ weighs;
        normalized = or_error-ok ClaimError.invalid _ normalized;
        matched = matched;
        reserved = reserved;
        claim_fresh = claim_fresh;
        updated = updated;
        answer = answer;
        final = final;
      }
