-- ===== src/Claim/Tests.antt =====
-- Claims on a small store.
use team5_ewaste_platform.Common.{
  sym, ◌∙◌, arith, none, some, Option, [], ◌∷◌, ◌≡◌, refl, codes, Result, ok, err, ClaimError,
  claim, text_eq,
}
use team5_ewaste_platform.Claim.Samples.{
  db, call, metadata, request, prepared, losing, without_leases, answer, sample, after,
}
use team5_ewaste_platform.Store.{Db}
use team5_ewaste_platform.Dto.{ClaimResult}
use team5_ewaste_platform.Claim.Prepare.{prepare_claim}
use team5_ewaste_platform.Claim.{
  claim_batch, claim_transaction, run_claim, or_answered, acquire_and_run, finish, renewed,
  run_transaction, resolve_replay, claim_new, claim_matched, claim_result,
  build_claim_confirmed_payload, claim_audit, new_reservation, new_claim, map_claim_error,
}
use team5_ewaste_platform.Claim.Effects.{Claimed, claim_new-Claimed}
use team5_ewaste_platform.Claim.Capacity.{IsWithinCapacity, outstanding}
use team5_ewaste_platform.Claim.Quiet.{IsQuiet, Outcome, claim_batch-Outcome}
use team5_ewaste_platform.Claim.Guarantees.{
  claim_batch-again, ClaimStep, AreOthersWithinCapacity, run_claims, run_claims-IsWithinCapacity,
}
use team5_ewaste_platform.Claim.Prepare.{
  prepare_claim_metadata, is_key, is_key_text, validate_claim_request, require_recycler,
}
use team5_ewaste_platform.Claim.Statements.{
  find_claim_batch, claim_key_exists, is_opportunity, find_eligible_match, lock_capacity_pool,
  reserve_capacity, create_claim, create_reservation, approve_batch,
}
use team5_ewaste_platform.Store.Statements.{
  update_batch, find_batch_for_update, create_command, append_audit, enqueue_outbox,
  complete_command, find_command,
}
use team5_ewaste_platform.Actor.{validate_recycler_actor, is_eligible}
use team5_ewaste_platform.Replay.{or_replay, answer_or, load_replay, replay_found, replay_of}
use team5_ewaste_platform.Command.{
  canonical_actor_scope, validate_metadata, new_command, new_audit_event, service_principal,
  strip_prefix,
}
use team5_ewaste_platform.Batch.View.{new_outbox}
use team5_ewaste_platform.Batch.Validate.{normalize_stored_weight, has_more_places}
use team5_ewaste_platform.Treatment.{format_treatment_cents}
use team5_ewaste_platform.Decimal.{
  print_int, print_digits, all_digits, is_digit, digits_value, parse_uint,
}
use team5_ewaste_platform.Common.{trim_space, trim_left, trim_right, is_space, equal_fold}
use team5_ewaste_platform.Store.{find, exists, update, count}

-- What the claim computes on this store, with its lease lost and without leases.
run :
    (claim_batch sample losing call (codes "b1") request metadata db ≡ (ok answer, after))
    × (prepare_claim sample (codes "b1") request metadata ≡ ok (prepared, 1))
    × (claim_transaction sample call prepared (codes "b1") 1 none db ≡ ok (answer, after))
    × (claim_batch sample without_leases call (codes "b1") request metadata db
        ≡ (err (claim ClaimError.lease_unavailable), db))
unfolding claim_batch run_claim or_answered acquire_and_run finish renewed run_transaction
    resolve_replay claim_transaction claim_new claim_matched claim_result
    build_claim_confirmed_payload claim_audit new_reservation new_claim map_claim_error
    prepare_claim prepare_claim_metadata is_key is_key_text validate_claim_request require_recycler
    find_claim_batch claim_key_exists is_opportunity find_eligible_match lock_capacity_pool
    reserve_capacity create_claim create_reservation approve_batch update_batch
    find_batch_for_update create_command append_audit enqueue_outbox complete_command find_command
    validate_recycler_actor is_eligible or_replay answer_or load_replay replay_found replay_of
    canonical_actor_scope validate_metadata new_command new_audit_event service_principal
    strip_prefix new_outbox normalize_stored_weight has_more_places format_treatment_cents print_int
    print_digits all_digits is_digit digits_value parse_uint trim_space trim_left trim_right
    is_space equal_fold text_eq find exists update count
run = (refl, refl, refl, refl)

quiet : IsQuiet losing
quiet = record { before_claim = λ d. refl; before_resolve = λ d. refl }

answer_eq : {x y : ClaimResult × Db} → Result.ok x ≡ ok y → Option.some x.0 ≡ some y.0
answer_eq h = cc

read_back :
    (r : ClaimResult) (d : Db)
    → claim_transaction sample call prepared (codes "b1") 1 none db ≡ ok (r, d)
    → sample.read_claim_result (sample.claim_result_json r) ≡ some r
read_back r d h = answer_eq (sym run.2 ∙ h)

claim_batch-Outcome_example :
    Outcome sample call prepared
      (codes "b1")
      1
      none
      db
      (claim_batch sample losing call (codes "b1") request metadata db)
claim_batch-Outcome_example =
    claim_batch-Outcome sample losing call (codes "b1") request metadata prepared 1 db quiet run.1
      read_back

claim_batch-again_example :
    claim_batch sample without_leases call (codes "b1") request metadata after ≡ (ok answer, after)
claim_batch-again_example =
    claim_batch-again sample losing without_leases call call (codes "b1") request metadata db refl
      run.0

body_run : claim_new sample call prepared (codes "b1") 1 none db ≡ ok (answer, after)
unfolding claim_batch run_claim or_answered acquire_and_run finish renewed run_transaction
    resolve_replay claim_transaction claim_new claim_matched claim_result
    build_claim_confirmed_payload claim_audit new_reservation new_claim map_claim_error
    prepare_claim prepare_claim_metadata is_key is_key_text validate_claim_request require_recycler
    find_claim_batch claim_key_exists is_opportunity find_eligible_match lock_capacity_pool
    reserve_capacity create_claim create_reservation approve_batch update_batch
    find_batch_for_update create_command append_audit enqueue_outbox complete_command find_command
    validate_recycler_actor is_eligible or_replay answer_or load_replay replay_found replay_of
    canonical_actor_scope validate_metadata new_command new_audit_event service_principal
    strip_prefix new_outbox normalize_stored_weight has_more_places format_treatment_cents print_int
    print_digits all_digits is_digit digits_value parse_uint trim_space trim_left trim_right
    is_space equal_fold text_eq find exists update count
body_run = refl

pub made : Claimed sample call prepared (codes "b1") 1 none db answer after
made = claim_new-Claimed sample call prepared (codes "b1") 1 none db answer after body_run

abbrev step : ClaimStep
step = record {
  surroundings = losing;
  call = call;
  batch_id = codes "b1";
  request = request;
  metadata = metadata;
}

alone : AreOthersWithinCapacity sample step
alone = (λ d h. h, λ d h. h)

empty_pools : IsWithinCapacity sample.decimal_cents db.pools db.reservations
unfolding IsWithinCapacity outstanding find
empty_pools pool_id q found = ground (arith, found)

run_claims-IsWithinCapacity_example :
    IsWithinCapacity sample.decimal_cents
      (run_claims sample (step ∷ step ∷ []) db).pools
      (run_claims sample (step ∷ step ∷ []) db).reservations
run_claims-IsWithinCapacity_example =
    run_claims-IsWithinCapacity sample (step ∷ step ∷ []) db (alone, (alone, tt)) empty_pools
