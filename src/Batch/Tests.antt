-- ===== src/Batch/Tests.antt =====
-- The donor's commands on a small store.
use team5_ewaste_platform.Common.{
  false, none, some, Option, [], ◌∷◌, ◌≡◌, refl, codes, pos, Result, ok, err, text_eq, ◌⊎◌, inl,
  idempotency_conflict, stale_version,
}
use team5_ewaste_platform.Decimal.{print_int}
use team5_ewaste_platform.Treatment.{format_treatment_cents}
use team5_ewaste_platform.Store.{Batch, BatchStatus, Db}
use team5_ewaste_platform.Dto.{BatchMutationResult, BatchCommandMetadata}
use team5_ewaste_platform.Platform.{Platform}
use team5_ewaste_platform.Command.{Call}
use team5_ewaste_platform.Samples.{plain, empty_db}
use team5_ewaste_platform.Batch.Protection.{run_all-keeps}
use team5_ewaste_platform.Store.Statements.{has_id}
use team5_ewaste_platform.Store.{count}
use team5_ewaste_platform.Batch.History.{
  IsConsistent, IsAnnouncedOnce, run_all, run_all-IsConsistent,
}
use team5_ewaste_platform.Batch.Commands.{prepare, perform-Done, perform-again, perform-conflict}
use team5_ewaste_platform.Replay.Idempotence.{Replayable}
use team5_ewaste_platform.Batch.{DonorCommand, perform}
use team5_ewaste_platform.Batch.Prepare.{prepare_submit}
use team5_ewaste_platform.Common.{equal_fold, trim_space, is_space, trim_left, trim_right, to_upper}
use team5_ewaste_platform.Store.{find, exists, update}
use team5_ewaste_platform.Batch.{submit_new, submit, run_prepared}
use team5_ewaste_platform.Store.Statements.{
  find_batch_for_update, create_command, submit_draft, append_audit, enqueue_outbox,
  complete_command, find_command, update_batch,
}
use team5_ewaste_platform.Batch.View.{
  is_owner, can_submit, map_batch_error, build_request_submitted_payload, submitted_payload,
  payload_of, submit_result, batch_to_dto, new_outbox,
}
use team5_ewaste_platform.Batch.Validate.{
  validate_stored_batch, allowed_value, has_more_places, normalize_stored_weight,
  validate_complete_batch, validate_fields,
}
use team5_ewaste_platform.Replay.{load_replay, replay_found, replay_of, or_replay, answer_or}
use team5_ewaste_platform.Batch.Replay.{batch_rules}
use team5_ewaste_platform.Command.{
  canonical_actor_scope, new_audit_event, new_command, prepare_metadata, require_donor,
  service_principal, strip_prefix, validate_metadata,
}
use team5_ewaste_platform.Decimal.{print_digits}
use mathlib.Core.Option.{bind}
use team5_ewaste_platform.Batch.Effects.{submitted_row}
use team5_ewaste_platform.Batch.Commands.{Done}

abbrev call : Call
call = record {
  validated_at = 1000;
  now = 1001;
  stored_at = 1002;
  batch_id = codes "b9";
  command_id = codes "c1";
  audit_id = codes "a1";
  event_id = codes "e1";
}

abbrev second_call : Call
second_call = record call {
  now = 2001;
  command_id = codes "c2";
  audit_id = codes "a2";
  event_id = codes "e2";
}

abbrev metadata : BatchCommandMetadata
metadata = record {
  actor = record { user_id = codes "u1"; organisation_id = codes "o1"; role_code = codes "DONOR" };
  correlation_id = codes "x1";
  actor_scope = [];
  command_name = [];
  idempotency_key = codes "k1";
  request_hash = [];
  expected_version = pos 3;
}

abbrev draft : Batch
draft = record {
  id = codes "b1";
  organization_id = codes "o1";
  created_by = codes "u1";
  status = BatchStatus.draft;
  category = some (codes "BATTERIES");
  quantity = some (pos 4);
  estimated_weight_kg = some (codes "12.50");
  condition_rating = some (codes "REPAIRABLE");
  is_data_bearing = false;
  zone = some (codes "EAST");
  collection_deadline = some 260_000_000_000_000;
  notes = none;
  claim_epoch = 1;
  current_claim_id = none;
  current_assignment_id = none;
  version = 3;
  submitted_at = none;
  created_at = 10;
  updated_at = 20;
}

abbrev db : Db
db = record empty_db { batches = draft ∷ [] }

abbrev submission : DonorCommand
submission = DonorCommand.submission (codes "b1")

abbrev other_submission : DonorCommand
other_submission = DonorCommand.submission (codes "b2")

abbrev answer_of : Result BatchMutationResult → Option BatchMutationResult
answer_of (ok r) = some r
answer_of (err e) = none

-- The platform whose JSON reads back the answer to the submission.
abbrev sample : Platform
sample = record plain {
  read_batch_result = λ s. answer_of (perform plain call submission metadata db).0;
}

abbrev prepared : BatchCommandMetadata
prepared = record metadata {
  actor_scope = codes "user:u1|org:o1";
  command_name = codes "SubmitBatch";
  request_hash = codes "SubmitBatchb1";
}

abbrev other_prepared : BatchCommandMetadata
other_prepared = record prepared { request_hash = codes "SubmitBatchb2" }

abbrev stale : BatchCommandMetadata
stale = record metadata { expected_version = pos 2 }

abbrev answer : BatchMutationResult
answer = submit_result plain call prepared (submitted_row call draft)

abbrev after : Db
after = (perform sample call submission metadata db).1

-- What the commands compute on this store.
run :
    (perform sample call submission metadata db ≡ (ok answer, after))
    × (sample.read_batch_result (sample.batch_result_json answer) ≡ some answer)
    × (prepare sample call submission metadata ≡ ok prepared)
    × (prepare sample second_call other_submission metadata ≡ ok other_prepared)
    × (perform sample call submission stale db ≡ (err stale_version, db))
unfolding perform bind text_eq print_int format_treatment_cents prepare_submit equal_fold trim_space
    is_space trim_left trim_right to_upper find exists update submit_new submit run_prepared
    or_replay answer_or find_batch_for_update create_command submit_draft append_audit
    enqueue_outbox complete_command find_command update_batch is_owner can_submit map_batch_error
    build_request_submitted_payload submitted_payload payload_of submit_result batch_to_dto
    new_outbox validate_stored_batch allowed_value has_more_places normalize_stored_weight
    validate_complete_batch validate_fields load_replay replay_found replay_of canonical_actor_scope
    new_audit_event new_command prepare_metadata require_donor service_principal strip_prefix
    validate_metadata print_digits submitted_row
run = (refl, refl, refl, refl, refl)

different_hash : text_eq prepared.request_hash other_prepared.request_hash ≡ false
unfolding text_eq
different_hash = refl

perform-Done_example :
    (c : BatchCommandMetadata) × (prepare sample call submission metadata ≡ ok c)
    × (((after ≡ db) × Replayable (batch_rules sample) c answer db)
        ⊎ Done sample call submission c db answer after)
perform-Done_example = perform-Done sample call submission metadata db run.0

perform-again_example : perform sample second_call submission metadata after ≡ (ok answer, after)
perform-again_example =
    perform-again sample call second_call submission metadata db run.1 refl run.0

perform-conflict_example :
    perform sample second_call other_submission metadata after ≡ (err idempotency_conflict, after)
perform-conflict_example =
    perform-conflict sample call second_call submission other_submission metadata metadata prepared
      other_prepared db run.1 run.0 run.2 run.3 (record { scope = refl; name = refl; key = refl })
      different_hash

nothing_announced : IsConsistent db
unfolding IsConsistent IsAnnouncedOnce count
nothing_announced id = inl refl

run_all-IsConsistent_example : IsConsistent (
    run_all sample
      ((call, submission, metadata)
        ∷ (second_call, submission, metadata)
        ∷ (second_call, other_submission, metadata)
        ∷ [])
      db)
run_all-IsConsistent_example = run_all-IsConsistent sample _ db nothing_announced

abbrev submitted_batch : Batch
submitted_batch = record draft { id = codes "b2"; status = BatchStatus.submitted }

abbrev two_batches : Db
two_batches = record db { batches = draft ∷ submitted_batch ∷ [] }

found_submitted : find (has_id submitted_batch.id) two_batches.batches ≡ some submitted_batch
unfolding find text_eq
found_submitted = refl

run_all-keeps_example :
    find
      (has_id submitted_batch.id)
      (run_all sample
        ((call, submission, metadata) ∷ (second_call, other_submission, metadata) ∷ [])
        two_batches).batches
    ≡ some submitted_batch
run_all-keeps_example =
    run_all-keeps sample _ two_batches submitted_batch.id submitted_batch found_submitted refl
