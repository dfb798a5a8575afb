-- ===== src/Batch.antt =====
-- The donor's commands: create a draft, edit it, submit it.
-- Source: src/backend/internal/service/batch.go.
mod Tests
pub mod Validate
pub mod Replay
pub mod View
pub mod Prepare
pub mod Effects
pub mod Drafts
pub mod Commands
pub mod History
pub mod Protection
use team5_ewaste_platform.Common.{
  Option, none, some, not, command_concurrency, Text, equals, to_uint32, forbidden, invalid_state,
  stale_version, Result, ok, err,
}
use team5_ewaste_platform.Store.{
  Db, Batch, BatchStatus, AuditType, EventType, Tx, pure, lift, fail_if, ◌>>=◌, ◌>>◌, transaction,
}
use team5_ewaste_platform.Store.Statements.{
  find_batch_for_update, create_batch, create_command, update_draft, submit_draft, append_audit,
  enqueue_outbox, complete_command,
}
use team5_ewaste_platform.Dto.{
  BatchDraftRequest, DraftChanges, BatchMutationResult, BatchCommandMetadata,
}
use team5_ewaste_platform.Platform.{Platform}
use team5_ewaste_platform.Command.{Call, new_command, new_audit_event}
use Validate.{validate_stored_batch, draft_changes}
use team5_ewaste_platform.Replay.{or_replay}
use Replay.{batch_rules}
use View.{
  map_batch_error, can_edit, can_submit, is_owner, new_draft, draft_result, submit_result,
  build_request_submitted_payload, new_outbox, request_submitted_topic,
}
use Prepare.{prepare_create, prepare_edit, prepare_submit}

-- A statement whose ErrBatchConcurrency becomes ErrBatchStaleVersion.
abbrev pub mapping_errors {ℓ} : {A : Type ℓ} → Tx A → Tx A
mapping_errors m db = map_batch_error (m db)

-- The calls of the donor's interface.
pub data DonorCommand : Type 0 where
  creation : BatchDraftRequest → DonorCommand
  edit : Text → BatchDraftRequest → DonorCommand
  submission : Text → DonorCommand

module _ (p : Platform) where
  -- The part of each transaction that runs when no replay was found.
  unfoldable pub create_draft_new :
      Call → BatchDraftRequest → BatchCommandMetadata → Tx BatchMutationResult
  create_draft_new call request m = do
    let batch = new_draft p call request m
    let command = new_command call m batch.id call.now
    create_batch batch
    create_command command
    append_audit (
        new_audit_event call m command.id batch AuditType.draft_saved BatchStatus.draft
          BatchStatus.draft call.now)
    let result = draft_result p m batch
    complete_command command_concurrency command.id 200 (p.batch_result_json result) call.now
    pure result

  unfoldable pub edit_draft_new :
      Call → Text → DraftChanges → BatchCommandMetadata → Tx BatchMutationResult
  edit_draft_new call batch_id changes m = do
    batch ← find_batch_for_update batch_id
    fail_if (not (is_owner m batch)) forbidden
    fail_if (not (can_edit batch)) invalid_state
    fail_if (not (equals m.expected_version batch.version)) stale_version
    let command = new_command call m batch.id call.now
    create_command command
    updated ← mapping_errors (
        update_draft batch.id m.actor.organisation_id m.actor.user_id (to_uint32 m.expected_version)
          changes call.stored_at)
    append_audit (
        new_audit_event call m command.id updated AuditType.draft_saved BatchStatus.draft
          BatchStatus.draft call.now)
    let result = draft_result p m updated
    complete_command command_concurrency command.id 200 (p.batch_result_json result) call.now
    pure result

  unfoldable pub submit_new : Call → Text → BatchCommandMetadata → Tx BatchMutationResult
  submit_new call batch_id m = do
    batch ← find_batch_for_update batch_id
    fail_if (not (is_owner m batch)) forbidden
    fail_if (not (can_submit batch)) invalid_state
    fail_if (not (equals m.expected_version batch.version)) stale_version
    lift (validate_stored_batch p batch call.now)
    let command = new_command call m batch.id call.now
    create_command command
    submitted ← mapping_errors (
        submit_draft batch.id m.actor.organisation_id m.actor.user_id (to_uint32 m.expected_version)
          call.now call.stored_at)
    append_audit (
        new_audit_event call m command.id submitted AuditType.request_submitted BatchStatus.draft
          BatchStatus.submitted call.now)
    payload ←
        lift (build_request_submitted_payload p call.event_id command.id submitted m.correlation_id)
    enqueue_outbox (
        new_outbox call.event_id command.id submitted EventType.request_submitted
          request_submitted_topic payload m.correlation_id call.now)
    let result = submit_result p call m submitted
    complete_command command_concurrency command.id 200 (p.batch_result_json result) call.now
    pure result

  unfoldable pub run_prepared :
      Result BatchCommandMetadata
      → (BatchCommandMetadata → Tx BatchMutationResult)
      → Db
      → Result BatchMutationResult × Db
  unfolding or_replay
  run_prepared (err e) body db = (err e, db)
  run_prepared (ok m) body db = transaction (or_replay (batch_rules p) m (body m)) db

  unfoldable pub create_draft :
      Call → BatchDraftRequest → BatchCommandMetadata → Db → Result BatchMutationResult × Db
  unfolding run_prepared
  create_draft call request m =
      run_prepared (prepare_create p call request m) (create_draft_new call request)

  unfoldable pub edit_draft :
      Call → Text → BatchDraftRequest → BatchCommandMetadata → Db → Result BatchMutationResult × Db
  unfolding run_prepared
  edit_draft call batch_id request m =
      run_prepared (prepare_edit p call batch_id request m)
        (edit_draft_new call batch_id (draft_changes p request))

  unfoldable pub submit : Call → Text → BatchCommandMetadata → Db → Result BatchMutationResult × Db
  unfolding run_prepared
  submit call batch_id m = run_prepared (prepare_submit p batch_id m) (submit_new call batch_id)

  unfoldable pub perform :
      Call → DonorCommand → BatchCommandMetadata → Db → Result BatchMutationResult × Db
  unfolding create_draft edit_draft submit
  perform call (DonorCommand.creation request) m = create_draft call request m
  perform call (DonorCommand.edit batch_id request) m = edit_draft call batch_id request m
  perform call (DonorCommand.submission batch_id) m = submit call batch_id m
