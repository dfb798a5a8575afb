-- ===== src/Assignment.antt =====
-- The collector's commands. Source: src/backend/internal/service/assignment.go.
pub mod Statements
pub mod Prepare
pub mod Rows
pub mod Transaction
pub mod Steps
pub mod Effects
pub mod Courses
pub mod Pickups
pub mod Latest
pub mod Backing
pub mod Selection
pub mod Responses
pub mod Recovery
pub mod Outcome
pub mod Guarantees
pub mod Samples
mod Tests
mod SelectionTests
use team5_ewaste_platform.Common.{
  ℕ, ◌+◌, Bool, true, false, ◌&&◌, ◌||◌, not, Option, none, some, [], ◌∷◌, ◌++◌, Text, codes,
  trim_space, is_empty, if◌then◌else◌, pos, AssignmentError, assignment, Error, store, StoreError,
  assignment_batch_not_found, assignment_not_found, assignment_claim_not_found,
  assignment_scope_not_found, assignment_actor_not_eligible, assignment_concurrency, Result, ok,
  err,
}
use team5_ewaste_platform.Store.{
  Time, Batch, BatchStatus, status_eq, Command, CommandState, AuditType, AuditEvent, Db, Tx, pure,
  fail_if, ◌>>=◌, ◌>>◌, transaction,
}
use team5_ewaste_platform.Store.Allocation.{BatchAssignment, AssignmentStatus}
use team5_ewaste_platform.Dto.{BatchCommandMetadata, AssignmentPayload, AssignmentMutationResult}
use team5_ewaste_platform.Platform.{Platform}
use team5_ewaste_platform.Command.{service_principal, retain_for}
use team5_ewaste_platform.Actor.{validate_collector_actor}
use team5_ewaste_platform.Replay.{ReplayRules, load_replay, or_replay}
use Statements.{
  find_assignment, find_assignment_batch, update_batch_assignment, create_assignment_command,
  append_assignment_audit, complete_assignment_command,
}
use Prepare.{CollectorCommand, prepare_collector}
use Rows.{AssignmentCall, Pickup, assign_at, view_of}
use Transaction.{select_new, accept_new, reject_new, pickup_new, is_status, is_current}

abbrev pub assignment_rules : Platform → ReplayRules AssignmentMutationResult
assignment_rules p = record {
  conflict = assignment AssignmentError.idempotency_conflict;
  busy = assignment AssignmentError.in_progress;
  undecodable = assignment AssignmentError.decode_replay;
  read = p.read_assignment_result;
}

unfoldable pub map_assignment_error : Error → Error
map_assignment_error (store assignment_batch_not_found) = assignment AssignmentError.not_found
map_assignment_error (store assignment_not_found) = assignment AssignmentError.not_found
map_assignment_error (store assignment_claim_not_found) = assignment AssignmentError.not_found
map_assignment_error (store assignment_scope_not_found) = assignment AssignmentError.forbidden
map_assignment_error (store assignment_actor_not_eligible) = assignment AssignmentError.forbidden
map_assignment_error (store assignment_concurrency) = assignment AssignmentError.concurrent
map_assignment_error e = e

-- What others do to the store between the transactions of one command.
pub record Others : Type 0 where
  pub before_command : Db → Db
  pub before_resolve : Db → Db

-- `if metadata.ServicePrincipal() == ""`
abbrev pub check_unless_service : Bool → BatchCommandMetadata → Tx (Unit {0})
check_unless_service true m = validate_collector_actor m.actor.user_id m.actor.organisation_id
check_unless_service false m = pure tt

module _ (p : Platform) (o : Others) (m : BatchCommandMetadata) where
  unfoldable pub resolve_assignment_replay : Tx (Option AssignmentMutationResult)
  unfolding service_principal load_replay
  resolve_assignment_replay = do
    check_unless_service (is_empty (service_principal m)) m
    load_replay (assignment_rules p) m

  abbrev pub last_result :
      Error → Result (Option AssignmentMutationResult) × Db → Result AssignmentMutationResult × Db
  last_result e (ok (some result), db) = (ok result, db)
  last_result e (ok none, db) = (err (map_assignment_error e), db)
  last_result e (err again, db) = (err (map_assignment_error again), db)

  unfoldable pub finish_assignment :
      Result AssignmentMutationResult × Db → Result AssignmentMutationResult × Db
  unfolding resolve_assignment_replay
  finish_assignment (ok result, db) = (ok result, db)
  finish_assignment (err e, db) =
      last_result e (transaction resolve_assignment_replay (o.before_resolve db))

  unfoldable pub assignment_transaction : Tx AssignmentMutationResult → Tx AssignmentMutationResult
  unfolding or_replay
  assignment_transaction body = do
    validate_collector_actor m.actor.user_id m.actor.organisation_id
    or_replay (assignment_rules p) m body

  unfoldable pub or_resolved :
      Tx AssignmentMutationResult
      → Result (Option AssignmentMutationResult) × Db
      → Result AssignmentMutationResult × Db
  unfolding finish_assignment assignment_transaction
  or_resolved body (ok (some result), db) = (ok result, db)
  or_resolved body (ok none, db) =
      finish_assignment (transaction (assignment_transaction body) (o.before_command db))
  or_resolved body (err e, db) = (err e, db)

-- The part of a command's transaction that runs when no replay was found.
unfoldable pub collector_new :
    Platform
    → AssignmentCall
    → BatchCommandMetadata
    → CollectorCommand
    → ℕ
    → Tx AssignmentMutationResult
unfolding select_new accept_new reject_new pickup_new
collector_new p c m (CollectorCommand.selection batch_id request) epoch =
    select_new p c m batch_id request epoch
collector_new p c m (CollectorCommand.acceptance assignment_id) epoch =
    accept_new p c m assignment_id
collector_new p c m (CollectorCommand.rejection assignment_id request) epoch =
    reject_new p c m assignment_id request
collector_new p c m (CollectorCommand.handoff assignment_id request) epoch =
    pickup_new p c m assignment_id (Pickup.collected request)
collector_new p c m (CollectorCommand.failure assignment_id request) epoch =
    pickup_new p c m assignment_id (Pickup.failed request)

unfoldable pub run_collector :
    Platform
    → Others
    → AssignmentCall
    → CollectorCommand
    → Result (BatchCommandMetadata × ℕ)
    → Db
    → Result AssignmentMutationResult × Db
unfolding or_resolved resolve_assignment_replay collector_new
run_collector p o c op (err e) db = (err e, db)
run_collector p o c op (ok (m, epoch)) db =
    or_resolved p o m (collector_new p c m op epoch)
      (transaction (resolve_assignment_replay p o m) db)

-- Select, Accept, Reject, Handoff and Fail.
unfoldable pub perform_collector :
    Platform
    → Others
    → AssignmentCall
    → CollectorCommand
    → BatchCommandMetadata
    → Db
    → Result AssignmentMutationResult × Db
unfolding run_collector prepare_collector
perform_collector p o c op m = run_collector p o c op (prepare_collector p op m c.call.validated_at)

abbrev pub recovery_metadata : Platform → Text → Text → Text → BatchCommandMetadata
recovery_metadata p assignment_id principal correlation_id = record {
  actor = record { user_id = []; organisation_id = []; role_code = [] };
  correlation_id = correlation_id;
  actor_scope = codes "service:" ++ principal;
  command_name = codes "RecoverCollection";
  idempotency_key = codes "recover-" ++ assignment_id;
  request_hash = p.recovery_hash assignment_id principal;
  expected_version = pos 0;
}

module _ (p : Platform) (c : AssignmentCall) (principal correlation_id : Text) where
  unfoldable pub recovery_command : BatchCommandMetadata → Batch → BatchAssignment → Command
  recovery_command m batch a = record {
    id = c.call.command_id;
    actor_user_id = none;
    service_principal = some principal;
    actor_scope = m.actor_scope;
    command_name = m.command_name;
    idempotency_key = m.idempotency_key;
    request_hash = m.request_hash;
    batch_id = batch.id;
    assignment_id = some a.id;
    state = CommandState.in_progress;
    response_status = none;
    response_json = [];
    created_at = assign_at c m;
    completed_at = none;
    retain_until = assign_at c m + retain_for;
  }

  unfoldable pub recovery_audit :
      BatchCommandMetadata → Batch → Batch → BatchAssignment → AuditEvent
  recovery_audit m batch updated a = record {
    id = c.call.audit_id;
    batch_id = batch.id;
    command_id = c.call.command_id;
    claim_id = none;
    assignment_id = some a.id;
    actor_user_id = none;
    actor_organization_id = none;
    service_principal = some principal;
    event_type = AuditType.collection_recovery_approved;
    from_status = BatchStatus.failed_collection;
    to_status = BatchStatus.approved;
    batch_version = updated.version;
    sequence_in_command = 1;
    occurred_at = assign_at c m;
    correlation_id = correlation_id;
  }

  abbrev pub recovery_result : BatchAssignment → AssignmentMutationResult
  recovery_result a = record {
    data_view = view_of a;
    correlation_id = correlation_id;
    event_id = [];
    event_state = [];
  }

  unfoldable pub recover_new : Text → BatchCommandMetadata → Tx AssignmentMutationResult
  unfolding recovery_command recovery_audit view_of
  recover_new assignment_id m = do
    a ← find_assignment assignment_id
    batch ← find_assignment_batch a.batch_id
    fail_if
        (not (
          is_status a.assignment_status AssignmentStatus.failed
          && status_eq batch.status BatchStatus.failed_collection
          && is_current a.id batch.current_assignment_id))
        (assignment AssignmentError.invalid_state)
    create_assignment_command (recovery_command m batch a)
    updated ←
        update_batch_assignment batch.id batch.version BatchStatus.failed_collection
          BatchStatus.approved none (assign_at c m)
    append_assignment_audit (recovery_audit m batch updated a)
    complete_assignment_command c.call.command_id 200 (p.assignment_result_json (recovery_result a))
        (assign_at c m)
    pure (recovery_result a)

-- RecoverFailedCollection, with the result that it stores; the source returns the error alone.
unfoldable pub recover_failed_collection :
    Platform → AssignmentCall → Text → Text → Text → Db → Result AssignmentMutationResult × Db
unfolding recover_new or_replay
recover_failed_collection p c assignment_id service correlation_id db =
    let principal = trim_space service in
    let m = recovery_metadata p assignment_id principal correlation_id in
    if is_empty principal || is_empty correlation_id || is_empty assignment_id
    then (err (assignment AssignmentError.invalid), db)
    else transaction
        (or_replay (assignment_rules p) m
          (recover_new p c principal correlation_id assignment_id m))
        db
