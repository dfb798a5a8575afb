-- ===== src/Assignment/Recovery.antt =====
-- What a recovery has done, when it was no replay.
-- Source: RecoverFailedCollection of src/backend/internal/service/assignment.go.
use team5_ewaste_platform.Common.{
  Bool, true, false, ◌&&◌, not, none, some, List, ◌∷◌, ◌≡◌, refl, arith, Text, ok, AssignmentError,
  assignment, assignment_concurrency, assignment_not_found, assignment_batch_not_found,
}
use team5_ewaste_platform.Store.{Batch, BatchStatus, status_eq, Db, find, fail_if-then, pure-ok}
use team5_ewaste_platform.Store.Allocation.{BatchAssignment, AssignmentStatus}
use team5_ewaste_platform.Store.Statements.{has_id}
use team5_ewaste_platform.Store.Laws.{
  create_command-then, append_audit-then, complete_command-then, BatchUpdated, completed,
}
use team5_ewaste_platform.Store.Updates.{find_row-then, update_batch-then}
use team5_ewaste_platform.Dto.{BatchCommandMetadata, AssignmentMutationResult}
use team5_ewaste_platform.Platform.{Platform}
use team5_ewaste_platform.Assignment.Statements.{
  moved_row, is_at, has_assignment_id, find_assignment, find_assignment_batch,
  update_batch_assignment,
}
use team5_ewaste_platform.Assignment.Rows.{AssignmentCall, assign_at}
use team5_ewaste_platform.Assignment.Transaction.{is_status, is_current}
use team5_ewaste_platform.Assignment.{
  recover_new, recovery_command, recovery_audit, recovery_result,
}

not-false : (t : Bool) → not t ≡ false → t ≡ true
not-false t h = ground arith

-- A recovery of a failed collection: the batch is approved again and has no current assignment.
pub record Recovered (p : Platform) (c : AssignmentCall)
    (principal correlation_id assignment_id : Text) (m : BatchCommandMetadata) (db : Db)
    (result : AssignmentMutationResult) (db' : Db) : Type 0 where
  pub own : BatchAssignment
  pub before : Batch
  pub batches : List Batch
  pub found : find (has_assignment_id assignment_id) db.assignments ≡ some own
  pub was_failed :
      (is_status own.assignment_status AssignmentStatus.failed
        && status_eq before.status BatchStatus.failed_collection
        && is_current own.id before.current_assignment_id)
      ≡ true
  pub updated :
      BatchUpdated own.batch_id db.batches batches before
        (moved_row BatchStatus.approved none (assign_at c m) before)
  pub final : db' ≡ record db {
    batches = batches;
    audits =
        recovery_audit p c principal correlation_id m before
          (moved_row BatchStatus.approved none (assign_at c m) before)
          own
        ∷ db.audits;
    commands =
        completed
          (recovery_command p c principal correlation_id m before own)
          200
          (p.assignment_result_json (recovery_result p c principal correlation_id own))
          (assign_at c m)
        ∷ db.commands;
  }

pub recover_new-Recovered :
    (p : Platform) (c : AssignmentCall) (principal correlation_id assignment_id : Text)
    (m : BatchCommandMetadata) (db : Db) (result : AssignmentMutationResult) (db' : Db)
    → recover_new p c principal correlation_id assignment_id m db ≡ ok (result, db')
    → Recovered p c principal correlation_id assignment_id m db result db'
unfolding recover_new find_assignment find_assignment_batch update_batch_assignment recovery_command
recover_new-Recovered p c principal correlation_id assignment_id m db result db' h =
    let (own, found, k1) =
      find_row-then assignment_not_found (has_assignment_id assignment_id)
        (λ (e : Db). e.assignments) _ db h in
    let (before, found_batch, k2) =
      find_row-then assignment_batch_not_found (has_id own.batch_id) (λ (e : Db). e.batches) _ db
        k1 in
    let (was, k3) =
      fail_if-then
        (not (
          is_status own.assignment_status AssignmentStatus.failed
          && status_eq before.status BatchStatus.failed_collection
          && is_current own.id before.current_assignment_id))
        (assignment AssignmentError.invalid_state) _ db k2 in
    let at = assign_at c m in
    let command = recovery_command p c principal correlation_id m before own in
    let (_, k4) = create_command-then _ db command k3 in
    let db1 : Db = record db { commands = command ∷ db.commands } in
    let (batches, updated, _, k5) =
      update_batch-then assignment_concurrency own.batch_id
        (is_at before.version BatchStatus.failed_collection)
        (moved_row BatchStatus.approved none at) db1 (λ b. refl) before found_batch _ k4 in
    let after = moved_row BatchStatus.approved none at before in
    let audit = recovery_audit p c principal correlation_id m before after own in
    let (_, k6) = append_audit-then _ (record db1 { batches = batches }) audit k5 in
    let k7 =
      complete_command-then assignment_concurrency _ command 200
        (p.assignment_result_json (recovery_result p c principal correlation_id own)) at db.commands
        (record db1 { batches = batches; audits = audit ∷ db.audits }) refl k6 in
    let (_, final) = pure-ok k7 in
    record {
      own = own;
      before = before;
      batches = batches;
      found = found;
      was_failed = not-false _ was;
      updated = updated;
      final = final;
    }
