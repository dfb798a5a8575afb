-- ===== src/Assignment/Responses.antt =====
-- What an acceptance and a rejection have done, when they were no replay.
-- Source: changeAssignment of src/backend/internal/service/assignment.go.
use team5_ewaste_platform.Common.{
  Bool, true, false, ◌&&◌, ◌||◌, not, Option, none, some, List, [], ◌∷◌, ◌≡◌, refl, arith, Text, ok,
  AssignmentError, assignment, assignment_concurrency,
}
use team5_ewaste_platform.Store.{
  Batch, BatchStatus, status_eq, AuditType, Db, ◌>>=◌, ◌>>◌, fail_if, pure, fail_if-then, pure-ok,
}
use team5_ewaste_platform.Store.Allocation.{BatchAssignment, AssignmentStatus, ActionType}
use team5_ewaste_platform.Store.Laws.{
  create_command-then, complete_command-then, BatchUpdated, completed,
}
use team5_ewaste_platform.Dto.{
  BatchCommandMetadata, AssignmentMutationResult, RejectAssignmentRequest,
}
use team5_ewaste_platform.Platform.{Platform}
use team5_ewaste_platform.Command.{new_command}
use team5_ewaste_platform.Assignment.Statements.{
  moved_row, is_at, update_batch_assignment, update_assignment, create_action,
  create_assignment_command, append_assignment_audit, complete_assignment_command,
}
use team5_ewaste_platform.Assignment.Rows.{
  AssignmentCall, assign_at, accepted_assignment, rejected_assignment, new_action, assignment_audit,
  mutation_result,
}
use team5_ewaste_platform.Assignment.Transaction.{is_status, own_assignment, accept_new, reject_new}
use team5_ewaste_platform.Assignment.Steps.{
  IsInCharge, own_assignment-then, AssignmentUpdated, progress-then,
}

not-false : (t : Bool) → not t ≡ false → t ≡ true
not-false t h = ground arith

-- The states in which an assignment may be accepted, and rejected.
abbrev may_accept : BatchAssignment → Batch → Bool
may_accept a b =
    is_status a.assignment_status AssignmentStatus.pending
    && status_eq b.status BatchStatus.assigned

abbrev may_reject : BatchAssignment → Batch → Bool
may_reject a b =
    is_status a.assignment_status AssignmentStatus.pending
    || is_status a.assignment_status AssignmentStatus.accepted

module _ (p : Platform) (c : AssignmentCall) (m : BatchCommandMetadata) (assignment_id : Text)
    (db : Db) (result : AssignmentMutationResult) (db' : Db) where
  -- A response of the collector in charge: the assignment became `a`, its batch went from ASSIGNED
  -- to `to` with `current` as its assignment, and the response has its action and its audit row.
  pub record Responded (respond : BatchAssignment → BatchAssignment) (to : BatchStatus)
      (current : BatchAssignment → Option Text) (type : ActionType) (audit_type : AuditType)
      (reason : Option Text) (allowed : BatchAssignment → Batch → Bool) : Type 0 where
    pub own : BatchAssignment
    pub before : Batch
    pub assignments : List BatchAssignment
    pub batches : List Batch
    pub in_charge : IsInCharge m assignment_id db own before
    pub permitted : allowed own before ≡ true
    pub was_assigned : is_at before.version BatchStatus.assigned before ≡ true
    pub changed : AssignmentUpdated (respond own) db.assignments assignments
    pub updated :
        BatchUpdated own.batch_id db.batches batches before
          (moved_row to (current own) (assign_at c m) before)
    pub answer : result ≡ mutation_result (respond own) m.correlation_id []
    pub final : db' ≡ record db {
      batches = batches;
      assignments = assignments;
      actions =
          new_action c m c.action_id (respond own) type BatchStatus.assigned to reason none
          ∷ db.actions;
      audits =
          assignment_audit c m
            (respond own).id
            none
            (moved_row to (current own) (assign_at c m) before)
            audit_type
            BatchStatus.assigned
            to
          ∷ db.audits;
      commands =
          completed
            (new_command c.call m before.id (assign_at c m))
            200
            (p.assignment_result_json (mutation_result (respond own) m.correlation_id []))
            (assign_at c m)
          ∷ db.commands;
    }

  -- The part of changeAssignment that the two responses share.
  respond-Responded :
      (respond : BatchAssignment → BatchAssignment) (to : BatchStatus)
      (current : BatchAssignment → Option Text) (type : ActionType) (audit_type : AuditType)
      (reason : Option Text) (allowed : BatchAssignment → Batch → Bool)
      → (own_assignment p c m assignment_id >>= λ own.
            create_assignment_command (new_command c.call m own.1.id (assign_at c m))
            >> (fail_if (not (allowed own.0 own.1)) (assignment AssignmentError.invalid_state)
                >> (update_assignment (respond own.0)
                    >> (update_batch_assignment own.1.id own.1.version BatchStatus.assigned to
                          (current own.0)
                          (assign_at c m)
                        >>= λ updated.
                            create_action (
                              new_action c m c.action_id
                                (respond own.0)
                                type
                                BatchStatus.assigned
                                to
                                reason
                                none)
                            >> (append_assignment_audit (
                                  assignment_audit c m
                                    (respond own.0).id
                                    none
                                    updated
                                    audit_type
                                    BatchStatus.assigned
                                    to)
                                >> (complete_assignment_command c.call.command_id 200
                                      (p.assignment_result_json
                                        (mutation_result (respond own.0) m.correlation_id []))
                                      (assign_at c m)
                                    >> pure
                                        (mutation_result (respond own.0) m.correlation_id [])))))))
          db
        ≡ ok (result, db')
      → Responded respond to current type audit_type reason allowed
  unfolding new_command
  respond-Responded respond to current type audit_type reason allowed h =
      let (own, before, in_charge, k1) = own_assignment-then p c m assignment_id db _ h in
      let at = assign_at c m in
      let command = new_command c.call m before.id at in
      let (_, k2) = create_command-then _ db command k1 in
      let db1 : Db = record db { commands = command ∷ db.commands } in
      let (permitted, k3) =
        fail_if-then (not (allowed own before)) (assignment AssignmentError.invalid_state) _ db1
          k2 in
      let a = respond own in
      let action = new_action c m c.action_id a type BatchStatus.assigned to reason none in
      let audit =
        λ (b : Batch). assignment_audit c m a.id none b audit_type BatchStatus.assigned to in
      let (assignments, batches, changed, updated, was, k4) =
        progress-then db1 a own.batch_id before BatchStatus.assigned to (current own) at action
          audit _ in_charge.found_batch k3 in
      let after = moved_row to (current own) at before in
      let answer = mutation_result a m.correlation_id [] in
      let k5 =
        complete_command-then assignment_concurrency _ command 200 (p.assignment_result_json answer)
          at db.commands
          (record db1 {
            assignments = assignments;
            batches = batches;
            actions = action ∷ db.actions;
            audits = audit after ∷ db.audits;
          })
          refl k4 in
      let (answered, final) = pure-ok k5 in
      record {
        own = own;
        before = before;
        assignments = assignments;
        batches = batches;
        in_charge = in_charge;
        permitted = not-false _ permitted;
        was_assigned = was;
        changed = changed;
        updated = updated;
        answer = answered;
        final = final;
      }

  abbrev pub Accepted : Type 0
  Accepted =
      Responded (accepted_assignment c m) BatchStatus.assigned
        (λ own. some (accepted_assignment c m own).id) ActionType.accepted
        AuditType.assignment_accepted none may_accept

  abbrev pub Rejected : RejectAssignmentRequest → Type 0
  Rejected request =
      Responded (rejected_assignment c m request.rejection_reason) BatchStatus.approved
        (λ own. none) ActionType.rejected AuditType.assignment_rejected
        (some request.rejection_reason) may_reject

  pub accept_new-Accepted : accept_new p c m assignment_id db ≡ ok (result, db') → Accepted
  unfolding accept_new
  accept_new-Accepted h =
      respond-Responded (accepted_assignment c m) BatchStatus.assigned
        (λ own. some (accepted_assignment c m own).id) ActionType.accepted
        AuditType.assignment_accepted none may_accept h

  pub reject_new-Rejected :
      (request : RejectAssignmentRequest)
      → reject_new p c m assignment_id request db ≡ ok (result, db')
      → Rejected request
  unfolding reject_new
  reject_new-Rejected request h =
      respond-Responded (rejected_assignment c m request.rejection_reason) BatchStatus.approved
        (λ own. none) ActionType.rejected AuditType.assignment_rejected
        (some request.rejection_reason) may_reject h
