-- ===== src/Assignment/Effects.antt =====
-- What a collector's command on an assignment has done, when it was no replay.
-- Source: changeAssignment and recordPickup of src/backend/internal/service/assignment.go.
use team5_ewaste_platform.Common.{
  Bool, true, false, ◌&&◌, not, none, some, List, ◌∷◌, ◌≡◌, refl, arith, Text, ok, AssignmentError,
  assignment, assignment_concurrency,
}
use team5_ewaste_platform.Store.{Batch, BatchStatus, status_eq, Db, exists, fail_if-then, pure-ok}
use team5_ewaste_platform.Store.Allocation.{BatchAssignment, AssignmentStatus}
use team5_ewaste_platform.Store.Laws.{
  create_command-then, enqueue_outbox-then, complete_command-then, BatchUpdated, completed,
}
use team5_ewaste_platform.Store.Updates.{insert_row-then}
use team5_ewaste_platform.Dto.{BatchCommandMetadata, AssignmentMutationResult}
use team5_ewaste_platform.Platform.{Platform}
use team5_ewaste_platform.Command.{new_command}
use team5_ewaste_platform.Batch.View.{new_outbox}
use team5_ewaste_platform.Assignment.Statements.{moved_row, same_handoff, create_handoff}
use team5_ewaste_platform.Assignment.Rows.{
  AssignmentCall, Pickup, to_status, action_of, audit_of, event_of, topic_of, reason_of, assign_at,
  closed_assignment, new_action, assignment_audit, new_handoff, collection_payload, mutation_result,
}
use team5_ewaste_platform.Assignment.Transaction.{is_status, is_early, pickup_new}
use team5_ewaste_platform.Assignment.Steps.{
  IsInCharge, own_assignment-then, AssignmentUpdated, progress-then,
}

not-false : (t : Bool) → not t ≡ false → t ≡ true
not-false t h = ground arith

module _ (p : Platform) (c : AssignmentCall) (m : BatchCommandMetadata) (assignment_id : Text)
    (db : Db) (result : AssignmentMutationResult) (db' : Db) where
  -- A pickup that was recorded: the collector in charge of an accepted assignment closed it, with
  -- its handoff, its action, its audit row and its event, and the batch moved on.
  pub record PickedUp (pickup : Pickup) : Type 0 where
    pub own : BatchAssignment
    pub before : Batch
    pub assignments : List BatchAssignment
    pub batches : List Batch
    pub in_charge : IsInCharge m assignment_id db own before
    pub was_accepted :
        (is_status own.assignment_status AssignmentStatus.accepted
          && status_eq before.status BatchStatus.assigned)
        ≡ true
    pub not_early : is_early p c m pickup own ≡ false
    pub first_handoff :
        exists (same_handoff (new_handoff c m before own pickup)) db.handoffs ≡ false
    pub closed : AssignmentUpdated (closed_assignment c m pickup own) db.assignments assignments
    pub updated : BatchUpdated own.batch_id db.batches batches before (
        moved_row
          (to_status pickup)
          (some (closed_assignment c m pickup own).id)
          (assign_at c m)
          before)
    pub answer :
        result ≡ mutation_result (closed_assignment c m pickup own) m.correlation_id c.call.event_id
    pub final : db' ≡ record db {
      batches = batches;
      assignments = assignments;
      handoffs = new_handoff c m before own pickup ∷ db.handoffs;
      actions =
          new_action c m c.action_id
            (closed_assignment c m pickup own)
            (action_of pickup)
            BatchStatus.assigned
            (to_status pickup)
            (reason_of pickup)
            none
          ∷ db.actions;
      audits =
          assignment_audit c m
            (closed_assignment c m pickup own).id
            none
            (moved_row
              (to_status pickup)
              (some (closed_assignment c m pickup own).id)
              (assign_at c m)
              before)
            (audit_of pickup)
            BatchStatus.assigned
            (to_status pickup)
          ∷ db.audits;
      outbox =
          new_outbox c.call.event_id c.call.command_id
            (moved_row
              (to_status pickup)
              (some (closed_assignment c m pickup own).id)
              (assign_at c m)
              before)
            (event_of pickup)
            (topic_of pickup)
            (collection_payload c m p
              (moved_row
                (to_status pickup)
                (some (closed_assignment c m pickup own).id)
                (assign_at c m)
                before)
              (closed_assignment c m pickup own)
              (new_handoff c m before own pickup)
              pickup)
            m.correlation_id
            (assign_at c m)
          ∷ db.outbox;
      commands =
          completed
            (new_command c.call m before.id (assign_at c m))
            200
            (p.assignment_result_json
              (mutation_result (closed_assignment c m pickup own) m.correlation_id c.call.event_id))
            (assign_at c m)
          ∷ db.commands;
    }

  -- A handoff or a failed pickup that succeeds and was no replay is recorded.
  pub pickup_new-PickedUp :
      (pickup : Pickup)
      → pickup_new p c m assignment_id pickup db ≡ ok (result, db')
      → PickedUp pickup
  unfolding pickup_new create_handoff new_command
  pickup_new-PickedUp pickup h =
      let (own, before, in_charge, k1) = own_assignment-then p c m assignment_id db _ h in
      let (was, k2) =
        fail_if-then
          (not (
            is_status own.assignment_status AssignmentStatus.accepted
            && status_eq before.status BatchStatus.assigned))
          (assignment AssignmentError.invalid_state) _ db k1 in
      let (not_early, k3) =
        fail_if-then (is_early p c m pickup own) (assignment AssignmentError.invalid) _ db k2 in
      let at = assign_at c m in
      let command = new_command c.call m before.id at in
      let (_, k4) = create_command-then _ db command k3 in
      let db1 : Db = record db { commands = command ∷ db.commands } in
      let handoff = new_handoff c m before own pickup in
      let (first_handoff, k5) =
        insert_row-then same_handoff (λ (d : Db). d.handoffs)
          (λ rows d. record d { handoffs = rows }) handoff _ db1 k4 in
      let db2 : Db = record db1 { handoffs = handoff ∷ db.handoffs } in
      let a = closed_assignment c m pickup own in
      let action =
        new_action c m c.action_id a (action_of pickup) BatchStatus.assigned (to_status pickup)
          (reason_of pickup) none in
      let audit = λ (b : Batch).
        assignment_audit c m a.id none b (audit_of pickup) BatchStatus.assigned
          (to_status pickup) in
      let (assignments, batches, closed, updated, _, k6) =
        progress-then db2 a own.batch_id before BatchStatus.assigned (to_status pickup) (some a.id)
          at action audit _ in_charge.found_batch k5 in
      let after = moved_row (to_status pickup) (some a.id) at before in
      let event =
        new_outbox c.call.event_id c.call.command_id after (event_of pickup) (topic_of pickup)
          (collection_payload c m p after a handoff pickup) m.correlation_id at in
      let db3 : Db = record db2 {
        assignments = assignments;
        batches = batches;
        actions = action ∷ db.actions;
        audits = audit after ∷ db.audits;
      } in
      let (_, k7) = enqueue_outbox-then _ db3 event k6 in
      let answer = mutation_result a m.correlation_id c.call.event_id in
      let k8 =
        complete_command-then assignment_concurrency _ command 200 (p.assignment_result_json answer)
          at db.commands (record db3 { outbox = event ∷ db.outbox }) refl k7 in
      let (answered, final) = pure-ok k8 in
      record {
        own = own;
        before = before;
        assignments = assignments;
        batches = batches;
        in_charge = in_charge;
        was_accepted = not-false _ was;
        not_early = not_early;
        first_handoff = first_handoff;
        closed = closed;
        updated = updated;
        answer = answered;
        final = final;
      }
