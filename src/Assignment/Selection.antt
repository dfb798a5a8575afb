-- ===== src/Assignment/Selection.antt =====
-- What a selection has done, when it was no replay.
-- Source: Select of src/backend/internal/service/assignment.go.
use team5_ewaste_platform.Common.{
  ℕ, Bool, true, false, ◌&&◌, not, some, List, ◌∷◌, ◌++◌, ◌≡◌, refl, arith, Text, codes, ◌==◌,
  is_none, to_uint32, ok, AssignmentError, assignment, assignment_batch_not_found,
  assignment_scope_not_found, assignment_concurrency,
}
use team5_ewaste_platform.Store.{
  Batch, BatchStatus, status_eq, AuditType, EventType, Db, find, exists, fail_if-then, lift-then,
  pure-ok,
}
use team5_ewaste_platform.Store.Allocation.{BatchClaim, CapacityReservation, BatchAssignment}
use team5_ewaste_platform.Store.Directory.{CollectorScope}
use team5_ewaste_platform.Store.Statements.{has_id}
use team5_ewaste_platform.Store.Laws.{
  create_command-then, append_audit-then, enqueue_outbox-then, complete_command-then, BatchUpdated,
  completed,
}
use team5_ewaste_platform.Store.Updates.{find_row-then, insert_row-then, update_batch-then}
use team5_ewaste_platform.Dto.{
  BatchCommandMetadata, AssignmentMutationResult, AssignmentSelectionRequest,
}
use team5_ewaste_platform.Platform.{Platform}
use team5_ewaste_platform.Command.{new_command}
use team5_ewaste_platform.Batch.View.{new_outbox}
use team5_ewaste_platform.Assignment.Statements.{
  find_assignment_batch, find_accepted_claim_reservation, covers, find_collector_scope, latest,
  find_latest_assignment, same_assignment, create_assignment, moved_row, is_at,
  update_batch_assignment, same_action, create_action,
}
use team5_ewaste_platform.Assignment.Rows.{
  AssignmentCall, assign_at, new_assignment, assignment_audit, assigned_payload, mutation_result,
}
use team5_ewaste_platform.Assignment.Transaction.{known_zone, was_mine, select_new}
use team5_ewaste_platform.Assignment.Backing.{
  IsBacked, IsBacked-then, linked, link-then, action_assigned, reassignments,
  record_reassignment-then,
}

not-false : (t : Bool) → not t ≡ false → t ≡ true
not-false t h = ground arith

module _ (p : Platform) (c : AssignmentCall) (m : BatchCommandMetadata) (batch_id : Text)
    (request : AssignmentSelectionRequest) (claim_epoch : ℕ) (db : Db)
    (result : AssignmentMutationResult) (db' : Db) where
  -- A selection: an approved batch with a held claim has a new, accepted assignment to a collector
  -- whose scope covers it and who was not the last one.
  pub record Selected : Type 0 where
    pub before : Batch
    pub accepted : BatchClaim
    pub reservation : CapacityReservation
    pub scope : CollectorScope
    pub zone : Text
    pub made : BatchAssignment
    pub batches : List Batch
    pub is_new : made ≡ new_assignment c m before accepted scope (latest before.id db.assignments)
    pub expected :
        (before.version == to_uint32 m.expected_version && before.claim_epoch == claim_epoch) ≡ true
    pub was_free :
        (status_eq before.status BatchStatus.approved && is_none before.current_assignment_id)
        ≡ true
    pub backed : IsBacked before before.current_claim_id db accepted reservation
    pub in_zone : known_zone before.zone ≡ ok zone
    pub covered :
        find
          (covers request.collector_scope_id accepted.recycler_org_id m.actor.organisation_id zone
            c.scope_at)
          db.directory.scopes
        ≡ some scope
    pub other_collector : was_mine m (latest before.id db.assignments) ≡ false
    pub fresh : exists (same_assignment made) db.assignments ≡ false
    pub updated :
        BatchUpdated batch_id db.batches batches before
          (moved_row BatchStatus.assigned (some made.id) (assign_at c m) before)
    pub answer : result ≡ mutation_result made m.correlation_id c.call.event_id
    pub final : db' ≡ record db {
      batches = batches;
      assignments = made ∷ db.assignments;
      actions =
          reassignments p c m made made.previous_assignment_id
          ++ (action_assigned p c m made ∷ db.actions);
      audits =
          assignment_audit c m made.id
            (some accepted.id)
            (moved_row BatchStatus.assigned (some made.id) (assign_at c m) before)
            AuditType.collector_assigned
            BatchStatus.approved
            BatchStatus.assigned
          ∷ db.audits;
      outbox =
          new_outbox c.call.event_id c.call.command_id
            (moved_row BatchStatus.assigned (some made.id) (assign_at c m) before)
            EventType.collector_assigned
            (codes "batch.collector.assigned")
            (assigned_payload c m p
              (moved_row BatchStatus.assigned (some made.id) (assign_at c m) before)
              made)
            m.correlation_id
            (assign_at c m)
          ∷ db.outbox;
      commands =
          completed
            (linked made.id (new_command c.call m before.id (assign_at c m)))
            201
            (p.assignment_result_json (mutation_result made m.correlation_id c.call.event_id))
            (assign_at c m)
          ∷ db.commands;
    }

  pub select_new-Selected :
      select_new p c m batch_id request claim_epoch db ≡ ok (result, db') → Selected
  unfolding select_new find_assignment_batch find_accepted_claim_reservation find_collector_scope
      find_latest_assignment create_assignment update_batch_assignment create_action new_command
      new_assignment linked
  select_new-Selected h =
      let (before, found, k1) =
        find_row-then assignment_batch_not_found (has_id batch_id) (λ (d : Db). d.batches) _ db h in
      let (expected, k2) =
        fail_if-then
          (not
            (before.version == to_uint32 m.expected_version && before.claim_epoch == claim_epoch))
          (assignment AssignmentError.stale_version) _ db k1 in
      let (free, k3) =
        fail_if-then
          (not
            (status_eq before.status BatchStatus.approved && is_none before.current_assignment_id))
          (assignment AssignmentError.invalid_state) _ db k2 in
      let (accepted, reservation, backed, k4) = IsBacked-then before _ db k3 in
      let (zone, in_zone, k5) = lift-then (known_zone before.zone) _ db k4 in
      let (scope, covered, k6) =
        find_row-then assignment_scope_not_found
          (covers request.collector_scope_id accepted.recycler_org_id m.actor.organisation_id zone
            c.scope_at)
          (λ (d : Db). d.directory.scopes) _ db k5 in
      let previous = latest before.id db.assignments in
      let (other, k7) =
        fail_if-then (was_mine m previous) (assignment AssignmentError.forbidden) _ db k6 in
      let at = assign_at c m in
      let command = new_command c.call m before.id at in
      let (_, k8) = create_command-then _ db command k7 in
      let db1 : Db = record db { commands = command ∷ db.commands } in
      let made = new_assignment c m before accepted scope previous in
      let (fresh, k9) =
        insert_row-then same_assignment (λ (d : Db). d.assignments)
          (λ rows d. record d { assignments = rows }) made _ db1 k8 in
      let k10 =
        link-then _ command made.id db.commands (record db { assignments = made ∷ db.assignments })
          refl k9 in
      let db2 : Db = record db {
        assignments = made ∷ db.assignments;
        commands = linked made.id command ∷ db.commands;
      } in
      let (batches, updated, _, k11) =
        update_batch-then assignment_concurrency batch_id
          (is_at before.version BatchStatus.approved)
          (moved_row BatchStatus.assigned (some made.id) at) db2 (λ b. refl) before found _ k10 in
      let after = moved_row BatchStatus.assigned (some made.id) at before in
      let db3 : Db = record db2 { batches = batches } in
      let (_, k12) =
        insert_row-then same_action (λ (d : Db). d.actions) (λ rows d. record d { actions = rows })
          (action_assigned p c m made) _ db3 k11 in
      let db4 : Db = record db3 { actions = action_assigned p c m made ∷ db.actions } in
      let k13 = record_reassignment-then p c m _ made made.previous_assignment_id db4 k12 in
      let db5 : Db = record db3 {
        actions =
            reassignments p c m made made.previous_assignment_id
            ++ (action_assigned p c m made ∷ db.actions);
      } in
      let audit =
        assignment_audit c m made.id (some accepted.id) after AuditType.collector_assigned
          BatchStatus.approved BatchStatus.assigned in
      let (_, k14) = append_audit-then _ db5 audit k13 in
      let event =
        new_outbox c.call.event_id c.call.command_id after EventType.collector_assigned
          (codes "batch.collector.assigned") (assigned_payload c m p after made) m.correlation_id
          at in
      let (_, k15) = enqueue_outbox-then _ (record db5 { audits = audit ∷ db.audits }) event k14 in
      let answer = mutation_result made m.correlation_id c.call.event_id in
      let k16 =
        complete_command-then assignment_concurrency _ (linked made.id command) 201
          (p.assignment_result_json answer) at db.commands
          (record db5 { audits = audit ∷ db.audits; outbox = event ∷ db.outbox }) refl k15 in
      let (answered, final) = pure-ok k16 in
      record {
        before = before;
        accepted = accepted;
        reservation = reservation;
        scope = scope;
        zone = zone;
        made = made;
        batches = batches;
        is_new = refl;
        expected = not-false _ expected;
        was_free = not-false _ free;
        backed = backed;
        in_zone = in_zone;
        covered = covered;
        other_collector = other;
        fresh = fresh;
        updated = updated;
        answer = answered;
        final = final;
      }
