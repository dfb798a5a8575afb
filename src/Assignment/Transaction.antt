-- ===== src/Assignment/Transaction.antt =====
-- The transactions of the collectors' commands. Source: Select, changeAssignment, recordPickup and
-- RecoverFailedCollection of src/backend/internal/service/assignment.go.
use team5_ewaste_platform.Common.{
  ℕ, Bool, true, false, ◌&&◌, ◌||◌, not, Option, none, some, [], ◌∷◌, Text, codes, text_eq, ◌==◌,
  ltb, is_none, to_uint32, AssignmentError, assignment, Result, ok, err,
}
use team5_ewaste_platform.Store.{
  Batch, BatchStatus, status_eq, AuditType, EventType, Tx, pure, fail_if, lift, ◌>>=◌, ◌>>◌,
}
use team5_ewaste_platform.Store.Allocation.{BatchAssignment, AssignmentStatus, ActionType}
use team5_ewaste_platform.Dto.{
  BatchCommandMetadata, AssignmentSelectionRequest, AssignmentMutationResult,
  RejectAssignmentRequest,
}
use team5_ewaste_platform.Platform.{Platform}
use team5_ewaste_platform.Command.{new_command}
use team5_ewaste_platform.Batch.View.{new_outbox}
use team5_ewaste_platform.Assignment.Statements.{
  find_assignment_batch, find_accepted_claim_reservation, find_collector_scope,
  find_latest_assignment, find_assignment, create_assignment_command, create_assignment,
  link_command_assignment, update_assignment, update_batch_assignment, create_handoff,
  create_action, append_assignment_audit, enqueue_assignment_outbox, complete_assignment_command,
}
use team5_ewaste_platform.Assignment.Rows.{
  AssignmentCall, Pickup, to_status, action_of, audit_of, event_of, topic_of, reason_of, assign_at,
  new_assignment, accepted_assignment, rejected_assignment, closed_assignment, new_action,
  assignment_audit, new_handoff, assigned_payload, collection_payload, mutation_result,
}

-- `batch.Zone == nil || *batch.Zone == ""`
abbrev pub known_zone : Option Text → Result Text
known_zone none = err (assignment AssignmentError.invalid)
known_zone (some []) = err (assignment AssignmentError.invalid)
known_zone (some (c ∷ zone)) = ok (c ∷ zone)

-- The last assignment of the batch was this collector's.
abbrev pub was_mine : BatchCommandMetadata → Option BatchAssignment → Bool
was_mine m none = false
was_mine m (some a) =
    text_eq a.collector_user_id m.actor.user_id
    && text_eq a.collector_org_id m.actor.organisation_id

abbrev pub is_status : AssignmentStatus → AssignmentStatus → Bool
is_status AssignmentStatus.pending AssignmentStatus.pending = true
is_status AssignmentStatus.accepted AssignmentStatus.accepted = true
is_status AssignmentStatus.failed AssignmentStatus.failed = true
is_status _ _ = false

-- `CurrentAssignmentID != nil && *CurrentAssignmentID == id`
abbrev pub is_current : Text → Option Text → Bool
is_current id none = false
is_current id (some current) = text_eq current id

module _ (p : Platform) (c : AssignmentCall) (m : BatchCommandMetadata) where
  -- The second action of a selection that replaces an earlier assignment.
  unfoldable pub record_reassignment : BatchAssignment → Option Text → Tx (Unit {0})
  record_reassignment a none = pure tt
  record_reassignment a (some previous) = create_action (
      new_action c m c.second_action_id a ActionType.reassigned BatchStatus.approved
        BatchStatus.assigned (some (codes "collector replacement")) (some previous))

  abbrev pub selected_outbox : Batch → BatchAssignment → Tx (Unit {0})
  selected_outbox batch a = enqueue_assignment_outbox (
      new_outbox c.call.event_id c.call.command_id batch EventType.collector_assigned
        (codes "batch.collector.assigned") (assigned_payload c m p batch a) m.correlation_id
        (assign_at c m))

  unfoldable pub select_new : Text → AssignmentSelectionRequest → ℕ → Tx AssignmentMutationResult
  select_new batch_id request claim_epoch = do
    batch ← find_assignment_batch batch_id
    fail_if
        (not (batch.version == to_uint32 m.expected_version && batch.claim_epoch == claim_epoch))
        (assignment AssignmentError.stale_version)
    fail_if
        (not (status_eq batch.status BatchStatus.approved && is_none batch.current_assignment_id))
        (assignment AssignmentError.invalid_state)
    accepted ← find_accepted_claim_reservation batch
    zone ← lift (known_zone batch.zone)
    scope ←
        find_collector_scope request.collector_scope_id accepted.0.recycler_org_id
          m.actor.organisation_id zone c.scope_at
    previous ← find_latest_assignment batch.id
    fail_if (was_mine m previous) (assignment AssignmentError.forbidden)
    create_assignment_command (new_command c.call m batch.id (assign_at c m))
    let a = new_assignment c m batch accepted.0 scope previous
    create_assignment a
    link_command_assignment c.call.command_id a.id
    assigned ←
        update_batch_assignment batch.id batch.version BatchStatus.approved BatchStatus.assigned
          (some a.id) (assign_at c m)
    create_action (
        new_action c m c.action_id a ActionType.assigned BatchStatus.approved BatchStatus.assigned
          none a.previous_assignment_id)
    record_reassignment a a.previous_assignment_id
    append_assignment_audit (
        assignment_audit c m a.id (some accepted.0.id) assigned AuditType.collector_assigned
          BatchStatus.approved BatchStatus.assigned)
    selected_outbox assigned a
    let result = mutation_result a m.correlation_id c.call.event_id
    complete_assignment_command c.call.command_id 201 (p.assignment_result_json result)
        (assign_at c m)
    pure result

  -- The assignment and its batch, for the collector in charge at the expected version.
  unfoldable pub own_assignment : Text → Tx (BatchAssignment × Batch)
  own_assignment assignment_id = do
    a ← find_assignment assignment_id
    batch ← find_assignment_batch a.batch_id
    fail_if
        (not (
          text_eq a.collector_user_id m.actor.user_id
          && text_eq a.collector_org_id m.actor.organisation_id))
        (assignment AssignmentError.forbidden)
    fail_if
        (not (
          batch.version == to_uint32 m.expected_version
          && is_current a.id batch.current_assignment_id))
        (assignment AssignmentError.stale_version)
    pure (a, batch)

  unfoldable pub accept_new : Text → Tx AssignmentMutationResult
  accept_new assignment_id = do
    own ← own_assignment assignment_id
    create_assignment_command (new_command c.call m own.1.id (assign_at c m))
    fail_if
        (not (
          is_status own.0.assignment_status AssignmentStatus.pending
          && status_eq own.1.status BatchStatus.assigned))
        (assignment AssignmentError.invalid_state)
    let a = accepted_assignment c m own.0
    update_assignment a
    updated ←
        update_batch_assignment own.1.id own.1.version BatchStatus.assigned BatchStatus.assigned
          (some a.id) (assign_at c m)
    create_action (
        new_action c m c.action_id a ActionType.accepted BatchStatus.assigned BatchStatus.assigned
          none none)
    append_assignment_audit (
        assignment_audit c m a.id none updated AuditType.assignment_accepted BatchStatus.assigned
          BatchStatus.assigned)
    let result = mutation_result a m.correlation_id []
    complete_assignment_command c.call.command_id 200 (p.assignment_result_json result)
        (assign_at c m)
    pure result

  unfoldable pub reject_new : Text → RejectAssignmentRequest → Tx AssignmentMutationResult
  reject_new assignment_id request = do
    own ← own_assignment assignment_id
    create_assignment_command (new_command c.call m own.1.id (assign_at c m))
    fail_if
        (not (
          is_status own.0.assignment_status AssignmentStatus.pending
          || is_status own.0.assignment_status AssignmentStatus.accepted))
        (assignment AssignmentError.invalid_state)
    let a = rejected_assignment c m request.rejection_reason own.0
    update_assignment a
    updated ←
        update_batch_assignment own.1.id own.1.version BatchStatus.assigned BatchStatus.approved
          none (assign_at c m)
    create_action (
        new_action c m c.action_id a ActionType.rejected BatchStatus.assigned BatchStatus.approved
          (some request.rejection_reason) none)
    append_assignment_audit (
        assignment_audit c m a.id none updated AuditType.assignment_rejected BatchStatus.assigned
          BatchStatus.approved)
    let result = mutation_result a m.correlation_id []
    complete_assignment_command c.call.command_id 200 (p.assignment_result_json result)
        (assign_at c m)
    pure result

  -- `!failed && PickupOccurredAt.Before(AssignedAt)`
  abbrev pub is_early : Pickup → BatchAssignment → Bool
  is_early (Pickup.collected r) a = ltb r.pickup_occurred_at a.assigned_at
  is_early (Pickup.failed r) a = false

  unfoldable pub pickup_new : Text → Pickup → Tx AssignmentMutationResult
  pickup_new assignment_id pickup = do
    own ← own_assignment assignment_id
    fail_if
        (not (
          is_status own.0.assignment_status AssignmentStatus.accepted
          && status_eq own.1.status BatchStatus.assigned))
        (assignment AssignmentError.invalid_state)
    fail_if (is_early pickup own.0) (assignment AssignmentError.invalid)
    create_assignment_command (new_command c.call m own.1.id (assign_at c m))
    let handoff = new_handoff c m own.1 own.0 pickup
    create_handoff handoff
    let a = closed_assignment c m pickup own.0
    update_assignment a
    updated ←
        update_batch_assignment own.1.id own.1.version BatchStatus.assigned (to_status pickup)
          (some a.id) (assign_at c m)
    create_action (
        new_action c m c.action_id a (action_of pickup) BatchStatus.assigned (to_status pickup)
          (reason_of pickup) none)
    append_assignment_audit (
        assignment_audit c m a.id none updated (audit_of pickup) BatchStatus.assigned
          (to_status pickup))
    enqueue_assignment_outbox (
        new_outbox c.call.event_id c.call.command_id updated (event_of pickup) (topic_of pickup)
          (collection_payload c m p updated a handoff pickup) m.correlation_id (assign_at c m))
    let result = mutation_result a m.correlation_id c.call.event_id
    complete_assignment_command c.call.command_id 200 (p.assignment_result_json result)
        (assign_at c m)
    pure result
