-- ===== src/Assignment/Rows.antt =====
-- The rows, answers and payloads that a collector's command writes.
-- Source: src/backend/internal/service/assignment.go.
use team5_ewaste_platform.Common.{
  ℕ, ◌+◌, ◌%◌, ◌^◌, Option, none, some, [], Text, codes, is_empty, if◌then◌else◌,
}
use mathlib.Core.Option
use team5_ewaste_platform.Decimal.{print_int}
use team5_ewaste_platform.Store.{Time, Batch, BatchStatus, AuditEvent, AuditType, EventType}
use team5_ewaste_platform.Store.Allocation.{
  BatchClaim, BatchAssignment, AssignmentStatus, AssignmentAction, ActionType, BatchHandoff,
  PickupStatus,
}
use team5_ewaste_platform.Store.Directory.{CollectorScope}
use team5_ewaste_platform.Dto.{
  BatchCommandMetadata, HandoffRequest, FailedPickupRequest, AssignmentView,
  AssignmentMutationResult, EventPayload, EventHeader,
}
use team5_ewaste_platform.Platform.{Platform}
use team5_ewaste_platform.Command.{Call, new_audit_event}
use team5_ewaste_platform.Claim.{to_micros}
use team5_ewaste_platform.Assignment.Prepare.{lower_hex}

-- A call's clocks and identifiers, those of `Call` and these: the reading for the collector's scope,
-- and the identifiers of the assignment, of its actions and of the handoff.
pub record AssignmentCall : Type 0 where
  pub call : Call
  pub scope_at : Time
  pub assignment_id : Text
  pub action_id : Text
  pub second_action_id : Text
  pub handoff_id : Text

-- A pickup that succeeded or failed: the payload and the flag of recordPickup.
pub data Pickup : Type 0 where
  collected : HandoffRequest → Pickup
  failed : FailedPickupRequest → Pickup

abbrev pub to_status : Pickup → BatchStatus
to_status (Pickup.collected r) = BatchStatus.collected
to_status (Pickup.failed r) = BatchStatus.failed_collection

abbrev pub closed_status : Pickup → AssignmentStatus
closed_status (Pickup.collected r) = AssignmentStatus.completed
closed_status (Pickup.failed r) = AssignmentStatus.failed

abbrev pub action_of : Pickup → ActionType
action_of (Pickup.collected r) = ActionType.handoff_recorded
action_of (Pickup.failed r) = ActionType.pickup_failed

abbrev pub closure_of : Pickup → Text
closure_of (Pickup.collected r) = codes "HANDOFF_RECORDED"
closure_of (Pickup.failed r) = codes "PICKUP_FAILED"

abbrev pub audit_of : Pickup → AuditType
audit_of (Pickup.collected r) = AuditType.collection_completed
audit_of (Pickup.failed r) = AuditType.collection_failed

abbrev pub event_of : Pickup → EventType
event_of (Pickup.collected r) = EventType.collection_completed
event_of (Pickup.failed r) = EventType.collection_failed

abbrev pub topic_of : Pickup → Text
topic_of (Pickup.collected r) = codes "batch.collection.completed"
topic_of (Pickup.failed r) = codes "batch.collection.failed"

abbrev pub reason_of : Pickup → Option Text
reason_of (Pickup.collected r) = none
reason_of (Pickup.failed r) = some r.failure_reason

module _ (c : AssignmentCall) (m : BatchCommandMetadata) where
  abbrev pub assign_at : Time
  assign_at = to_micros c.call.now

  abbrev sequence_after : Option BatchAssignment → ℕ
  sequence_after none = 1
  sequence_after (some previous) = (previous.assignment_sequence + 1) % 2 ^ 64

  unfoldable pub new_assignment :
      Batch → BatchClaim → CollectorScope → Option BatchAssignment → BatchAssignment
  new_assignment batch accepted scope previous = record {
    id = c.assignment_id;
    batch_id = batch.id;
    claim_id = accepted.id;
    recycler_org_id = accepted.recycler_org_id;
    collector_org_id = m.actor.organisation_id;
    collector_user_id = m.actor.user_id;
    collector_scope_id = scope.id;
    assignment_sequence = sequence_after previous;
    claim_epoch = batch.claim_epoch;
    previous_assignment_id = Option.map (λ (a : BatchAssignment). a.id) previous;
    assignment_status = AssignmentStatus.accepted;
    rejection_reason = none;
    reassignment_reason =
        Option.map (λ (a : BatchAssignment). codes "collector replacement") previous;
    assigned_at = assign_at;
    responded_at = some assign_at;
    closed_at = none;
    closure_reason = none;
    version = 1;
    created_at = assign_at;
    updated_at = assign_at;
  }

  abbrev next_version : ℕ → ℕ
  next_version version = (version + 1) % 2 ^ 32

  unfoldable pub accepted_assignment : BatchAssignment → BatchAssignment
  accepted_assignment a = record a {
    assignment_status = AssignmentStatus.accepted;
    responded_at = some assign_at;
    version = next_version a.version;
    updated_at = assign_at;
  }

  unfoldable pub rejected_assignment : Text → BatchAssignment → BatchAssignment
  rejected_assignment reason a = record a {
    assignment_status = AssignmentStatus.superseded;
    rejection_reason = some reason;
    closure_reason = some (codes "REJECTED");
    closed_at = some assign_at;
    version = next_version a.version;
    updated_at = assign_at;
  }

  unfoldable pub closed_assignment : Pickup → BatchAssignment → BatchAssignment
  closed_assignment pickup a = record a {
    assignment_status = closed_status pickup;
    closed_at = some assign_at;
    closure_reason = some (closure_of pickup);
    version = next_version a.version;
    updated_at = assign_at;
  }

  unfoldable pub new_action :
      Text
      → BatchAssignment
      → ActionType
      → BatchStatus
      → BatchStatus
      → Option Text
      → Option Text
      → AssignmentAction
  new_action action_id a action_type from to reason previous = record {
    id = action_id;
    batch_id = a.batch_id;
    assignment_id = a.id;
    action_type = action_type;
    actor_user_id = some m.actor.user_id;
    service_principal = none;
    reason = reason;
    previous_assignment_id = previous;
    from_status = from;
    to_status = to;
    assignment_version = a.version;
    command_id = c.call.command_id;
    occurred_at = assign_at;
    correlation_id = m.correlation_id;
  }

  -- The audit row of a command on an assignment; a selection also names the claim.
  unfoldable pub assignment_audit :
      Text → Option Text → Batch → AuditType → BatchStatus → BatchStatus → AuditEvent
  assignment_audit assignment_id claim_id batch event_type from to =
      record (new_audit_event c.call m c.call.command_id batch event_type from to assign_at) {
        assignment_id = some assignment_id;
        claim_id = claim_id;
      }

  unfoldable pub new_handoff : Batch → BatchAssignment → Pickup → BatchHandoff
  unfolding lower_hex
  new_handoff batch a (Pickup.failed r) = record {
    id = c.handoff_id;
    batch_id = batch.id;
    assignment_id = a.id;
    collector_user_id = a.collector_user_id;
    collector_org_id = a.collector_org_id;
    pickup_status = PickupStatus.failed_collection;
    donor_representative_name = none;
    actual_item_count = none;
    verification_hash = none;
    failure_reason = some r.failure_reason;
    quantity_discrepancy_reason = none;
    notes = r.observed_details;
    pickup_occurred_at = assign_at;
    recorded_at = assign_at;
    collected_at = none;
    command_id = c.call.command_id;
    correlation_id = m.correlation_id;
    created_at = assign_at;
  }
  new_handoff batch a (Pickup.collected r) = record {
    id = c.handoff_id;
    batch_id = batch.id;
    assignment_id = a.id;
    collector_user_id = a.collector_user_id;
    collector_org_id = a.collector_org_id;
    pickup_status = PickupStatus.collected;
    donor_representative_name = some r.donor_representative_name;
    actual_item_count = some r.actual_item_count;
    verification_hash = some (lower_hex r.verification_hash);
    failure_reason = none;
    quantity_discrepancy_reason = none;
    notes = r.notes;
    pickup_occurred_at = r.pickup_occurred_at;
    recorded_at = assign_at;
    collected_at = some r.pickup_occurred_at;
    command_id = c.call.command_id;
    correlation_id = m.correlation_id;
    created_at = assign_at;
  }

  abbrev event_header : Batch → EventHeader
  event_header batch = record {
    event_id = c.call.event_id;
    command_id = c.call.command_id;
    batch_id = batch.id;
    batch_version = batch.version;
    claim_epoch = print_int batch.claim_epoch;
    occurred_at = assign_at;
    correlation_id = m.correlation_id;
  }

  unfoldable pub assigned_payload : Platform → Batch → BatchAssignment → Text
  unfolding print_int
  assigned_payload p batch a = p.payload_json (
      EventPayload.collector_assigned (event_header batch) (record {
        assignment_id = a.id;
        claim_id = a.claim_id;
        collector_user_id = a.collector_user_id;
        recycler_org_id = a.recycler_org_id;
        assignment_version = print_int a.version;
        previous_assignment_id = a.previous_assignment_id;
        collector_org_id = a.collector_org_id;
        collector_scope_id = a.collector_scope_id;
        assignment_sequence = print_int a.assignment_sequence;
        assigned_at = assign_at;
      }))

  abbrev hash_of : Pickup → Option Text
  hash_of (Pickup.failed r) = none
  hash_of (Pickup.collected r) = some (lower_hex r.verification_hash)

  unfoldable pub collection_payload :
      Platform → Batch → BatchAssignment → BatchHandoff → Pickup → Text
  unfolding print_int
  collection_payload p batch a h pickup = p.payload_json (
      EventPayload.collection (event_of pickup) (event_header batch) (record {
        assignment_id = a.id;
        handoff_id = h.id;
        collector_user_id = a.collector_user_id;
        collector_org_id = a.collector_org_id;
        collector_scope_id = a.collector_scope_id;
        pickup_occurred_at = h.pickup_occurred_at;
        pickup_status = h.pickup_status;
        recorded_at = assign_at;
        failure_reason = reason_of pickup;
        actual_item_count = h.actual_item_count;
        verification_hash = hash_of pickup;
      }))

unfoldable pub view_of : BatchAssignment → AssignmentView
view_of a = record {
  assignment_id = a.id;
  batch_id = a.batch_id;
  claim_id = a.claim_id;
  collector_user_id = a.collector_user_id;
  collector_scope_id = a.collector_scope_id;
  assignment_status = a.assignment_status;
  assignment_sequence = a.assignment_sequence;
  version = a.version;
  created_at = a.created_at;
  updated_at = a.updated_at;
}

unfoldable pub state_for_event : Text → Text
state_for_event event_id = if is_empty event_id then [] else codes "PENDING"

unfoldable pub mutation_result : BatchAssignment → Text → Text → AssignmentMutationResult
unfolding view_of state_for_event
mutation_result a correlation_id event_id = record {
  data_view = view_of a;
  correlation_id = correlation_id;
  event_id = event_id;
  event_state = state_for_event event_id;
}
