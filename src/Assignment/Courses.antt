-- ===== src/Assignment/Courses.antt =====
-- The rows of a handoff and of a failed pickup, written out.
-- Source: recordPickup of src/backend/internal/service/assignment.go.
use mathlib.Core.Option
use team5_ewaste_platform.Common.{◌+◌, ◌%◌, ◌^◌, Option, none, some, List, ◌∷◌, Text, codes}
use team5_ewaste_platform.Decimal.{print_int}
use team5_ewaste_platform.Store.{Time, Batch, BatchStatus, AuditType, EventType, Db}
use team5_ewaste_platform.Store.Allocation.{
  BatchAssignment, AssignmentStatus, ActionType, BatchHandoff, PickupStatus, AssignmentAction,
}
use team5_ewaste_platform.Store.Laws.{completed}
use team5_ewaste_platform.Dto.{
  BatchCommandMetadata, AssignmentMutationResult, HandoffRequest, EventPayload,
}
use team5_ewaste_platform.Platform.{Platform}
use team5_ewaste_platform.Command.{new_command}
use team5_ewaste_platform.Batch.View.{new_outbox}
use team5_ewaste_platform.Assignment.Prepare.{lower_hex}
use team5_ewaste_platform.Assignment.Rows.{
  AssignmentCall, Pickup, assign_at, assignment_audit, mutation_result,
}

-- What tells a handoff from a failed pickup.
pub record Course : Type 0 where
  pub closed_as : AssignmentStatus
  pub closure : Text
  pub action : ActionType
  pub moves_to : BatchStatus
  pub audit : AuditType
  pub event : EventType
  pub topic : Text
  pub pickup_status : PickupStatus
  pub failure_reason : Option Text
  pub notes : Option Text
  pub occurred_at : Time
  -- The donor's side of a handoff.
  pub handed_over : Option HandoffRequest

module _ (p : Platform) (c : AssignmentCall) (m : BatchCommandMetadata) where
  abbrev pub course_of : Pickup → Course
  course_of (Pickup.collected r) = record {
    closed_as = AssignmentStatus.completed;
    closure = codes "HANDOFF_RECORDED";
    action = ActionType.handoff_recorded;
    moves_to = BatchStatus.collected;
    audit = AuditType.collection_completed;
    event = EventType.collection_completed;
    topic = codes "batch.collection.completed";
    pickup_status = PickupStatus.collected;
    failure_reason = none;
    notes = r.notes;
    occurred_at = r.pickup_occurred_at;
    handed_over = some r;
  }
  course_of (Pickup.failed r) = record {
    closed_as = AssignmentStatus.failed;
    closure = codes "PICKUP_FAILED";
    action = ActionType.pickup_failed;
    moves_to = BatchStatus.failed_collection;
    audit = AuditType.collection_failed;
    event = EventType.collection_failed;
    topic = codes "batch.collection.failed";
    pickup_status = PickupStatus.failed_collection;
    failure_reason = some r.failure_reason;
    notes = r.observed_details;
    occurred_at = assign_at c m;
    handed_over = none;
  }

  module _ (course : Course) (own : BatchAssignment) (before : Batch) where
    abbrev pub closed_row : BatchAssignment
    closed_row = record own {
      assignment_status = course.closed_as;
      closed_at = some (assign_at c m);
      closure_reason = some course.closure;
      version = (own.version + 1) % 2 ^ 32;
      updated_at = assign_at c m;
    }

    abbrev pub batch_row : Batch
    batch_row = record before {
      status = course.moves_to;
      current_assignment_id = some own.id;
      version = before.version + 1;
      updated_at = assign_at c m;
    }

    abbrev hash_row : Option Text
    hash_row = Option.map (λ (r : HandoffRequest). lower_hex r.verification_hash) course.handed_over

    abbrev handoff_row : BatchHandoff
    handoff_row = record {
      id = c.handoff_id;
      batch_id = before.id;
      assignment_id = own.id;
      collector_user_id = own.collector_user_id;
      collector_org_id = own.collector_org_id;
      pickup_status = course.pickup_status;
      donor_representative_name =
          Option.map (λ (r : HandoffRequest). r.donor_representative_name) course.handed_over;
      actual_item_count =
          Option.map (λ (r : HandoffRequest). r.actual_item_count) course.handed_over;
      verification_hash = hash_row;
      failure_reason = course.failure_reason;
      quantity_discrepancy_reason = none;
      notes = course.notes;
      pickup_occurred_at = course.occurred_at;
      recorded_at = assign_at c m;
      collected_at = Option.map (λ (r : HandoffRequest). r.pickup_occurred_at) course.handed_over;
      command_id = c.call.command_id;
      correlation_id = m.correlation_id;
      created_at = assign_at c m;
    }

    abbrev action_row : AssignmentAction
    action_row = record {
      id = c.action_id;
      batch_id = own.batch_id;
      assignment_id = own.id;
      action_type = course.action;
      actor_user_id = some m.actor.user_id;
      service_principal = none;
      reason = course.failure_reason;
      previous_assignment_id = none;
      from_status = BatchStatus.assigned;
      to_status = course.moves_to;
      assignment_version = (own.version + 1) % 2 ^ 32;
      command_id = c.call.command_id;
      occurred_at = assign_at c m;
      correlation_id = m.correlation_id;
    }

    abbrev event_data : EventPayload
    event_data =
        EventPayload.collection course.event
          (record {
            event_id = c.call.event_id;
            command_id = c.call.command_id;
            batch_id = before.id;
            batch_version = before.version + 1;
            claim_epoch = print_int before.claim_epoch;
            occurred_at = assign_at c m;
            correlation_id = m.correlation_id;
          })
          (record {
            assignment_id = own.id;
            handoff_id = c.handoff_id;
            collector_user_id = own.collector_user_id;
            collector_org_id = own.collector_org_id;
            collector_scope_id = own.collector_scope_id;
            pickup_occurred_at = course.occurred_at;
            pickup_status = course.pickup_status;
            recorded_at = assign_at c m;
            failure_reason = course.failure_reason;
            actual_item_count =
                Option.map (λ (r : HandoffRequest). r.actual_item_count) course.handed_over;
            verification_hash = hash_row;
          })

    abbrev pub answered : AssignmentMutationResult
    answered = mutation_result closed_row m.correlation_id c.call.event_id

    -- The store with the rows of the pickup added, and with the given assignments and batches.
    abbrev pub store_after : List BatchAssignment → List Batch → Db → Db
    store_after assignments batches db = record db {
      assignments = assignments;
      batches = batches;
      handoffs = handoff_row ∷ db.handoffs;
      actions = action_row ∷ db.actions;
      audits =
          assignment_audit c m own.id none batch_row course.audit BatchStatus.assigned
            course.moves_to
          ∷ db.audits;
      outbox =
          new_outbox c.call.event_id c.call.command_id batch_row course.event course.topic
            (p.payload_json event_data) m.correlation_id (assign_at c m)
          ∷ db.outbox;
      commands =
          completed (new_command c.call m before.id (assign_at c m)) 200
            (p.assignment_result_json answered) (assign_at c m)
          ∷ db.commands;
    }
