-- ===== src/Assignment/Tests.antt =====
-- A collector's commands on a small store.
use team5_ewaste_platform.Common.{◌≡◌, refl, codes, ok, err, Error}
use team5_ewaste_platform.Store.{Batch, BatchStatus, find}
use team5_ewaste_platform.Store.Allocation.{BatchClaim, CapacityReservation}
use team5_ewaste_platform.Store.Statements.{has_id}
use team5_ewaste_platform.Common.{none, some}
use team5_ewaste_platform.Claim.Samples as Claims
use team5_ewaste_platform.Claim.Tests.{made}
use team5_ewaste_platform.Assignment.Samples.{
  handoff_call, handoff_request, handoff_prepared, assigned_db, handoff_answer, collected_db,
}
use team5_ewaste_platform.Assignment.Latest.{IsLatest, latest-IsLatest}
use team5_ewaste_platform.Assignment.Statements.{latest}
use team5_ewaste_platform.Assignment.Effects.{PickedUp, pickup_new-PickedUp}
use team5_ewaste_platform.Assignment.Courses.{course_of}
use team5_ewaste_platform.Assignment.Pickups.{IsRecorded, pickup_new-IsRecorded}
use team5_ewaste_platform.Assignment.Guarantees.{Claimed-IsBacked, PickedUp-once}
use team5_ewaste_platform.Common.{text_eq}
use team5_ewaste_platform.Store.Statements.{
  update_batch, find_batch_for_update, create_command, append_audit, enqueue_outbox,
  complete_command,
}
use team5_ewaste_platform.Command.{new_command, new_audit_event, service_principal, strip_prefix}
use team5_ewaste_platform.Batch.View.{new_outbox}
use team5_ewaste_platform.Decimal.{print_int, print_digits}
use team5_ewaste_platform.Store.{find, exists, update}
use team5_ewaste_platform.Assignment.Transaction.{own_assignment, pickup_new}
use team5_ewaste_platform.Assignment.Rows.{
  Pickup, closed_assignment, new_action, assignment_audit, new_handoff, collection_payload, view_of,
  state_for_event, mutation_result,
}
use team5_ewaste_platform.Assignment.Prepare.{lower_hex}
use team5_ewaste_platform.Assignment.Statements.{
  find_assignment_batch, find_accepted_claim_reservation, find_assignment, update_assignment,
  update_batch_assignment, create_handoff, create_action,
}

-- What a handoff computes.
run :
    pickup_new Claims.sample handoff_call handoff_prepared
      (codes "g1")
      (Pickup.collected handoff_request)
      assigned_db
    ≡ ok (handoff_answer, collected_db)
unfolding pickup_new own_assignment closed_assignment new_action assignment_audit new_handoff
    collection_payload view_of state_for_event mutation_result lower_hex find_assignment_batch
    find_assignment update_assignment update_batch_assignment create_handoff create_action
    update_batch find_batch_for_update create_command append_audit enqueue_outbox complete_command
    new_command new_audit_event service_principal strip_prefix new_outbox print_int print_digits
    text_eq find exists update
run = refl

picked_up :
    PickedUp Claims.sample handoff_call handoff_prepared
      (codes "g1")
      assigned_db
      handoff_answer
      collected_db
      (Pickup.collected handoff_request)
picked_up =
    pickup_new-PickedUp Claims.sample handoff_call handoff_prepared (codes "g1") assigned_db
      handoff_answer collected_db (Pickup.collected handoff_request) run

pickup_new-IsRecorded_example :
    IsRecorded Claims.sample handoff_call handoff_prepared
      (codes "g1")
      assigned_db
      handoff_answer
      collected_db
      (course_of Claims.sample handoff_call handoff_prepared (Pickup.collected handoff_request))
pickup_new-IsRecorded_example =
    pickup_new-IsRecorded Claims.sample handoff_call handoff_prepared (codes "g1") assigned_db
      handoff_answer collected_db (Pickup.collected handoff_request) run

PickedUp-once_example :
    (e : Error) × (pickup_new Claims.sample handoff_call handoff_prepared
        (codes "g1")
        (Pickup.collected handoff_request)
        collected_db
      ≡ err e)
PickedUp-once_example =
    PickedUp-once Claims.sample handoff_call handoff_call handoff_prepared handoff_prepared
      (codes "g1") assigned_db handoff_answer collected_db (Pickup.collected handoff_request)
      (Pickup.collected handoff_request) picked_up

Claimed-IsBacked_example :
    (b : Batch) × (claim : BatchClaim) × (reservation : CapacityReservation) × (find
        (has_id (codes "b1"))
        Claims.after.batches
      ≡ some b)
    × (b.status ≡ BatchStatus.approved)
    × (claim.id ≡ codes "k1")
    × (claim.recycler_org_id ≡ codes "r1")
    × (reservation.claim_id ≡ codes "k1")
    × (reservation.batch_id ≡ b.id)
    × (find_accepted_claim_reservation b Claims.after ≡ ok ((claim, reservation), Claims.after))
Claimed-IsBacked_example =
    Claimed-IsBacked Claims.sample Claims.call Claims.prepared (codes "b1") 1 none Claims.db
      Claims.answer Claims.after made

latest-IsLatest_example :
    IsLatest (codes "b1") assigned_db.assignments (latest (codes "b1") assigned_db.assignments)
latest-IsLatest_example = latest-IsLatest (codes "b1") assigned_db.assignments
