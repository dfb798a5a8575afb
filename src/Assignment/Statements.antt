-- ===== src/Assignment/Statements.antt =====
-- The statements of an assignment's transaction.
-- Source: src/backend/internal/repository/assignment.go.
use team5_ewaste_platform.Common.{
  ℕ, ◌+◌, ◌-◌, ◌%◌, ◌^◌, Bool, true, false, ◌&&◌, ◌||◌, Option, none, some, List, [], ◌∷◌, Text,
  text_eq, ltb, leb, ◌==◌, is_none, if◌then◌else◌, store, ok, err, assignment_batch_not_found,
  assignment_not_found, assignment_scope_not_found, assignment_claim_not_found,
  assignment_concurrency,
}
use team5_ewaste_platform.Store.{
  Time, Batch, BatchStatus, status_eq, Command, AuditEvent, OutboxEvent, Tx, update, ◌>>=◌, pure,
  fail,
}
use team5_ewaste_platform.Store.Allocation.{
  BatchClaim, ClaimStatus, CapacityReservation, ReservationStatus, BatchAssignment,
  AssignmentAction, ActionType, BatchHandoff,
}
use team5_ewaste_platform.Store.Directory.{CollectorScope}
use team5_ewaste_platform.Store.Statements.{
  has_id, find_row, insert_row, create_command, update_batch, complete_command, append_audit,
  enqueue_outbox,
}

abbrev pub create_assignment_command : Command → Tx (Unit {0})
create_assignment_command = create_command

abbrev pub complete_assignment_command : Text → ℕ → Text → Time → Tx (Unit {0})
complete_assignment_command = complete_command assignment_concurrency

abbrev pub append_assignment_audit : AuditEvent → Tx (Unit {0})
append_assignment_audit = append_audit

abbrev pub enqueue_assignment_outbox : OutboxEvent → Tx (Unit {0})
enqueue_assignment_outbox = enqueue_outbox

-- id = ? AND assignment_id IS NULL
unfoldable pub link_command_assignment : Text → Text → Tx (Unit {0})
link_command_assignment command_id assignment_id db =
    elim (update (λ c. text_eq c.id command_id) (λ c. is_none c.assignment_id)
      (λ c. record c { assignment_id = some assignment_id }) db.commands) [
        | none ↦ err (store assignment_concurrency)
        | some commands ↦ ok (tt, record db { commands = commands })
      ]

unfoldable pub find_assignment_batch : Text → Tx Batch
find_assignment_batch batch_id =
    find_row assignment_batch_not_found (has_id batch_id) (λ db. db.batches)

abbrev is_accepted : ClaimStatus → Bool
is_accepted ClaimStatus.accepted = true
is_accepted ClaimStatus.superseded = false
is_accepted ClaimStatus.rejected = false

abbrev is_held : ReservationStatus → Bool
is_held ReservationStatus.reserved = true
is_held ReservationStatus.released = false

abbrev pub is_current_claim : Batch → Text → BatchClaim → Bool
is_current_claim b claim_id c =
    text_eq c.id claim_id
    && text_eq c.batch_id b.id
    && c.claim_epoch == b.claim_epoch
    && is_accepted c.claim_status

abbrev pub backs_claim : Batch → BatchClaim → CapacityReservation → Bool
backs_claim b c r = text_eq r.batch_id b.id && text_eq r.claim_id c.id && is_held r.status

unfoldable pub find_claim_of : Batch → Option Text → Tx (BatchClaim × CapacityReservation)
find_claim_of b none = fail (store assignment_claim_not_found)
find_claim_of b (some claim_id) = do
  c ← find_row assignment_claim_not_found (is_current_claim b claim_id) (λ db. db.claims)
  r ← find_row assignment_claim_not_found (backs_claim b c) (λ db. db.reservations)
  pure (c, r)

unfoldable pub find_accepted_claim_reservation : Batch → Tx (BatchClaim × CapacityReservation)
unfolding find_claim_of
find_accepted_claim_reservation b = find_claim_of b b.current_claim_id

-- valid_until IS NULL OR valid_until > ?
abbrev lasts : Time → Option Time → Bool
lasts now none = true
lasts now (some until) = ltb now until

abbrev pub covers : Text → Text → Text → Text → Time → CollectorScope → Bool
covers scope_id recycler_org_id collector_org_id zone now s =
    text_eq s.id scope_id
    && text_eq s.recycler_org_id recycler_org_id
    && text_eq s.collector_org_id collector_org_id
    && text_eq s.zone zone
    && s.is_active
    && leb s.valid_from now
    && lasts now s.valid_until

unfoldable pub find_collector_scope : Text → Text → Text → Text → Time → Tx CollectorScope
find_collector_scope scope_id recycler_org_id collector_org_id zone now =
    find_row assignment_scope_not_found (covers scope_id recycler_org_id collector_org_id zone now)
      (λ db. db.directory.scopes)

abbrev pub newer : BatchAssignment → Option BatchAssignment → BatchAssignment
newer a none = a
newer a (some b) = if leb b.assignment_sequence a.assignment_sequence then a else b

-- WHERE batch_id = ? ORDER BY assignment_sequence DESC LIMIT 1
unfoldable pub latest : Text → List BatchAssignment → Option BatchAssignment
latest batch_id [] = none
latest batch_id (a ∷ rows) =
    let rest = latest batch_id rows in
    if text_eq a.batch_id batch_id then some (newer a rest) else rest

-- ErrAssignmentNotFound, which the only caller takes for "no assignment", is `none`.
unfoldable pub find_latest_assignment : Text → Tx (Option BatchAssignment)
find_latest_assignment batch_id db = ok (latest batch_id db.assignments, db)

abbrev pub has_assignment_id : Text → BatchAssignment → Bool
has_assignment_id assignment_id a = text_eq a.id assignment_id

unfoldable pub find_assignment : Text → Tx BatchAssignment
find_assignment assignment_id =
    find_row assignment_not_found (has_assignment_id assignment_id) (λ db. db.assignments)

-- The unique keys id, (batch_id, assignment_sequence), and the batch of an assignment
-- that is not closed.
abbrev pub same_assignment : BatchAssignment → BatchAssignment → Bool
same_assignment a b =
    text_eq b.id a.id
    || text_eq b.batch_id a.batch_id && b.assignment_sequence == a.assignment_sequence
    || text_eq b.batch_id a.batch_id && is_none a.closed_at && is_none b.closed_at

unfoldable pub create_assignment : BatchAssignment → Tx (Unit {0})
create_assignment =
    insert_row same_assignment (λ db. db.assignments) (λ rows db. record db { assignments = rows })

-- The columns that UpdateAssignment sets.
abbrev pub with_progress : BatchAssignment → BatchAssignment → BatchAssignment
with_progress a old = record old {
  assignment_status = a.assignment_status;
  rejection_reason = a.rejection_reason;
  responded_at = a.responded_at;
  closed_at = a.closed_at;
  closure_reason = a.closure_reason;
  version = a.version;
  updated_at = a.updated_at;
}

-- version = a.Version-1, a difference of type uint32.
unfoldable pub update_assignment : BatchAssignment → Tx (Unit {0})
update_assignment a db =
    elim (update (has_assignment_id a.id) (λ b. b.version == (a.version + (2 ^ 32 - 1)) % 2 ^ 32)
      (with_progress a) db.assignments) [
        | none ↦ err (store assignment_concurrency)
        | some assignments ↦ ok (tt, record db { assignments = assignments })
      ]

abbrev pub is_at : ℕ → BatchStatus → Batch → Bool
is_at version status b = b.version == version && status_eq b.status status

abbrev pub moved_row : BatchStatus → Option Text → Time → Batch → Batch
moved_row to_status assignment_id now b = record b {
  status = to_status;
  current_assignment_id = assignment_id;
  version = b.version + 1;
  updated_at = now;
}

unfoldable pub update_batch_assignment :
    Text → ℕ → BatchStatus → BatchStatus → Option Text → Time → Tx Batch
unfolding update_batch
update_batch_assignment batch_id expected_version from_status to_status assignment_id now =
    update_batch assignment_concurrency batch_id (is_at expected_version from_status)
      (moved_row to_status assignment_id now)

-- The unique keys id, assignment_id and command_id.
abbrev pub same_handoff : BatchHandoff → BatchHandoff → Bool
same_handoff h k =
    text_eq k.id h.id
    || text_eq k.assignment_id h.assignment_id
    || text_eq k.command_id h.command_id

unfoldable pub create_handoff : BatchHandoff → Tx (Unit {0})
create_handoff =
    insert_row same_handoff (λ db. db.handoffs) (λ rows db. record db { handoffs = rows })

-- `==` on action types, by their place.
abbrev action_code : ActionType → ℕ
action_code ActionType.assigned = 0
action_code ActionType.accepted = 1
action_code ActionType.rejected = 2
action_code ActionType.handoff_recorded = 3
action_code ActionType.pickup_failed = 4
action_code ActionType.reassigned = 5

-- The unique keys id and (command_id, assignment_id, action_type).
abbrev pub same_action : AssignmentAction → AssignmentAction → Bool
same_action a b =
    text_eq b.id a.id
    || text_eq b.command_id a.command_id
      && text_eq b.assignment_id a.assignment_id
      && action_code b.action_type == action_code a.action_type

unfoldable pub create_action : AssignmentAction → Tx (Unit {0})
create_action = insert_row same_action (λ db. db.actions) (λ rows db. record db { actions = rows })
