-- ===== src/Assignment/Pickups.antt =====
-- What a recorded pickup writes, row by row.
-- Source: recordPickup of src/backend/internal/service/assignment.go.
use mathlib.Core.Path.{subst}
use team5_ewaste_platform.Common.{
  ◌≤◌, Bool, true, false, ◌&&◌, some, List, [], ◌∷◌, ◌≡◌, ◌≢◌, refl, sym, ap, ◌∙◌, arith, Text, ok,
  text_eq_iff, Bool-cases, inl, inr,
}
use team5_ewaste_platform.Store.{
  Batch, BatchStatus, status_eq, update, Db, find, find-update_self, find-update_other,
}
use team5_ewaste_platform.Store.Statements.{has_id}
use team5_ewaste_platform.Store.Allocation.{BatchAssignment, AssignmentStatus}
use team5_ewaste_platform.Dto.{BatchCommandMetadata, AssignmentMutationResult, HandoffRequest}
use team5_ewaste_platform.Platform.{Platform}
use team5_ewaste_platform.Assignment.Statements.{has_assignment_id, with_progress, moved_row}
use team5_ewaste_platform.Assignment.Rows.{
  AssignmentCall, Pickup, assign_at, closed_assignment, new_action, new_handoff, collection_payload,
  to_status,
}
use team5_ewaste_platform.Assignment.Transaction.{is_status, is_early, pickup_new}
use team5_ewaste_platform.Assignment.Steps.{IsInCharge, AssignmentUpdated}
use team5_ewaste_platform.Assignment.Effects.{PickedUp, pickup_new-PickedUp}
use team5_ewaste_platform.Assignment.Courses.{
  Course, course_of, closed_row, batch_row, answered, store_after,
}

-- The assignment rows that another identifier finds stay.
others-kept :
    (a : BatchAssignment) (guard : BatchAssignment → Bool) (rows : List BatchAssignment)
    {rows' : List BatchAssignment} (other : Text)
    → other ≢ a.id
    → update (has_assignment_id a.id) guard (with_progress a) rows ≡ some rows'
    → find (has_assignment_id other) rows' ≡ find (has_assignment_id other) rows
others-kept a guard rows other ne =
    find-update_other (has_assignment_id a.id) (has_assignment_id other) guard (with_progress a)
      rows λ r h. (apart r h, apart r h)
  where
    apart :
        (r : BatchAssignment) → has_assignment_id a.id r ≡ true → has_assignment_id other r ≡ false
    apart r h = elim (Bool-cases (has_assignment_id other r)) [
      | inl e ↦ absurd (ne (sym ((text_eq_iff r.id other).0 e) ∙ (text_eq_iff r.id a.id).0 h))
      | inr e ↦ e
    ]

some_inj {ℓ} : {A : Type ℓ} {a b : A} → some a ≡ some b → a ≡ b
some_inj h = cc

own_key :
    (id : Text) (rows : List BatchAssignment) {a : BatchAssignment}
    → find (has_assignment_id id) rows ≡ some a
    → a.id ≡ id
unfolding find
own_key id [] h = cc
own_key id (r ∷ rows) {a} h = elim (Bool-cases (has_assignment_id id r)) [
  | inl here ↦ ground (arith, text_eq_iff r.id id)
  | inr later ↦ own_key id rows {a = a} (ground arith)
]

module _ (p : Platform) (c : AssignmentCall) (m : BatchCommandMetadata) (assignment_id : Text)
    (db : Db) (result : AssignmentMutationResult) (db' : Db) where
  -- A pickup of the given course that was recorded: who did it, and all that it changed.
  pub record IsRecorded (course : Course) : Type 0 where
    pub own : BatchAssignment
    pub before : Batch
    pub in_charge : IsInCharge m assignment_id db own before
    pub was_accepted : own.assignment_status ≡ AssignmentStatus.accepted
    pub was_assigned : before.status ≡ BatchStatus.assigned
    pub not_early :
        (r : HandoffRequest) → course.handed_over ≡ some r → own.assigned_at ≤ r.pickup_occurred_at
    pub assignment_now :
        find (has_assignment_id assignment_id) db'.assignments
        ≡ some (closed_row p c m course own before)
    pub other_assignments :
        (other : Text)
        → other ≢ assignment_id
        → find (has_assignment_id other) db'.assignments
          ≡ find (has_assignment_id other) db.assignments
    pub batch_now :
        find (has_id own.batch_id) db'.batches ≡ some (batch_row p c m course own before)
    pub other_batches :
        (other : Text)
        → other ≢ own.batch_id
        → find (has_id other) db'.batches ≡ find (has_id other) db.batches
    pub answer : result ≡ answered p c m course own before
    pub rows : db' ≡ store_after p c m course own before db'.assignments db'.batches db

  status_accepted :
      (s : AssignmentStatus)
      → is_status s AssignmentStatus.accepted ≡ true
      → s ≡ AssignmentStatus.accepted
  status_accepted AssignmentStatus.accepted h = refl
  status_accepted _ h = cc

  status_assigned :
      (s : BatchStatus) → status_eq s BatchStatus.assigned ≡ true → s ≡ BatchStatus.assigned
  status_assigned BatchStatus.assigned h = refl
  status_assigned _ h = cc

  both : (t u : Bool) → (t && u) ≡ true → (t ≡ true) × (u ≡ true)
  both t u h = (ground arith, ground arith)

  was_on_time :
      (pickup : Pickup) (a : BatchAssignment) (r : HandoffRequest)
      → is_early p c m pickup a ≡ false
      → (course_of p c m pickup).handed_over ≡ some r
      → a.assigned_at ≤ r.pickup_occurred_at
  was_on_time (Pickup.collected r) a s h e = ground (arith, some_inj e)
  was_on_time (Pickup.failed r) a s h e = cc

  closed-row :
      (pickup : Pickup) (own : BatchAssignment) (before : Batch)
      → with_progress (closed_assignment c m pickup own) own
        ≡ closed_row p c m (course_of p c m pickup) own before
  unfolding closed_assignment
  closed-row (Pickup.collected r) own before = refl
  closed-row (Pickup.failed r) own before = refl

  closed-found :
      (a own : BatchAssignment) {rows : List BatchAssignment}
      → find (has_assignment_id assignment_id) db.assignments ≡ some own
      → a.id ≡ own.id
      → AssignmentUpdated a db.assignments rows
      → find (has_assignment_id assignment_id) rows ≡ some (with_progress a own)
  closed-found a own {rows} found same closed =
      let key : a.id ≡ assignment_id = same ∙ own_key assignment_id db.assignments found in
      let (r, was, allowed, now) =
        find-update_self (has_assignment_id a.id) _ (with_progress a) db.assignments (λ r h. h)
          closed in
      let was_own : find (has_assignment_id assignment_id) db.assignments ≡ some r =
        subst (λ i. find (has_assignment_id i) db.assignments ≡ some r) key was in
      subst (λ i. find (has_assignment_id i) rows ≡ some (with_progress a own)) key
        (now ∙ ap (λ x. some (with_progress a x)) (some_inj (sym was_own ∙ found)))

  -- What a pickup writes is what its course says.
  PickedUp-rows :
      (pickup : Pickup) (d : PickedUp p c m assignment_id db result db' pickup)
      → (moved_row
            (to_status pickup)
            (some (closed_assignment c m pickup d.own).id)
            (assign_at c m)
            d.before
          ≡ batch_row p c m (course_of p c m pickup) d.own d.before)
        × (result ≡ answered p c m (course_of p c m pickup) d.own d.before)
        × (db'
            ≡ store_after p c m (course_of p c m pickup) d.own d.before d.assignments d.batches db)
  unfolding closed_assignment new_action new_handoff collection_payload
  PickedUp-rows (Pickup.collected r) d = (refl, d.answer, d.final)
  PickedUp-rows (Pickup.failed r) d = (refl, d.answer, d.final)

  PickedUp-IsRecorded :
      (pickup : Pickup)
      → PickedUp p c m assignment_id db result db' pickup
      → IsRecorded (course_of p c m pickup)
  PickedUp-IsRecorded pickup d =
      let a = closed_assignment c m pickup d.own in
      let (moved, answer, rows) = PickedUp-rows pickup d in
      let key : d.own.id ≡ assignment_id = own_key assignment_id db.assignments d.in_charge.found in
      let same_id : a.id ≡ d.own.id = unfold closed_assignment in refl in
      let assignments : db'.assignments ≡ d.assignments = ap (λ e. e.assignments) rows in
      let batches : db'.batches ≡ d.batches = ap (λ e. e.batches) rows in
      record {
        own = d.own;
        before = d.before;
        in_charge = d.in_charge;
        was_accepted = status_accepted d.own.assignment_status (both _ _ d.was_accepted).0;
        was_assigned = status_assigned d.before.status (both _ _ d.was_accepted).1;
        not_early = λ r e. was_on_time pickup d.own r d.not_early e;
        assignment_now =
            ap (find (has_assignment_id assignment_id)) assignments
            ∙ closed-found a d.own d.in_charge.found same_id d.closed
            ∙ ap (λ x. some x) (closed-row pickup d.own d.before);
        other_assignments = λ other ne.
            ap (find (has_assignment_id other)) assignments
            ∙ others-kept a _ db.assignments other (λ e. ne (e ∙ same_id ∙ key)) d.closed;
        batch_now =
            ap (find (has_id d.own.batch_id)) batches
            ∙ d.updated.now_found
            ∙ ap (λ x. some x) moved;
        other_batches =
            λ other ne. ap (find (has_id other)) batches ∙ d.updated.others_kept other ne;
        answer = answer;
        rows =
            rows
            ∙ ap (λ l. store_after p c m (course_of p c m pickup) d.own d.before l d.batches db)
                (sym assignments)
            ∙ ap
                (λ l.
                  store_after p c m (course_of p c m pickup) d.own d.before db'.assignments l db)
                (sym batches);
      }

  -- A handoff or a failed pickup that succeeds and was no replay was the work of the collector in
  -- charge on an accepted assignment of an assigned batch at the expected version, not before the
  -- assignment was made. A handoff completes the assignment and moves the batch to COLLECTED; a
  -- failed pickup makes the assignment failed and moves the batch to FAILED_COLLECTION. Each raises
  -- both versions, adds the handoff, the action, the audit row, the event and the completed command
  -- of its kind, and changes nothing else.
  pub pickup_new-IsRecorded :
      (pickup : Pickup)
      → pickup_new p c m assignment_id pickup db ≡ ok (result, db')
      → IsRecorded (course_of p c m pickup)
  pickup_new-IsRecorded pickup h =
      PickedUp-IsRecorded pickup (pickup_new-PickedUp p c m assignment_id db result db' pickup h)
