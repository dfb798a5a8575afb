-- ===== src/Assignment/Steps.antt =====
-- The steps that the collectors' transactions share, taken apart.
use mathlib.Core.Path.{subst}
use team5_ewaste_platform.Common.{
  Bool, true, false, ◌&&◌, not, Option, some, List, ◌∷◌, ◌≡◌, refl, arith, Text, text_eq, ◌==◌, ◌%◌,
  ◌^◌, ◌+◌, ◌-◌, to_uint32, ok, AssignmentError, assignment, assignment_batch_not_found,
  assignment_not_found, assignment_concurrency, inl, inr, Option-cases,
}
use team5_ewaste_platform.Store.{
  Time, Batch, BatchStatus, AuditEvent, Db, find, update, Tx, ◌>>=◌, ◌>>◌, bind-eq-ok, fail_if-then,
  pure-ok,
}
use team5_ewaste_platform.Store.Allocation.{BatchAssignment, AssignmentAction}
use team5_ewaste_platform.Store.Statements.{has_id}
use team5_ewaste_platform.Store.Laws.{append_audit-then, BatchUpdated}
use team5_ewaste_platform.Store.Updates.{find_row-then, insert_row-then, update_batch-then}
use team5_ewaste_platform.Dto.{BatchCommandMetadata}
use team5_ewaste_platform.Platform.{Platform}
use team5_ewaste_platform.Assignment.Statements.{
  find_assignment, find_assignment_batch, has_assignment_id, with_progress, update_assignment,
  is_at, moved_row, update_batch_assignment, same_action, create_action, append_assignment_audit,
}
use team5_ewaste_platform.Assignment.Rows.{AssignmentCall}
use team5_ewaste_platform.Assignment.Transaction.{own_assignment, is_current}

not-false : (t : Bool) → not t ≡ false → t ≡ true
not-false t h = ground arith

-- The assignment is the caller's, it is the batch's current one, and the batch is at the version
-- that the caller expects.
pub record IsInCharge (m : BatchCommandMetadata) (assignment_id : Text) (db : Db)
    (a : BatchAssignment) (b : Batch) : Type 0 where
  pub found : find (has_assignment_id assignment_id) db.assignments ≡ some a
  pub found_batch : find (has_id a.batch_id) db.batches ≡ some b
  pub is_own :
      (text_eq a.collector_user_id m.actor.user_id
        && text_eq a.collector_org_id m.actor.organisation_id)
      ≡ true
  pub expected :
      (b.version == to_uint32 m.expected_version && is_current a.id b.current_assignment_id) ≡ true

module _ {ℓ} {B : Type ℓ} (p : Platform) (c : AssignmentCall) (m : BatchCommandMetadata)
    (assignment_id : Text) (db : Db) {x : B × Db} where
  pub own_assignment-then :
      (f : BatchAssignment × Batch → Tx B)
      → (own_assignment p c m assignment_id >>= f) db ≡ ok x
      → (a : BatchAssignment) × (b : Batch) × IsInCharge m assignment_id db a b
        × (f (a, b) db ≡ ok x)
  unfolding own_assignment find_assignment find_assignment_batch
  own_assignment-then f h =
      let (own, d, h0, k) =
        bind-eq-ok (own_assignment p c m assignment_id) f db {b = x.0} {db'' = x.1} h in
      let (a, found, h1) =
        find_row-then assignment_not_found (has_assignment_id assignment_id)
          (λ (e : Db). e.assignments) _ db h0 in
      let (b, found_batch, h2) =
        find_row-then assignment_batch_not_found (has_id a.batch_id) (λ (e : Db). e.batches) _ db
          h1 in
      let (is_own, h3) =
        fail_if-then
          (not (
            text_eq a.collector_user_id m.actor.user_id
            && text_eq a.collector_org_id m.actor.organisation_id))
          (assignment AssignmentError.forbidden) _ db h2 in
      let (expected, h4) =
        fail_if-then
          (not
            (b.version == to_uint32 m.expected_version && is_current a.id b.current_assignment_id))
          (assignment AssignmentError.stale_version) _ db h3 in
      let (same, store) = pure-ok h4 in
      (
        a,
        b,
        record {
          found = found;
          found_batch = found_batch;
          is_own = not-false _ is_own;
          expected = not-false _ expected;
        },
        subst (λ o. f o db ≡ ok x) same (subst (λ e. f own e ≡ ok x) store k),
      )

-- What UpdateAssignment does to the table.
abbrev pub AssignmentUpdated :
    BatchAssignment → List BatchAssignment → List BatchAssignment → Type 0
AssignmentUpdated a rows rows' =
    update (has_assignment_id a.id) (λ b. b.version == (a.version + (2 ^ 32 - 1)) % 2 ^ 32)
      (with_progress a) rows
    ≡ some rows'

module _ {ℓ} {B : Type ℓ} (db : Db) {x : B × Db} where
  update_assignment-then :
      (a : BatchAssignment) (k : Tx B)
      → (update_assignment a >> k) db ≡ ok x
      → (assignments : List BatchAssignment) × AssignmentUpdated a db.assignments assignments
        × (k (record db { assignments = assignments }) ≡ ok x)
  unfolding update_assignment
  update_assignment-then a k h =
      elim (Option-cases (
        update (has_assignment_id a.id) (λ b. b.version == (a.version + (2 ^ 32 - 1)) % 2 ^ 32)
          (with_progress a) db.assignments)) [
            | inl e ↦ absurd (ground (arith, e))
            | inr (rows, e) ↦ (rows, e, ground (arith, e))
          ]

  -- The changes of the assignment and of its batch, with their action and audit rows.
  pub progress-then :
      (a : BatchAssignment) (id : Text) (before : Batch) (from to : BatchStatus)
      (current : Option Text) (now : Time) (action : AssignmentAction) (audit : Batch → AuditEvent)
      (k : Batch → Tx B)
      → find (has_id id) db.batches ≡ some before
      → (update_assignment a
            >> (update_batch_assignment before.id before.version from to current now >>= λ updated.
                create_action action >> (append_assignment_audit (audit updated) >> k updated)))
          db
        ≡ ok x
      → (assignments : List BatchAssignment) × (batches : List Batch) × AssignmentUpdated a
          db.assignments assignments
        × BatchUpdated id db.batches batches before (moved_row to current now before)
        × (is_at before.version from before ≡ true)
        × (k (moved_row to current now before) (record db {
          assignments = assignments;
          batches = batches;
          actions = action ∷ db.actions;
          audits = audit (moved_row to current now before) ∷ db.audits;
        })
            ≡ ok x)
  unfolding update_batch_assignment create_action
  progress-then a id before from to current now action audit k found h =
      let (assignments, changed, k1) = update_assignment-then a _ h in
      let db1 : Db = record db { assignments = assignments } in
      let (batches, updated, allowed, k2) =
        update_batch-then assignment_concurrency id (is_at before.version from)
          (moved_row to current now) db1 (λ b. refl) before found _ k1 in
      let db2 : Db = record db1 { batches = batches } in
      let (_, k3) =
        insert_row-then same_action (λ (d : Db). d.actions) (λ rows d. record d { actions = rows })
          action _ db2 k2 in
      let (_, k4) =
        append_audit-then _ (record db2 { actions = action ∷ db.actions })
          (audit (moved_row to current now before)) k3 in
      (assignments, batches, changed, updated, allowed, k4)
