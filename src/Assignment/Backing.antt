-- ===== src/Assignment/Backing.antt =====
-- The claim behind a batch, and the steps of a selection that no other command has.
-- Source: src/backend/internal/{repository,service}/assignment.go.
use mathlib.Core.Path.{subst}
use team5_ewaste_platform.Common.{
  Option, none, some, List, [], ◌∷◌, ◌++◌, ◌≡◌, refl, arith, Text, text_eq_refl, codes, ok,
  assignment_claim_not_found,
}
use team5_ewaste_platform.Store.{
  Batch, BatchStatus, Command, Db, find, update, Tx, ◌>>=◌, ◌>>◌, bind-eq-ok, run-then, pure-ok,
}
use team5_ewaste_platform.Store.Allocation.{
  BatchClaim, CapacityReservation, BatchAssignment, AssignmentAction, ActionType,
}
use team5_ewaste_platform.Store.Updates.{find_row-then, insert_row-then}
use team5_ewaste_platform.Dto.{BatchCommandMetadata}
use team5_ewaste_platform.Platform.{Platform}
use team5_ewaste_platform.Assignment.Statements.{
  is_current_claim, backs_claim, find_claim_of, find_accepted_claim_reservation,
  link_command_assignment, same_action, create_action,
}
use team5_ewaste_platform.Assignment.Rows.{AssignmentCall, new_action}
use team5_ewaste_platform.Assignment.Transaction.{record_reassignment}

-- The batch's current claim is accepted, and its reservation is held.
pub record IsBacked (b : Batch) (current : Option Text) (db : Db) (accepted : BatchClaim)
    (reservation : CapacityReservation) : Type 0 where
  pub claim_id : Text
  pub is_set : current ≡ some claim_id
  pub found : find (is_current_claim b claim_id) db.claims ≡ some accepted
  pub held : find (backs_claim b accepted) db.reservations ≡ some reservation

find_claim_of-ok :
    (b : Batch) (current : Option Text) (db : Db) {r : BatchClaim × CapacityReservation} {db' : Db}
    → find_claim_of b current db ≡ ok (r, db')
    → IsBacked b current db r.0 r.1 × (db' ≡ db)
unfolding find_claim_of
find_claim_of-ok b none db h = cc
find_claim_of-ok b (some claim_id) db h =
    let (accepted, found, k1) =
      find_row-then assignment_claim_not_found (is_current_claim b claim_id) (λ (d : Db). d.claims)
        _ db h in
    let (reservation, held, k2) =
      find_row-then assignment_claim_not_found (backs_claim b accepted) (λ (d : Db). d.reservations)
        _ db k1 in
    (
      record {
        claim_id = claim_id;
        is_set = refl;
        found = ground (arith, found, k2);
        held = ground (arith, held, k2);
      },
      (pure-ok k2).1,
    )

pub IsBacked-then {ℓ} :
    {B : Type ℓ} {x : B × Db} (b : Batch) (f : BatchClaim × CapacityReservation → Tx B) (db : Db)
    → (find_accepted_claim_reservation b >>= f) db ≡ ok x
    → (accepted : BatchClaim) × (reservation : CapacityReservation) × IsBacked b b.current_claim_id
        db accepted reservation
      × (f (accepted, reservation) db ≡ ok x)
unfolding find_accepted_claim_reservation
IsBacked-then {x = x} b f db h =
    let (r, d, k1, k2) =
      bind-eq-ok (find_claim_of b b.current_claim_id) f db {b = x.0} {db'' = x.1} h in
    let (backed, same) = find_claim_of-ok b b.current_claim_id db k1 in
    (r.0, r.1, backed, subst (λ e. f r e ≡ ok x) same k2)

unfoldable pub linked : Text → Command → Command
linked assignment_id c = record c { assignment_id = some assignment_id }

link-created :
    (c : Command) (assignment_id : Text) (rest : List Command) (db : Db)
    → c.assignment_id ≡ none
    → link_command_assignment c.id assignment_id (record db { commands = c ∷ rest })
      ≡ ok (tt, record db { commands = linked assignment_id c ∷ rest })
unfolding link_command_assignment update linked
link-created c assignment_id rest db free = ground (arith, text_eq_refl c.id, free)

pub link-then {ℓ} :
    {B : Type ℓ} {x : B × Db} (k : Tx B) (c : Command) (assignment_id : Text) (rest : List Command)
    (db : Db)
    → c.assignment_id ≡ none
    → (link_command_assignment c.id assignment_id >> k) (record db { commands = c ∷ rest }) ≡ ok x
    → k (record db { commands = linked assignment_id c ∷ rest }) ≡ ok x
link-then k c assignment_id rest db free h =
    run-then (link_command_assignment c.id assignment_id) (λ _. k) _
      (link-created c assignment_id rest db free) h

module _ (p : Platform) (c : AssignmentCall) (m : BatchCommandMetadata) where
  abbrev pub action_assigned : BatchAssignment → AssignmentAction
  action_assigned a =
      new_action c m c.action_id a ActionType.assigned BatchStatus.approved BatchStatus.assigned
        none a.previous_assignment_id

  -- The action of a replacement, when the batch had an assignment before.
  unfoldable pub reassignments : BatchAssignment → Option Text → List AssignmentAction
  reassignments a none = []
  reassignments a (some previous) =
      new_action c m c.second_action_id a ActionType.reassigned BatchStatus.approved
        BatchStatus.assigned (some (codes "collector replacement")) (some previous)
      ∷ []

  pub record_reassignment-then {ℓ} :
      {B : Type ℓ} {x : B × Db} (k : Tx B) (a : BatchAssignment) (previous : Option Text) (db : Db)
      → (record_reassignment p c m a previous >> k) db ≡ ok x
      → k (record db { actions = reassignments a previous ++ db.actions }) ≡ ok x
  unfolding record_reassignment create_action reassignments
  record_reassignment-then k a none db h = h
  record_reassignment-then k a (some previous) db h =
      (insert_row-then same_action (λ (d : Db). d.actions) (λ rows d. record d { actions = rows }) _
        k db h).1
