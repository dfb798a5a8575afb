-- ===== src/Assignment/Guarantees.antt =====
-- What holds between commands: a claim makes an assignment possible, and a pickup ends it.
-- Source: src/backend/internal/service/{claim,assignment}.go.
use team5_ewaste_platform.Common.{
  ℕ, Bool, true, false, ◌&&◌, Option, some, List, [], ◌∷◌, ◌≡◌, refl, sym, ap, ◌∙◌, arith, Text,
  text_eq_iff, text_eq_refl, Bool-cases, inl, inr, Error, Result-cases, ok, err, ◌==◌,
}
use mathlib.Core.Path.{subst}
use team5_ewaste_platform.Store.{Batch, BatchStatus, status_eq, Db, find, find-update_self}
use team5_ewaste_platform.Store.Allocation.{
  BatchClaim, BatchAssignment, CapacityReservation, AssignmentStatus,
}
use team5_ewaste_platform.Store.Statements.{has_id}
use team5_ewaste_platform.Dto.{BatchCommandMetadata, ClaimResult, AssignmentMutationResult}
use team5_ewaste_platform.Platform.{Platform}
use team5_ewaste_platform.Claim.{ClaimCall, claim_at, new_claim, new_reservation}
use team5_ewaste_platform.Claim.Statements.{approved_row, match_of}
use team5_ewaste_platform.Claim.Effects.{Claimed}
use team5_ewaste_platform.Assignment.Statements.{
  has_assignment_id, with_progress, find_claim_of, find_accepted_claim_reservation,
}
use team5_ewaste_platform.Assignment.Rows.{AssignmentCall, Pickup, closed_status, closed_assignment}
use team5_ewaste_platform.Assignment.Transaction.{is_status, pickup_new}
use team5_ewaste_platform.Assignment.Effects.{PickedUp, pickup_new-PickedUp}

-- A claim that stands first is found, with its reservation.
backing_found :
    (p : Platform) (c : ClaimCall) (m : BatchCommandMetadata) (before : Batch) (epoch : ℕ)
    (notes : Option Text) (pool_id weight_kg : Text) (db : Db) (claims : List BatchClaim)
    (reservations : List CapacityReservation)
    → (before.claim_epoch == epoch) ≡ true
    → db.claims ≡ new_claim p c m before epoch notes ∷ claims
    → db.reservations ≡ new_reservation p c m before pool_id weight_kg ∷ reservations
    → find_accepted_claim_reservation (approved_row c.claim_id (claim_at p c m) before) db
      ≡ ok
          ((new_claim p c m before epoch notes, new_reservation p c m before pool_id weight_kg), db)
unfolding find_accepted_claim_reservation find_claim_of find new_claim new_reservation
backing_found p c m before epoch notes pool_id weight_kg db claims reservations same first_claim
      first_reservation =
    ground
      (arith, first_claim, first_reservation, text_eq_refl c.claim_id, text_eq_refl before.id, same)

-- A claim that was no replay leaves the batch approved, and what a collector's selection requires of
-- its claim, to be accepted and to have a reservation: the look for these finds the claim that was made,
-- for the recycler who made it, and that claim's reservation for the batch, and changes nothing.
pub Claimed-IsBacked :
    (p : Platform) (c : ClaimCall) (m : BatchCommandMetadata) (batch_id : Text) (epoch : ℕ)
    (notes : Option Text) (db : Db) (result : ClaimResult) (db' : Db)
    → Claimed p c m batch_id epoch notes db result db'
    → (b : Batch) × (claim : BatchClaim) × (reservation : CapacityReservation) × (find
          (has_id batch_id)
          db'.batches
        ≡ some b)
      × (b.status ≡ BatchStatus.approved)
      × (claim.id ≡ c.claim_id)
      × (claim.recycler_org_id ≡ m.actor.organisation_id)
      × (reservation.claim_id ≡ c.claim_id)
      × (reservation.batch_id ≡ b.id)
      × (find_accepted_claim_reservation b db' ≡ ok ((claim, reservation), db'))
unfolding new_claim new_reservation
Claimed-IsBacked p c m batch_id epoch notes db result db' d = (
  approved_row c.claim_id (claim_at p c m) d.before,
  new_claim p c m d.before epoch notes,
  new_reservation p c m d.before (match_of d.chosen).capacity_pool_id d.weight_kg,
  ap (λ e. find (has_id batch_id) e.batches) d.final ∙ d.updated.now_found,
  refl,
  refl,
  refl,
  refl,
  refl,
  backing_found p c m d.before epoch notes (match_of d.chosen).capacity_pool_id d.weight_kg db'
      db.claims db.reservations (ground (arith, d.claimable)) (ap (λ e. e.claims) d.final)
      (ap (λ e. e.reservations) d.final),
)

some_inj {ℓ} : {A : Type ℓ} {a b : A} → some a ≡ some b → a ≡ b
some_inj h = cc

assignment_key :
    (id : Text) (rows : List BatchAssignment) {a : BatchAssignment}
    → find (has_assignment_id id) rows ≡ some a
    → a.id ≡ id
unfolding find
assignment_key id [] h = cc
assignment_key id (r ∷ rows) {a} h = elim (Bool-cases (has_assignment_id id r)) [
  | inl found ↦ ground (arith, text_eq_iff r.id id)
  | inr later ↦ assignment_key id rows {a = a} (ground arith)
]

closed_not_accepted :
    (pickup : Pickup) → is_status (closed_status pickup) AssignmentStatus.accepted ≡ false
closed_not_accepted (Pickup.collected r) = refl
closed_not_accepted (Pickup.failed r) = refl

-- The assignment that a pickup has closed, as the store then holds it.
PickedUp-row :
    (p : Platform) (c : AssignmentCall) (m : BatchCommandMetadata) (assignment_id : Text) (db : Db)
    (result : AssignmentMutationResult) (db' : Db) (pickup : Pickup)
    → PickedUp p c m assignment_id db result db' pickup
    → (a : BatchAssignment) × (find (has_assignment_id assignment_id) db'.assignments ≡ some a)
      × (a.assignment_status ≡ closed_status pickup)
unfolding closed_assignment
PickedUp-row p c m assignment_id db result db' pickup d =
    let a = closed_assignment c m pickup d.own in
    let (r, was, allowed, now) =
      find-update_self (has_assignment_id a.id) _ (with_progress a) db.assignments (λ r h. h)
        d.closed in
    (
      with_progress a r,
      ap (λ e. find (has_assignment_id assignment_id) e.assignments) d.final
          ∙ subst (λ i. find (has_assignment_id i) d.assignments ≡ some (with_progress a r))
              (assignment_key assignment_id db.assignments d.in_charge.found) now,
      refl,
    )

true-ne-false : {b : Bool} → b ≡ false → b ≡ true → ⊥
true-ne-false h k = cc

-- An assignment is picked up once: after its handoff or its failed pickup has been recorded, no
-- collector's attempt to record another one succeeds.
pub PickedUp-once :
    (p : Platform) (c again : AssignmentCall) (m n : BatchCommandMetadata) (assignment_id : Text)
    (db : Db) (result : AssignmentMutationResult) (db' : Db) (pickup other : Pickup)
    → PickedUp p c m assignment_id db result db' pickup
    → (e : Error) × (pickup_new p again n assignment_id other db' ≡ err e)
PickedUp-once p c again m n assignment_id db result db' pickup other d =
    elim (Result-cases (pickup_new p again n assignment_id other db')) [
      | inr refused ↦ refused
      | inl ((answer, db''), done) ↦
          let e = pickup_new-PickedUp p again n assignment_id db' answer db'' other done in
          let (a, found, closed) = PickedUp-row p c m assignment_id db result db' pickup d in
          let same : a ≡ e.own = some_inj (sym found ∙ e.in_charge.found) in
          let status : e.own.assignment_status ≡ closed_status pickup =
            ap (λ x. x.assignment_status) (sym same) ∙ closed in
          absurd (
            true-ne-false
              (ap
                  (λ s.
                    is_status s AssignmentStatus.accepted
                    && status_eq e.before.status BatchStatus.assigned)
                  status
                ∙ ap (λ b. b && status_eq e.before.status BatchStatus.assigned)
                    (closed_not_accepted pickup))
              e.was_accepted)
    ]
