-- ===== src/Assignment/Latest.antt =====
-- The last assignment of a batch.
-- Source: FindLatestAssignment of src/backend/internal/repository/assignment.go.
use team5_ewaste_platform.Common.{
  ◌≤◌, Option, none, some, List, [], ◌∷◌, ◌≡◌, refl, arith, Text, Bool, text_eq, true, false, leb,
  ◌⊎◌, inl, inr, All, if◌then◌else◌,
}
use team5_ewaste_platform.Store.Allocation.{BatchAssignment}
use team5_ewaste_platform.Assignment.Statements.{latest, newer}

abbrev IsIn : BatchAssignment → List BatchAssignment → Type 0
IsIn a [] = ⊥
IsIn a (r ∷ rows) = (a ≡ r) ⊎ IsIn a rows

-- No assignment of the batch has a higher sequence than `a`, which is one of them; or there is none.
unfoldable pub IsLatest : Text → List BatchAssignment → Option BatchAssignment → Type 0
IsLatest batch_id rows none = All (λ r. text_eq r.batch_id batch_id ≡ false) rows
IsLatest batch_id rows (some a) =
    IsIn a rows
    × (text_eq a.batch_id batch_id ≡ true)
    × All (λ r. text_eq r.batch_id batch_id ≡ true → r.assignment_sequence ≤ a.assignment_sequence)
        rows

module _ (batch_id : Text) (a : BatchAssignment) where
  none_higher :
      (rows : List BatchAssignment)
      → All (λ r. text_eq r.batch_id batch_id ≡ false) rows
      → All
          (λ r. text_eq r.batch_id batch_id ≡ true → r.assignment_sequence ≤ a.assignment_sequence)
          rows
  none_higher [] h = tt
  none_higher (r ∷ rows) h = (λ same. absurd (ground (arith, h.0, same)), none_higher rows h.1)

  still_highest :
      (b : BatchAssignment) (rows : List BatchAssignment)
      → b.assignment_sequence ≤ a.assignment_sequence
      → All
          (λ r. text_eq r.batch_id batch_id ≡ true → r.assignment_sequence ≤ b.assignment_sequence)
          rows
      → All
          (λ r. text_eq r.batch_id batch_id ≡ true → r.assignment_sequence ≤ a.assignment_sequence)
          rows
  still_highest b [] le h = tt
  still_highest b (r ∷ rows) le h =
      (λ same. omega (arith, h.0 same, le), still_highest b rows le h.1)

  higher-IsLatest :
      (rows : List BatchAssignment) (b : BatchAssignment) (higher : Bool)
      → leb b.assignment_sequence a.assignment_sequence ≡ higher
      → text_eq a.batch_id batch_id ≡ true
      → IsLatest batch_id rows (some b)
      → IsLatest batch_id (a ∷ rows) (some (if higher then a else b))
  unfolding IsLatest
  higher-IsLatest rows b true e own h =
      (inl refl, own, ((λ same. omega arith), still_highest b rows (ground (arith, e)) h.2))
  higher-IsLatest rows b false e own h = (inr h.0, h.1, ((λ same. ground (arith, e)), h.2))

  own-IsLatest :
      (rows : List BatchAssignment) (rest : Option BatchAssignment)
      → text_eq a.batch_id batch_id ≡ true
      → IsLatest batch_id rows rest
      → IsLatest batch_id (a ∷ rows) (some (newer a rest))
  unfolding IsLatest
  own-IsLatest rows none own h = (inl refl, own, ((λ same. omega arith), none_higher rows h))
  own-IsLatest rows (some b) own h =
      higher-IsLatest rows b (leb b.assignment_sequence a.assignment_sequence) refl own h

  other-IsLatest :
      (rows : List BatchAssignment) (rest : Option BatchAssignment)
      → text_eq a.batch_id batch_id ≡ false
      → IsLatest batch_id rows rest
      → IsLatest batch_id (a ∷ rows) rest
  unfolding IsLatest
  other-IsLatest rows none other h = (other, h)
  other-IsLatest rows (some b) other h =
      (inr h.0, h.1, ((λ same. absurd (ground (arith, other, same))), h.2))

  either-IsLatest :
      (rows : List BatchAssignment) (rest : Option BatchAssignment) (own : Bool)
      → text_eq a.batch_id batch_id ≡ own
      → IsLatest batch_id rows rest
      → IsLatest batch_id (a ∷ rows) (if own then some (newer a rest) else rest)
  either-IsLatest rows rest true e h = own-IsLatest rows rest e h
  either-IsLatest rows rest false e h = other-IsLatest rows rest e h

-- The look for the last assignment of a batch finds one of the batch's assignments that no other
-- exceeds in sequence, and finds none just when the batch has no assignment.
pub latest-IsLatest :
    (batch_id : Text) (rows : List BatchAssignment) → IsLatest batch_id rows (latest batch_id rows)
unfolding latest IsLatest
latest-IsLatest batch_id [] = tt
latest-IsLatest batch_id (a ∷ rows) =
    either-IsLatest batch_id a rows (latest batch_id rows) (text_eq a.batch_id batch_id) refl
      (latest-IsLatest batch_id rows)
