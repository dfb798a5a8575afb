-- ===== src/Claim/Capacity.antt =====
-- The capacity of the recyclers' pools under claims.
-- Source: ReserveCapacity and CreateReservation of src/backend/internal/repository/claim.go.
use team5_ewaste_platform.Common.{
  ℕ, ◌+◌, ◌≤◌, Bool, true, false, ◌&&◌, List, [], ◌∷◌, some, ◌≡◌, ◌≢◌, refl, sym, ◌∙◌, arith, Text,
  text_eq, text_eq_iff, if◌then◌else◌, Bool-cases, inl, inr, Option,
}
use mathlib.Core.Path.{subst}
use team5_ewaste_platform.Store.{Time, Db, find, update, find-update_self, find-update_other}
use team5_ewaste_platform.Store.Allocation.{CapacityPool, CapacityReservation, ReservationStatus}
use team5_ewaste_platform.Dto.{BatchCommandMetadata, ClaimResult}
use team5_ewaste_platform.Platform.{Platform}
use team5_ewaste_platform.Claim.Statements.{match_of, has_pool_id, may_reserve, with_reserved}
use team5_ewaste_platform.Claim.{ClaimCall, claim_at, new_reservation}
use team5_ewaste_platform.Claim.Effects.{Claimed}

abbrev holds_of : Text → CapacityReservation → Bool
holds_of pool_id r =
    text_eq r.capacity_pool_id pool_id
    && elim r.status [ ReservationStatus.reserved ↦ true | ReservationStatus.released ↦ false ]

-- The weight that the reservations of a pool hold, in hundredths.
unfoldable pub outstanding : (Text → ℕ) → Text → List CapacityReservation → ℕ
outstanding cents pool_id [] = 0
outstanding cents pool_id (r ∷ rs) =
    let rest = outstanding cents pool_id rs in
    if holds_of pool_id r then cents r.reserved_kg + rest else rest

-- Each pool's reserved_kg is what its reservations hold, and no more than its total_kg.
unfoldable pub IsWithinCapacity : (Text → ℕ) → List CapacityPool → List CapacityReservation → Type 0
IsWithinCapacity cents pools reservations =
    (pool_id : Text) (q : CapacityPool)
    → find (has_pool_id pool_id) pools ≡ some q
    → (q.reserved_kg ≡ outstanding cents pool_id reservations) × (q.reserved_kg ≤ q.total_kg)

some_inj {ℓ} : {A : Type ℓ} {a b : A} → some a ≡ some b → a ≡ b
some_inj h = cc

module _ (cents : Text → ℕ) (pool_id : Text) (r : CapacityReservation)
    (rs : List CapacityReservation) (held : r.status ≡ ReservationStatus.reserved) where
  outstanding-own :
      r.capacity_pool_id ≡ pool_id
      → outstanding cents pool_id (r ∷ rs) ≡ cents r.reserved_kg + outstanding cents pool_id rs
  unfolding outstanding
  outstanding-own same = ground (arith, (text_eq_iff r.capacity_pool_id pool_id).1 same, held)

  outstanding-other :
      r.capacity_pool_id ≢ pool_id
      → outstanding cents pool_id (r ∷ rs) ≡ outstanding cents pool_id rs
  unfolding outstanding
  outstanding-other apart = elim (Bool-cases (text_eq r.capacity_pool_id pool_id)) [
    | inl same ↦ absurd (apart ((text_eq_iff r.capacity_pool_id pool_id).0 same))
    | inr differs ↦ ground (arith, differs)
  ]

other_pool :
    (i j : Text) (q : CapacityPool) → j ≢ i → has_pool_id i q ≡ true → has_pool_id j q ≡ false
other_pool i j q ne h = elim (Bool-cases (has_pool_id j q)) [
  | inl e ↦ absurd (ne (sym ((text_eq_iff q.id j).0 e) ∙ (text_eq_iff q.id i).0 h))
  | inr e ↦ e
]

-- A reservation that the guard lets pass, with its row.
reserved-IsWithinCapacity :
    (cents : Text → ℕ) (pools pools' : List CapacityPool) (rs : List CapacityReservation)
    (r : CapacityReservation) (org : Text) (at : Time)
    → r.status ≡ ReservationStatus.reserved
    → update
        (has_pool_id r.capacity_pool_id)
        (may_reserve org (cents r.reserved_kg))
        (with_reserved (cents r.reserved_kg) at)
        pools
      ≡ some pools'
    → IsWithinCapacity cents pools rs
    → IsWithinCapacity cents pools' (r ∷ rs)
unfolding IsWithinCapacity
reserved-IsWithinCapacity cents pools pools' rs r org at held e inv pool_id q found =
    let key = has_pool_id r.capacity_pool_id in
    let guard = may_reserve org (cents r.reserved_kg) in
    let change = with_reserved (cents r.reserved_kg) at in
    elim (Bool-cases (text_eq r.capacity_pool_id pool_id)) [
      | inl same ↦
          let own : r.capacity_pool_id ≡ pool_id =
            (text_eq_iff r.capacity_pool_id pool_id).0 same in
          let (b, was, allowed, now) = find-update_self key guard change pools (λ b h. h) e in
          let was_own = subst (λ i. find (has_pool_id i) pools ≡ some b) own was in
          let now_own = subst (λ i. find (has_pool_id i) pools' ≡ some (change b)) own now in
          let is_q : change b ≡ q = some_inj (sym now_own ∙ found) in
          let (sum, bound) = inv pool_id b was_own in
          subst
            (λ x.
              (x.reserved_kg ≡ outstanding cents pool_id (r ∷ rs)) × (x.reserved_kg ≤ x.total_kg))
            is_q
            (
              grind (arith, sum, outstanding-own cents pool_id r rs held own),
              ground (arith, allowed),
            )
      | inr differs ↦
          let apart : pool_id ≢ r.capacity_pool_id =
            λ i. ground (arith, differs, (text_eq_iff r.capacity_pool_id pool_id).1 (sym i)) in
          let was =
            sym (
              find-update_other key (has_pool_id pool_id) guard change pools
                (λ b h. (
                  other_pool r.capacity_pool_id pool_id b apart h,
                  other_pool r.capacity_pool_id pool_id b apart h,
                ))
                e)
            ∙ found in
          let (sum, bound) = inv pool_id q was in
          (sum ∙ sym (outstanding-other cents pool_id r rs held (λ i. apart (sym i))), bound)
    ]

-- A claim of a matched batch keeps every pool within its capacity: reserved_kg stays the sum of what
-- the pool's reservations hold, and stays at most total_kg.
pub Claimed-IsWithinCapacity :
    (p : Platform) (c : ClaimCall) (m : BatchCommandMetadata) (batch_id : Text) (claim_epoch : ℕ)
    (notes : Option Text) (db : Db) (result : ClaimResult) (db' : Db)
    → Claimed p c m batch_id claim_epoch notes db result db'
    → IsWithinCapacity p.decimal_cents db.pools db.reservations
    → IsWithinCapacity p.decimal_cents db'.pools db'.reservations
unfolding new_reservation
Claimed-IsWithinCapacity p c m batch_id claim_epoch notes db result db' d inv =
    subst (λ e. IsWithinCapacity p.decimal_cents e.pools e.reservations) (sym d.final)
      (reserved-IsWithinCapacity p.decimal_cents db.pools d.pools db.reservations
        (new_reservation p c m d.before (match_of d.chosen).capacity_pool_id d.weight_kg)
        m.actor.organisation_id (claim_at p c m) refl d.reserved inv)
