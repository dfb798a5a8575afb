-- ===== src/Common/Errors.antt =====
-- The error values of packages repository and service, and the result of a fallible call.
-- Source: src/backend/internal/repository/{batch,outbox}.go,
-- src/backend/internal/service/{batch,claim,assignment}_errors.go.
use Prim.Native.String.{String}
use mathlib.Core.Path.{◌≡◌, refl}
use mathlib.Core.Logic.{◌⊎◌, inl, inr}
use mathlib.Core.Bool.{Bool, true, false}
use mathlib.Core.List.{List}

-- What the store reports; `duplicate_key` is the driver's answer to a broken unique key.
pub data StoreError : Type 0 where
  batch_not_found command_not_found batch_concurrency command_concurrency : StoreError
  actor_not_eligible receipt_not_found evidence_not_found duplicate_key : StoreError
  outbox_event_not_found outbox_lease_lost outbox_invalid_size outbox_invalid_lease : StoreError
  claim_batch_not_found claim_opportunity_not_found claim_pool_not_found : StoreError
  claim_concurrency claim_actor_not_eligible : StoreError
  assignment_batch_not_found assignment_not_found assignment_scope_not_found : StoreError
  assignment_claim_not_found assignment_concurrency assignment_actor_not_eligible : StoreError

-- `BatchValidationError.Fields`
abbrev pub Fields : Type 0
Fields = List (String × String)

-- The errors of claim_errors.go.
pub data ClaimError : Type 0 where
  forbidden invalid stale_version invalid_state opportunity_not_found : ClaimError
  idempotency_conflict in_progress concurrent capacity lease_unavailable decode_replay : ClaimError

-- The errors of assignment_errors.go.
pub data AssignmentError : Type 0 where
  forbidden not_found invalid_state stale_version invalid idempotency_conflict : AssignmentError
  in_progress concurrent decode_replay : AssignmentError

pub data Error : Type 0 where
  forbidden invalid_state stale_version idempotency_conflict in_progress : Error
  batch_evidence_not_found decode_replay cancelled : Error
  validation : Fields → Error
  store : StoreError → Error
  claim : ClaimError → Error
  assignment : AssignmentError → Error

pub data Result {ℓ} (A : Type ℓ) : Type ℓ where
  ok : A → Result A
  err : Error → Result A

pub err-ne-ok {ℓ} : {A : Type ℓ} {e : Error} {a : A} → err e ≡ ok a → ⊥
err-ne-ok h = cc

pub Result-cases {ℓ} :
    {A : Type ℓ} (r : Result A) → ((a : A) × (r ≡ ok a)) ⊎ ((e : Error) × (r ≡ err e))
Result-cases (err e) = inr (e, refl)
Result-cases (ok a) = inl (a, refl)

-- The two forms of a guard: `if test { return e }` and `if !test { return e }`.
abbrev pub refuse_if : Bool → Error → Result (Unit {0})
refuse_if true e = err e
refuse_if false e = ok tt

abbrev pub require : Bool → Error → Result (Unit {0})
require false e = err e
require true e = ok tt

-- `if err != nil { return err }` between two calls.
infixl 5 ◌>>=◌ ◌>>◌
abbrev pub ◌>>=◌ {ℓ κ} : {A : Type ℓ} {B : Type κ} → Result A → (A → Result B) → Result B
err e >>= next = err e
ok a >>= next = next a

abbrev pub ◌>>◌ {ℓ} : {B : Type ℓ} → Result (Unit {0}) → Result B → Result B
first >> next = first >>= λ _. next

pub >>=-eq-ok {ℓ κ} :
    {A : Type ℓ} {B : Type κ} (r : Result A) (next : A → Result B) {b : B}
    → (r >>= next) ≡ ok b
    → (a : A) × (r ≡ ok a) × (next a ≡ ok b)
>>=-eq-ok (err e) next h = cc
>>=-eq-ok (ok a) next h = (a, refl, h)
