-- ===== src/Claim/Guarantees.antt =====
-- What a claim guarantees, alone and in histories. Source: src/backend/internal/service/claim.go.
use team5_ewaste_platform.Common.{
  ℕ, Option, some, List, [], ◌∷◌, ◌≡◌, refl, ap, ◌∙◌, Text, Result, ok, err, ◌⊎◌, inl, inr, All,
}
use team5_ewaste_platform.Store.{Db, settle}
use team5_ewaste_platform.Dto.{BatchCommandMetadata, ClaimRequest, ClaimResult}
use team5_ewaste_platform.Platform.{Platform}
use team5_ewaste_platform.Claim.Prepare.{prepare_claim}
use team5_ewaste_platform.Claim.Capacity.{IsWithinCapacity, Claimed-IsWithinCapacity}
use team5_ewaste_platform.Claim.Replay.{
  Answerable, Answerable-resolve, claim_transaction-Answerable,
}
use team5_ewaste_platform.Claim.Answers.{or_answered-ok}
use team5_ewaste_platform.Claim.Outcome.{claim_batch-keeps}
use team5_ewaste_platform.Claim.{
  ClaimCall, Surroundings, or_answered, resolve_replay, claim_transaction, run_claim, claim_batch,
}

module _ (p : Platform) (s : Surroundings) (c : ClaimCall) (batch_id : Text) (notes : Option Text)
    (db : Db) {result : ClaimResult} {db' : Db} where
  run_claim-ok :
      (prepared : Result (BatchCommandMetadata × ℕ))
      → run_claim p s c batch_id notes prepared db ≡ (ok result, db')
      → (m : BatchCommandMetadata) × (epoch : ℕ) × (prepared ≡ ok (m, epoch))
        × (Answerable p m result db'
            ⊎ (claim_transaction p c m batch_id epoch notes (s.before_claim db) ≡ ok (result, db')))
  unfolding run_claim
  run_claim-ok (err e) h = cc
  run_claim-ok (ok (m, epoch)) h = (
    m,
    epoch,
    refl,
    or_answered-ok p s m result db' (claim_transaction p c m batch_id epoch notes) db
        (resolve_replay p m db) refl h,
  )

  -- The answer of a successful claim stands in the store that it leaves.
  run_claim-Answerable :
      (prepared : Result (BatchCommandMetadata × ℕ))
      → p.read_claim_result (p.claim_result_json result) ≡ some result
      → run_claim p s c batch_id notes prepared db ≡ (ok result, db')
      → (m : BatchCommandMetadata) × (epoch : ℕ) × (prepared ≡ ok (m, epoch))
        × Answerable p m result db'
  run_claim-Answerable prepared laws h =
      let (m, epoch, e, cases) = run_claim-ok prepared h in
      (
        m,
        epoch,
        e,
        elim cases [
          | inl a ↦ a
          | inr done ↦
              claim_transaction-Answerable p c m batch_id epoch notes (s.before_claim db) laws done
        ],
      )

-- A claim whose answer the store holds gives it again.
run_claim-again :
    (p : Platform) (s : Surroundings) (c : ClaimCall) (batch_id : Text) (notes : Option Text)
    (m : BatchCommandMetadata) (epoch : ℕ) (db : Db) (result : ClaimResult)
    → Answerable p m result db
    → run_claim p s c batch_id notes (ok (m, epoch)) db ≡ (ok result, db)
unfolding run_claim or_answered
run_claim-again p s c batch_id notes m epoch db result a =
    ap (λ x. or_answered p s m (claim_transaction p c m batch_id epoch notes) (settle db x))
      (Answerable-resolve p m db result a)

-- A claim that has succeeded and is sent again with the same request and metadata gives the same
-- answer and changes nothing, even when no lease is to be had; the stored response is read back as
-- written.
pub claim_batch-again :
    (p : Platform) (s later : Surroundings) (c again : ClaimCall) (batch_id : Text)
    (request : ClaimRequest) (m : BatchCommandMetadata) (db : Db) {result : ClaimResult} {db' : Db}
    → p.read_claim_result (p.claim_result_json result) ≡ some result
    → claim_batch p s c batch_id request m db ≡ (ok result, db')
    → claim_batch p later again batch_id request m db' ≡ (ok result, db')
unfolding claim_batch
claim_batch-again p s later c again batch_id request m db {result} {db'} laws h =
    let (n, epoch, e, a) =
      run_claim-Answerable p s c batch_id request.notes db (prepare_claim p batch_id request m) laws
        h in
    ap (λ q. run_claim p later again batch_id request.notes q db') e
    ∙ run_claim-again p later again batch_id request.notes n epoch db' result a

-- One claim of a history, with what happens around it.
pub record ClaimStep : Type 0 where
  pub surroundings : Surroundings
  pub call : ClaimCall
  pub batch_id : Text
  pub request : ClaimRequest
  pub metadata : BatchCommandMetadata

unfoldable pub run_claims : Platform → List ClaimStep → Db → Db
unfolding claim_batch
run_claims p [] db = db
run_claims p (x ∷ xs) db =
    run_claims p xs (claim_batch p x.surroundings x.call x.batch_id x.request x.metadata db).1

abbrev pub HasRoom : Platform → Db → Type 0
HasRoom p db = IsWithinCapacity p.decimal_cents db.pools db.reservations

-- What others do around a claim keeps the pools within their capacity.
abbrev pub AreOthersWithinCapacity : Platform → ClaimStep → Type 0
AreOthersWithinCapacity p x =
    ((db : Db) → HasRoom p db → HasRoom p (x.surroundings.before_claim db))
    × ((db : Db) → HasRoom p db → HasRoom p (x.surroundings.before_resolve db))

-- Histories of claims, successful, failing and replayed, keep every capacity pool sound: its
-- reserved weight is what its reservations hold and never exceeds its total, provided that what
-- others do in the course of a claim keeps that.
pub run_claims-IsWithinCapacity :
    (p : Platform) (steps : List ClaimStep) (db : Db)
    → All (AreOthersWithinCapacity p) steps
    → IsWithinCapacity p.decimal_cents db.pools db.reservations
    → IsWithinCapacity p.decimal_cents
        (run_claims p steps db).pools
        (run_claims p steps db).reservations
unfolding run_claims
run_claims-IsWithinCapacity p [] db others h = h
run_claims-IsWithinCapacity p (x ∷ xs) db others h = run_claims-IsWithinCapacity p xs _ others.1 (
    claim_batch-keeps (HasRoom p) p x.surroundings x.call x.batch_id x.request x.metadata db
      others.0.0 others.0.1
      (λ n epoch d r d' done k.
        Claimed-IsWithinCapacity p x.call n x.batch_id epoch x.request.notes d r d' done k)
      h)
