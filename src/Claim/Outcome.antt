-- ===== src/Claim/Outcome.antt =====
-- Claims as wholes, with what happens around their transactions.
-- Source: `Claim` of src/backend/internal/service/claim.go.
use mathlib.Core.Path.{subst}
use team5_ewaste_platform.Common.{
  ℕ, Bool, Option, none, some, true, false, ◌≡◌, sym, Text, Error, Result, ok, err, inl, inr,
}
use team5_ewaste_platform.Store.{Db, Tx, transaction, transaction-keeps}
use team5_ewaste_platform.Dto.{BatchCommandMetadata, ClaimRequest, ClaimResult}
use team5_ewaste_platform.Platform.{Platform}
use team5_ewaste_platform.Lease.{LeaseResult}
use team5_ewaste_platform.Claim.Prepare.{prepare_claim}
use team5_ewaste_platform.Claim.Effects.{Claimed}
use team5_ewaste_platform.Claim.Replay.{
  resolve_replay-Answerable, resolve_replay-none, claim_transaction-ok,
}
use team5_ewaste_platform.Claim.{
  ClaimCall, Surroundings, last_answer, finish, run_transaction, renewed, acquire_and_run,
  or_answered, resolve_replay, claim_transaction, run_claim, claim_batch,
}

resolve-same :
    (p : Platform) (m : BatchCommandMetadata) (db : Db) (o : Option ClaimResult) {db' : Db}
    → resolve_replay p m db ≡ ok (o, db')
    → db' ≡ db
resolve-same p m db none h = resolve_replay-none p m db h
resolve-same p m db (some result) h = (resolve_replay-Answerable p m db h).1

module _ {ℓ} (P : Db → Type ℓ) (p : Platform) (s : Surroundings)
    (claim_kept : (db : Db) → P db → P (s.before_claim db))
    (resolve_kept : (db : Db) → P db → P (s.before_resolve db)) where
  resolved-keeps :
      (m : BatchCommandMetadata) (db : Db) → P db → P (transaction (resolve_replay p m) db).1
  resolved-keeps m db h =
      transaction-keeps P (resolve_replay p m) db h
        λ o db' e. subst P (sym (resolve-same p m db o e)) h

  last_answer-keeps :
      (m : BatchCommandMetadata) (e : Error) (x : Result (Option ClaimResult) × Db)
      → P x.1
      → P (last_answer p s m e x).1
  last_answer-keeps m e (ok none, db) h = h
  last_answer-keeps m e (ok (some r), db) h = h
  last_answer-keeps m e (err x, db) h = h

  finish-keeps :
      (m : BatchCommandMetadata) (x : Result ClaimResult × Db) → P x.1 → P (finish p s m x).1
  unfolding finish
  finish-keeps m (ok r, db) h = h
  finish-keeps m (err e, db) h =
      last_answer-keeps m e _ (resolved-keeps m (s.before_resolve db) (resolve_kept db h))

  run_transaction-keeps :
      (m : BatchCommandMetadata) (was_cancelled : Bool) (body : Tx ClaimResult) (db : Db)
      → P db
      → ((r : ClaimResult) (db' : Db) → body db ≡ ok (r, db') → P db')
      → P (renewed p s m (run_transaction p s m was_cancelled body db)).1
  unfolding renewed run_transaction
  run_transaction-keeps m true body db h commits = h
  run_transaction-keeps m false body db h commits = transaction-keeps P body db h commits

  acquire_and_run-keeps :
      (m : BatchCommandMetadata) (configured : Bool) (acquired : LeaseResult)
      (body : Tx ClaimResult) (db : Db)
      → P db
      → ((d : Db) (r : ClaimResult) (d' : Db) → P d → body d ≡ ok (r, d') → P d')
      → P (acquire_and_run p s m configured acquired body db).1
  unfolding acquire_and_run
  acquire_and_run-keeps m false acquired body db h commits = h
  acquire_and_run-keeps m true LeaseResult.busy body db h commits = h
  acquire_and_run-keeps m true LeaseResult.unavailable body db h commits = h
  acquire_and_run-keeps m true LeaseResult.lost body db h commits = h
  acquire_and_run-keeps m true LeaseResult.done body db h commits =
      let started = claim_kept db h in
      finish-keeps m _ (
        run_transaction-keeps m s.is_cancelled body (s.before_claim db) started
          λ r d e. commits (s.before_claim db) r d started e)

  or_answered-keeps :
      (m : BatchCommandMetadata) (body : Tx ClaimResult) (x : Result (Option ClaimResult) × Db)
      → P x.1
      → ((d : Db) (r : ClaimResult) (d' : Db) → P d → body d ≡ ok (r, d') → P d')
      → P (or_answered p s m body x).1
  unfolding or_answered
  or_answered-keeps m body (ok (some r), db) h commits = h
  or_answered-keeps m body (err e, db) h commits = h
  or_answered-keeps m body (ok none, db) h commits =
      acquire_and_run-keeps m s.has_leases s.acquired body db h commits

  run_claim-keeps :
      (c : ClaimCall) (batch_id : Text) (notes : Option Text)
      (prepared : Result (BatchCommandMetadata × ℕ)) (db : Db)
      → ((m : BatchCommandMetadata) (epoch : ℕ) (d : Db) (r : ClaimResult) (d' : Db)
          → Claimed p c m batch_id epoch notes d r d'
          → P d
          → P d')
      → P db
      → P (run_claim p s c batch_id notes prepared db).1
  unfolding run_claim
  run_claim-keeps c batch_id notes (err e) db keeps h = h
  run_claim-keeps c batch_id notes (ok (m, epoch)) db keeps h =
      or_answered-keeps m (claim_transaction p c m batch_id epoch notes) _ (resolved-keeps m db h)
        λ d r d' k e. elim (claim_transaction-ok p c m batch_id epoch notes d e).1 [
          | inl (same, found) ↦ subst P (sym same) k
          | inr done ↦ keeps m epoch d r d' done k
        ]

-- What holds of the store before a claim holds of it afterwards, whatever the claim's outcome, if a
-- claim of a matched batch keeps it and what others do in between keeps it.
pub claim_batch-keeps {ℓ} :
    (P : Db → Type ℓ) (p : Platform) (s : Surroundings) (c : ClaimCall) (batch_id : Text)
    (request : ClaimRequest) (m : BatchCommandMetadata) (db : Db)
    → ((d : Db) → P d → P (s.before_claim d))
    → ((d : Db) → P d → P (s.before_resolve d))
    → ((n : BatchCommandMetadata) (epoch : ℕ) (d : Db) (r : ClaimResult) (d' : Db)
        → Claimed p c n batch_id epoch request.notes d r d'
        → P d
        → P d')
    → P db
    → P (claim_batch p s c batch_id request m db).1
unfolding claim_batch
claim_batch-keeps P p s c batch_id request m db k1 k2 keeps h =
    run_claim-keeps P p s k1 k2 c batch_id request.notes (prepare_claim p batch_id request m) db
      keeps h
