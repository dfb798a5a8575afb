-- ===== src/Claim/Quiet.antt =====
-- A claim during which nothing else happens to the store, whatever becomes of its lease.
-- Source: `Claim` of src/backend/internal/service/claim.go.
use mathlib.Core.Path.{subst}
use team5_ewaste_platform.Common.{
  ℕ, Bool, Option, none, some, true, false, ◌≡◌, refl, sym, ap, ◌∙◌, Text, Error, Result, ok, err,
  ◌⊎◌, inl, inr, cancelled, ClaimError, claim,
}
use team5_ewaste_platform.Store.{Db, settle}
use team5_ewaste_platform.Dto.{BatchCommandMetadata, ClaimRequest, ClaimResult}
use team5_ewaste_platform.Platform.{Platform}
use team5_ewaste_platform.Lease.{LeaseResult}
use team5_ewaste_platform.Claim.Prepare.{prepare_claim}
use team5_ewaste_platform.Claim.Effects.{Claimed}
use team5_ewaste_platform.Claim.Replay.{
  Answerable, resolve_replay-Answerable, resolve_replay-none, Answerable-resolve,
  claim_transaction-ok, claim_transaction-Answerable,
}
use team5_ewaste_platform.Claim.{
  ClaimCall, Surroundings, last_answer, finish, run_transaction, renewed, acquire_and_run,
  or_answered, resolve_replay, claim_transaction, run_claim, claim_batch, after_renewal, or_lost,
}

-- Nobody else changes the store while the claim runs.
pub record IsQuiet (s : Surroundings) : Type 0 where
  pub before_claim : (db : Db) → s.before_claim db ≡ db
  pub before_resolve : (db : Db) → s.before_resolve db ≡ db

module _ (p : Platform) (c : ClaimCall) (m : BatchCommandMetadata) (batch_id : Text) (epoch : ℕ)
    (notes : Option Text) (db : Db) where
  -- An error changes nothing; a result is a stored one, which changes nothing, or that of a claim.
  unfoldable pub Outcome : Result ClaimResult × Db → Type 0
  Outcome (err e, d) = d ≡ db
  Outcome (ok result, d) =
      ((d ≡ db) × Answerable p m result db) ⊎ Claimed p c m batch_id epoch notes db result d

  committed-Outcome :
      {result : ClaimResult} {d : Db}
      → claim_transaction p c m batch_id epoch notes db ≡ ok (result, d)
      → Outcome (ok result, d)
  unfolding Outcome
  committed-Outcome h =
      let (eligible, cases) = claim_transaction-ok p c m batch_id epoch notes db h in
      elim cases [
        | inl (same, r) ↦ inl (same, record { eligible = eligible; replayable = r })
        | inr done ↦ inr done
      ]

  module _ (s : Surroundings) (quiet : IsQuiet s)
      (laws : (r : ClaimResult) (d : Db)
        → claim_transaction p c m batch_id epoch notes db ≡ ok (r, d)
        → p.read_claim_result (p.claim_result_json r) ≡ some r) where
    resolved :
        (e : Error) (d : Db) {x : Result (Option ClaimResult × Db)}
        → resolve_replay p m d ≡ x
        → finish p s m (err e, d) ≡ last_answer p s m e (settle d x)
    unfolding finish
    resolved e d h =
        ap (λ f. last_answer p s m e (settle f (resolve_replay p m f))) (quiet.before_resolve d)
        ∙ ap (λ x. last_answer p s m e (settle d x)) h

    failed-Outcome :
        (e : Error) → resolve_replay p m db ≡ ok (none, db) → Outcome (finish p s m (err e, db))
    unfolding Outcome
    failed-Outcome e fresh = subst Outcome (sym (resolved e db fresh)) refl

    failed :
        (lost : Bool) (e : Error)
        → resolve_replay p m db ≡ ok (none, db)
        → Outcome (finish p s m (after_renewal lost (err e), db))
    failed false e fresh = failed-Outcome e fresh
    failed true e fresh = failed-Outcome (or_lost e) fresh

    -- A commit is reported, even when the renewal failed.
    reported :
        (fails : Bool) (r : ClaimResult) (d : Db)
        → claim_transaction p c m batch_id epoch notes db ≡ ok (r, d)
        → finish p s m (after_renewal fails (ok r), d) ≡ (ok r, d)
    unfolding finish
    reported false r d h = refl
    reported true r d h = resolved (claim ClaimError.lease_unavailable) d (
        Answerable-resolve p m d r
          (claim_transaction-Answerable p c m batch_id epoch notes db (laws r d h) h))

    transaction-Outcome :
        (was_cancelled : Bool) (x : Result (ClaimResult × Db))
        → resolve_replay p m db ≡ ok (none, db)
        → claim_transaction p c m batch_id epoch notes db ≡ x
        → Outcome (
            finish p s m (
              renewed p s m (
                run_transaction p s m was_cancelled
                  (claim_transaction p c m batch_id epoch notes)
                  db)))
    unfolding run_transaction renewed
    transaction-Outcome true x fresh h = failed s.renewal_fails cancelled fresh
    transaction-Outcome false (ok (r, d)) fresh h =
        subst Outcome
          (sym (
            ap (λ y. finish p s m (after_renewal s.renewal_fails (settle db y).0, (settle db y).1))
              h
            ∙ reported s.renewal_fails r d h))
          (committed-Outcome h)
    transaction-Outcome false (err e) fresh h =
        subst Outcome
          (sym (
            ap (λ y. finish p s m (after_renewal s.renewal_fails (settle db y).0, (settle db y).1))
              h))
          (failed s.renewal_fails e fresh)

    acquire_and_run-Outcome :
        (configured : Bool) (acquired : LeaseResult)
        → resolve_replay p m db ≡ ok (none, db)
        → Outcome (
            acquire_and_run p s m configured acquired
              (claim_transaction p c m batch_id epoch notes)
              db)
    unfolding acquire_and_run Outcome
    acquire_and_run-Outcome false acquired fresh = refl
    acquire_and_run-Outcome true LeaseResult.busy fresh = refl
    acquire_and_run-Outcome true LeaseResult.unavailable fresh = refl
    acquire_and_run-Outcome true LeaseResult.lost fresh = refl
    acquire_and_run-Outcome true LeaseResult.done fresh =
        subst
          (λ d. Outcome (
            finish p s m (
              renewed p s m (
                run_transaction p s m s.is_cancelled (claim_transaction p c m batch_id epoch notes)
                  d))))
          (sym (quiet.before_claim db))
          (transaction-Outcome s.is_cancelled (claim_transaction p c m batch_id epoch notes db)
            fresh refl)

    or_answered-Outcome :
        (x : Result (Option ClaimResult × Db))
        → resolve_replay p m db ≡ x
        → Outcome (or_answered p s m (claim_transaction p c m batch_id epoch notes) (settle db x))
    unfolding or_answered Outcome
    or_answered-Outcome (err e) h = refl
    or_answered-Outcome (ok (some r, d)) h =
        let (a, same) = resolve_replay-Answerable p m db h in inl (same, a)
    or_answered-Outcome (ok (none, d)) h =
        let same = resolve_replay-none p m db h in
        subst
          (λ e. Outcome (
            acquire_and_run p s m s.has_leases s.acquired
              (claim_transaction p c m batch_id epoch notes) e))
          (sym same)
          (acquire_and_run-Outcome s.has_leases s.acquired
            (subst (λ e. resolve_replay p m db ≡ ok (none, e)) same h))

    run_claim-Outcome : Outcome (run_claim p s c batch_id notes (ok (m, epoch)) db)
    unfolding run_claim
    run_claim-Outcome = or_answered-Outcome (resolve_replay p m db) refl

-- A valid claim during which nobody else changes the store has one of three outcomes, whatever the
-- lease answers and whether or not its renewal fails or its transaction is cancelled: an error, with
-- the store as it was; the answer that the store already held, with the store as it was; or the
-- claim of the batch, all of whose rows are written. A claim that was committed is never reported as
-- an error. The responses that the claim can write are read back as written.
pub claim_batch-Outcome :
    (p : Platform) (s : Surroundings) (c : ClaimCall) (batch_id : Text) (request : ClaimRequest)
    (m n : BatchCommandMetadata) (epoch : ℕ) (db : Db)
    → IsQuiet s
    → prepare_claim p batch_id request m ≡ ok (n, epoch)
    → ((r : ClaimResult) (d : Db)
        → claim_transaction p c n batch_id epoch request.notes db ≡ ok (r, d)
        → p.read_claim_result (p.claim_result_json r) ≡ some r)
    → Outcome p c n batch_id epoch request.notes db (claim_batch p s c batch_id request m db)
unfolding claim_batch
claim_batch-Outcome p s c batch_id request m n epoch db quiet valid laws =
    subst
      (λ q.
        Outcome p c n batch_id epoch request.notes db (run_claim p s c batch_id request.notes q db))
      (sym valid) (run_claim-Outcome p c n batch_id epoch request.notes db s quiet laws)
