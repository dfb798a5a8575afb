-- ===== src/Claim/Answers.antt =====
-- What a claim answers. Source: `Claim` of src/backend/internal/service/claim.go.
use mathlib.Core.Path.{subst}
use team5_ewaste_platform.Common.{
  Bool, Option, none, some, true, false, ◌≡◌, refl, sym, ap, ◌∙◌, Error, Result, ok, err, ◌⊎◌, inl,
  inr, err-ne-ok,
}
use team5_ewaste_platform.Store.{Db, Tx, settle}
use team5_ewaste_platform.Dto.{BatchCommandMetadata, ClaimResult}
use team5_ewaste_platform.Platform.{Platform}
use team5_ewaste_platform.Lease.{LeaseResult}
use team5_ewaste_platform.Claim.Replay.{Answerable, resolve_replay-Answerable, resolve_replay-none}
use team5_ewaste_platform.Claim.{
  Surroundings, last_answer, finish, run_transaction, renewed, acquire_and_run, or_answered,
  resolve_replay, after_renewal,
}

after_renewal-ok {ℓ} :
    {A : Type ℓ} (fails : Bool) (r : Result A) {a : A} → after_renewal fails r ≡ ok a → r ≡ ok a
after_renewal-ok false r h = h
after_renewal-ok true (ok b) h = cc
after_renewal-ok true (err e) h = cc

abbrev some_result : Result ClaimResult → Result (Option ClaimResult)
some_result (ok r) = ok (some r)
some_result (err e) = err e

ok_inj : {a b : Option ClaimResult} → Result.ok a ≡ ok b → a ≡ b
ok_inj h = cc

pair-eq : {A B : Type 0} {x y : A × B} → x ≡ y → (x.0 ≡ y.0) × (x.1 ≡ y.1)
pair-eq h = (ap (λ x. x.0) h, ap (λ x. x.1) h)

module _ (p : Platform) (s : Surroundings) (m : BatchCommandMetadata) (result : ClaimResult)
    (db' : Db) where
  resolved-Answerable :
      (db : Db) (x : Result (Option ClaimResult × Db))
      → resolve_replay p m db ≡ x
      → settle db x ≡ (ok (some result), db')
      → Answerable p m result db'
  resolved-Answerable db (ok (o, d)) e h =
      let (same, store) = pair-eq h in
      let (a, again) =
        resolve_replay-Answerable p m db {result = result} {db' = d}
          (e ∙ ap (λ q. ok (q, d)) (ok_inj same)) in
      subst (Answerable p m result) (sym again ∙ store) a
  resolved-Answerable db (err x) e h = cc

  last_answer-ok :
      (e : Error) (x : Result (Option ClaimResult) × Db)
      → last_answer p s m e x ≡ (ok result, db')
      → x ≡ (ok (some result), db')
  last_answer-ok e (ok none, d) h = cc
  last_answer-ok e (ok (some r), d) h = cc
  last_answer-ok e (err y, d) h = cc

  finish-ok :
      (x : Result ClaimResult × Db)
      → finish p s m x ≡ (ok result, db')
      → Answerable p m result db' ⊎ (x ≡ (ok result, db'))
  unfolding finish
  finish-ok (ok r, d) h = inr h
  finish-ok (err e, d) h = inl (
      resolved-Answerable (s.before_resolve d) (resolve_replay p m (s.before_resolve d)) refl
        (last_answer-ok e _ h))

  -- A claim that ran its transaction, and answered with what was committed or replayed.
  run_transaction-ok :
      (was_cancelled : Bool) (body : Tx ClaimResult) (db : Db) (r : Result (ClaimResult × Db))
      → body db ≡ r
      → renewed p s m (run_transaction p s m was_cancelled body db) ≡ (ok result, db')
      → body db ≡ ok (result, db')
  unfolding renewed run_transaction
  run_transaction-ok true body db r e h =
      absurd (err-ne-ok (after_renewal-ok s.renewal_fails _ (ap (λ x. x.0) h)))
  run_transaction-ok false body db (err x) e h = absurd (
      err-ne-ok (
        after_renewal-ok s.renewal_fails (err x) (
          ap (λ (y : Result ClaimResult × Db). y.0)
            (sym (ap (λ q. (after_renewal s.renewal_fails (settle db q).0, (settle db q).1)) e)
              ∙ h))))
  run_transaction-ok false body db (ok (a, d)) e h =
      let k : (after_renewal s.renewal_fails (ok a), d) ≡ (ok result, db') =
        sym (ap (λ q. (after_renewal s.renewal_fails (settle db q).0, (settle db q).1)) e) ∙ h in
      let same : ok a ≡ ok result = after_renewal-ok s.renewal_fails (ok a) (pair-eq k).0 in
      e
      ∙ ap (λ (q : Result ClaimResult). elim q [ ok b ↦ ok (b, d) | err x ↦ err x ]) same
      ∙ ap (λ g. ok (result, g)) (pair-eq k).1

  acquire_and_run-ok :
      (configured : Bool) (acquired : LeaseResult) (body : Tx ClaimResult) (db : Db)
      → acquire_and_run p s m configured acquired body db ≡ (ok result, db')
      → Answerable p m result db' ⊎ (body (s.before_claim db) ≡ ok (result, db'))
  unfolding acquire_and_run
  acquire_and_run-ok false acquired body db h = cc
  acquire_and_run-ok true LeaseResult.busy body db h = cc
  acquire_and_run-ok true LeaseResult.unavailable body db h = cc
  acquire_and_run-ok true LeaseResult.lost body db h = cc
  acquire_and_run-ok true LeaseResult.done body db h = elim (finish-ok _ h) [
    | inl a ↦ inl a
    | inr k ↦ inr (
        run_transaction-ok s.is_cancelled body (s.before_claim db) (body (s.before_claim db)) refl
          k)
  ]

  pub or_answered-ok :
      (body : Tx ClaimResult) (db : Db) (x : Result (Option ClaimResult × Db))
      → resolve_replay p m db ≡ x
      → or_answered p s m body (settle db x) ≡ (ok result, db')
      → Answerable p m result db' ⊎ (body (s.before_claim db) ≡ ok (result, db'))
  unfolding or_answered
  or_answered-ok body db (err e) k h = cc
  or_answered-ok body db (ok (some r, d)) k h = inl (
      resolved-Answerable db (ok (some r, d)) k
        (ap (λ (y : Result ClaimResult × Db). (some_result y.0, y.1)) h))
  or_answered-ok body db (ok (none, d)) k h =
      elim (acquire_and_run-ok s.has_leases s.acquired body d h) [
        | inl a ↦ inl a
        | inr done ↦ inr (
            subst (λ e. body (s.before_claim e) ≡ ok (result, db')) (resolve_replay-none p m db k)
              done)
      ]
