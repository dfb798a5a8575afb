-- ===== src/Lifecycle/Histories.antt =====
-- Histories of commands of all the services.
-- Source: src/backend/internal/service/{batch,claim,assignment}.go.
use mathlib.Core.Path.{subst}
use team5_ewaste_platform.Common.{
  ℕ, ◌≤◌, some, List, [], ◌∷◌, ◌≡◌, refl, sym, Text, Result, ok, err, inl, inr, trim_space, All,
}
use team5_ewaste_platform.Store.{BatchStatus, Db}
use team5_ewaste_platform.Dto.{BatchMutationResult, BatchCommandMetadata, ClaimRequest}
use team5_ewaste_platform.Platform.{Platform}
use team5_ewaste_platform.Command.{Call}
use team5_ewaste_platform.Batch.{DonorCommand, perform}
use team5_ewaste_platform.Batch.Commands.{perform-Done, perform-err}
use team5_ewaste_platform.Claim.{ClaimCall, Surroundings, claim_batch}
use team5_ewaste_platform.Claim.Outcome.{claim_batch-keeps}
use team5_ewaste_platform.Assignment.{Others, perform_collector, recover_failed_collection}
use team5_ewaste_platform.Assignment.Prepare.{CollectorCommand}
use team5_ewaste_platform.Assignment.Rows.{AssignmentCall}
use team5_ewaste_platform.Assignment.Outcome.{perform_collector-keeps, recover-keeps}
use team5_ewaste_platform.Lifecycle.{lives, Reaches, here, next, Reaches-trans, Reaches-version}
use team5_ewaste_platform.Lifecycle.Refinement.{
  donor-Step, Claimed-Step, collector-Step, Recovered-Step,
}

-- A call of one of the services.
pub data PlatformCall : Type 0 where
  by_donor : Call → DonorCommand → BatchCommandMetadata → PlatformCall
  by_recycler : Surroundings → ClaimCall → Text → ClaimRequest → BatchCommandMetadata → PlatformCall
  by_collector : Others → AssignmentCall → CollectorCommand → BatchCommandMetadata → PlatformCall
  recovery : AssignmentCall → Text → Text → Text → PlatformCall

unfoldable pub run_one : Platform → PlatformCall → Db → Db
unfolding perform claim_batch perform_collector recover_failed_collection
run_one p (by_donor call op m) db = (perform p call op m db).1
run_one p (by_recycler s c batch_id request m) db = (claim_batch p s c batch_id request m db).1
run_one p (by_collector o c op m) db = (perform_collector p o c op m db).1
run_one p (recovery c assignment_id service correlation_id) db =
    (recover_failed_collection p c assignment_id service correlation_id db).1

unfoldable pub run_calls : Platform → List PlatformCall → Db → Db
unfolding run_one
run_calls p [] db = db
run_calls p (x ∷ xs) db = run_calls p xs (run_one p x db)

-- What others write between the transactions of a call is a run of the machine too.
abbrev IsRun : (Db → Db) → Type 0
IsRun f = (db : Db) → Reaches (lives db) (lives (f db))

abbrev pub AreOthersRuns : PlatformCall → Type 0
AreOthersRuns (by_donor call op m) = Unit
AreOthersRuns (by_recycler s c batch_id request m) = IsRun s.before_claim × IsRun s.before_resolve
AreOthersRuns (by_collector o c op m) = IsRun o.before_command × IsRun o.before_resolve
AreOthersRuns (recovery c assignment_id service correlation_id) = Unit

donor-Reaches :
    (p : Platform) (call : Call) (op : DonorCommand) (m : BatchCommandMetadata) (db : Db)
    (x : Result BatchMutationResult × Db)
    → perform p call op m db ≡ x
    → Reaches (lives db) (lives x.1)
donor-Reaches p call op m db (ok result, db') h =
    let (c, valid, cases) = perform-Done p call op m db h in
    elim cases [
      | inl (same, found) ↦ subst (λ d. Reaches (lives db) (lives d)) (sym same) here
      | inr done ↦ next here (donor-Step p call op c db result db' done)
    ]
donor-Reaches p call op m db (err e, db') h =
    subst (λ d. Reaches (lives db) (lives d)) (sym (perform-err p call op m db h)) here

run_one-Reaches :
    (p : Platform) (x : PlatformCall) (db : Db)
    → AreOthersRuns x
    → Reaches (lives db) (lives (run_one p x db))
unfolding run_one
run_one-Reaches p (by_donor call op m) db others =
    donor-Reaches p call op m db (perform p call op m db) refl
run_one-Reaches p (by_recycler s c batch_id request m) db others =
    claim_batch-keeps (λ d. Reaches (lives db) (lives d)) p s c batch_id request m db
      (λ d r. Reaches-trans r (others.0 d)) (λ d r. Reaches-trans r (others.1 d))
      (λ n epoch d r d' done k.
        next k (Claimed-Step p c n batch_id epoch request.notes d r d' done))
      here
run_one-Reaches p (by_collector o c op m) db others =
    perform_collector-keeps (λ d. Reaches (lives db) (lives d)) p o c op m db
      (λ d r. Reaches-trans r (others.0 d)) (λ d r. Reaches-trans r (others.1 d))
      (λ n epoch d r d' done k. next k (collector-Step p c n epoch d r d' op done)) here
run_one-Reaches p (recovery c assignment_id service correlation_id) db others =
    recover-keeps (λ d. Reaches (lives db) (lives d)) p c assignment_id service correlation_id db
      (λ n r d' done.
        next here
          (Recovered-Step p c (trim_space service) correlation_id assignment_id n db r d' done))
      here

-- Any history of calls of donors, recyclers and collectors and of recoveries, successful, failing or
-- replayed, implements the abstract machine: what it does to the statuses and versions of the
-- batches is a run of the machine's steps, each a new draft at version 1 or an allowed move of one
-- batch that raises its version by one, provided that what others write between the transactions of
-- a call is such a run too.
pub run_calls-Reaches :
    (p : Platform) (calls : List PlatformCall) (db : Db)
    → All AreOthersRuns calls
    → Reaches (lives db) (lives (run_calls p calls db))
unfolding run_calls
run_calls-Reaches p [] db others = here
run_calls-Reaches p (x ∷ xs) db others =
    Reaches-trans (run_one-Reaches p x db others.0)
      (run_calls-Reaches p xs (run_one p x db) others.1)

-- In any such history a batch is never lost and its version never falls.
pub run_calls-version :
    (p : Platform) (calls : List PlatformCall) (db : Db) (id : Text) (status : BatchStatus)
    (version : ℕ)
    → All AreOthersRuns calls
    → lives db id ≡ some (status, version)
    → (later : BatchStatus) × (now : ℕ) × (lives (run_calls p calls db) id ≡ some (later, now))
      × (version ≤ now)
run_calls-version p calls db id status version others h =
    Reaches-version (lives db) (lives (run_calls p calls db)) id status version
      (run_calls-Reaches p calls db others) h
