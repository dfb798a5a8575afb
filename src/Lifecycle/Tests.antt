-- ===== src/Lifecycle/Tests.antt =====
-- A claim, a selection and a handoff, one after the other.
use team5_ewaste_platform.Common.{ℕ, ◌≤◌, List, [], ◌∷◌, some, ◌≡◌, refl, codes, text_eq, All}
use team5_ewaste_platform.Store.{BatchStatus, find}
use team5_ewaste_platform.Claim.Samples as Claims
use team5_ewaste_platform.Assignment.Samples.{
  alone, select_call, selection, select_metadata, handoff_call, handoff, handoff_metadata,
}
use team5_ewaste_platform.Lifecycle.{lives, Reaches, here}
use team5_ewaste_platform.Lifecycle.Histories.{
  PlatformCall, by_recycler, by_collector, run_calls, AreOthersRuns, run_calls-Reaches,
  run_calls-version,
}

abbrev history : List PlatformCall
history =
    by_recycler Claims.losing Claims.call (codes "b1") Claims.request Claims.metadata
    ∷ by_collector alone select_call selection select_metadata
    ∷ by_collector alone handoff_call handoff handoff_metadata
    ∷ []

undisturbed : All AreOthersRuns history
undisturbed = ((λ d. here, λ d. here), ((λ d. here, λ d. here), ((λ d. here, λ d. here), tt)))

starts : lives Claims.db (codes "b1") ≡ some (BatchStatus.matched, 5)
unfolding lives find text_eq
starts = refl

run_calls-Reaches_example :
    Reaches (lives Claims.db) (lives (run_calls Claims.sample history Claims.db))
run_calls-Reaches_example = run_calls-Reaches Claims.sample history Claims.db undisturbed

run_calls-version_example :
    (later : BatchStatus) × (now : ℕ) × (lives
        (run_calls Claims.sample history Claims.db)
        (codes "b1")
      ≡ some (later, now))
    × (5 ≤ now)
run_calls-version_example =
    run_calls-version Claims.sample history Claims.db (codes "b1") BatchStatus.matched 5 undisturbed
      starts
