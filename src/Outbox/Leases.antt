-- ===== src/Outbox/Leases.antt =====
-- How long a claimed event is kept from being claimed again.
-- Source: src/backend/internal/repository/outbox.go.
use mathlib.Core.Path.{subst}
use mathlib.Core.List.{Memᴰ}
use team5_ewaste_platform.Common.{
  ℕ, ◌+◌, ◌<◌, Bool, true, List, [], ◌∷◌, ◌≡◌, ◌≢◌, refl, sym, ap, ◌∙◌, arith, inl, inr, Bool-cases,
  Result, ok, err, Text, text_eq, text_eq_iff, All,
}
use team5_ewaste_platform.Store.{Time, OutboxEvent, exists}
use team5_ewaste_platform.Outbox.{
  MarkFault, mark, mark_published, mark_retry, mark_quarantined, published_row, retried_row,
  quarantined_row, has_event, is_pending, is_published, is_quarantined, is_due, is_leased,
  lease_row, claim_pending,
}
use team5_ewaste_platform.Outbox.Marks.{mark-cases, update-member}
use team5_ewaste_platform.Outbox.Claim.{
  claim_pending-ok, claimed-IsHead, Mem-map, leased-not-due, lease_row-keeps,
}

-- The calls that change the outbox, with how their statements end.
pub data OutboxStep : Type 0 where
  claim : (OutboxEvent → Bool) → Time → ℕ → Time → OutboxStep
  publish : MarkFault → Text → Time → OutboxStep
  retry : MarkFault → Text → Time → Text → OutboxStep
  quarantine : MarkFault → Text → Text → OutboxStep

abbrev rows_of : Result (List OutboxEvent × List OutboxEvent) → List OutboxEvent → List OutboxEvent
rows_of (ok (events, rows')) rows = rows'
rows_of (err e) rows = rows

unfoldable pub run_step : OutboxStep → List OutboxEvent → List OutboxEvent
unfolding claim_pending mark_published mark_retry mark_quarantined
run_step (OutboxStep.claim locked now limit lease_duration) rows =
    rows_of (claim_pending locked now limit lease_duration rows) rows
run_step (OutboxStep.publish fault id at) rows = (mark_published fault id at rows).1
run_step (OutboxStep.retry fault id at code) rows = (mark_retry fault id at code rows).1
run_step (OutboxStep.quarantine fault id code) rows = (mark_quarantined fault id code rows).1

unfoldable pub run_steps : List OutboxStep → List OutboxEvent → List OutboxEvent
unfolding run_step
run_steps [] rows = rows
run_steps (step ∷ steps) rows = run_steps steps (run_step step rows)

-- A step before the given time that does not put the given event back with MarkRetry.
unfoldable pub IsWithin : Text → Time → OutboxStep → Type 0
IsWithin id until (OutboxStep.claim locked now limit lease_duration) = now < until
IsWithin id until (OutboxStep.publish fault marked at) = Unit {0}
IsWithin id until (OutboxStep.retry fault marked at code) = marked ≢ id
IsWithin id until (OutboxStep.quarantine fault marked code) = Unit {0}

-- No pending row with the identifier is due before the given time.
IsHeld : Text → Time → List OutboxEvent → Type 0
IsHeld id until rows =
    (f : OutboxEvent) (now : Time)
    → Memᴰ f rows
    → f.event_id ≡ id
    → is_pending f ≡ true
    → now < until
    → is_due now f ≡ true
    → ⊥

exists-member {ℓ} :
    {A : Type ℓ} (test : A → Bool) (l : List A)
    → exists test l ≡ true
    → (a : A) × Memᴰ a l × (test a ≡ true)
unfolding exists
exists-member test [] h = cc
exists-member test (a ∷ l) h = elim (Bool-cases (test a)) [
  | inl e ↦ (a, Memᴰ.head refl, e)
  | inr e ↦ let (b, m, k) = exists-member test l (ground (arith, e)) in (b, Memᴰ.tail m, k)
]

module _ (id : Text) (until : Time) where
  claimed-IsHeld :
      (locked : OutboxEvent → Bool) (now : Time) (limit : ℕ) (lease_duration : Time)
      (rows : List OutboxEvent) {events rows' : List OutboxEvent}
      → claim_pending locked now limit lease_duration rows ≡ ok (events, rows')
      → now < until
      → IsHeld id until rows
      → IsHeld id until rows'
  unfolding is_leased lease_row IsHeld
  claimed-IsHeld locked now limit lease_duration rows {events} h early held f at m same pending soon
        due =
      let (_, after) = claim_pending-ok locked now limit lease_duration rows h in
      let (r, mr, from) =
        Mem-map (lease_row events (now + lease_duration)) rows (subst (Memᴰ f) after m) in
      let (same_id, _) = lease_row-keeps events (now + lease_duration) r in
      elim (Bool-cases (is_leased events r)) [
        | inr free ↦
            let q : f ≡ r = from ∙ rw free refl in
            held f at (subst (λ x. Memᴰ x rows) (sym q) mr) same pending soon due
        | inl leased ↦
            let (e, me, k) =
              exists-member (λ x. text_eq x.event_id r.event_id) events (ground (arith, leased)) in
            let head = claimed-IsHead locked now limit lease_duration rows h me in
            held e now head.row
              ((text_eq_iff e.event_id r.event_id).0 k
                ∙ sym same_id
                ∙ sym (ap (λ x. x.event_id) from)
                ∙ same)
              head.pending early head.due
      ]

  claim-IsHeld :
      (locked : OutboxEvent → Bool) (now : Time) (limit : ℕ) (lease_duration : Time)
      (rows : List OutboxEvent) (result : Result (List OutboxEvent × List OutboxEvent))
      → claim_pending locked now limit lease_duration rows ≡ result
      → now < until
      → IsHeld id until rows
      → IsHeld id until (rows_of result rows)
  claim-IsHeld locked now limit lease_duration rows (err e) h early held = held
  claim-IsHeld locked now limit lease_duration rows (ok (events, rows')) h early held =
      claimed-IsHeld locked now limit lease_duration rows h early held

  -- A mark keeps an event held when the rows that it writes are settled or are another event's.
  mark-IsHeld :
      (fault : MarkFault) (marked : Text) (change : OutboxEvent → OutboxEvent)
      (settled : OutboxEvent → Bool) (rows : List OutboxEvent)
      → ((r : OutboxEvent)
          → r.event_id ≡ marked
          → (change r).event_id ≡ id
          → is_pending (change r) ≡ true
          → ⊥)
      → IsHeld id until rows
      → IsHeld id until (mark fault marked change settled rows).1
  unfolding IsHeld
  mark-IsHeld fault marked change settled rows harmless held f at m same pending soon due =
      elim (mark-cases fault marked change settled rows) [
        | inl e ↦ held f at (subst (Memᴰ f) e m) same pending soon due
        | inr u ↦ elim (update-member (has_event marked) change is_pending rows u m) [
          | inl was ↦ held f at was same pending soon due
          | inr (r, _, key, from) ↦
              harmless r ((text_eq_iff r.event_id marked).0 key)
                (sym (ap (λ x. x.event_id) from) ∙ same) (sym (ap is_pending from) ∙ pending)
        ]
      ]

  step-IsHeld :
      (step : OutboxStep) (rows : List OutboxEvent)
      → IsWithin id until step
      → IsHeld id until rows
      → IsHeld id until (run_step step rows)
  unfolding run_step IsWithin mark_published mark_retry mark_quarantined
  step-IsHeld (OutboxStep.claim locked now limit lease_duration) rows w held =
      claim-IsHeld locked now limit lease_duration rows _ refl w held
  step-IsHeld (OutboxStep.publish fault marked at) rows w held =
      mark-IsHeld fault marked (published_row at) is_published rows (λ r k same p. cc) held
  step-IsHeld (OutboxStep.retry fault marked at code) rows w held =
      mark-IsHeld fault marked (retried_row at code) is_published rows
        (λ r k same p. w (sym k ∙ same)) held
  step-IsHeld (OutboxStep.quarantine fault marked code) rows w held =
      mark-IsHeld fault marked (quarantined_row code) is_quarantined rows (λ r k same p. cc) held

  steps-IsHeld :
      (steps : List OutboxStep) (rows : List OutboxEvent)
      → All (IsWithin id until) steps
      → IsHeld id until rows
      → IsHeld id until (run_steps steps rows)
  unfolding run_steps
  steps-IsHeld [] rows w held = held
  steps-IsHeld (step ∷ steps) rows w held =
      steps-IsHeld steps (run_step step rows) w.1 (step-IsHeld step rows w.0 held)

-- A claim holds its events until its lease ends.
claim_pending-IsHeld :
    (locked : OutboxEvent → Bool) (now : Time) (limit : ℕ) (lease_duration : Time)
    (rows : List OutboxEvent) {events rows' : List OutboxEvent} (e : OutboxEvent)
    → claim_pending locked now limit lease_duration rows ≡ ok (events, rows')
    → Memᴰ e events
    → IsHeld e.event_id (now + lease_duration) rows'
unfolding IsHeld
claim_pending-IsHeld locked now limit lease_duration rows {events} e claimed me f at m same pending
      soon due =
    let (_, after) = claim_pending-ok locked now limit lease_duration rows claimed in
    let (r, _, from) =
      Mem-map (lease_row events (now + lease_duration)) rows (subst (Memᴰ f) after m) in
    leased-not-due events at (now + lease_duration) e r f from (sym same) me soon pending due

-- A claimed event is not claimed again before its lease has ended, whatever claims at earlier times
-- and whatever marks are made in between, and however the marks end, as long as no MarkRetry of that event is among them:
-- that one gives the event a time of its own for the next attempt.
pub claim_pending-leased :
    (locked locked' : OutboxEvent → Bool) (now now' : Time) (limit limit' : ℕ)
    (lease_duration lease_duration' : Time) (rows : List OutboxEvent) (steps : List OutboxStep)
    {events rows' events' rows'' : List OutboxEvent} (e f : OutboxEvent)
    → claim_pending locked now limit lease_duration rows ≡ ok (events, rows')
    → Memᴰ e events
    → All (IsWithin e.event_id (now + lease_duration)) steps
    → claim_pending locked' now' limit' lease_duration' (run_steps steps rows')
      ≡ ok (events', rows'')
    → now' < now + lease_duration
    → Memᴰ f events'
    → e.event_id ≢ f.event_id
unfolding IsHeld
claim_pending-leased locked locked' now now' limit limit' lease_duration lease_duration' rows steps
      {rows' = rows'} e f claimed me within again early mf same =
    let held =
      steps-IsHeld e.event_id (now + lease_duration) steps rows' within
        (claim_pending-IsHeld locked now limit lease_duration rows e claimed me) in
    let head =
      claimed-IsHead locked' now' limit' lease_duration' (run_steps steps rows') again mf in
    held f now' head.row (sym same) head.pending early head.due
