-- ===== src/Outbox/Claim.antt =====
-- What ClaimPending selects. Source: src/backend/internal/repository/outbox.go.
use mathlib.Core.Path.{subst}
use mathlib.Core.List.{Memᴰ}
use team5_ewaste_platform.Common.{
  ℕ, ◌+◌, ◌<◌, ◌≤◌, Bool, true, false, List, [], ◌∷◌, ◌≡◌, refl, sym, ap, ◌∙◌, arith, All, length,
  map, ok, Bool-cases, inl, inr, text_eq, text_eq_iff, zero, suc,
}
use team5_ewaste_platform.Store.{Time, OutboxEvent, PublishState, exists}
use team5_ewaste_platform.Outbox.{
  is_pending, is_due, is_quarantined, blocks, is_predecessor, is_candidate, precedes, filter, take,
  insert, sort, is_leased, lease_row, claim_pending,
}
use team5_ewaste_platform.Outbox.Order.{precedes_total}

module _ {ℓ κ} {A : Type ℓ} (P : A → Type κ) where
  All-filter :
      (test : A → Bool) (l : List A) → All (λ a. test a ≡ true → P a) l → All P (filter test l)
  unfolding filter
  All-filter test [] h = tt
  All-filter test (a ∷ l) h = elim (Bool-cases (test a)) [
    | inl e ↦ rw e (h.0 e, All-filter test l h.1)
    | inr e ↦ rw e (All-filter test l h.1)
  ]

  All-take : (n : ℕ) (l : List A) → All P l → All P (take n l)
  unfolding take
  All-take zero l h = tt
  All-take (suc n) [] h = tt
  All-take (suc n) (a ∷ l) h = (h.0, All-take n l h.1)

All-members {ℓ κ} :
    {A : Type ℓ} (P : A → Type κ) (l : List A) → ((a : A) → Memᴰ a l → P a) → All P l
All-members P [] f = tt
All-members P (a ∷ l) f = (f a (Memᴰ.head refl), All-members P l (λ b m. f b (Memᴰ.tail m)))

length-take {ℓ} : {A : Type ℓ} (n : ℕ) (l : List A) → length (take n l) ≤ n
unfolding take
length-take zero l = omega arith
length-take (suc n) [] = omega arith
length-take (suc n) (a ∷ l) = omega (arith, length-take n l)

exists-Mem {ℓ} :
    {A : Type ℓ} (test : A → Bool) (l : List A) {a : A}
    → exists test l ≡ false
    → Memᴰ a l
    → test a ≡ false
unfolding exists
exists-Mem test [] h m = elim m [ ]
exists-Mem test (b ∷ l) h (Memᴰ.head e) = ground (arith, e)
exists-Mem test (b ∷ l) {a} h (Memᴰ.tail m) = exists-Mem test l {a = a} (ground arith) m

module _ (P : OutboxEvent → Type 0) where
  All-insert : (e : OutboxEvent) (l : List OutboxEvent) → P e → All P l → All P (insert e l)
  unfolding insert
  All-insert e [] h k = (h, tt)
  All-insert e (f ∷ l) h k = elim (Bool-cases (precedes f e)) [
    | inl c ↦ rw c (k.0, All-insert e l h k.1)
    | inr c ↦ rw c (h, k)
  ]

  All-sort : (l : List OutboxEvent) → All P l → All P (sort l)
  unfolding sort
  All-sort [] h = tt
  All-sort (e ∷ l) h = All-insert e (sort l) h.0 (All-sort l h.1)

-- A row that may be claimed: pending and due, with no quarantined event of its batch, and with no
-- pending event of its batch before it.
pub record IsHead (now : Time) (rows : List OutboxEvent) (e : OutboxEvent) : Type 0 where
  pub row : Memᴰ e rows
  pub pending : is_pending e ≡ true
  pub due : is_due now e ≡ true
  pub not_blocked : exists (blocks e) rows ≡ false
  pub no_predecessor : exists (is_predecessor e) rows ≡ false

candidate-IsHead :
    (locked : OutboxEvent → Bool) (now : Time) (rows : List OutboxEvent) (e : OutboxEvent)
    → Memᴰ e rows
    → is_candidate locked now rows e ≡ true
    → IsHead now rows e
unfolding is_candidate
candidate-IsHead locked now rows e m h = record {
  row = m;
  pending = ground arith;
  due = ground arith;
  not_blocked = ground arith;
  no_predecessor = ground arith;
}

abbrev selection : (OutboxEvent → Bool) → Time → ℕ → List OutboxEvent → List OutboxEvent
selection locked now limit rows = take limit (sort (filter (is_candidate locked now rows) rows))

pub claim_pending-ok :
    (locked : OutboxEvent → Bool) (now : Time) (limit : ℕ) (lease_duration : Time)
    (rows : List OutboxEvent) {events rows' : List OutboxEvent}
    → claim_pending locked now limit lease_duration rows ≡ ok (events, rows')
    → (events ≡ selection locked now limit rows)
      × (rows' ≡ map (lease_row events (now + lease_duration)) rows)
unfolding claim_pending
claim_pending-ok locked now limit lease_duration rows h = (ground arith, ground arith)

selection-IsHead :
    (locked : OutboxEvent → Bool) (now : Time) (limit : ℕ) (rows : List OutboxEvent)
    → All (IsHead now rows) (selection locked now limit rows)
selection-IsHead locked now limit rows = All-take _ limit _ (
    All-sort _ _ (
      All-filter _ (is_candidate locked now rows) rows
        (All-members _ rows (candidate-IsHead locked now rows))))

-- Two claimable events of one batch are the same event.
heads-same :
    (now : Time) (rows : List OutboxEvent) (e f : OutboxEvent)
    → IsHead now rows e
    → IsHead now rows f
    → e.batch_id ≡ f.batch_id
    → e.event_id ≡ f.event_id
unfolding is_predecessor
heads-same now rows e f he hf same =
    let ef : is_predecessor e f ≡ false =
      exists-Mem (is_predecessor e) rows he.no_predecessor hf.row in
    let fe : is_predecessor f e ≡ false =
      exists-Mem (is_predecessor f) rows hf.no_predecessor he.row in
    precedes_total e f (ground (arith, text_eq_iff e.batch_id f.batch_id, hf.pending, he.pending))
      (ground (arith, text_eq_iff f.batch_id e.batch_id, hf.pending, he.pending))

published_lem :
    (e : OutboxEvent) (s : PublishState)
    → e.publish_state ≡ s
    → is_pending e ≡ false
    → is_quarantined e ≡ false
    → s ≡ PublishState.published
published_lem e PublishState.pending h k l = ground (arith, h)
published_lem e PublishState.quarantined h k l = ground (arith, h)
published_lem e PublishState.published h k l = refl

-- An event that comes before a claimable one of its batch has been published.
head-published :
    (now : Time) (rows : List OutboxEvent) (e q : OutboxEvent)
    → IsHead now rows e
    → Memᴰ q rows
    → q.batch_id ≡ e.batch_id
    → precedes q e ≡ true
    → q.publish_state ≡ PublishState.published
unfolding is_predecessor
head-published now rows e q he m same before =
    let free : blocks e q ≡ false = exists-Mem (blocks e) rows he.not_blocked m in
    let first : is_predecessor e q ≡ false =
      exists-Mem (is_predecessor e) rows he.no_predecessor m in
    published_lem q q.publish_state refl (ground (arith, text_eq_iff q.batch_id e.batch_id))
      (ground (arith, text_eq_iff q.batch_id e.batch_id))

All-get {ℓ κ} : {A : Type ℓ} (P : A → Type κ) (l : List A) {a : A} → All P l → Memᴰ a l → P a
All-get P [] h m = elim m [ ]
All-get P (b ∷ l) h (Memᴰ.head e) = subst P (sym e) h.0
All-get P (b ∷ l) h (Memᴰ.tail m) = All-get P l h.1 m

pub Mem-map {ℓ κ} :
    {A : Type ℓ} {B : Type κ} (f : A → B) (l : List A) {b : B}
    → Memᴰ b (map f l)
    → (a : A) × Memᴰ a l × (b ≡ f a)
Mem-map f [] m = elim m [ ]
Mem-map f (a ∷ l) (Memᴰ.head e) = (a, Memᴰ.head refl, e)
Mem-map f (a ∷ l) (Memᴰ.tail m) = let (c, mc, e) = Mem-map f l m in (c, Memᴰ.tail mc, e)

Mem-exists {ℓ} :
    {A : Type ℓ} (test : A → Bool) (l : List A) {a : A}
    → Memᴰ a l
    → test a ≡ true
    → exists test l ≡ true
unfolding exists
Mem-exists test [] m h = elim m [ ]
Mem-exists test (b ∷ l) (Memᴰ.head e) h = ground (arith, e)
Mem-exists test (b ∷ l) {a} (Memᴰ.tail m) h = ground (arith, Mem-exists test l {a = a} m h)

pub lease_row-keeps :
    (events : List OutboxEvent) (lease_until : Time) (r : OutboxEvent)
    → ((lease_row events lease_until r).event_id ≡ r.event_id)
      × (is_pending (lease_row events lease_until r) ≡ is_pending r)
unfolding lease_row
lease_row-keeps events lease_until r = elim (Bool-cases (is_leased events r)) [
  | inl e ↦ (ground (arith, e), ground (arith, e))
  | inr e ↦ (ground (arith, e), ground (arith, e))
]

leased_row-due :
    (events : List OutboxEvent) (now lease_until : Time) (r : OutboxEvent)
    → is_leased events r ≡ true
    → now < lease_until
    → is_due now (lease_row events lease_until r) ≡ false
unfolding lease_row
leased_row-due events now lease_until r h early = rw h ground arith

true-ne-false : true ≡ false → ⊥
true-ne-false h = cc

-- A row under a lease is not due before the lease ends.
pub leased-not-due :
    (events : List OutboxEvent) (now lease_until : Time) (e r f : OutboxEvent)
    → f ≡ lease_row events lease_until r
    → e.event_id ≡ f.event_id
    → Memᴰ e events
    → now < lease_until
    → is_pending f ≡ true
    → is_due now f ≡ true
    → ⊥
unfolding lease_row is_leased
leased-not-due events now lease_until e r f from same m early pending due =
    let (id, state) = lease_row-keeps events lease_until r in
    let leased : is_leased events r ≡ true = ground (
      arith,
      Mem-exists (λ f. text_eq f.event_id r.event_id) events m
          ((text_eq_iff e.event_id r.event_id).1 (same ∙ ap (λ x. x.event_id) from ∙ id)),
      state,
      ap is_pending from,
      pending,
    ) in
    true-ne-false
      (sym due ∙ ap (is_due now) from ∙ leased_row-due events now lease_until r leased early)

-- The events that the relay claims are, each of them, due and the first unpublished one of a batch
-- that has no quarantined event; they are at most as many as the limit.
pub claim_pending-IsHead :
    (locked : OutboxEvent → Bool) (now : Time) (limit : ℕ) (lease_duration : Time)
    (rows : List OutboxEvent) {events rows' : List OutboxEvent}
    → claim_pending locked now limit lease_duration rows ≡ ok (events, rows')
    → All (IsHead now rows) events × (length events ≤ limit)
claim_pending-IsHead locked now limit lease_duration rows h =
    let (e, _) = claim_pending-ok locked now limit lease_duration rows h in
    rw e (selection-IsHead locked now limit rows, length-take limit _)

module _ (locked : OutboxEvent → Bool) (now : Time) (limit : ℕ) (lease_duration : Time)
    (rows : List OutboxEvent) {events rows' : List OutboxEvent}
    (claimed : claim_pending locked now limit lease_duration rows ≡ ok (events, rows')) where
  pub claimed-IsHead : {e : OutboxEvent} → Memᴰ e events → IsHead now rows e
  claimed-IsHead m =
      All-get (IsHead now rows) events
        (claim_pending-IsHead locked now limit lease_duration rows claimed).0 m

  -- Two events of one batch are never claimed together.
  pub claim_pending-one_per_batch :
      (e f : OutboxEvent)
      → Memᴰ e events
      → Memᴰ f events
      → e.batch_id ≡ f.batch_id
      → e.event_id ≡ f.event_id
  claim_pending-one_per_batch e f me mf same =
      heads-same now rows e f (claimed-IsHead me) (claimed-IsHead mf) same

  -- When an event is claimed, every event of its batch that comes before it, by batch version, then
  -- by time, then by id, has been published.
  pub claim_pending-in_order :
      (e earlier : OutboxEvent)
      → Memᴰ e events
      → Memᴰ earlier rows
      → earlier.batch_id ≡ e.batch_id
      → precedes earlier e ≡ true
      → earlier.publish_state ≡ PublishState.published
  claim_pending-in_order e earlier me mq same before =
      head-published now rows e earlier (claimed-IsHead me) mq same before
