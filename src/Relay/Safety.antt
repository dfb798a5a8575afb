-- ===== src/Relay/Safety.antt =====
-- What a pass of the relay may and may not do to a row.
-- Source: src/backend/internal/outbox/relay.go, src/backend/internal/repository/outbox.go.
use mathlib.Core.Path.{subst}
use team5_ewaste_platform.Common.{
  ◌+◌, Bool, true, false, Option, some, List, [], ◌∷◌, Text, ◌≡◌, ◌≢◌, refl, sym, ap, ◌∙◌, arith,
  inl, inr, Bool-cases, ok, err, Result, map, text_eq, text_eq_iff,
}
use team5_ewaste_platform.Store.{
  Time, OutboxEvent, find, find-update_self, find-update_other, update_succeeds,
}
use team5_ewaste_platform.Outbox.{
  MarkFault, is_written, rows_after, has_event, is_pending, is_published, is_quarantined, mark,
  mark_published, mark_retry, mark_quarantined, published_row, retried_row, quarantined_row,
  lease_row, claim_pending, is_leased,
}
use team5_ewaste_platform.Outbox.Claim.{claim_pending-ok}
use team5_ewaste_platform.Outbox.Marks.{mark-cases}
use team5_ewaste_platform.Relay.{
  RelayConfig, Delivery, unless_cancelled, handle, process_events, process_claimed, process_once,
}

written_lem :
    (fault : MarkFault) (rows' rows : List OutboxEvent)
    → is_written fault ≡ true
    → rows_after fault (some rows') rows ≡ rows'
written_lem MarkFault.sound rows' rows h = refl
written_lem (MarkFault.not_written e) rows' rows h = cc
written_lem (MarkFault.unanswered e) rows' rows h = refl
written_lem (MarkFault.not_read e) rows' rows h = refl

unwritten_lem :
    (fault : MarkFault) (updated : Option (List OutboxEvent)) (rows : List OutboxEvent)
    → is_written fault ≡ false
    → rows_after fault updated rows ≡ rows
unwritten_lem MarkFault.sound updated rows h = cc
unwritten_lem (MarkFault.not_written e) updated rows h = refl
unwritten_lem (MarkFault.unanswered e) updated rows h = cc
unwritten_lem (MarkFault.not_read e) updated rows h = cc

some_inj {ℓ} : {A : Type ℓ} {a b : A} → some a ≡ some b → a ≡ b
some_inj h = cc

keys_apart : (i k : Text) (r : OutboxEvent) → k ≢ i → has_event i r ≡ true → has_event k r ≡ false
keys_apart i k r ne h = elim (Bool-cases (has_event k r)) [
  | inl e ↦ absurd (ne (sym ((text_eq_iff r.event_id k).0 e) ∙ (text_eq_iff r.event_id i).0 h))
  | inr e ↦ e
]

module _ (fault : MarkFault) (id : Text) (change : OutboxEvent → OutboxEvent)
    (settled : OutboxEvent → Bool)
    (keeps : (r : OutboxEvent) → (change r).event_id ≡ r.event_id) where
  change-key : (k : Text) (r : OutboxEvent) → has_event k (change r) ≡ has_event k r
  change-key k r = ap (λ i. text_eq i k) (keeps r)

  -- A mark leaves the other rows alone.
  pub mark-other :
      (k : Text) (rows : List OutboxEvent)
      → k ≢ id
      → find (has_event k) (mark fault id change settled rows).1 ≡ find (has_event k) rows
  mark-other k rows ne = elim (mark-cases fault id change settled rows) [
    | inl e ↦ ap (find (has_event k)) e
    | inr u ↦
        find-update_other (has_event id) (has_event k) is_pending change rows
          (λ r h. (keys_apart id k r ne h, change-key k r ∙ keys_apart id k r ne h)) u
  ]

  -- A mark leaves the rows alone that are not pending.
  mark-settled :
      (k : Text) (rows : List OutboxEvent) {r : OutboxEvent}
      → find (has_event k) rows ≡ some r
      → is_pending r ≡ false
      → find (has_event k) (mark fault id change settled rows).1 ≡ some r
  mark-settled k rows {r} found settled_row = elim (Bool-cases (text_eq k id)) [
    | inr other ↦ mark-other k rows (λ e. ground (arith, (text_eq_iff k id).1 e)) ∙ found
    | inl same ↦ elim (mark-cases fault id change settled rows) [
      | inl e ↦ ap (find (has_event k)) e ∙ found
      | inr u ↦
          let (q, found', pending, _) =
            find-update_self (has_event id) is_pending change rows (λ b h. change-key id b ∙ h) u in
          let found_id : find (has_event id) rows ≡ some r =
            subst (λ i. find (has_event i) rows ≡ some r) ((text_eq_iff k id).0 same) found in
          absurd (ground (arith, pending, settled_row, some_inj (sym found' ∙ found_id)))
    ]
  ]

  -- A mark that the database carries out changes the pending row that it names.
  pub mark-pending :
      (rows : List OutboxEvent) {r : OutboxEvent}
      → is_written fault ≡ true
      → find (has_event id) rows ≡ some r
      → is_pending r ≡ true
      → find (has_event id) (mark fault id change settled rows).1 ≡ some (change r)
  unfolding mark
  mark-pending rows {r} written found pending =
      let (rows', e) = update_succeeds (has_event id) is_pending change rows found pending in
      let (q, found', _, now) =
        find-update_self (has_event id) is_pending change rows (λ b h. change-key id b ∙ h) e in
      ap (find (has_event id))
        (ap (λ u. rows_after fault u rows) e ∙ written_lem fault rows' rows written)
      ∙ now
      ∙ ap (λ b. some (change b)) (some_inj (sym found' ∙ found))

  -- A mark that the database rolls back changes nothing.
  pub mark-unwritten :
      (rows : List OutboxEvent)
      → is_written fault ≡ false
      → (mark fault id change settled rows).1 ≡ rows
  unfolding mark
  mark-unwritten rows h = unwritten_lem fault _ rows h

find-map :
    (key : OutboxEvent → Bool) (f : OutboxEvent → OutboxEvent) (rows : List OutboxEvent)
    {r : OutboxEvent}
    → ((b : OutboxEvent) → key (f b) ≡ key b)
    → find key rows ≡ some r
    → find key (map f rows) ≡ some (f r)
unfolding find
find-map key f [] keeps h = cc
find-map key f (b ∷ rows) {r} keeps h = elim (Bool-cases (key b)) [
  | inl e ↦ ground (arith, e, keeps b)
  | inr e ↦ ground (arith, e, keeps b, find-map key f rows {r = r} keeps (ground (arith, e)))
]

lease_row-key :
    (events : List OutboxEvent) (until : Time) (k : Text) (b : OutboxEvent)
    → has_event k (lease_row events until b) ≡ has_event k b
unfolding lease_row
lease_row-key events until k b = elim (Bool-cases (is_leased events b)) [
  | inl e ↦ rw e refl
  | inr e ↦ rw e refl
]

lease_row-settled :
    (events : List OutboxEvent) (until : Time) (b : OutboxEvent)
    → is_pending b ≡ false
    → lease_row events until b ≡ b
unfolding lease_row is_leased
lease_row-settled events until b h = ground (arith, h)

pub claimed-found :
    (config : RelayConfig) (locked : OutboxEvent → Bool) (now : Time) (rows : List OutboxEvent)
    (k : Text) {r : OutboxEvent} {events rows' : List OutboxEvent}
    → find (has_event k) rows ≡ some r
    → claim_pending locked now config.batch_size config.lease_duration rows ≡ ok (events, rows')
    → find (has_event k) rows' ≡ some (lease_row events (now + config.lease_duration) r)
claimed-found config locked now rows k {r} {events} {rows'} found claimed =
    ap (find (has_event k))
      (claim_pending-ok locked now config.batch_size config.lease_duration rows claimed).1
    ∙ find-map (has_event k) (lease_row events (now + config.lease_duration)) rows
        (lease_row-key events (now + config.lease_duration) k) found

claimed-settled :
    (config : RelayConfig) (locked : OutboxEvent → Bool) (now : Time) (rows : List OutboxEvent)
    (k : Text) {r : OutboxEvent} {events rows' : List OutboxEvent}
    → find (has_event k) rows ≡ some r
    → is_pending r ≡ false
    → claim_pending locked now config.batch_size config.lease_duration rows ≡ ok (events, rows')
    → find (has_event k) rows' ≡ some r
claimed-settled config locked now rows k {r} {events} found h claimed =
    claimed-found config locked now rows k found claimed
    ∙ ap (λ b. some b) (lease_row-settled events (now + config.lease_duration) r h)

module _ (config : RelayConfig) (deliver : OutboxEvent → Delivery) (clock : OutboxEvent → Time)
    (fault : OutboxEvent → MarkFault) where
  handle-settled :
      (d : Delivery) (e : OutboxEvent) (k : Text) (rows : List OutboxEvent) {r : OutboxEvent}
      → find (has_event k) rows ≡ some r
      → is_pending r ≡ false
      → find (has_event k) (handle config deliver clock fault d e rows) ≡ some r
  unfolding handle mark_published mark_retry mark_quarantined
  handle-settled Delivery.cancelled e k rows found h = found
  handle-settled Delivery.delivered e k rows found h =
      mark-settled (fault e) e.event_id (published_row (clock e)) is_published (λ r. refl) k rows
        found h
  handle-settled Delivery.rejected e k rows found h =
      mark-settled (fault e) e.event_id (quarantined_row _) is_quarantined (λ r. refl) k rows found
        h
  handle-settled Delivery.failed e k rows found h =
      mark-settled (fault e) e.event_id (retried_row (clock e + config.retry_backoff) _)
        is_published (λ r. refl) k rows found h

  pub process_events-settled :
      (events rows : List OutboxEvent) (k : Text) {r : OutboxEvent}
      → find (has_event k) rows ≡ some r
      → is_pending r ≡ false
      → find (has_event k) (process_events config deliver clock fault events rows) ≡ some r
  unfolding process_events
  process_events-settled [] rows k found h = found
  process_events-settled (e ∷ events) rows k {r} found h =
      go (deliver e) _ found
        (process_events-settled events _ k (handle-settled (deliver e) e k rows found h) h)
    where
      go :
          (d : Delivery) (rest : List OutboxEvent)
          → find (has_event k) rows ≡ some r
          → find (has_event k) rest ≡ some r
          → find (has_event k) (unless_cancelled d rows rest) ≡ some r
      go Delivery.cancelled rest f g = f
      go Delivery.delivered rest f g = g
      go Delivery.rejected rest f g = g
      go Delivery.failed rest f g = g

-- A row that is published or quarantined stays exactly as it is in every pass of the relay, whatever
-- the publisher and the database answer.
pub process_once-settled :
    (config : RelayConfig) (deliver : OutboxEvent → Delivery) (clock : OutboxEvent → Time)
    (fault : OutboxEvent → MarkFault) (locked : OutboxEvent → Bool) (now : Time)
    (rows : List OutboxEvent) (k : Text) {r : OutboxEvent}
    → find (has_event k) rows ≡ some r
    → is_pending r ≡ false
    → find (has_event k) (process_once config deliver clock fault locked now rows) ≡ some r
unfolding process_once
process_once-settled config deliver clock fault locked now rows k {r} found h =
    go (claim_pending locked now config.batch_size config.lease_duration rows) refl
  where
    go :
        (c : Result (List OutboxEvent × List OutboxEvent))
        → claim_pending locked now config.batch_size config.lease_duration rows ≡ c
        → find (has_event k) (process_claimed config deliver clock fault c rows) ≡ some r
    go (err e) claimed = unfold process_claimed in found
    go (ok (events, rows')) claimed =
        unfold process_claimed in
        process_events-settled config deliver clock fault events rows' k
          (claimed-settled config locked now rows k found h claimed) h
