-- ===== src/Relay/Progress.antt =====
-- What a pass of the relay achieves. Source: src/backend/internal/outbox/relay.go.
use mathlib.Core.Path.{subst}
use mathlib.Core.List.{Memᴰ}
use team5_ewaste_platform.Common.{
  ◌+◌, if◌then◌else◌, Bool, true, false, some, List, [], ◌∷◌, Text, ◌≡◌, ◌≢◌, refl, sym, ap, ◌∙◌,
  arith, inl, inr, Bool-cases, ok, text_eq, text_eq_iff, text_eq_refl,
}
use team5_ewaste_platform.Store.{Time, OutboxEvent, find}
use team5_ewaste_platform.Outbox.{
  MarkFault, is_written, has_event, is_pending, is_published, is_quarantined, mark_published,
  mark_retry, mark_quarantined, published_row, quarantined_row, retried_row, claim_pending,
  lease_row,
}
use team5_ewaste_platform.Outbox.Claim.{IsHead, claimed-IsHead, lease_row-keeps}
use team5_ewaste_platform.Relay.{
  RelayConfig, Delivery, unless_cancelled, handle, process_events, process_claimed, process_once,
}
use team5_ewaste_platform.Relay.Safety.{
  mark-other, mark-pending, mark-unwritten, process_events-settled, claimed-found,
}

not-cancelled :
    (d : Delivery) (rows rest : List OutboxEvent)
    → d ≢ Delivery.cancelled
    → unless_cancelled d rows rest ≡ rest
not-cancelled Delivery.cancelled rows rest h = absurd (h refl)
not-cancelled Delivery.delivered rows rest h = refl
not-cancelled Delivery.rejected rows rest h = refl
not-cancelled Delivery.failed rows rest h = refl

-- No two rows have the same id, which is the primary key.
unfoldable pub UniqueIds : List OutboxEvent → Type 0
UniqueIds rows = (e f : OutboxEvent) → Memᴰ e rows → Memᴰ f rows → e.event_id ≡ f.event_id → e ≡ f

find_unique :
    (rows : List OutboxEvent) (e : OutboxEvent)
    → Memᴰ e rows
    → ((f : OutboxEvent) → Memᴰ f rows → f.event_id ≡ e.event_id → f ≡ e)
    → find (has_event e.event_id) rows ≡ some e
unfolding find
find_unique [] e m unique = elim m [ ]
find_unique (b ∷ rows) e m unique = elim (Bool-cases (has_event e.event_id b)) [
  | inl h ↦
      rw h (ap (λ x. some x) (unique b (Memᴰ.head refl) ((text_eq_iff b.event_id e.event_id).0 h)))
  | inr h ↦ rw h (find_unique rows e (later m h) (λ f mf. unique f (Memᴰ.tail mf)))
]
  where
    later : Memᴰ e (b ∷ rows) → has_event e.event_id b ≡ false → Memᴰ e rows
    later (Memᴰ.head h) k = absurd (ground (arith, h, text_eq_refl e.event_id))
    later (Memᴰ.tail h) k = h

module _ (config : RelayConfig) (deliver : OutboxEvent → Delivery) (clock : OutboxEvent → Time)
    (fault : OutboxEvent → MarkFault) where
  handle-other :
      (d : Delivery) (e : OutboxEvent) (k : Text) (rows : List OutboxEvent)
      → k ≢ e.event_id
      → find (has_event k) (handle config deliver clock fault d e rows) ≡ find (has_event k) rows
  unfolding handle mark_published mark_retry mark_quarantined
  handle-other Delivery.cancelled e k rows ne = refl
  handle-other Delivery.delivered e k rows ne =
      mark-other (fault e) e.event_id (published_row (clock e)) is_published (λ r. refl) k rows ne
  handle-other Delivery.rejected e k rows ne =
      mark-other (fault e) e.event_id (quarantined_row _) is_quarantined (λ r. refl) k rows ne
  handle-other Delivery.failed e k rows ne =
      mark-other (fault e) e.event_id (retried_row (clock e + config.retry_backoff) _) is_published
        (λ r. refl) k rows ne

  process_events-delivered :
      (events rows : List OutboxEvent) (e : OutboxEvent) {r : OutboxEvent}
      → Memᴰ e events
      → deliver e ≡ Delivery.delivered
      → is_written (fault e) ≡ true
      → ((f : OutboxEvent) → Memᴰ f events → f.event_id ≡ e.event_id → f ≡ e)
      → ((f : OutboxEvent) → Memᴰ f events → deliver f ≢ Delivery.cancelled)
      → find (has_event e.event_id) rows ≡ some r
      → is_pending r ≡ true
      → find (has_event e.event_id) (process_events config deliver clock fault events rows)
        ≡ some (published_row (clock e) r)
  unfolding process_events
  process_events-delivered [] rows e m d w unique running found pending = elim m [ ]
  process_events-delivered (g ∷ events) rows e {r} m d w unique running found pending =
      let rest =
        process_events config deliver clock fault events
          (handle config deliver clock fault (deliver g) g rows) in
      ap (find (has_event e.event_id))
        (not-cancelled (deliver g) rows rest (running g (Memᴰ.head refl)))
      ∙ (elim (Bool-cases (text_eq g.event_id e.event_id)) [
        | inl same ↦
            let ge : g ≡ e =
              unique g (Memᴰ.head refl) ((text_eq_iff g.event_id e.event_id).0 same) in
            process_events-settled config deliver clock fault events _ e.event_id
              (subst
                (λ x.
                  find (has_event e.event_id) (handle config deliver clock fault (deliver x) x rows)
                  ≡ some (published_row (clock e) r))
                (sym ge) (here e r d w found pending))
              refl
        | inr other ↦
            process_events-delivered events _ e (later m other) d w
              (λ f mf. unique f (Memᴰ.tail mf)) (λ f mf. running f (Memᴰ.tail mf))
              (handle-other (deliver g) g e.event_id rows
                  (λ q. absurd (ground (arith, (text_eq_iff g.event_id e.event_id).1 (sym q))))
                ∙ found)
              pending
      ])
    where
      later : Memᴰ e (g ∷ events) → text_eq g.event_id e.event_id ≡ false → Memᴰ e events
      later (Memᴰ.head h) k = absurd (ground (arith, h, text_eq_refl e.event_id))
      later (Memᴰ.tail h) k = h

      here :
          (e r : OutboxEvent)
          → deliver e ≡ Delivery.delivered
          → is_written (fault e) ≡ true
          → find (has_event e.event_id) rows ≡ some r
          → is_pending r ≡ true
          → find (has_event e.event_id) (handle config deliver clock fault (deliver e) e rows)
            ≡ some (published_row (clock e) r)
      here e r d w found pending =
          subst
            (λ x.
              find (has_event e.event_id) (handle config deliver clock fault x e rows)
              ≡ some (published_row (clock e) r))
            (sym d)
            (unfold handle in
              unfold mark_published in
              mark-pending (fault e) e.event_id (published_row (clock e)) is_published (λ r. refl)
                rows w found pending)

  handle-unwritten :
      (d : Delivery) (e : OutboxEvent) (rows : List OutboxEvent)
      → is_written (fault e) ≡ false
      → handle config deliver clock fault d e rows ≡ rows
  unfolding handle mark_published mark_retry mark_quarantined
  handle-unwritten Delivery.cancelled e rows h = refl
  handle-unwritten Delivery.delivered e rows h =
      mark-unwritten (fault e) e.event_id (published_row (clock e)) is_published (λ r. refl) rows h
  handle-unwritten Delivery.rejected e rows h =
      mark-unwritten (fault e) e.event_id (quarantined_row _) is_quarantined (λ r. refl) rows h
  handle-unwritten Delivery.failed e rows h =
      mark-unwritten (fault e) e.event_id (retried_row (clock e + config.retry_backoff) _)
        is_published (λ r. refl) rows h

  -- An event whose marks are rolled back keeps its row.
  process_events-unwritten :
      (events rows : List OutboxEvent) (e : OutboxEvent)
      → is_written (fault e) ≡ false
      → ((f : OutboxEvent) → Memᴰ f events → f.event_id ≡ e.event_id → f ≡ e)
      → ((f : OutboxEvent) → Memᴰ f events → deliver f ≢ Delivery.cancelled)
      → find (has_event e.event_id) (process_events config deliver clock fault events rows)
        ≡ find (has_event e.event_id) rows
  unfolding process_events
  process_events-unwritten [] rows e w unique running = refl
  process_events-unwritten (g ∷ events) rows e w unique running =
      ap (find (has_event e.event_id))
        (not-cancelled (deliver g) rows _ (running g (Memᴰ.head refl)))
      ∙ process_events-unwritten events _ e w (λ f mf. unique f (Memᴰ.tail mf))
          (λ f mf. running f (Memᴰ.tail mf))
      ∙ (elim (Bool-cases (text_eq g.event_id e.event_id)) [
        | inl same ↦ ap (find (has_event e.event_id)) (
            handle-unwritten (deliver g) g rows (
              ap (λ x. is_written (fault x))
                (unique g (Memᴰ.head refl) ((text_eq_iff g.event_id e.event_id).0 same))
              ∙ w))
        | inr other ↦
            handle-other (deliver g) g e.event_id rows
              (λ q. absurd (ground (arith, (text_eq_iff g.event_id e.event_id).1 (sym q))))
      ])

  -- Both together.
  process_events-marked :
      (events rows : List OutboxEvent) (e : OutboxEvent) {r : OutboxEvent}
      → Memᴰ e events
      → deliver e ≡ Delivery.delivered
      → ((f : OutboxEvent) → Memᴰ f events → f.event_id ≡ e.event_id → f ≡ e)
      → ((f : OutboxEvent) → Memᴰ f events → deliver f ≢ Delivery.cancelled)
      → find (has_event e.event_id) rows ≡ some r
      → is_pending r ≡ true
      → find (has_event e.event_id) (process_events config deliver clock fault events rows)
        ≡ some (if is_written (fault e) then published_row (clock e) r else r)
  process_events-marked events rows e m d unique running found pending =
      elim (Bool-cases (is_written (fault e))) [
        | inl w ↦ rw w (process_events-delivered events rows e m d w unique running found pending)
        | inr w ↦ rw w (process_events-unwritten events rows e w unique running ∙ found)
      ]

-- With no two rows of the same id, a claimed event that the publisher accepts is published when the
-- pass ends, in case the relay is not stopped on the way and the database carries the event's mark out, whether or not its answer
-- arrives; its row is otherwise the claimed one. When the database rolls the mark back, the row stays
-- as the claim left it: pending, under its lease.
pub process_once-delivered :
    (config : RelayConfig) (deliver : OutboxEvent → Delivery) (clock : OutboxEvent → Time)
    (fault : OutboxEvent → MarkFault) (locked : OutboxEvent → Bool) (now : Time)
    (rows events rows' : List OutboxEvent) (e : OutboxEvent)
    → claim_pending locked now config.batch_size config.lease_duration rows ≡ ok (events, rows')
    → UniqueIds rows
    → ((f : OutboxEvent) → Memᴰ f events → deliver f ≢ Delivery.cancelled)
    → Memᴰ e events
    → deliver e ≡ Delivery.delivered
    → find (has_event e.event_id) (process_once config deliver clock fault locked now rows)
      ≡ some (
          if is_written (fault e)
          then published_row (clock e) (lease_row events (now + config.lease_duration) e)
          else lease_row events (now + config.lease_duration) e)
unfolding process_once process_claimed UniqueIds
process_once-delivered config deliver clock fault locked now rows events rows' e claimed unique
      running m d =
    let head : (f : OutboxEvent) → Memᴰ f events → IsHead now rows f =
      λ f mf. claimed-IsHead locked now config.batch_size config.lease_duration rows claimed mf in
    let found : find (has_event e.event_id) rows ≡ some e =
      find_unique rows e (head e m).row (λ f mf. unique f e mf (head e m).row) in
    ap (λ c. find (has_event e.event_id) (process_claimed config deliver clock fault c rows))
      claimed
    ∙ process_events-marked config deliver clock fault events rows' e m d
        (λ f mf. unique f e (head f mf).row (head e m).row) running
        (claimed-found config locked now rows e.event_id found claimed)
        ((lease_row-keeps events (now + config.lease_duration) e).1 ∙ (head e m).pending)
