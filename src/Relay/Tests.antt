-- ===== src/Relay/Tests.antt =====
-- The relay on an outbox with two batches.
use mathlib.Core.List.{Memᴰ}
use team5_ewaste_platform.Common.{
  cancelled, ℕ, Bool, false, true, none, some, List, [], ◌∷◌, ◌≡◌, ◌≢◌, refl, sym, ◌∙◌, ◌⊎◌, inl,
  inr, text_eq_iff, arith, Text, codes, text_eq, All, ok, ap,
}
use team5_ewaste_platform.Store.{OutboxEvent, EventType, PublishState, find, exists, count, update}
use team5_ewaste_platform.Outbox.{
  text_lt, precedes, is_predecessor, is_candidate, filter, take, insert, sort, has_event, is_leased,
  lease_row, claim_pending, published_row, MarkFault, mark, mark_published,
}
use team5_ewaste_platform.Outbox.Claim.{claim_pending-one_per_batch, claim_pending-in_order}
use team5_ewaste_platform.Outbox.Leases.{
  OutboxStep, run_step, run_steps, IsWithin, claim_pending-leased,
}
use team5_ewaste_platform.Relay.{RelayConfig, Delivery, process_once}
use team5_ewaste_platform.Relay.Safety.{process_once-settled}
use team5_ewaste_platform.Relay.Progress.{UniqueIds, process_once-delivered}

abbrev event : Text → Text → ℕ → PublishState → OutboxEvent
event event_id batch_id version state = record {
  event_id = event_id;
  batch_id = batch_id;
  command_id = event_id;
  event_type = EventType.request_submitted;
  topic = codes "ewaste.batch.events";
  schema_version = 1;
  aggregate_version = version;
  sequence_in_command = 1;
  partition_key = batch_id;
  payload_json = codes "{}";
  correlation_id = codes "x";
  occurred_at = 5;
  created_at = 5;
  publish_state = state;
  attempt_count = 0;
  next_attempt_at = some 5;
  published_at = none;
  last_error_code = none;
}

-- Batch 1 has a published event, and two pending ones after it; batch 2 has a pending one.
abbrev first : OutboxEvent
first = event (codes "e1") (codes "b1") 2 PublishState.published

abbrev next : OutboxEvent
next = event (codes "e2") (codes "b1") 3 PublishState.pending

abbrev last : OutboxEvent
last = event (codes "e3") (codes "b1") 4 PublishState.pending

abbrev other : OutboxEvent
other = event (codes "e4") (codes "b2") 2 PublishState.pending

abbrev rows : List OutboxEvent
rows = last ∷ first ∷ other ∷ next ∷ []

abbrev none_locked : OutboxEvent → Bool
none_locked e = false

abbrev leased : List OutboxEvent → List OutboxEvent
leased events = last ∷ first ∷ lease_row events 130 other ∷ lease_row events 130 next ∷ []

abbrev claimed_events : List OutboxEvent
claimed_events = other ∷ next ∷ []

abbrev one_leased : List OutboxEvent
one_leased = last ∷ first ∷ lease_row (other ∷ []) 130 other ∷ next ∷ []

claims :
    (claim_pending none_locked 100 5 30 rows ≡ ok (claimed_events, leased claimed_events))
    × (claim_pending none_locked 110 5 30 (leased claimed_events) ≡ ok ([], leased claimed_events))
    × (precedes first next ≡ true)
    × (claim_pending none_locked 100 1 30 rows ≡ ok (other ∷ [], one_leased))
    × (claim_pending none_locked 110 5 30 one_leased
        ≡ ok (
          next ∷ [],
          last ∷ first ∷ lease_row (other ∷ []) 130 other ∷ lease_row (next ∷ []) 140 next ∷ [],
        ))
unfolding claim_pending is_candidate is_predecessor precedes text_lt text_eq filter sort insert take
    is_leased lease_row exists count
claims = (refl, refl, refl, refl, refl)

claim_pending-one_per_batch_example : next.event_id ≡ next.event_id
claim_pending-one_per_batch_example =
    claim_pending-one_per_batch none_locked 100 5 30 rows claims.0 next next
      (Memᴰ.tail (Memᴰ.head refl)) (Memᴰ.tail (Memᴰ.head refl)) refl

claim_pending-in_order_example : first.publish_state ≡ PublishState.published
claim_pending-in_order_example =
    claim_pending-in_order none_locked 100 5 30 rows claims.0 next first
      (Memᴰ.tail (Memᴰ.head refl)) (Memᴰ.tail (Memᴰ.head refl)) refl claims.2

-- Between the claims, the relay marks the first claim's event as published.
abbrev between : List OutboxStep
between =
    OutboxStep.claim none_locked 105 0 30
    ∷ OutboxStep.publish MarkFault.sound other.event_id 107
    ∷ []

later :
    claim_pending none_locked 110 5 30 (run_steps between one_leased)
    ≡ ok (
      next ∷ [],
      last
          ∷ first
          ∷ published_row 107 (lease_row (other ∷ []) 130 other)
          ∷ lease_row (next ∷ []) 140 next
          ∷ [],
    )
unfolding run_steps run_step mark_published mark claim_pending is_candidate is_predecessor precedes
    text_lt text_eq filter sort insert take is_leased lease_row exists count update find
later = refl

within : All (IsWithin other.event_id 130) between
unfolding IsWithin
within = (omega arith, (tt, tt))

claim_pending-leased_example : other.event_id ≢ next.event_id
claim_pending-leased_example =
    claim_pending-leased none_locked none_locked 100 110 1 5 30 30 rows between other next claims.3
      (Memᴰ.head refl) within later (omega arith) (Memᴰ.head refl)

-- The publisher accepts the events of the second batch and fails on the others.
abbrev deliver : OutboxEvent → Delivery
deliver e = elim (text_eq e.batch_id (codes "b2")) [
  | true ↦ Delivery.delivered
  | false ↦ Delivery.failed
]

-- The answers to the marks are lost.
abbrev faults : OutboxEvent → MarkFault
faults e = MarkFault.unanswered cancelled

abbrev config : RelayConfig
config = record { batch_size = 5; lease_duration = 30; retry_backoff = 7 }

found_first : find (has_event first.event_id) rows ≡ some first
unfolding find text_eq
found_first = refl

process_once-settled_example :
    find
      (has_event first.event_id)
      (process_once config deliver (λ e. 120) faults none_locked 100 rows)
    ≡ some first
process_once-settled_example =
    process_once-settled config deliver (λ e. 120) faults none_locked 100 rows first.event_id
      found_first refl

abbrev two_rows : List OutboxEvent
two_rows = other ∷ next ∷ []

two_claimed :
    (claim_pending none_locked 100 5 30 two_rows
      ≡ ok (two_rows, lease_row two_rows 130 other ∷ lease_row two_rows 130 next ∷ []))
    × (deliver other ≡ Delivery.delivered)
    × (deliver next ≡ Delivery.failed)
unfolding claim_pending is_candidate is_predecessor precedes text_lt text_eq filter sort insert take
    is_leased lease_row exists count
two_claimed = (refl, refl, refl)

delivered-not-cancelled : Delivery.delivered ≡ Delivery.cancelled → ⊥
delivered-not-cancelled h = cc

failed-not-cancelled : Delivery.failed ≡ Delivery.cancelled → ⊥
failed-not-cancelled h = cc

member_cases : (e : OutboxEvent) → Memᴰ e two_rows → (e ≡ other) ⊎ (e ≡ next)
member_cases e (Memᴰ.head h) = inl h
member_cases e (Memᴰ.tail (Memᴰ.head h)) = inr h
member_cases e (Memᴰ.tail (Memᴰ.tail m)) = elim m [ ]

different_texts : text_eq other.event_id next.event_id ≡ false
unfolding text_eq
different_texts = refl

different_ids : other.event_id ≢ next.event_id
different_ids h = ground (arith, different_texts, (text_eq_iff other.event_id next.event_id).1 h)

two_rows-UniqueIds : UniqueIds two_rows
unfolding UniqueIds
two_rows-UniqueIds e f me mf same = elim (member_cases e me) [
  | inl a ↦ elim (member_cases f mf) [
    | inl b ↦ a ∙ sym b
    | inr b ↦ absurd (different_ids (sym (ap (λ x. x.event_id) a) ∙ same ∙ ap (λ x. x.event_id) b))
  ]
  | inr a ↦ elim (member_cases f mf) [
    | inl b ↦
        absurd (different_ids (sym (ap (λ x. x.event_id) b) ∙ sym same ∙ ap (λ x. x.event_id) a))
    | inr b ↦ a ∙ sym b
  ]
]

never_cancelled : (f : OutboxEvent) → Memᴰ f two_rows → deliver f ≢ Delivery.cancelled
never_cancelled f m h = elim (member_cases f m) [
  | inl e ↦ absurd (delivered-not-cancelled (sym two_claimed.1 ∙ sym (ap deliver e) ∙ h))
  | inr e ↦ absurd (failed-not-cancelled (sym two_claimed.2 ∙ sym (ap deliver e) ∙ h))
]

process_once-delivered_example :
    find
      (has_event other.event_id)
      (process_once config deliver (λ e. 120) faults none_locked 100 two_rows)
    ≡ some (published_row 120 (lease_row two_rows 130 other))
process_once-delivered_example =
    process_once-delivered config deliver (λ e. 120) faults none_locked 100 two_rows two_rows _
      other two_claimed.0 two_rows-UniqueIds never_cancelled (Memᴰ.head refl) two_claimed.1
