-- ===== src/Outbox.antt =====
-- The transactional outbox: the relay's claim of pending events, and the marks that it leaves on
-- them. Source: src/backend/internal/repository/outbox.go.
pub mod Order
pub mod Claim
pub mod Marks
pub mod Leases
use team5_ewaste_platform.Common.{
  ℕ, zero, suc, ◌+◌, Bool, true, false, ◌&&◌, ◌||◌, not, Option, none, some, List, [], ◌∷◌, Text,
  text_eq, leb, ltb, ◌==◌, if◌then◌else◌, Result, ok, err, store, outbox_event_not_found,
  outbox_lease_lost, outbox_invalid_size, outbox_invalid_lease, length, map, String, Error,
}
use team5_ewaste_platform.Store.{Time, OutboxEvent, PublishState, find, exists, count, update}

-- `<` on the event ids, which are compared as texts.
unfoldable pub text_lt : Text → Text → Bool
text_lt s [] = false
text_lt [] (d ∷ t) = true
text_lt (c ∷ s) (d ∷ t) = let rest = text_lt s t in ltb c d || c == d && rest

-- (aggregate_version, created_at, event_id) < (…)
unfoldable pub precedes : OutboxEvent → OutboxEvent → Bool
unfolding text_lt
precedes e f =
    ltb e.aggregate_version f.aggregate_version
    || e.aggregate_version == f.aggregate_version
      && (ltb e.created_at f.created_at
          || e.created_at == f.created_at && text_lt e.event_id f.event_id)

abbrev pub is_pending : OutboxEvent → Bool
is_pending e = elim e.publish_state [
  | PublishState.pending ↦ true
  | PublishState.published ↦ false
  | PublishState.quarantined ↦ false
]

abbrev pub is_published : OutboxEvent → Bool
is_published e = elim e.publish_state [
  | PublishState.pending ↦ false
  | PublishState.published ↦ true
  | PublishState.quarantined ↦ false
]

abbrev pub is_quarantined : OutboxEvent → Bool
is_quarantined e = elim e.publish_state [
  | PublishState.pending ↦ false
  | PublishState.published ↦ false
  | PublishState.quarantined ↦ true
]

-- next_attempt_at <= now, which is not true of NULL.
abbrev pub is_due : Time → OutboxEvent → Bool
is_due now e = elim e.next_attempt_at [ none ↦ false | some at ↦ leb at now ]

abbrev pub blocks : OutboxEvent → OutboxEvent → Bool
blocks e blocked = text_eq blocked.batch_id e.batch_id && is_quarantined blocked

unfoldable pub is_predecessor : OutboxEvent → OutboxEvent → Bool
unfolding precedes
is_predecessor e predecessor =
    text_eq predecessor.batch_id e.batch_id && (is_pending predecessor && precedes predecessor e)

-- The WHERE of ClaimPending. SKIP LOCKED leaves out the rows that another transaction has locked.
unfoldable pub is_candidate : (OutboxEvent → Bool) → Time → List OutboxEvent → OutboxEvent → Bool
unfolding is_predecessor
is_candidate locked now rows e =
    not (locked e)
    && (is_pending e
        && (is_due now e && (not (exists (blocks e) rows) && not (exists (is_predecessor e) rows))))

unfoldable pub filter {ℓ} : {A : Type ℓ} → (A → Bool) → List A → List A
filter test [] = []
filter test (a ∷ rest) = let kept = filter test rest in if test a then a ∷ kept else kept

unfoldable pub take {ℓ} : {A : Type ℓ} → ℕ → List A → List A
take zero l = []
take (suc n) [] = []
take (suc n) (a ∷ rest) = a ∷ take n rest

-- ORDER BY aggregate_version, created_at, event_id
unfoldable pub insert : OutboxEvent → List OutboxEvent → List OutboxEvent
unfolding precedes
insert e [] = e ∷ []
insert e (f ∷ fs) = let rest = insert e fs in if precedes f e then f ∷ rest else e ∷ f ∷ fs

unfoldable pub sort : List OutboxEvent → List OutboxEvent
unfolding insert
sort [] = []
sort (e ∷ es) = insert e (sort es)

abbrev pub has_event : Text → OutboxEvent → Bool
has_event event_id e = text_eq e.event_id event_id

-- event_id IN ? AND publish_state = 'PENDING'
unfoldable pub is_leased : List OutboxEvent → OutboxEvent → Bool
is_leased events e = exists (λ f. text_eq f.event_id e.event_id) events && is_pending e

unfoldable pub lease_row : List OutboxEvent → Time → OutboxEvent → OutboxEvent
unfolding is_leased
lease_row events lease_until e =
    if is_leased events e
    then record e { attempt_count = e.attempt_count + 1; next_attempt_at = some lease_until }
    else e

-- A limit or a lease of 0 stands for every one that is not positive. The events, as they were when they were selected, and the rows with the events leased.
unfoldable pub claim_pending :
    (OutboxEvent → Bool)
    → Time
    → ℕ
    → Time
    → List OutboxEvent
    → Result (List OutboxEvent × List OutboxEvent)
unfolding is_candidate filter sort take is_leased lease_row
claim_pending locked now limit lease_duration rows =
    let events = take limit (sort (filter (is_candidate locked now rows) rows)) in
    if limit == 0
    then err (store outbox_invalid_size)
    else if lease_duration == 0
    then err (store outbox_invalid_lease)
    else if count (is_leased events) rows == length events
    then ok (events, map (lease_row events (now + lease_duration)) rows)
    else err (store outbox_lease_lost)

-- How the statements of a mark end: both as they should; or the UPDATE with an error, before which
-- the database has rolled it back, or has committed it; or the read of the row's state with an error.
pub data MarkFault : Type 0 where
  sound : MarkFault
  not_written unanswered not_read : Error → MarkFault

-- Whether the database carries the mark out; its answer may be lost even then.
abbrev pub is_written : MarkFault → Bool
is_written MarkFault.sound = true
is_written (MarkFault.not_written e) = false
is_written (MarkFault.unanswered e) = true
is_written (MarkFault.not_read e) = true

abbrev pub or_same : Option (List OutboxEvent) → List OutboxEvent → List OutboxEvent
or_same none rows = rows
or_same (some rows') rows = rows'

abbrev pub rows_after : MarkFault → Option (List OutboxEvent) → List OutboxEvent → List OutboxEvent
rows_after MarkFault.sound updated rows = or_same updated rows
rows_after (MarkFault.not_written e) updated rows = rows
rows_after (MarkFault.unanswered e) updated rows = or_same updated rows
rows_after (MarkFault.not_read e) updated rows = or_same updated rows

-- The state that is read when no row was changed.
abbrev state_error : (OutboxEvent → Bool) → Option OutboxEvent → Option Error
state_error settled none = some (store outbox_event_not_found)
state_error settled (some e) = if settled e then none else some (store outbox_lease_lost)

-- nil, `none`, when `result.RowsAffected == 1`, or when the row has the wanted state already.
abbrev error_of :
    MarkFault → (OutboxEvent → Bool) → Option (List OutboxEvent) → Option OutboxEvent → Option Error
error_of (MarkFault.not_written e) settled updated found = some e
error_of (MarkFault.unanswered e) settled updated found = some e
error_of MarkFault.sound settled (some rows) found = none
error_of MarkFault.sound settled none found = state_error settled found
error_of (MarkFault.not_read e) settled (some rows) found = none
error_of (MarkFault.not_read e) settled none found = some e

-- The error that a mark returns, and the rows that it leaves.
unfoldable pub mark :
    MarkFault
    → Text
    → (OutboxEvent → OutboxEvent)
    → (OutboxEvent → Bool)
    → List OutboxEvent
    → Option Error × List OutboxEvent
mark fault event_id change settled rows =
    let updated = update (has_event event_id) is_pending change rows in
    (error_of fault settled updated (find (has_event event_id) rows), rows_after fault updated rows)

abbrev pub published_row : Time → OutboxEvent → OutboxEvent
published_row published_at e = record e {
  publish_state = PublishState.published;
  published_at = some published_at;
  next_attempt_at = none;
  last_error_code = none;
}

abbrev pub retried_row : Time → Text → OutboxEvent → OutboxEvent
retried_row next_attempt_at error_code e = record e {
  next_attempt_at = some next_attempt_at;
  last_error_code = some error_code;
}

abbrev pub quarantined_row : Text → OutboxEvent → OutboxEvent
quarantined_row error_code e = record e {
  publish_state = PublishState.quarantined;
  next_attempt_at = none;
  last_error_code = some error_code;
}

unfoldable pub mark_published :
    MarkFault → Text → Time → List OutboxEvent → Option Error × List OutboxEvent
unfolding mark
mark_published fault event_id published_at =
    mark fault event_id (published_row published_at) is_published

unfoldable pub mark_retry :
    MarkFault → Text → Time → Text → List OutboxEvent → Option Error × List OutboxEvent
unfolding mark
mark_retry fault event_id next_attempt_at error_code =
    mark fault event_id (retried_row next_attempt_at error_code) is_published

unfoldable pub mark_quarantined :
    MarkFault → Text → Text → List OutboxEvent → Option Error × List OutboxEvent
unfolding mark
mark_quarantined fault event_id error_code =
    mark fault event_id (quarantined_row error_code) is_quarantined
