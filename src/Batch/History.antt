-- ===== src/Batch/History.antt =====
-- Histories of donor commands. Source: src/backend/internal/service/batch.go.
use mathlib.Core.Path.{subst}
use team5_ewaste_platform.Common.{
  suc, Bool, true, false, ◌&&◌, List, [], ◌∷◌, some, ◌≡◌, ◌≢◌, refl, sym, ap, ◌∙◌, arith, ◌⊎◌, inl,
  inr, Text, text_eq, text_eq_iff, Bool-cases, Result, ok, err,
}
use team5_ewaste_platform.Store.{
  Db, Batch, BatchStatus, status_eq, OutboxEvent, EventType, find, exists, count,
}
use team5_ewaste_platform.Store.Statements.{has_id}
use team5_ewaste_platform.Store.Laws.{BatchUpdated, find-key}
use team5_ewaste_platform.Dto.{BatchMutationResult, BatchCommandMetadata}
use team5_ewaste_platform.Platform.{Platform}
use team5_ewaste_platform.Command.{Call}
use team5_ewaste_platform.Batch.View.{new_outbox, new_draft}
use team5_ewaste_platform.Batch.Effects.{submitted_row}
use team5_ewaste_platform.Batch.Commands.{Done, perform-Done, perform-err}
use team5_ewaste_platform.Batch.{DonorCommand, perform}

-- A RequestSubmitted event of the given batch.
abbrev pub announces : Text → OutboxEvent → Bool
announces batch_id e =
    text_eq e.batch_id batch_id
    && elim e.event_type [ EventType.request_submitted ↦ true | _ ↦ false ]

abbrev pub is_draft_row : Batch → Bool
is_draft_row b = status_eq b.status BatchStatus.draft

count-when :
    (key : OutboxEvent → Bool) (e : OutboxEvent) (l : List OutboxEvent)
    → key e ≡ true
    → count key (e ∷ l) ≡ suc (count key l)
unfolding count
count-when key e l h = ground (arith, h)

count-unless :
    (key : OutboxEvent → Bool) (e : OutboxEvent) (l : List OutboxEvent)
    → key e ≡ false
    → count key (e ∷ l) ≡ count key l
unfolding count
count-unless key e l h = ground (arith, h)

other_event : (id : Text) (e : OutboxEvent) → e.batch_id ≢ id → announces id e ≡ false
other_event id e ne = elim (Bool-cases (text_eq e.batch_id id)) [
  | inl same ↦ absurd (ne ((text_eq_iff e.batch_id id).0 same))
  | inr apart ↦ ground (arith, apart)
]

-- The batch has no RequestSubmitted event, or exactly one and is a draft no more.
unfoldable pub IsAnnouncedOnce : Text → List OutboxEvent → List Batch → Type 0
IsAnnouncedOnce id outbox batches =
    (count (announces id) outbox ≡ 0)
    ⊎ ((count (announces id) outbox ≡ 1)
        × (b : Batch) × (find (has_id id) batches ≡ some b)
        × (is_draft_row b ≡ false))

pub exists-find :
    (id : Text) (rows : List Batch) {b : Batch}
    → exists (has_id id) rows ≡ false
    → find (has_id id) rows ≡ some b
    → ⊥
unfolding exists find
exists-find id [] h k = cc
exists-find id (r ∷ rows) {b} h k = exists-find id rows {b = b} (ground arith) (ground arith)

created :
    (id : Text) (outbox : List OutboxEvent) (b : Batch) (batches : List Batch)
    → exists (has_id b.id) batches ≡ false
    → IsAnnouncedOnce id outbox batches
    → IsAnnouncedOnce id outbox (b ∷ batches)
unfolding IsAnnouncedOnce find
created id outbox b batches fresh (inl h) = inl h
created id outbox b batches fresh (inr (h, c, found, later)) = elim (Bool-cases (text_eq b.id id)) [
  | inl same ↦ absurd (
      exists-find b.id batches fresh
        (subst (λ i. find (has_id i) batches ≡ some c) (sym ((text_eq_iff b.id id).0 same)) found))
  | inr apart ↦ inr (h, c, rw apart found, later)
]

some_inj {ℓ} : {A : Type ℓ} {a b : A} → some a ≡ some b → a ≡ b
some_inj h = cc

true-ne-false : true ≡ false → ⊥
true-ne-false h = cc

pub draft-not-later :
    (b c : Batch) → some b ≡ some c → b.status ≡ BatchStatus.draft → is_draft_row c ≡ false → ⊥
draft-not-later b c e h k =
    true-ne-false
      (ap (λ s. status_eq s BatchStatus.draft) (sym h) ∙ ap is_draft_row (some_inj e) ∙ k)

edited :
    (id batch_id : Text) (outbox : List OutboxEvent) (batches batches' : List Batch)
    (before after : Batch)
    → BatchUpdated batch_id batches batches' before after
    → before.status ≡ BatchStatus.draft
    → IsAnnouncedOnce id outbox batches
    → IsAnnouncedOnce id outbox batches'
unfolding IsAnnouncedOnce
edited id batch_id outbox batches batches' before after u draft (inl h) = inl h
edited id batch_id outbox batches batches' before after u draft (inr (h, c, found, later)) =
    elim (Bool-cases (text_eq id batch_id)) [
      | inl same ↦ absurd (
          draft-not-later before c
            (sym u.found
              ∙ ap (λ i. find (has_id i) batches) (sym ((text_eq_iff id batch_id).0 same))
              ∙ found)
            draft later)
      | inr apart ↦ inr (
        h,
        c,
        u.others_kept id (λ e. ground (arith, (text_eq_iff id batch_id).1 e)) ∙ found,
        later,
      )
    ]

submitted :
    (id batch_id : Text) (outbox : List OutboxEvent) (event : OutboxEvent)
    (batches batches' : List Batch) (before after : Batch)
    → BatchUpdated batch_id batches batches' before after
    → before.status ≡ BatchStatus.draft
    → is_draft_row after ≡ false
    → event.batch_id ≡ after.id
    → event.event_type ≡ EventType.request_submitted
    → IsAnnouncedOnce id outbox batches
    → IsAnnouncedOnce id (event ∷ outbox) batches'
unfolding IsAnnouncedOnce count
submitted id batch_id outbox event batches batches' before after u draft later of kind h =
    elim (Bool-cases (text_eq id batch_id)) [
      | inl same ↦
          let e : id ≡ batch_id = (text_eq_iff id batch_id).0 same in
          let is_own : announces id event ≡ true =
            ground (arith, kind, (text_eq_iff event.batch_id id).1 (own ∙ sym e)) in
          elim h [
            | inl none_yet ↦ inr (
              count-when (announces id) event outbox is_own ∙ ap (λ n. suc n) none_yet,
              after,
              ap (λ i. find (has_id i) batches') e ∙ u.now_found,
              later,
            )
            | inr (_, c, found, past) ↦ absurd (
                draft-not-later before c
                  (sym u.found ∙ ap (λ i. find (has_id i) batches) (sym e) ∙ found) draft past)
          ]
      | inr apart ↦
          let ne : id ≢ batch_id = λ e. ground (arith, (text_eq_iff id batch_id).1 e) in
          let is_other : announces id event ≡ false =
            other_event id event (λ e. ne (sym e ∙ own)) in
          elim h [
            | inl none_yet ↦ inl (count-unless (announces id) event outbox is_other ∙ none_yet)
            | inr (one, c, found, past) ↦ inr (
              count-unless (announces id) event outbox is_other ∙ one,
              c,
              u.others_kept id ne ∙ found,
              past,
            )
          ]
    ]
  where
    own : event.batch_id ≡ batch_id
    own = of ∙ u.same_id ∙ find-key batch_id batches u.found

-- No batch has been announced twice, and none that is still a draft has been announced.
unfoldable pub IsConsistent : Db → Type 0
IsConsistent db = (id : Text) → IsAnnouncedOnce id db.outbox db.batches

module _ (p : Platform) where
  Done-IsConsistent :
      (call : Call) (op : DonorCommand) (c : BatchCommandMetadata) (db : Db)
      (result : BatchMutationResult) (db' : Db)
      → Done p call op c db result db'
      → IsConsistent db
      → IsConsistent db'
  unfolding Done IsConsistent submitted_row new_outbox
  Done-IsConsistent call (DonorCommand.creation request) c db result db' d h id =
      subst (λ x. IsAnnouncedOnce id x.outbox x.batches) (sym d.final)
        (created id db.outbox (new_draft p call request c) db.batches (unfold new_draft in d.fresh)
          (h id))
  Done-IsConsistent call (DonorCommand.edit batch_id request) c db result db' d h id =
      subst (λ x. IsAnnouncedOnce id x.outbox x.batches) (sym d.final)
        (edited id batch_id db.outbox db.batches d.batches d.before _ d.updated d.checked.was_draft
          (h id))
  Done-IsConsistent call (DonorCommand.submission batch_id) c db result db' d h id =
      subst (λ x. IsAnnouncedOnce id x.outbox x.batches) (sym d.final)
        (submitted id batch_id db.outbox _ db.batches d.batches d.before
          (submitted_row call d.before) d.updated d.checked.was_draft refl refl refl (h id))

  perform-IsConsistent :
      (call : Call) (op : DonorCommand) (m : BatchCommandMetadata) (db : Db)
      → IsConsistent db
      → IsConsistent (perform p call op m db).1
  perform-IsConsistent call op m db h =
      go (perform p call op m db).0 (perform p call op m db).1 refl
    where
      go :
          (r : Result BatchMutationResult) (db' : Db)
          → perform p call op m db ≡ (r, db')
          → IsConsistent db'
      go (err e) db' ran = subst IsConsistent (sym (perform-err p call op m db ran)) h
      go (ok result) db' ran =
          let (c, _, cases) = perform-Done p call op m db ran in
          elim cases [
            | inl (same, _) ↦ subst IsConsistent (sym same) h
            | inr d ↦ Done-IsConsistent call op c db result db' d h
          ]

  -- The store after a sequence of donor commands, by whomever they are sent, the first one first.
  unfoldable pub run_all : List (Call × DonorCommand × BatchCommandMetadata) → Db → Db
  run_all [] db = db
  run_all ((call, op, m) ∷ commands) db = run_all commands (perform p call op m db).1

-- Over every sequence of donor commands, sent by any donors with any keys, successful or not, each
-- batch is announced by at most one RequestSubmitted event, and only once it has left the status of
-- a draft, if this held at the start.
pub run_all-IsConsistent :
    (p : Platform) (commands : List (Call × DonorCommand × BatchCommandMetadata)) (db : Db)
    → IsConsistent db
    → IsConsistent (run_all p commands db)
unfolding run_all
run_all-IsConsistent p [] db h = h
run_all-IsConsistent p ((call, op, m) ∷ commands) db h =
    run_all-IsConsistent p commands (perform p call op m db).1
      (perform-IsConsistent p call op m db h)
