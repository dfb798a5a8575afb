-- ===== src/Batch/Protection.antt =====
-- What donor commands leave alone. Source: src/backend/internal/service/batch.go.
use mathlib.Core.Path.{subst}
use team5_ewaste_platform.Common.{
  false, List, [], ◌∷◌, some, ◌≡◌, refl, sym, ap, ◌∙◌, arith, inl, inr, Text, text_eq, text_eq_iff,
  Bool-cases, Result, ok, err,
}
use team5_ewaste_platform.Store.{Db, Batch, BatchStatus, find, exists}
use team5_ewaste_platform.Store.Statements.{has_id}
use team5_ewaste_platform.Store.Laws.{BatchUpdated}
use team5_ewaste_platform.Dto.{BatchMutationResult, BatchCommandMetadata}
use team5_ewaste_platform.Platform.{Platform}
use team5_ewaste_platform.Command.{Call}
use team5_ewaste_platform.Batch.View.{new_draft}
use team5_ewaste_platform.Batch.Commands.{Done, perform-Done, perform-err}
use team5_ewaste_platform.Batch.History.{is_draft_row, draft-not-later, exists-find, run_all}
use team5_ewaste_platform.Batch.{DonorCommand, perform}

module _ (id : Text) (b : Batch) (past : is_draft_row b ≡ false) where
  created-keeps :
      (new : Batch) (batches : List Batch)
      → exists (has_id new.id) batches ≡ false
      → find (has_id id) batches ≡ some b
      → find (has_id id) (new ∷ batches) ≡ some b
  unfolding find
  created-keeps new batches fresh found = elim (Bool-cases (text_eq new.id id)) [
    | inl same ↦ absurd (
        exists-find new.id batches fresh (
          subst (λ i. find (has_id i) batches ≡ some b) (sym ((text_eq_iff new.id id).0 same))
            found))
    | inr apart ↦ rw apart found
  ]

  updated-keeps :
      (batch_id : Text) (batches batches' : List Batch) (before after : Batch)
      → BatchUpdated batch_id batches batches' before after
      → before.status ≡ BatchStatus.draft
      → find (has_id id) batches ≡ some b
      → find (has_id id) batches' ≡ some b
  updated-keeps batch_id batches batches' before after u draft found =
      elim (Bool-cases (text_eq id batch_id)) [
        | inl same ↦ absurd (
            draft-not-later before b
              (sym u.found
                ∙ ap (λ i. find (has_id i) batches) (sym ((text_eq_iff id batch_id).0 same))
                ∙ found)
              draft past)
        | inr apart ↦ u.others_kept id (λ e. ground (arith, (text_eq_iff id batch_id).1 e)) ∙ found
      ]

  Done-keeps :
      (p : Platform) (call : Call) (op : DonorCommand) (c : BatchCommandMetadata) (db : Db)
      (result : BatchMutationResult) (db' : Db)
      → Done p call op c db result db'
      → find (has_id id) db.batches ≡ some b
      → find (has_id id) db'.batches ≡ some b
  unfolding Done
  Done-keeps p call (DonorCommand.creation request) c db result db' d found =
      subst (λ x. find (has_id id) x.batches ≡ some b) (sym d.final)
        (created-keeps (new_draft p call request c) db.batches (unfold new_draft in d.fresh) found)
  Done-keeps p call (DonorCommand.edit batch_id request) c db result db' d found =
      subst (λ x. find (has_id id) x.batches ≡ some b) (sym d.final)
        (updated-keeps batch_id db.batches d.batches d.before _ d.updated d.checked.was_draft found)
  Done-keeps p call (DonorCommand.submission batch_id) c db result db' d found =
      subst (λ x. find (has_id id) x.batches ≡ some b) (sym d.final)
        (updated-keeps batch_id db.batches d.batches d.before _ d.updated d.checked.was_draft found)

  perform-keeps :
      (p : Platform) (call : Call) (op : DonorCommand) (m : BatchCommandMetadata) (db : Db)
      → find (has_id id) db.batches ≡ some b
      → find (has_id id) (perform p call op m db).1.batches ≡ some b
  perform-keeps p call op m db found = go (perform p call op m db).0 (perform p call op m db).1 refl
    where
      go :
          (r : Result BatchMutationResult) (db' : Db)
          → perform p call op m db ≡ (r, db')
          → find (has_id id) db'.batches ≡ some b
      go (err e) db' ran =
          subst (λ x. find (has_id id) x.batches ≡ some b) (sym (perform-err p call op m db ran))
            found
      go (ok result) db' ran =
          let (c, _, cases) = perform-Done p call op m db ran in
          elim cases [
            | inl (same, _) ↦ subst (λ x. find (has_id id) x.batches ≡ some b) (sym same) found
            | inr d ↦ Done-keeps p call op c db result db' d found
          ]

-- A batch that has left the status of a draft stays exactly as it is through every sequence of donor
-- commands: no donor can edit, submit or replace it any more.
pub run_all-keeps :
    (p : Platform) (commands : List (Call × DonorCommand × BatchCommandMetadata)) (db : Db)
    (id : Text) (b : Batch)
    → find (has_id id) db.batches ≡ some b
    → is_draft_row b ≡ false
    → find (has_id id) (run_all p commands db).batches ≡ some b
unfolding run_all
run_all-keeps p [] db id b found past = found
run_all-keeps p ((call, op, m) ∷ commands) db id b found past =
    run_all-keeps p commands (perform p call op m db).1 id b
      (perform-keeps id b past p call op m db found) past
