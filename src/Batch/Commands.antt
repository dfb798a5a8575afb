-- ===== src/Batch/Commands.antt =====
-- The donor's commands as wholes. Source: src/backend/internal/service/batch.go.
use team5_ewaste_platform.Common.{
  List, ◌∷◌, some, ◌≡◌, refl, sym, ◌∙◌, ap, Text, text_eq, Error, Result, ok, err, ◌⊎◌, inl, inr,
  false, idempotency_conflict,
}
use mathlib.Core.Path.{subst}
use team5_ewaste_platform.Store.{Db, Command, Tx, settle, settle-ok, settle-err}
use team5_ewaste_platform.Dto.{BatchMutationResult, BatchCommandMetadata}
use team5_ewaste_platform.Platform.{Platform}
use team5_ewaste_platform.Command.{Call}
use team5_ewaste_platform.Batch.Validate.{draft_changes}
use team5_ewaste_platform.Batch.Prepare.{prepare_create, prepare_edit, prepare_submit}
use team5_ewaste_platform.Batch.Effects.{answered, Submitted, submit_new-Submitted}
use team5_ewaste_platform.Batch.Drafts.{
  Created, create_draft_new-Created, Edited, edit_draft_new-Edited,
}
use team5_ewaste_platform.Batch.Replay.{batch_rules}
use team5_ewaste_platform.Replay.{or_replay}
use team5_ewaste_platform.Replay.Idempotence.{
  Replayable, SameKey, or_replay-ok, Replayable-again, Replayable-conflict, answered-Replayable,
}
use team5_ewaste_platform.Batch.{
  DonorCommand, perform, run_prepared, create_draft, edit_draft, submit, create_draft_new,
  edit_draft_new, submit_new,
}

ok_inj : {a b : BatchCommandMetadata} → Result.ok a ≡ ok b → a ≡ b
ok_inj h = cc

module _ (p : Platform) (body : BatchCommandMetadata → Tx BatchMutationResult) (db : Db) where
  -- A successful command was prepared, and then replayed or ran its body.
  run_prepared-ok :
      (prepared : Result BatchCommandMetadata) {result : BatchMutationResult} {db' : Db}
      → run_prepared p prepared body db ≡ (ok result, db')
      → (c : BatchCommandMetadata) × (prepared ≡ ok c)
        × (((db' ≡ db) × Replayable (batch_rules p) c result db) ⊎ (body c db ≡ ok (result, db')))
  unfolding run_prepared
  run_prepared-ok (ok c) {result} {db'} h = (
    c,
    refl,
    or_replay-ok (batch_rules p) c result (body c) db
        (settle-ok (or_replay (batch_rules p) c (body c) db) db h),
  )
  run_prepared-ok (err e) h = cc

  -- A command that fails leaves the store as it was.
  run_prepared-err :
      (prepared : Result BatchCommandMetadata) {e : Error} {db' : Db}
      → run_prepared p prepared body db ≡ (err e, db')
      → db' ≡ db
  unfolding run_prepared
  run_prepared-err (err e) h = cc
  run_prepared-err (ok c) h = settle-err (or_replay (batch_rules p) c (body c) db) db h

  -- A command whose answer the store holds gives it again and changes nothing.
  run_prepared-replay :
      (c : BatchCommandMetadata) (result : BatchMutationResult)
      → Replayable (batch_rules p) c result db
      → run_prepared p (ok c) body db ≡ (ok result, db)
  unfolding run_prepared
  run_prepared-replay c result r =
      ap (settle db) (Replayable-again (batch_rules p) c result (body c) db r)

  run_prepared-conflict :
      (m c : BatchCommandMetadata) (result : BatchMutationResult)
      → Replayable (batch_rules p) m result db
      → SameKey m c
      → text_eq m.request_hash c.request_hash ≡ false
      → run_prepared p (ok c) body db ≡ (err idempotency_conflict, db)
  unfolding run_prepared
  run_prepared-conflict m c result r same differs =
      ap (settle db) (Replayable-conflict (batch_rules p) m result c (body c) db r same differs)

module _ (p : Platform) (call : Call) where
  -- What a command is checked into before its transaction.
  abbrev pub prepare : DonorCommand → BatchCommandMetadata → Result BatchCommandMetadata
  prepare (DonorCommand.creation request) m = prepare_create p call request m
  prepare (DonorCommand.edit batch_id request) m = prepare_edit p call batch_id request m
  prepare (DonorCommand.submission batch_id) m = prepare_submit p batch_id m

  -- The part of its transaction that follows the look for a replay.
  abbrev body_of : DonorCommand → BatchCommandMetadata → Tx BatchMutationResult
  body_of (DonorCommand.creation request) = create_draft_new p call request
  body_of (DonorCommand.edit batch_id request) =
      edit_draft_new p call batch_id (draft_changes p request)
  body_of (DonorCommand.submission batch_id) = submit_new p call batch_id

  perform_lem :
      (op : DonorCommand) (m : BatchCommandMetadata) (db : Db)
      → perform p call op m db ≡ run_prepared p (prepare op m) (body_of op) db
  unfolding perform create_draft edit_draft submit
  perform_lem (DonorCommand.creation request) m db = refl
  perform_lem (DonorCommand.edit batch_id request) m db = refl
  perform_lem (DonorCommand.submission batch_id) m db = refl

  -- What a command has done that was no replay.
  unfoldable pub Done : DonorCommand → BatchCommandMetadata → Db → BatchMutationResult → Db → Type 0
  Done (DonorCommand.creation request) c db result db' = Created p call c request db result db'
  Done (DonorCommand.edit batch_id request) c db result db' =
      Edited p call c batch_id (draft_changes p request) db result db'
  Done (DonorCommand.submission batch_id) c db result db' =
      Submitted p call batch_id c db result db'

  body_of-Done :
      (op : DonorCommand) (c : BatchCommandMetadata) (db : Db) {result : BatchMutationResult}
      {db' : Db}
      → body_of op c db ≡ ok (result, db')
      → Done op c db result db'
  unfolding Done
  body_of-Done (DonorCommand.creation request) c db h =
      create_draft_new-Created p call c request db h
  body_of-Done (DonorCommand.edit batch_id request) c db h =
      edit_draft_new-Edited p call c batch_id (draft_changes p request) db h
  body_of-Done (DonorCommand.submission batch_id) c db {result} {db'} h =
      submit_new-Submitted p call batch_id c db result db' h

  replayable :
      (result : BatchMutationResult)
      → p.read_batch_result (p.batch_result_json result) ≡ some result
      → (c : BatchCommandMetadata) (db' : Db) (batch_id : Text) (rest : List Command)
        {answer : BatchMutationResult}
      → result ≡ answer
      → db'.commands ≡ answered p call c batch_id answer ∷ rest
      → Replayable (batch_rules p) c result db'
  unfolding answered
  replayable result laws c db' batch_id rest e stands =
      answered-Replayable (batch_rules p) c result (p.batch_result_json result) laws call batch_id
        call.now 200 call.now rest db'
        (stands ∙ ap (λ a. answered p call c batch_id a ∷ rest) (sym e))

  Done-Replayable :
      (result : BatchMutationResult)
      → p.read_batch_result (p.batch_result_json result) ≡ some result
      → (op : DonorCommand) (c : BatchCommandMetadata) (db : Db) (db' : Db)
      → Done op c db result db'
      → Replayable (batch_rules p) c result db'
  unfolding Done
  Done-Replayable result laws (DonorCommand.creation request) c db db' d =
      replayable result laws c db' call.batch_id db.commands d.answer (ap (λ e. e.commands) d.final)
  Done-Replayable result laws (DonorCommand.edit batch_id request) c db db' d =
      replayable result laws c db' d.before.id db.commands d.answer (ap (λ e. e.commands) d.final)
  Done-Replayable result laws (DonorCommand.submission batch_id) c db db' d =
      replayable result laws c db' d.before.id db.commands d.answer (ap (λ e. e.commands) d.final)

  -- The answer of a command that succeeds stands in the store that it leaves.
  perform-Replayable :
      (result : BatchMutationResult)
      → p.read_batch_result (p.batch_result_json result) ≡ some result
      → (op : DonorCommand) (m : BatchCommandMetadata) (db : Db) (db' : Db)
      → perform p call op m db ≡ (ok result, db')
      → (c : BatchCommandMetadata) × (prepare op m ≡ ok c) × Replayable (batch_rules p) c result db'
  perform-Replayable result laws op m db db' h =
      let (c, e, cases) =
        run_prepared-ok p (body_of op) db (prepare op m) (sym (perform_lem op m db) ∙ h) in
      (
        c,
        e,
        elim cases [
          | inl (same, r) ↦ subst (Replayable (batch_rules p) c result) (sym same) r
          | inr k ↦ Done-Replayable result laws op c db db' (body_of-Done op c db k)
        ],
      )

-- A donor's command that succeeds was valid, and it either replayed the stored answer of an earlier
-- call, which left the store as it was, or did its work: `Done` says for each command which batch
-- it checked, which rows it wrote and what it answered.
pub perform-Done :
    (p : Platform) (call : Call) (op : DonorCommand) (m : BatchCommandMetadata) (db : Db)
    {result : BatchMutationResult} {db' : Db}
    → perform p call op m db ≡ (ok result, db')
    → (c : BatchCommandMetadata) × (prepare p call op m ≡ ok c)
      × (((db' ≡ db) × Replayable (batch_rules p) c result db) ⊎ Done p call op c db result db')
perform-Done p call op m db {result} {db'} h =
    let (c, e, cases) =
      run_prepared-ok p (body_of p call op) db (prepare p call op m)
        (sym (perform_lem p call op m db) ∙ h) in
    (c, e, elim cases [ inl r ↦ inl r | inr k ↦ inr (body_of-Done p call op c db k) ])

-- A donor's command that fails, at whatever step, leaves the store as it was.
pub perform-err :
    (p : Platform) (call : Call) (op : DonorCommand) (m : BatchCommandMetadata) (db : Db)
    {e : Error} {db' : Db}
    → perform p call op m db ≡ (err e, db')
    → db' ≡ db
perform-err p call op m db h =
    run_prepared-err p (body_of p call op) db (prepare p call op m)
      (sym (perform_lem p call op m db) ∙ h)

-- A donor's command that has succeeded and is sent again with the same metadata gives the same answer
-- and changes nothing, provided that it passes the checks before the transaction as it did and that
-- the stored response is read back as written.
pub perform-again :
    (p : Platform) (call again : Call) (op : DonorCommand) (m : BatchCommandMetadata) (db : Db)
    {result : BatchMutationResult} {db' : Db}
    → p.read_batch_result (p.batch_result_json result) ≡ some result
    → prepare p again op m ≡ prepare p call op m
    → perform p call op m db ≡ (ok result, db')
    → perform p again op m db' ≡ (ok result, db')
perform-again p call again op m db {result} {db'} laws valid h =
    let (c, e, r) = perform-Replayable p call result laws op m db db' h in
    perform_lem p again op m db'
    ∙ ap (λ q. run_prepared p q (body_of p again op) db') (valid ∙ e)
    ∙ run_prepared-replay p (body_of p again op) db' c result r

-- A second command under the idempotency key of one that has succeeded, whose request differs (its
-- hash does), is refused as a conflict and changes nothing; the stored response is read back as
-- written.
pub perform-conflict :
    (p : Platform) (call again : Call) (op other : DonorCommand) (m n c d : BatchCommandMetadata)
    (db : Db) {result : BatchMutationResult} {db' : Db}
    → p.read_batch_result (p.batch_result_json result) ≡ some result
    → perform p call op m db ≡ (ok result, db')
    → prepare p call op m ≡ ok c
    → prepare p again other n ≡ ok d
    → SameKey c d
    → text_eq c.request_hash d.request_hash ≡ false
    → perform p again other n db' ≡ (err idempotency_conflict, db')
perform-conflict p call again op other m n c d db {result} {db'} laws h ec ed same differs =
    let (c', e, r) = perform-Replayable p call result laws op m db db' h in
    let r' : Replayable (batch_rules p) c result db' =
      subst (λ x. Replayable (batch_rules p) x result db') (ok_inj (sym e ∙ ec)) r in
    perform_lem p again other n db'
    ∙ ap (λ q. run_prepared p q (body_of p again other) db') ed
    ∙ run_prepared-conflict p (body_of p again other) db' c d result r' same differs
