-- ===== src/Batch/Drafts.antt =====
-- What the creation and the edit of a draft have done to the store.
-- Source: src/backend/internal/service/batch.go.
use team5_ewaste_platform.Common.{
  ◌+◌, ◌∷◌, List, false, ◌≡◌, refl, Text, ok, to_uint32, command_concurrency,
}
use team5_ewaste_platform.Store.{Batch, BatchStatus, AuditType, Db, pure-ok}
use team5_ewaste_platform.Store.Statements.{has_id, is_owned_draft, update_batch}
use team5_ewaste_platform.Store.Laws.{
  create_batch-then, create_command-then, append_audit-then, complete_command-then, BatchUpdated,
  completed,
}
use team5_ewaste_platform.Dto.{
  BatchDraftRequest, DraftChanges, BatchMutationResult, BatchCommandMetadata,
}
use team5_ewaste_platform.Platform.{Platform}
use team5_ewaste_platform.Command.{Call, new_command, new_audit_event}
use team5_ewaste_platform.Batch.{create_draft_new, edit_draft_new}
use team5_ewaste_platform.Batch.View.{can_edit, new_draft, draft_result}
use team5_ewaste_platform.Batch.Effects.{Changeable, checks-then, update-then, answered, is_draft}
use team5_ewaste_platform.Store.Statements.{apply_changes, update_draft}
use team5_ewaste_platform.Store.{exists}

unfoldable pub edited_row : Call → DraftChanges → Batch → Batch
edited_row call changes b = record (apply_changes changes b) {
  version = b.version + 1;
  updated_at = call.stored_at;
}

module _ (p : Platform) (call : Call) (m : BatchCommandMetadata) where
  -- A creation that was no replay: the id was fresh, and one batch, the answered command and one
  -- audit event were added.
  pub record Created (request : BatchDraftRequest) (db : Db) (result : BatchMutationResult)
      (db' : Db) : Type 0 where
    pub fresh : exists (has_id call.batch_id) db.batches ≡ false
    pub answer : result ≡ draft_result p m (new_draft p call request m)
    pub final : db' ≡ record db {
      batches = new_draft p call request m ∷ db.batches;
      commands =
          answered p call m call.batch_id (draft_result p m (new_draft p call request m))
          ∷ db.commands;
      audits =
          new_audit_event call m call.command_id
            (new_draft p call request m)
            AuditType.draft_saved
            BatchStatus.draft
            BatchStatus.draft
            call.now
          ∷ db.audits;
    }

  pub create_draft_new-Created :
      (request : BatchDraftRequest) (db : Db) {result : BatchMutationResult} {db' : Db}
      → create_draft_new p call request m db ≡ ok (result, db')
      → Created request db result db'
  unfolding create_draft_new answered completed new_command new_draft
  create_draft_new-Created request db h =
      let batch = new_draft p call request m in
      let command = new_command call m batch.id call.now in
      let audit =
        new_audit_event call m command.id batch AuditType.draft_saved BatchStatus.draft
          BatchStatus.draft call.now in
      let (fresh, k1) = create_batch-then _ db batch h in
      let db1 : Db = record db { batches = batch ∷ db.batches } in
      let (_, k2) = create_command-then _ db1 command k1 in
      let (_, k3) =
        append_audit-then _ (record db1 { commands = command ∷ db.commands }) audit k2 in
      let k4 =
        complete_command-then command_concurrency _ command 200
          (p.batch_result_json (draft_result p m batch)) call.now db.commands
          (record db1 { audits = audit ∷ db.audits }) refl k3 in
      let (answer, final) = pure-ok k4 in record { fresh = fresh; answer = answer; final = final }

  -- An edit that was no replay: it changed the one batch by the fields that the request names, and
  -- added the answered command and one audit event.
  pub record Edited (batch_id : Text) (changes : DraftChanges) (db : Db)
      (result : BatchMutationResult) (db' : Db) : Type 0 where
    pub before : Batch
    pub batches : List Batch
    pub checked : Changeable batch_id m db before
    pub updated : BatchUpdated batch_id db.batches batches before (edited_row call changes before)
    pub answer : result ≡ draft_result p m (edited_row call changes before)
    pub final : db' ≡ record db {
      batches = batches;
      commands =
          answered p call m before.id (draft_result p m (edited_row call changes before))
          ∷ db.commands;
      audits =
          new_audit_event call m call.command_id
            (edited_row call changes before)
            AuditType.draft_saved
            BatchStatus.draft
            BatchStatus.draft
            call.now
          ∷ db.audits;
    }

  pub edit_draft_new-Edited :
      (batch_id : Text) (changes : DraftChanges) (db : Db) {result : BatchMutationResult} {db' : Db}
      → edit_draft_new p call batch_id changes m db ≡ ok (result, db')
      → Edited batch_id changes db result db'
  unfolding edit_draft_new update_draft update_batch edited_row can_edit answered completed
      new_command
  edit_draft_new-Edited batch_id changes db h =
      let (before, checked, k1) = checks-then batch_id m _ can_edit db (λ b. is_draft b.status) h in
      let command = new_command call m before.id call.now in
      let (_, k2) = create_command-then _ db command k1 in
      let db1 : Db = record db { commands = command ∷ db.commands } in
      let (batches, updated, _, k3) =
        update-then batch_id
          (is_owned_draft m.actor.organisation_id m.actor.user_id (to_uint32 m.expected_version))
          (edited_row call changes) db1 (λ b. refl) before checked.found _ k2 in
      let after = edited_row call changes before in
      let audit =
        new_audit_event call m command.id after AuditType.draft_saved BatchStatus.draft
          BatchStatus.draft call.now in
      let (_, k4) = append_audit-then _ (record db1 { batches = batches }) audit k3 in
      let k5 =
        complete_command-then command_concurrency _ command 200
          (p.batch_result_json (draft_result p m after)) call.now db.commands
          (record db { batches = batches; audits = audit ∷ db.audits }) refl k4 in
      let (answer, final) = pure-ok k5 in
      record {
        before = before;
        batches = batches;
        checked = checked;
        updated = updated;
        answer = answer;
        final = final;
      }
