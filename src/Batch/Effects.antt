-- ===== src/Batch/Effects.antt =====
-- What a donor command that was no replay has done to the store.
use team5_ewaste_platform.Common.{
  command_concurrency, batch_concurrency, ◌+◌, ◌∷◌, List, some, not, true, false, Bool, ◌≡◌, refl,
  Text, equals, Result, ok, arith, stale_version, to_uint32, batch_not_found, forbidden,
  invalid_state,
}
use mathlib.Core.Path.{subst}
use team5_ewaste_platform.Store.{
  Batch, BatchStatus, status_eq, Command, AuditType, EventType, Db, find, Tx, bind-eq-ok, ◌>>=◌,
  ◌>>◌, fail_if, pure-ok, fail_if-then, lift-then, or_fail-then,
}
use team5_ewaste_platform.Store.Statements.{
  has_id, find_batch_for_update, is_owned_draft, update_batch, submit_draft,
}
use team5_ewaste_platform.Store.Laws.{
  create_command-then, append_audit-then, enqueue_outbox-then, complete_command-then, BatchUpdated,
  BatchUpdated-read, update_batch-ok, completed,
}
use team5_ewaste_platform.Dto.{BatchMutationResult, BatchCommandMetadata}
use team5_ewaste_platform.Platform.{Platform}
use team5_ewaste_platform.Command.{Call, new_command, new_audit_event}
use team5_ewaste_platform.Batch.Validate.{validate_stored_batch}
use team5_ewaste_platform.Batch.View.{
  map_batch_error, can_submit, is_owner, submit_result, build_request_submitted_payload, new_outbox,
  request_submitted_topic,
}
use team5_ewaste_platform.Batch.{mapping_errors, submit_new}

pub map_batch_error-ok {ℓ} :
    {A : Type ℓ} (r : Result A) {a : A} → map_batch_error r ≡ ok a → r ≡ ok a
unfolding map_batch_error
map_batch_error-ok r h = ground arith

-- A successful sequence that begins with the read of a batch.
find_batch-then {ℓ} :
    {B : Type ℓ} (id : Text) (f : Batch → Tx B) (db : Db) {x : B × Db}
    → (find_batch_for_update id >>= f) db ≡ ok x
    → (b : Batch) × (find (has_id id) db.batches ≡ some b) × (f b db ≡ ok x)
unfolding find_batch_for_update
find_batch-then id f db h = or_fail-then batch_not_found (find (has_id id) db.batches) f db h

module _ {ℓ} {B : Type ℓ} (id : Text) (guard : Batch → Bool) (change : Batch → Batch) (db : Db)
    (keeps : (b : Batch) → (change b).id ≡ b.id) where
  -- A successful sequence that begins with the update of the batch that was read.
  pub update-then :
      (before : Batch)
      → find (has_id id) db.batches ≡ some before
      → (f : Batch → Tx B) {x : B × Db}
      → (mapping_errors (update_batch batch_concurrency before.id guard change) >>= f) db ≡ ok x
      → (batches : List Batch) × BatchUpdated id db.batches batches before (change before)
        × (guard before ≡ true)
        × (f (change before) (record db { batches = batches }) ≡ ok x)
  update-then before found f {x} h =
      let m = mapping_errors (update_batch batch_concurrency before.id guard change) in
      let (b, d, h1, k1) = bind-eq-ok m f db {b = x.0} {db'' = x.1} h in
      let (again, batches, allowed, e1, e2, updated) =
        update_batch-ok batch_concurrency before.id guard change db keeps
          (map_batch_error-ok _ h1) in
      let (same, u) = BatchUpdated-read id db.batches batches change found updated in
      (
        batches,
        u,
        subst (λ c. guard c ≡ true) same allowed,
        subst (λ c. f (change c) (record db { batches = batches }) ≡ ok x) same
            (subst (λ c. f c (record db { batches = batches }) ≡ ok x) e1
              (subst (λ e. f b e ≡ ok x) e2 k1)),
      )

pub is_draft : (s : BatchStatus) → status_eq s BatchStatus.draft ≡ true → s ≡ BatchStatus.draft
is_draft BatchStatus.draft h = refl
is_draft BatchStatus.submitted h = cc
is_draft BatchStatus.matched h = cc
is_draft BatchStatus.approved h = cc
is_draft BatchStatus.assigned h = cc
is_draft BatchStatus.collected h = cc
is_draft BatchStatus.verified h = cc
is_draft BatchStatus.recycled h = cc
is_draft BatchStatus.completed h = cc
is_draft BatchStatus.failed_collection h = cc

-- The checks that an edit and a submission share: the batch is the caller's own draft, at the
-- version that the caller expects.
pub record Changeable (batch_id : Text) (m : BatchCommandMetadata) (db : Db) (before : Batch)
    : Type 0 where
  pub found : find (has_id batch_id) db.batches ≡ some before
  pub owned : is_owner m before ≡ true
  pub was_draft : before.status ≡ BatchStatus.draft
  pub expected : equals m.expected_version before.version ≡ true

not-false : (t : Bool) → not t ≡ false → t ≡ true
not-false t h = ground arith

-- A successful command that begins with those checks.
pub checks-then {ℓ} :
    {B : Type ℓ} (batch_id : Text) (m : BatchCommandMetadata) (f : Batch → Tx B)
    (may_change : Batch → Bool) (db : Db) {x : B × Db}
    → ((b : Batch) → may_change b ≡ true → b.status ≡ BatchStatus.draft)
    → (find_batch_for_update batch_id >>= λ b.
          fail_if (not (is_owner m b)) forbidden
          >> (fail_if (not (may_change b)) invalid_state
              >> (fail_if (not (equals m.expected_version b.version)) stale_version >> f b)))
        db
      ≡ ok x
    → (before : Batch) × Changeable batch_id m db before × (f before db ≡ ok x)
checks-then batch_id m f may_change db drafts h =
    let (before, found, k1) = find_batch-then batch_id _ db h in
    let (owned, k2) = fail_if-then (not (is_owner m before)) forbidden _ db k1 in
    let (changes, k3) = fail_if-then (not (may_change before)) invalid_state _ db k2 in
    let (expected, k4) =
      fail_if-then (not (equals m.expected_version before.version)) stale_version _ db k3 in
    (
      before,
      record {
        found = found;
        owned = not-false _ owned;
        was_draft = drafts before (not-false _ changes);
        expected = not-false _ expected;
      },
      k4,
    )

unfoldable pub submitted_row : Call → Batch → Batch
submitted_row call b = record b {
  status = BatchStatus.submitted;
  submitted_at = some call.now;
  version = b.version + 1;
  updated_at = call.stored_at;
}

-- The command that a call leaves behind, with the response to replay.
unfoldable pub answered :
    Platform → Call → BatchCommandMetadata → Text → BatchMutationResult → Command
unfolding completed
answered p call m batch_id result =
    completed (new_command call m batch_id call.now) 200 (p.batch_result_json result) call.now

module _ (p : Platform) (call : Call) (batch_id : Text) (m : BatchCommandMetadata) (db : Db)
    (result : BatchMutationResult) (db' : Db) where
  -- A submission that was no replay: what it checked, the one batch that it changed, and the rows
  -- that it added.
  pub record Submitted : Type 0 where
    pub before : Batch
    pub batches : List Batch
    pub payload : Text
    pub checked : Changeable batch_id m db before
    pub valid : validate_stored_batch p before call.now ≡ ok tt
    pub updated : BatchUpdated batch_id db.batches batches before (submitted_row call before)
    pub published :
        build_request_submitted_payload p call.event_id call.command_id
          (submitted_row call before)
          m.correlation_id
        ≡ ok payload
    pub answer : result ≡ submit_result p call m (submitted_row call before)
    pub final : db' ≡ record db {
      batches = batches;
      commands =
          answered p call m before.id (submit_result p call m (submitted_row call before))
          ∷ db.commands;
      audits =
          new_audit_event call m call.command_id
            (submitted_row call before)
            AuditType.request_submitted
            BatchStatus.draft
            BatchStatus.submitted
            call.now
          ∷ db.audits;
      outbox =
          new_outbox call.event_id call.command_id
            (submitted_row call before)
            EventType.request_submitted
            request_submitted_topic
            payload
            m.correlation_id
            call.now
          ∷ db.outbox;
    }

  pub submit_new-Submitted : submit_new p call batch_id m db ≡ ok (result, db') → Submitted
  unfolding submit_new submit_draft update_batch submitted_row can_submit answered completed
      new_command
  submit_new-Submitted h =
      let (before, checked, k4) =
        checks-then batch_id m _ can_submit db (λ b. is_draft b.status) h in
      let (_, valid, k5) = lift-then (validate_stored_batch p before call.now) _ db k4 in
      let command = new_command call m before.id call.now in
      let (_, k6) = create_command-then _ db command k5 in
      let db1 : Db = record db { commands = command ∷ db.commands } in
      let (batches, updated, _, k7) =
        update-then batch_id
          (is_owned_draft m.actor.organisation_id m.actor.user_id (to_uint32 m.expected_version))
          (submitted_row call) db1 (λ b. refl) before checked.found _ k6 in
      let after = submitted_row call before in
      let (_, k8) =
        append_audit-then _ (record db1 { batches = batches })
          (new_audit_event call m command.id after AuditType.request_submitted BatchStatus.draft
            BatchStatus.submitted call.now)
          k7 in
      let (payload, published, k9) =
        lift-then
          (build_request_submitted_payload p call.event_id command.id after m.correlation_id) _ _
          k8 in
      let (_, k10) =
        enqueue_outbox-then _ _
          (new_outbox call.event_id command.id after EventType.request_submitted
            request_submitted_topic payload m.correlation_id call.now)
          k9 in
      let k11 =
        complete_command-then command_concurrency _ command 200
          (p.batch_result_json (submit_result p call m after)) call.now db.commands
          (record db {
            batches = batches;
            audits =
                new_audit_event call m command.id after AuditType.request_submitted
                  BatchStatus.draft BatchStatus.submitted call.now
                ∷ db.audits;
            outbox =
                new_outbox call.event_id command.id after EventType.request_submitted
                  request_submitted_topic payload m.correlation_id call.now
                ∷ db.outbox;
          })
          refl k10 in
      let (answer, final) = pure-ok k11 in
      record {
        before = before;
        batches = batches;
        payload = payload;
        checked = checked;
        valid = valid;
        updated = updated;
        published = published;
        answer = answer;
        final = final;
      }
