-- ===== src/Store/Statements.antt =====
-- The statements of a batch transaction. Source: src/backend/internal/repository/batch.go.
use mathlib.Core.Option.{get_or}
use team5_ewaste_platform.Common.{
  ℕ, ◌+◌, Bool, true, false, ◌&&◌, ◌||◌, Option, none, some, List, ◌∷◌, Text, text_eq, ◌==◌,
  if◌then◌else◌, store, batch_not_found, batch_concurrency, duplicate_key, ok, err, StoreError,
}
use team5_ewaste_platform.Store.Rows.{
  Time, Batch, BatchStatus, status_eq, Command, CommandState, AuditEvent, OutboxEvent,
}
use team5_ewaste_platform.Store.Database.{Db}
use team5_ewaste_platform.Store.Table.{find, exists, update}
use team5_ewaste_platform.Store.Transaction.{Tx, or_fail}
use team5_ewaste_platform.Dto.{DraftChanges}

abbrev pub has_id : Text → Batch → Bool
has_id batch_id b = text_eq b.id batch_id

-- SELECT … WHERE key FOR UPDATE, with the error that the repository gives for no row.
abbrev pub find_row {ℓ} : {R : Type ℓ} → StoreError → (R → Bool) → (Db → List R) → Tx R
find_row e key table db = or_fail e (find key (table db)) db

-- INSERT, with the unique keys of the table in `clashes`.
abbrev pub insert_row {ℓ} :
    {R : Type ℓ} → (R → R → Bool) → (Db → List R) → (List R → Db → Db) → R → Tx (Unit {0})
insert_row clashes table store_rows r db =
    if exists (clashes r) (table db)
    then err (store duplicate_key)
    else ok (tt, store_rows (r ∷ table db) db)

unfoldable pub find_batch_for_update : Text → Tx Batch
find_batch_for_update batch_id db = or_fail batch_not_found (find (has_id batch_id) db.batches) db

-- The unique key (actor_scope, command_name, idempotency_key).
abbrev pub has_replay_key : Text → Text → Text → Command → Bool
has_replay_key actor_scope command_name idempotency_key c =
    text_eq c.actor_scope actor_scope
    && text_eq c.command_name command_name
    && text_eq c.idempotency_key idempotency_key

-- ErrCommandNotFound, which every caller takes for "no replay", is `none`.
unfoldable pub find_command : Text → Text → Text → Tx (Option Command)
find_command actor_scope command_name idempotency_key db =
    ok (find (has_replay_key actor_scope command_name idempotency_key) db.commands, db)

unfoldable pub create_batch : Batch → Tx (Unit {0})
create_batch b db =
    if exists (has_id b.id) db.batches
    then err (store duplicate_key)
    else ok (tt, record db { batches = b ∷ db.batches })

abbrev pub clashes_with : Command → Command → Bool
clashes_with c d =
    text_eq d.id c.id || has_replay_key c.actor_scope c.command_name c.idempotency_key d

unfoldable pub create_command : Command → Tx (Unit {0})
create_command c db =
    if exists (clashes_with c) db.commands
    then err (store duplicate_key)
    else ok (tt, record db { commands = c ∷ db.commands })

-- UPDATE ewaste_batches … WHERE id = ? AND guard, then the row is read again.
unfoldable pub update_batch : StoreError → Text → (Batch → Bool) → (Batch → Batch) → Tx Batch
unfolding find_batch_for_update
update_batch concurrency batch_id guard change db =
    elim (update (has_id batch_id) guard change db.batches) [
      | none ↦ err (store concurrency)
      | some batches ↦ find_batch_for_update batch_id (record db { batches = batches })
    ]

abbrev or_old {ℓ} : {A : Type ℓ} → Option A → Option A → Option A
or_old none old = old
or_old (some a) old = some a

abbrev pub apply_changes : DraftChanges → Batch → Batch
apply_changes c b = record b {
  category = or_old c.category b.category;
  quantity = or_old c.quantity b.quantity;
  estimated_weight_kg = or_old c.estimated_weight_kg b.estimated_weight_kg;
  condition_rating = or_old c.condition_rating b.condition_rating;
  is_data_bearing = get_or c.is_data_bearing b.is_data_bearing;
  zone = or_old c.zone b.zone;
  collection_deadline = or_old c.collection_deadline b.collection_deadline;
  notes = or_old c.notes b.notes;
}

-- organization_id = ? AND created_by = ? AND status = 'DRAFT' AND version = ?
abbrev pub is_owned_draft : Text → Text → ℕ → Batch → Bool
is_owned_draft organization_id created_by version b =
    text_eq b.organization_id organization_id
    && text_eq b.created_by created_by
    && status_eq b.status BatchStatus.draft
    && b.version == version

unfoldable pub update_draft : Text → Text → Text → ℕ → DraftChanges → Time → Tx Batch
unfolding update_batch
update_draft batch_id organization_id created_by version changes stored_at =
    update_batch batch_concurrency batch_id (is_owned_draft organization_id created_by version)
      λ b. record (apply_changes changes b) { version = b.version + 1; updated_at = stored_at }

unfoldable pub submit_draft : Text → Text → Text → ℕ → Time → Time → Tx Batch
unfolding update_batch
submit_draft batch_id organization_id created_by version submitted_at stored_at =
    update_batch batch_concurrency batch_id (is_owned_draft organization_id created_by version) λ b.
      record b {
        status = BatchStatus.submitted;
        submitted_at = some submitted_at;
        version = b.version + 1;
        updated_at = stored_at;
      }

abbrev pub is_in_progress : Command → Bool
is_in_progress c = elim c.state [ CommandState.in_progress ↦ true | CommandState.completed ↦ false ]

unfoldable pub complete_command : StoreError → Text → ℕ → Text → Time → Tx (Unit {0})
complete_command concurrency command_id response_status response_json completed_at db =
    elim (update (λ c. text_eq c.id command_id) is_in_progress
      (λ c. record c {
        state = CommandState.completed;
        response_status = some response_status;
        response_json = response_json;
        completed_at = some completed_at;
      })
      db.commands) [
        | none ↦ err (store concurrency)
        | some commands ↦ ok (tt, record db { commands = commands })
      ]

-- The primary key, and the unique key (command_id, sequence_in_command).
abbrev pub same_audit : AuditEvent → AuditEvent → Bool
same_audit e f =
    text_eq f.id e.id
    || text_eq f.command_id e.command_id && f.sequence_in_command == e.sequence_in_command

unfoldable pub append_audit : AuditEvent → Tx (Unit {0})
append_audit e db =
    if exists (same_audit e) db.audits
    then err (store duplicate_key)
    else ok (tt, record db { audits = e ∷ db.audits })

-- The primary key, and the unique key (command_id, sequence_in_command), which covers the third
-- one, (command_id, batch_id, event_type): every event is written with sequence 1.
abbrev pub same_event : OutboxEvent → OutboxEvent → Bool
same_event e f =
    text_eq f.event_id e.event_id
    || text_eq f.command_id e.command_id && f.sequence_in_command == e.sequence_in_command

unfoldable pub enqueue_outbox : OutboxEvent → Tx (Unit {0})
enqueue_outbox e db =
    if exists (same_event e) db.outbox
    then err (store duplicate_key)
    else ok (tt, record db { outbox = e ∷ db.outbox })
