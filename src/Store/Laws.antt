-- ===== src/Store/Laws.antt =====
-- What each statement has done when it succeeds.
use mathlib.Core.Path.{subst}
use team5_ewaste_platform.Common.{
  ℕ, Bool, true, false, some, List, [], ◌∷◌, ◌≡◌, refl, sym, ◌∙◌, Text, text_eq_refl, text_eq_iff,
  Bool-cases, Option-cases, inl, inr, ok, err, arith, store, duplicate_key, if◌then◌else◌, ◌≢◌,
  StoreError,
}
use team5_ewaste_platform.Store.Rows.{Time, Batch, Command, CommandState, AuditEvent, OutboxEvent}
use team5_ewaste_platform.Store.Database.{Db}
use team5_ewaste_platform.Store.Transaction.{Tx, run-then, run-err, ◌>>◌}
use team5_ewaste_platform.Store.Table.{find, exists, update, find-update_self, find-update_other}
use team5_ewaste_platform.Store.Statements.{
  has_id, find_batch_for_update, has_replay_key, create_batch, clashes_with, create_command,
  update_batch, is_in_progress, complete_command, append_audit, enqueue_outbox, same_audit,
  same_event,
}

-- A successful sequence that begins with an insertion: no row clashed, and the rest ran on the store
-- with the row added.
pub insert-then {ℓ} :
    {B : Type ℓ} (k : Tx B) (db : Db) (x : B × Db) (clash : Bool) (m : Tx (Unit {0})) (db' : Db)
    → m db ≡ (if clash then err (store duplicate_key) else ok (tt, db'))
    → (m >> k) db ≡ ok x
    → (clash ≡ false) × (k db' ≡ ok x)
insert-then k db x true m db' e h = absurd (run-err m (λ _. k) db e h)
insert-then k db x false m db' e h = (refl, run-then m (λ _. k) db e h)

module _ {ℓ} {B : Type ℓ} (k : Tx B) (db : Db) {x : B × Db} where
  pub create_batch-then :
      (b : Batch)
      → (create_batch b >> k) db ≡ ok x
      → (exists (has_id b.id) db.batches ≡ false)
        × (k (record db { batches = b ∷ db.batches }) ≡ ok x)
  unfolding create_batch
  create_batch-then b h =
      insert-then k db x (exists (has_id b.id) db.batches) (create_batch b) _ refl h

  pub create_command-then :
      (c : Command)
      → (create_command c >> k) db ≡ ok x
      → (exists (clashes_with c) db.commands ≡ false)
        × (k (record db { commands = c ∷ db.commands }) ≡ ok x)
  unfolding create_command
  create_command-then c h =
      insert-then k db x (exists (clashes_with c) db.commands) (create_command c) _ refl h

  pub append_audit-then :
      (e : AuditEvent)
      → (append_audit e >> k) db ≡ ok x
      → (exists (same_audit e) db.audits ≡ false)
        × (k (record db { audits = e ∷ db.audits }) ≡ ok x)
  unfolding append_audit
  append_audit-then e h =
      insert-then k db x (exists (same_audit e) db.audits) (append_audit e) _ refl h

  pub enqueue_outbox-then :
      (e : OutboxEvent)
      → (enqueue_outbox e >> k) db ≡ ok x
      → (exists (same_event e) db.outbox ≡ false)
        × (k (record db { outbox = e ∷ db.outbox }) ≡ ok x)
  unfolding enqueue_outbox
  enqueue_outbox-then e h =
      insert-then k db x (exists (same_event e) db.outbox) (enqueue_outbox e) _ refl h

-- What an update of one batch does: the row `before` met the guard and became `after`; no other row
-- changed.
pub record BatchUpdated (batch_id : Text) (rows rows' : List Batch) (before after : Batch)
    : Type 0 where
  pub found : find (has_id batch_id) rows ≡ some before
  pub now_found : find (has_id batch_id) rows' ≡ some after
  pub others_kept :
      (other : Text) → other ≢ batch_id → find (has_id other) rows' ≡ find (has_id other) rows
  pub same_id : after.id ≡ before.id

has_id_other : (i j : Text) (b : Batch) → j ≢ i → has_id i b ≡ true → has_id j b ≡ false
has_id_other i j b ne h = elim (Bool-cases (has_id j b)) [
  | inl e ↦ absurd (ne (sym ((text_eq_iff b.id j).0 e) ∙ (text_eq_iff b.id i).0 h))
  | inr e ↦ e
]

pub find-key :
    (id : Text) (rows : List Batch) {b : Batch} → find (has_id id) rows ≡ some b → b.id ≡ id
unfolding find
find-key id [] h = cc
find-key id (r ∷ rows) {b} h = elim (Bool-cases (has_id id r)) [
  | inl here ↦ ground (arith, text_eq_iff r.id id)
  | inr later ↦ find-key id rows {b = b} (ground arith)
]

some_inj {ℓ} : {A : Type ℓ} {a b : A} → some a ≡ some b → a ≡ b
some_inj h = cc

-- The same row by the key with which it was read and by its own id.
pub BatchUpdated-read :
    (id : Text) (rows rows' : List Batch) (change : Batch → Batch) {before again : Batch}
    → find (has_id id) rows ≡ some before
    → BatchUpdated before.id rows rows' again (change again)
    → (again ≡ before) × BatchUpdated id rows rows' before (change before)
BatchUpdated-read id rows rows' change {before} {again} found u =
    let same : before.id ≡ id = find-key id rows found in
    let v : BatchUpdated id rows rows' again (change again) =
      subst (λ i. BatchUpdated i rows rows' again (change again)) same u in
    let e : again ≡ before = some_inj (sym v.found ∙ found) in
    (e, subst (λ b. BatchUpdated id rows rows' b (change b)) e v)

module _ (concurrency : StoreError) (batch_id : Text) (guard : Batch → Bool)
    (change : Batch → Batch) (db : Db) (keeps : (b : Batch) → (change b).id ≡ b.id) where
  updated_key : (r : Batch) → has_id batch_id r ≡ true → has_id batch_id (change r) ≡ true
  updated_key r h = rw (keeps r) h

  other_keys :
      (other : Text)
      → other ≢ batch_id
      → (r : Batch) → has_id batch_id r ≡ true
      → (has_id other r ≡ false) × (has_id other (change r) ≡ false)
  other_keys other ne r h =
      (has_id_other batch_id other r ne h, rw (keeps r) (has_id_other batch_id other r ne h))

  updated_rows :
      {batches : List Batch} {before : Batch}
      → update (has_id batch_id) guard change db.batches ≡ some batches
      → find (has_id batch_id) db.batches ≡ some before
      → find (has_id batch_id) batches ≡ some (change before)
      → BatchUpdated batch_id db.batches batches before (change before)
  updated_rows {before = before} e found now = record {
    found = found;
    now_found = now;
    others_kept = λ other ne.
        find-update_other (has_id batch_id) (has_id other) guard change db.batches
          (other_keys other ne) e;
    same_id = keeps before;
  }

  pub update_batch-ok :
      {b : Batch} {db' : Db}
      → update_batch concurrency batch_id guard change db ≡ ok (b, db')
      → (before : Batch) × (batches : List Batch) × (guard before ≡ true)
        × (b ≡ change before)
        × (db' ≡ record db { batches = batches })
        × BatchUpdated batch_id db.batches batches before (change before)
  unfolding update_batch find_batch_for_update
  update_batch-ok h = elim (Option-cases (update (has_id batch_id) guard change db.batches)) [
    | inl e ↦ absurd (ground arith)
    | inr (batches, e) ↦
        let (before, found, allowed, now) =
          find-update_self (has_id batch_id) guard change db.batches updated_key e in
        (
          before,
          batches,
          allowed,
          ground (arith, now),
          ground (arith, now),
          updated_rows e found now,
        )
  ]

-- A command completed in the transaction that created it: it stands first, and its fields but those
-- of the completion are those it was created with.
unfoldable pub completed : Command → ℕ → Text → Time → Command
completed c status response at = record c {
  state = CommandState.completed;
  response_status = some status;
  response_json = response;
  completed_at = some at;
}

complete_command-created :
    (concurrency : StoreError) (c : Command) (status : ℕ) (response : Text) (at : Time)
    (rest : List Command) (db : Db)
    → is_in_progress c ≡ true
    → complete_command concurrency c.id status response at (record db { commands = c ∷ rest })
      ≡ ok (tt, record db { commands = completed c status response at ∷ rest })
unfolding complete_command update completed
complete_command-created concurrency c status response at rest db fresh =
    ground (arith, text_eq_refl c.id)

pub complete_command-then {ℓ} :
    {B : Type ℓ} (concurrency : StoreError) (k : Tx B) (c : Command) (status : ℕ) (response : Text)
    (at : Time) (rest : List Command) (db : Db) {x : B × Db}
    → is_in_progress c ≡ true
    → (complete_command concurrency c.id status response at >> k)
        (record db { commands = c ∷ rest })
      ≡ ok x
    → k (record db { commands = completed c status response at ∷ rest }) ≡ ok x
complete_command-then concurrency k c status response at rest db fresh h =
    run-then (complete_command concurrency c.id status response at) (λ _. k) _
      (complete_command-created concurrency c status response at rest db fresh) h

-- The command that a replay finds.
pub find-completed :
    (c : Command) (status : ℕ) (response : Text) (at : Time) (rest : List Command)
    → find
        (has_replay_key c.actor_scope c.command_name c.idempotency_key)
        (completed c status response at ∷ rest)
      ≡ some (completed c status response at)
unfolding find completed
find-completed c status response at rest =
    ground (
      arith,
      text_eq_refl c.actor_scope,
      text_eq_refl c.command_name,
      text_eq_refl c.idempotency_key,
    )
