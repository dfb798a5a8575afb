-- ===== src/Replay/Idempotence.antt =====
-- Commands that are sent again.
-- Source: `loadReplay` of src/backend/internal/service/{batch,claim,assignment}.go.
use team5_ewaste_platform.Common.{
  Option, none, some, List, ◌∷◌, ◌≡◌, refl, Text, text_eq, text_eq_iff, text_eq_refl, ok, err,
  arith, ◌⊎◌, inl, inr, ap, not, false, true, ℕ, Option-cases, ◌∙◌, sym,
}
use mathlib.Core.Path.{subst}
use team5_ewaste_platform.Store.{
  Time, Db, Command, Tx, find, bind-eq-ok, fail_if-then, pure-ok, run-to,
}
use team5_ewaste_platform.Store.Statements.{has_replay_key, find_command, is_in_progress}
use team5_ewaste_platform.Store.Laws.{find-completed, completed}
use team5_ewaste_platform.Dto.{BatchCommandMetadata}
use team5_ewaste_platform.Command.{Call, new_command}
use team5_ewaste_platform.Replay.{
  ReplayRules, load_replay, replay_found, replay_of, answer_or, or_replay,
}

-- Two commands under one idempotency key.
pub record SameKey (m other : BatchCommandMetadata) : Type 0 where
  pub scope : other.actor_scope ≡ m.actor_scope
  pub name : other.command_name ≡ m.command_name
  pub key : other.idempotency_key ≡ m.idempotency_key

-- The store holds the answer to a command: a completed command with its key and its hash.
pub record Replayable {R : Type 0} (rules : ReplayRules R) (m : BatchCommandMetadata) (result : R)
    (db : Db) : Type 0 where
  pub command : Command
  pub found :
      find (has_replay_key m.actor_scope m.command_name m.idempotency_key) db.commands
      ≡ some command
  pub same_hash : text_eq command.request_hash m.request_hash ≡ true
  pub is_completed : is_in_progress command ≡ false
  pub response : rules.read command.response_json ≡ some result

module _ {R : Type 0} (rules : ReplayRules R) (m : BatchCommandMetadata) where
  pub load_replay-none : (db : Db) {db' : Db} → load_replay rules m db ≡ ok (none, db') → db' ≡ db
  unfolding load_replay find_command replay_found
  load_replay-none db h =
      go (find (has_replay_key m.actor_scope m.command_name m.idempotency_key) db.commands) h
    where
      go :
          (o : Option Command) {db' : Db}
          → replay_found rules m.request_hash o db ≡ ok (none, db')
          → db' ≡ db
      go none k = ground (arith, k)
      go (some c) k = absurd (unfold replay_of in ground (arith, k))

module _ {R : Type 0} (rules : ReplayRules R) (m : BatchCommandMetadata) (result : R) where
  -- A command that stands completed in the store is what its metadata replays.
  pub answered-Replayable :
      (response : Text)
      → rules.read response ≡ some result
      → (call : Call) (batch_id : Text) (now : Time) (status : ℕ) (at : Time) (rest : List Command)
        (db : Db)
      → db.commands ≡ completed (new_command call m batch_id now) status response at ∷ rest
      → Replayable rules m result db
  unfolding completed new_command
  answered-Replayable response laws call batch_id now status at rest db e = record {
    command = completed (new_command call m batch_id now) status response at;
    found =
        ap (find (has_replay_key m.actor_scope m.command_name m.idempotency_key)) e
        ∙ find-completed (new_command call m batch_id now) status response at rest;
    same_hash = text_eq_refl m.request_hash;
    is_completed = refl;
    response = laws;
  }

  pub Replayable-load :
      (db : Db) → Replayable rules m result db → load_replay rules m db ≡ ok (some result, db)
  unfolding load_replay find_command replay_found replay_of answer_or
  Replayable-load db r = ground (arith, r.found, r.same_hash, r.is_completed, r.response)

  replay_of-ok :
      (c : Command) (db : Db) {db' : Db}
      → find (has_replay_key m.actor_scope m.command_name m.idempotency_key) db.commands ≡ some c
      → replay_of rules m.request_hash c db ≡ ok (some result, db')
      → Replayable rules m result db × (db' ≡ db)
  unfolding replay_of
  replay_of-ok c db found h =
      let (same, k1) =
        fail_if-then (not (text_eq c.request_hash m.request_hash)) rules.conflict _ db h in
      let (done, k2) = fail_if-then (is_in_progress c) rules.busy _ db k1 in
      elim (Option-cases (rules.read c.response_json)) [
        | inl e ↦ absurd (ground (arith, e))
        | inr (r, e) ↦ (
          record {
            command = c;
            found = found;
            same_hash = ground arith;
            is_completed = done;
            response = ground (arith, e);
          },
          ground (arith, e),
        )
      ]

  pub load_replay-ok :
      (db : Db) {db' : Db}
      → load_replay rules m db ≡ ok (some result, db')
      → Replayable rules m result db × (db' ≡ db)
  unfolding load_replay find_command replay_found
  load_replay-ok db h =
      go (find (has_replay_key m.actor_scope m.command_name m.idempotency_key) db.commands) refl h
    where
      go :
          (o : Option Command) {db' : Db}
          → find (has_replay_key m.actor_scope m.command_name m.idempotency_key) db.commands ≡ o
          → replay_found rules m.request_hash o db ≡ ok (some result, db')
          → Replayable rules m result db × (db' ≡ db)
      go none e k = absurd (ground (arith, k))
      go (some c) e k = replay_of-ok c db e k

  -- A command that finds its answer gives it again, whatever it would have done.
  pub Replayable-again :
      (rest : Tx R) (db : Db)
      → Replayable rules m result db
      → or_replay rules m rest db ≡ ok (result, db)
  unfolding or_replay answer_or
  Replayable-again rest db r = run-to (load_replay rules m) _ db (Replayable-load db r)

  -- The same key with another request is refused.
  pub Replayable-conflict :
      (other : BatchCommandMetadata) (rest : Tx R) (db : Db)
      → Replayable rules m result db
      → SameKey m other
      → text_eq m.request_hash other.request_hash ≡ false
      → or_replay rules other rest db ≡ err rules.conflict
  unfolding or_replay load_replay find_command replay_of
  Replayable-conflict other rest db r same differs = ground (
    arith,
    r.found,
    same.key,
    same.name,
    same.scope,
    text_eq_iff r.command.request_hash m.request_hash,
  )

  -- A successful command either replayed or ran its body.
  pub or_replay-ok :
      (rest : Tx R) (db : Db) {db' : Db}
      → or_replay rules m rest db ≡ ok (result, db')
      → ((db' ≡ db) × Replayable rules m result db) ⊎ (rest db ≡ ok (result, db'))
  unfolding or_replay answer_or
  or_replay-ok rest db {db'} h =
      let (found, d, h1, k1) = bind-eq-ok (load_replay rules m) _ db h in go found d h1 k1
    where
      go :
          (found : Option R) (d : Db)
          → load_replay rules m db ≡ ok (found, d)
          → answer_or rules rest found d ≡ ok (result, db')
          → ((db' ≡ db) × Replayable rules m result db) ⊎ (rest db ≡ ok (result, db'))
      go none d h1 k1 =
          inr (subst (λ e. rest e ≡ ok (result, db')) (load_replay-none rules m db h1) k1)
      go (some again) d h1 k1 =
          let (same, store) = pure-ok k1 in
          let (r, store1) =
            load_replay-ok db
              (subst (λ a. load_replay rules m db ≡ ok (some a, d)) (sym same) h1) in
          inl (store ∙ store1, r)
