-- ===== src/Assignment/Outcome.antt =====
-- The collectors' commands as wholes. Source: src/backend/internal/service/assignment.go.
use mathlib.Core.Path.{subst}
use team5_ewaste_platform.Common.{
  ℕ, Bool, Option, none, some, true, false, not, ◌≡◌, sym, Text, Error, Result, ok, err, ◌⊎◌, inl,
  inr, ◌||◌, is_empty, trim_space, Bool-cases, codes, assignment_actor_not_eligible, store,
}
use team5_ewaste_platform.Store.{Db, Tx, ◌>>◌, transaction, transaction-keeps, fail_if-then}
use team5_ewaste_platform.Dto.{BatchCommandMetadata, AssignmentMutationResult}
use team5_ewaste_platform.Platform.{Platform}
use team5_ewaste_platform.Command.{service_principal}
use team5_ewaste_platform.Actor.{is_eligible, validate_collector_actor}
use team5_ewaste_platform.Replay.{load_replay, or_replay}
use team5_ewaste_platform.Replay.Idempotence.{
  Replayable, load_replay-ok, load_replay-none, or_replay-ok,
}
use team5_ewaste_platform.Assignment.Prepare.{CollectorCommand, prepare_collector}
use team5_ewaste_platform.Assignment.Rows.{AssignmentCall, Pickup}
use team5_ewaste_platform.Assignment.Effects.{PickedUp, pickup_new-PickedUp}
use team5_ewaste_platform.Assignment.Responses.{
  Accepted, Rejected, accept_new-Accepted, reject_new-Rejected,
}
use team5_ewaste_platform.Assignment.Recovery.{Recovered, recover_new-Recovered}
use team5_ewaste_platform.Assignment.Selection.{Selected, select_new-Selected}
use team5_ewaste_platform.Assignment.{
  Others, assignment_rules, check_unless_service, resolve_assignment_replay, last_result,
  finish_assignment, assignment_transaction, or_resolved, collector_new, run_collector,
  perform_collector, recovery_metadata, recover_new, recover_failed_collection,
}

-- What a collector's command has done that was no replay.
unfoldable pub Done :
    Platform
    → AssignmentCall
    → BatchCommandMetadata
    → ℕ
    → Db
    → AssignmentMutationResult
    → Db
    → CollectorCommand
    → Type 0
Done p c m epoch db result db' (CollectorCommand.selection batch_id request) =
    Selected p c m batch_id request epoch db result db'
Done p c m epoch db result db' (CollectorCommand.acceptance assignment_id) =
    Accepted p c m assignment_id db result db'
Done p c m epoch db result db' (CollectorCommand.rejection assignment_id request) =
    Rejected p c m assignment_id db result db' request
Done p c m epoch db result db' (CollectorCommand.handoff assignment_id request) =
    PickedUp p c m assignment_id db result db' (Pickup.collected request)
Done p c m epoch db result db' (CollectorCommand.failure assignment_id request) =
    PickedUp p c m assignment_id db result db' (Pickup.failed request)

pub collector_new-Done :
    (p : Platform) (c : AssignmentCall) (m : BatchCommandMetadata) (op : CollectorCommand)
    (epoch : ℕ) (db : Db) (result : AssignmentMutationResult) (db' : Db)
    → collector_new p c m op epoch db ≡ ok (result, db')
    → Done p c m epoch db result db' op
unfolding collector_new Done
collector_new-Done p c m (CollectorCommand.selection batch_id request) epoch db result db' h =
    select_new-Selected p c m batch_id request epoch db result db' h
collector_new-Done p c m (CollectorCommand.acceptance assignment_id) epoch db result db' h =
    accept_new-Accepted p c m assignment_id db result db' h
collector_new-Done p c m (CollectorCommand.rejection assignment_id request) epoch db result db' h =
    reject_new-Rejected p c m assignment_id db result db' request h
collector_new-Done p c m (CollectorCommand.handoff assignment_id request) epoch db result db' h =
    pickup_new-PickedUp p c m assignment_id db result db' (Pickup.collected request) h
collector_new-Done p c m (CollectorCommand.failure assignment_id request) epoch db result db' h =
    pickup_new-PickedUp p c m assignment_id db result db' (Pickup.failed request) h

load-same :
    (p : Platform) (m : BatchCommandMetadata) (db : Db) (o : Option AssignmentMutationResult)
    {db' : Db}
    → load_replay (assignment_rules p) m db ≡ ok (o, db')
    → db' ≡ db
load-same p m db none h = load_replay-none (assignment_rules p) m db h
load-same p m db (some result) h = (load_replay-ok (assignment_rules p) m result db h).1

validate-then {ℓ} :
    {B : Type ℓ} (m : BatchCommandMetadata) (k : Tx B) (db : Db) {x : B × Db}
    → (validate_collector_actor m.actor.user_id m.actor.organisation_id >> k) db ≡ ok x
    → k db ≡ ok x
unfolding validate_collector_actor
validate-then m k db h =
    (fail_if-then
      (not (
        is_eligible (codes "COLLECTOR") (codes "COLLECTION_OPERATOR") m.actor.user_id
          m.actor.organisation_id db.directory))
      (store assignment_actor_not_eligible) k db h).1

checked-then {ℓ} :
    {B : Type ℓ} (user : Bool) (m : BatchCommandMetadata) (k : Tx B) (db : Db) {x : B × Db}
    → (check_unless_service user m >> k) db ≡ ok x
    → k db ≡ ok x
checked-then true m k db h = validate-then m k db h
checked-then false m k db h = h

-- A transaction of a command that commits replayed or did its work.
assignment_transaction-ok :
    (p : Platform) (o : Others) (m : BatchCommandMetadata) (body : Tx AssignmentMutationResult)
    (db : Db) (result : AssignmentMutationResult) (db' : Db)
    → assignment_transaction p o m body db ≡ ok (result, db')
    → ((db' ≡ db) × Replayable (assignment_rules p) m result db) ⊎ (body db ≡ ok (result, db'))
unfolding assignment_transaction
assignment_transaction-ok p o m body db result db' h =
    or_replay-ok (assignment_rules p) m result body db
      (validate-then m (or_replay (assignment_rules p) m body) db h)

module _ {ℓ} (P : Db → Type ℓ) (p : Platform) (o : Others)
    (command_kept : (db : Db) → P db → P (o.before_command db))
    (resolve_kept : (db : Db) → P db → P (o.before_resolve db)) (m : BatchCommandMetadata) where
  resolved-keeps : (db : Db) → P db → P (transaction (resolve_assignment_replay p o m) db).1
  unfolding resolve_assignment_replay
  resolved-keeps db h = transaction-keeps P (resolve_assignment_replay p o m) db h λ r db' e.
      subst P
        (sym (
          load-same p m db r (
            checked-then (is_empty (service_principal m)) m (load_replay (assignment_rules p) m) db
              e)))
        h

  last_result-keeps :
      (e : Error) (x : Result (Option AssignmentMutationResult) × Db)
      → P x.1
      → P (last_result p o m e x).1
  last_result-keeps e (ok none, db) h = h
  last_result-keeps e (ok (some r), db) h = h
  last_result-keeps e (err x, db) h = h

  finish-keeps :
      (x : Result AssignmentMutationResult × Db) → P x.1 → P (finish_assignment p o m x).1
  unfolding finish_assignment
  finish-keeps (ok r, db) h = h
  finish-keeps (err e, db) h =
      last_result-keeps e _ (resolved-keeps (o.before_resolve db) (resolve_kept db h))

  or_resolved-keeps :
      (body : Tx AssignmentMutationResult) (x : Result (Option AssignmentMutationResult) × Db)
      → ((d : Db) (r : AssignmentMutationResult) (d' : Db) → P d → body d ≡ ok (r, d') → P d')
      → P x.1
      → P (or_resolved p o m body x).1
  unfolding or_resolved
  or_resolved-keeps body (ok (some r), db) commits h = h
  or_resolved-keeps body (err e, db) commits h = h
  or_resolved-keeps body (ok none, db) commits h =
      let d = o.before_command db in
      let started = command_kept db h in
      finish-keeps _ (
        transaction-keeps P (assignment_transaction p o m body) d started λ r d' e.
          elim (assignment_transaction-ok p o m body d r d' e) [
            | inl (same, found) ↦ subst P (sym same) started
            | inr done ↦ commits d r d' started done
          ])

run_collector-keeps {ℓ} :
    (P : Db → Type ℓ) (p : Platform) (o : Others) (c : AssignmentCall) (op : CollectorCommand)
    (prepared : Result (BatchCommandMetadata × ℕ)) (db : Db)
    → ((d : Db) → P d → P (o.before_command d))
    → ((d : Db) → P d → P (o.before_resolve d))
    → ((n : BatchCommandMetadata) (epoch : ℕ) (d : Db) (r : AssignmentMutationResult) (d' : Db)
        → Done p c n epoch d r d' op
        → P d
        → P d')
    → P db
    → P (run_collector p o c op prepared db).1
unfolding run_collector
run_collector-keeps P p o c op (err e) db k1 k2 keeps h = h
run_collector-keeps P p o c op (ok (m, epoch)) db k1 k2 keeps h =
    or_resolved-keeps P p o k1 k2 m (collector_new p c m op epoch) _
      (λ d r d' k e. keeps m epoch d r d' (collector_new-Done p c m op epoch d r d' e) k)
      (resolved-keeps P p o k1 k2 m db h)

-- What holds of the store before a collector's command holds of it afterwards, whatever the command's
-- outcome, if the work of the command keeps it and what others do in between keeps it.
pub perform_collector-keeps {ℓ} :
    (P : Db → Type ℓ) (p : Platform) (o : Others) (c : AssignmentCall) (op : CollectorCommand)
    (m : BatchCommandMetadata) (db : Db)
    → ((d : Db) → P d → P (o.before_command d))
    → ((d : Db) → P d → P (o.before_resolve d))
    → ((n : BatchCommandMetadata) (epoch : ℕ) (d : Db) (r : AssignmentMutationResult) (d' : Db)
        → Done p c n epoch d r d' op
        → P d
        → P d')
    → P db
    → P (perform_collector p o c op m db).1
unfolding perform_collector
perform_collector-keeps P p o c op m db k1 k2 keeps h =
    run_collector-keeps P p o c op (prepare_collector p op m c.call.validated_at) db k1 k2 keeps h

recovered-keeps {ℓ} :
    (P : Db → Type ℓ) (p : Platform) (c : AssignmentCall)
    (principal correlation_id assignment_id : Text) (m : BatchCommandMetadata) (db : Db)
    → ((r : AssignmentMutationResult) (d' : Db)
        → Recovered p c principal correlation_id assignment_id m db r d'
        → P d')
    → P db
    → P
        (transaction
          (or_replay
            (assignment_rules p)
            m
            (recover_new p c principal correlation_id assignment_id m))
          db).1
recovered-keeps P p c principal correlation_id assignment_id m db keeps h =
    transaction-keeps P
      (or_replay (assignment_rules p) m (recover_new p c principal correlation_id assignment_id m))
      db h
      λ r d' k.
        elim (or_replay-ok (assignment_rules p) m r
          (recover_new p c principal correlation_id assignment_id m) db k) [
            | inl (same, found) ↦ subst P (sym same) h
            | inr done ↦
                keeps r d'
                  (recover_new-Recovered p c principal correlation_id assignment_id m db r d' done)
          ]

-- The same of a recovery.
pub recover-keeps {ℓ} :
    (P : Db → Type ℓ) (p : Platform) (c : AssignmentCall)
    (assignment_id service correlation_id : Text) (db : Db)
    → ((n : BatchCommandMetadata) (r : AssignmentMutationResult) (d' : Db)
        → Recovered p c (trim_space service) correlation_id assignment_id n db r d'
        → P d')
    → P db
    → P (recover_failed_collection p c assignment_id service correlation_id db).1
unfolding recover_failed_collection
recover-keeps P p c assignment_id service correlation_id db keeps h =
    let kept =
      recovered-keeps P p c (trim_space service) correlation_id assignment_id
        (recovery_metadata p assignment_id (trim_space service) correlation_id) db
        (keeps (recovery_metadata p assignment_id (trim_space service) correlation_id)) h in
    elim (Bool-cases
      (is_empty (trim_space service) || is_empty correlation_id || is_empty assignment_id)) [
        | inl e ↦ rw e h
        | inr e ↦ rw e kept
      ]
