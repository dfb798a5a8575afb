-- ===== src/Claim/Replay.antt =====
-- Claims that are sent again: what a claim's transaction does, and the answer that a store holds.
-- Source: resolveReplay and the transaction of `Claim` in src/backend/internal/service/claim.go.
use mathlib.Core.Path.{subst}
use team5_ewaste_platform.Common.{
  ℕ, Bool, Option, none, some, true, false, not, ◌≡◌, sym, ap, ◌∙◌, arith, Text, codes, store,
  claim_actor_not_eligible, ok, ◌⊎◌, inl, inr,
}
use team5_ewaste_platform.Store.{Db, Tx, ◌>>◌, fail_if-then}
use team5_ewaste_platform.Dto.{BatchCommandMetadata, ClaimResult}
use team5_ewaste_platform.Platform.{Platform}
use team5_ewaste_platform.Actor.{is_eligible, validate_recycler_actor}
use team5_ewaste_platform.Replay.{load_replay, or_replay}
use team5_ewaste_platform.Replay.Idempotence.{
  Replayable, answered-Replayable, or_replay-ok, Replayable-load, load_replay-ok, load_replay-none,
}
use team5_ewaste_platform.Claim.Statements.{approved_row}
use team5_ewaste_platform.Claim.{
  ClaimCall, claim_rules, claim_at, claim_result, claim_new, claim_transaction, resolve_replay,
}
use team5_ewaste_platform.Claim.Effects.{Claimed, claim_new-Claimed}

-- The caller is an active recycler of an active processing facility.
unfoldable pub IsRecycler : BatchCommandMetadata → Db → Type 0
IsRecycler m db =
    is_eligible (codes "RECYCLER") (codes "PROCESSING_FACILITY") m.actor.user_id
      m.actor.organisation_id db.directory
    ≡ true

-- The store gives this answer to a claim: its caller is eligible and its command is completed.
pub record Answerable (p : Platform) (m : BatchCommandMetadata) (result : ClaimResult) (db : Db)
    : Type 0 where
  pub eligible : IsRecycler m db
  pub replayable : Replayable (claim_rules p) m result db

not-false : (t : Bool) → not t ≡ false → t ≡ true
not-false t h = ground arith

module _ {ℓ} {B : Type ℓ} (m : BatchCommandMetadata) (k : Tx B) (db : Db) where
  validate-then :
      {x : B × Db}
      → (validate_recycler_actor m.actor.user_id m.actor.organisation_id >> k) db ≡ ok x
      → IsRecycler m db × (k db ≡ ok x)
  unfolding validate_recycler_actor IsRecycler
  validate-then h =
      let (allowed, k1) =
        fail_if-then
          (not (
            is_eligible (codes "RECYCLER") (codes "PROCESSING_FACILITY") m.actor.user_id
              m.actor.organisation_id db.directory))
          (store claim_actor_not_eligible) k db h in
      (not-false _ allowed, k1)

  validate-to :
      IsRecycler m db
      → (validate_recycler_actor m.actor.user_id m.actor.organisation_id >> k) db ≡ k db
  unfolding validate_recycler_actor IsRecycler
  validate-to e = ground (arith, e)

module _ (p : Platform) (m : BatchCommandMetadata) (db : Db) where
  pub resolve_replay-Answerable :
      {result : ClaimResult} {db' : Db}
      → resolve_replay p m db ≡ ok (some result, db')
      → Answerable p m result db × (db' ≡ db)
  unfolding resolve_replay
  resolve_replay-Answerable {result} h =
      let (eligible, k) = validate-then m (load_replay (claim_rules p) m) db h in
      let (r, same) = load_replay-ok (claim_rules p) m result db k in
      (record { eligible = eligible; replayable = r }, same)

  pub resolve_replay-none : {db' : Db} → resolve_replay p m db ≡ ok (none, db') → db' ≡ db
  unfolding resolve_replay
  resolve_replay-none h =
      load_replay-none (claim_rules p) m db (validate-then m (load_replay (claim_rules p) m) db h).1

  pub Answerable-resolve :
      (result : ClaimResult)
      → Answerable p m result db
      → resolve_replay p m db ≡ ok (some result, db)
  unfolding resolve_replay
  Answerable-resolve result a =
      validate-to m (load_replay (claim_rules p) m) db a.eligible
      ∙ Replayable-load (claim_rules p) m result db a.replayable

module _ (p : Platform) (c : ClaimCall) (m : BatchCommandMetadata) (batch_id : Text)
    (claim_epoch : ℕ) (notes : Option Text) (db : Db) {result : ClaimResult} {db' : Db} where
  -- A claim's transaction that commits replayed or claimed.
  pub claim_transaction-ok :
      claim_transaction p c m batch_id claim_epoch notes db ≡ ok (result, db')
      → IsRecycler m db
        × (((db' ≡ db) × Replayable (claim_rules p) m result db)
            ⊎ Claimed p c m batch_id claim_epoch notes db result db')
  unfolding claim_transaction
  claim_transaction-ok h =
      let body = claim_new p c m batch_id claim_epoch notes in
      let (eligible, k) = validate-then m (or_replay (claim_rules p) m body) db h in
      (
        eligible,
        elim (or_replay-ok (claim_rules p) m result body db k) [
          | inl r ↦ inl r
          | inr done ↦ inr (claim_new-Claimed p c m batch_id claim_epoch notes db result db' done)
        ],
      )

  -- A claim leaves the store able to answer it again, when its response is read back as written.
  pub Claimed-Answerable :
      p.read_claim_result (p.claim_result_json result) ≡ some result
      → IsRecycler m db
      → Claimed p c m batch_id claim_epoch notes db result db'
      → Answerable p m result db'
  unfolding IsRecycler
  Claimed-Answerable laws eligible d = record {
    eligible =
        ap
          (λ e.
            is_eligible (codes "RECYCLER") (codes "PROCESSING_FACILITY") m.actor.user_id
              m.actor.organisation_id e.directory)
          d.final
        ∙ eligible;
    replayable =
        answered-Replayable (claim_rules p) m result
          (p.claim_result_json
            (claim_result p c m (approved_row c.claim_id (claim_at p c m) d.before)))
          (subst (λ r. p.read_claim_result (p.claim_result_json r) ≡ some result) d.answer laws)
          c.call d.before.id c.command_at 200 (claim_at p c m) db.commands db'
          (ap (λ e. e.commands) d.final);
  }

  pub claim_transaction-Answerable :
      p.read_claim_result (p.claim_result_json result) ≡ some result
      → claim_transaction p c m batch_id claim_epoch notes db ≡ ok (result, db')
      → Answerable p m result db'
  claim_transaction-Answerable laws h =
      let (eligible, cases) = claim_transaction-ok h in
      elim cases [
        | inl (same, r) ↦
            subst (Answerable p m result) (sym same)
              (record { eligible = eligible; replayable = r })
        | inr d ↦ Claimed-Answerable laws eligible d
      ]
