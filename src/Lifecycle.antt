-- ===== src/Lifecycle.antt =====
-- The life of a batch, as one abstract state machine, which the services implement.
-- Source: the statuses of src/backend/internal/model/batch.go.
pub mod Refinement
pub mod Histories
mod Tests
use team5_ewaste_platform.Common.{
  ℕ, ◌+◌, ◌≤◌, Option, none, some, List, ◌≡◌, ◌≢◌, refl, sym, ap, ◌∙◌, arith, Text, text_eq,
  text_eq_iff, text_eq_refl, [], ◌∷◌, Bool-cases, inl, inr, false, true,
}
use mathlib.Core.Option
use team5_ewaste_platform.Store.{Batch, BatchStatus, Db, find, exists}
use team5_ewaste_platform.Store.Statements.{has_id}
use team5_ewaste_platform.Store.Laws.{BatchUpdated}

-- The moves of a batch from one status to another, by the command that makes them.
pub data Move : BatchStatus → BatchStatus → Type 0 where
  edit : Move BatchStatus.draft BatchStatus.draft
  submit : Move BatchStatus.draft BatchStatus.submitted
  claim : Move BatchStatus.matched BatchStatus.approved
  assign : Move BatchStatus.approved BatchStatus.assigned
  accept : Move BatchStatus.assigned BatchStatus.assigned
  reject : Move BatchStatus.assigned BatchStatus.approved
  collect : Move BatchStatus.assigned BatchStatus.collected
  lose : Move BatchStatus.assigned BatchStatus.failed_collection
  recover : Move BatchStatus.failed_collection BatchStatus.approved

-- What the abstract machine knows of the batches: the status and the version of each.
abbrev pub Lives : Type 0
Lives = Text → Option (BatchStatus × ℕ)

abbrev life_of : Batch → BatchStatus × ℕ
life_of b = (b.status, b.version)

unfoldable pub lives : Db → Lives
lives db id = Option.map life_of (find (has_id id) db.batches)

-- One step of the machine: a new draft, or a move that raises the version by one; other batches
-- stay.
pub data Step (v w : Lives) : Type 0 where
  start :
      (id : Text)
      → v id ≡ none
      → w id ≡ some (BatchStatus.draft, 1)
      → ((other : Text) → other ≢ id → w other ≡ v other)
      → Step v w
  move :
      (id : Text) (from to : BatchStatus) (version : ℕ)
      → Move from to
      → v id ≡ some (from, version)
      → w id ≡ some (to, version + 1)
      → ((other : Text) → other ≢ id → w other ≡ v other)
      → Step v w

pub data Reaches (v : Lives) : Lives → Type 0 where
  here : Reaches v v
  next : {w u : Lives} → Reaches v w → Step w u → Reaches v u

pub Reaches-trans : {v w u : Lives} → Reaches v w → Reaches w u → Reaches v u
Reaches-trans r here = r
Reaches-trans r (next s step) = next (Reaches-trans r s) step

none-ne-some : {x : BatchStatus × ℕ} → none ≡ some x → ⊥
none-ne-some h = cc

some_inj : {x y : BatchStatus × ℕ} → some x ≡ some y → x ≡ y
some_inj h = cc

later : {x y : BatchStatus × ℕ} → some x ≡ some y → x.1 ≤ y.1 + 1
later h = omega (arith, ap (λ z. z.1) (some_inj h))

-- A batch stays in every later state, at a version that is no lower.
Step-version :
    (v w : Lives) (id : Text) (s : BatchStatus) (n : ℕ)
    → Step v w
    → v id ≡ some (s, n)
    → (t : BatchStatus) × (k : ℕ) × (w id ≡ some (t, k)) × (n ≤ k)
Step-version v w id s n (start new fresh now others) h = elim (Bool-cases (text_eq id new)) [
  | inl e ↦ absurd (none-ne-some (sym fresh ∙ ap v (sym ((text_eq_iff id new).0 e)) ∙ h))
  | inr e ↦ (s, n, others id (λ q. ground (arith, e, (text_eq_iff id new).1 q)) ∙ h, omega arith)
]
Step-version v w id s n (move one from to version edge was now others) h =
    elim (Bool-cases (text_eq id one)) [
      | inl e ↦
          let same : id ≡ one = (text_eq_iff id one).0 e in
          (to, version + 1, ap w same ∙ now, later (sym h ∙ ap v same ∙ was))
      | inr e ↦
          (s, n, others id (λ q. ground (arith, e, (text_eq_iff id one).1 q)) ∙ h, omega arith)
    ]

-- In every run of the machine a batch, once there, stays there, and its version never falls.
pub Reaches-version :
    (v w : Lives) (id : Text) (s : BatchStatus) (n : ℕ)
    → Reaches v w
    → v id ≡ some (s, n)
    → (t : BatchStatus) × (k : ℕ) × (w id ≡ some (t, k)) × (n ≤ k)
Reaches-version v w id s n here h = (s, n, h, omega arith)
Reaches-version v w id s n (next {w = u} r step) h =
    let (t, k, at, le) = Reaches-version v u id s n r h in
    let (t', k', at', le') = Step-version u w id t k step at in
    (t', k', at', omega (arith, le, le'))

-- How the rows of a store move.
pub updated-Step :
    (db db' : Db) (id : Text) (batches : List Batch) (before after : Batch)
    → BatchUpdated id db.batches batches before after
    → db'.batches ≡ batches
    → Move before.status after.status
    → after.version ≡ before.version + 1
    → Step (lives db) (lives db')
unfolding lives
updated-Step db db' id batches before after u same edge version =
    move id before.status after.status before.version edge (ap (Option.map life_of) u.found)
      (ap (λ l. Option.map life_of (find (has_id id) l)) same
        ∙ ap (Option.map life_of) u.now_found
        ∙ ap (λ n. some (after.status, n)) version)
      (λ other ne.
        ap (λ l. Option.map life_of (find (has_id other) l)) same
        ∙ ap (Option.map life_of) (u.others_kept other ne))

absent :
    (id : Text) (rows : List Batch) → exists (has_id id) rows ≡ false → find (has_id id) rows ≡ none
unfolding exists find
absent id [] h = refl
absent id (r ∷ rows) h = ground (arith, h, absent id rows)

pub created-Step :
    (db db' : Db) (b : Batch)
    → exists (has_id b.id) db.batches ≡ false
    → db'.batches ≡ b ∷ db.batches
    → b.status ≡ BatchStatus.draft
    → b.version ≡ 1
    → Step (lives db) (lives db')
unfolding lives find
created-Step db db' b fresh same draft first =
    start b.id (ap (Option.map life_of) (absent b.id db.batches fresh))
      (ap (λ l. Option.map life_of (find (has_id b.id) l)) same
        ∙ ground (arith, text_eq_refl b.id, draft, first))
      (λ other ne.
        ap (λ l. Option.map life_of (find (has_id other) l)) same
        ∙ ap (Option.map life_of) (skipped other ne))
  where
    skipped :
        (other : Text)
        → other ≢ b.id
        → find (has_id other) (b ∷ db.batches) ≡ find (has_id other) db.batches
    skipped other ne = elim (Bool-cases (text_eq b.id other)) [
      | inl e ↦ absurd (ne (sym ((text_eq_iff b.id other).0 e)))
      | inr e ↦ rw e refl
    ]
