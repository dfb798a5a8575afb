-- ===== src/Store/Updates.antt =====
-- The laws of the statements that several services share: reading a row, adding one, updating a batch.
use mathlib.Core.Path.{subst}
use team5_ewaste_platform.Common.{
  Bool, true, false, List, ◌∷◌, some, ◌≡◌, refl, Text, StoreError, ok,
}
use team5_ewaste_platform.Store.Rows.{Batch}
use team5_ewaste_platform.Store.Database.{Db}
use team5_ewaste_platform.Store.Table.{find, exists}
use team5_ewaste_platform.Store.Transaction.{Tx, ◌>>=◌, ◌>>◌, bind-eq-ok, or_fail-then}
use team5_ewaste_platform.Store.Statements.{has_id, find_row, insert_row, update_batch}
use team5_ewaste_platform.Store.Laws.{insert-then, BatchUpdated, BatchUpdated-read, update_batch-ok}

module _ {ℓ κ} {B : Type ℓ} {R : Type κ} where
  pub find_row-then :
      (e : StoreError) (key : R → Bool) (table : Db → List R) (f : R → Tx B) (db : Db) {x : B × Db}
      → (find_row e key table >>= f) db ≡ ok x
      → (r : R) × (find key (table db) ≡ some r) × (f r db ≡ ok x)
  find_row-then e key table f db h = or_fail-then e (find key (table db)) f db h

  pub insert_row-then :
      (clashes : R → R → Bool) (table : Db → List R) (store_rows : List R → Db → Db) (r : R)
      (k : Tx B) (db : Db) {x : B × Db}
      → (insert_row clashes table store_rows r >> k) db ≡ ok x
      → (exists (clashes r) (table db) ≡ false) × (k (store_rows (r ∷ table db) db) ≡ ok x)
  insert_row-then clashes table store_rows r k db {x} h =
      insert-then k db x (exists (clashes r) (table db)) (insert_row clashes table store_rows r) _
        refl h

module _ {ℓ} {B : Type ℓ} (concurrency : StoreError) (id : Text) (guard : Batch → Bool)
    (change : Batch → Batch) (db : Db) (keeps : (b : Batch) → (change b).id ≡ b.id) where
  -- A successful sequence that begins with the update of the batch that was read.
  pub update_batch-then :
      (before : Batch)
      → find (has_id id) db.batches ≡ some before
      → (f : Batch → Tx B) {x : B × Db}
      → (update_batch concurrency before.id guard change >>= f) db ≡ ok x
      → (batches : List Batch) × BatchUpdated id db.batches batches before (change before)
        × (guard before ≡ true)
        × (f (change before) (record db { batches = batches }) ≡ ok x)
  update_batch-then before found f {x} h =
      let (b, d, h1, k1) =
        bind-eq-ok (update_batch concurrency before.id guard change) f db {b = x.0} {db'' = x.1}
          h in
      let (again, batches, allowed, e1, e2, updated) =
        update_batch-ok concurrency before.id guard change db keeps h1 in
      let (same, u) = BatchUpdated-read id db.batches batches change found updated in
      (
        batches,
        u,
        subst (λ c. guard c ≡ true) same allowed,
        subst (λ c. f (change c) (record db { batches = batches }) ≡ ok x) same
            (subst (λ c. f c (record db { batches = batches }) ≡ ok x) e1
              (subst (λ e. f b e ≡ ok x) e2 k1)),
      )
