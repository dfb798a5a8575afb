-- ===== src/Store/Transaction.antt =====
-- A function that runs inside a transaction: it reads and changes the store, or fails.
-- Source: `Transaction` of src/backend/internal/repository/batch.go.
use mathlib.Core.Path.{subst}
use team5_ewaste_platform.Common.{
  Bool, true, false, Option, none, some, ◌≡◌, refl, ap, Error, store, StoreError, Result, ok, err,
  err-ne-ok,
}
use team5_ewaste_platform.Store.Database.{Db}

abbrev pub Tx {ℓ} : Type ℓ → Type ℓ
Tx A = Db → Result (A × Db)

module _ {ℓ} {A : Type ℓ} where
  abbrev pub pure : A → Tx A
  pure a db = ok (a, db)

  abbrev pub fail : Error → Tx A
  fail e db = err e

  -- A call that does not touch the store.
  abbrev pub lift : Result A → Tx A
  lift (ok a) db = ok (a, db)
  lift (err e) db = err e

  -- `RecordNotFound` becomes the error that the repository names.
  abbrev pub or_fail : StoreError → Option A → Tx A
  or_fail e none db = err (store e)
  or_fail e (some a) db = ok (a, db)

-- `if test { return e }`
abbrev pub fail_if : Bool → Error → Tx (Unit {0})
fail_if true e db = err e
fail_if false e db = ok (tt, db)

infixl 5 ◌>>=◌ ◌>>◌
abbrev pub ◌>>=◌ {ℓ κ} : {A : Type ℓ} {B : Type κ} → Tx A → (A → Tx B) → Tx B
◌>>=◌ m f db = elim (m db) [ ok (a, db') ↦ f a db' | err e ↦ err e ]

abbrev pub ◌>>◌ {ℓ κ} : {A : Type ℓ} {B : Type κ} → Tx A → Tx B → Tx B
m >> k = m >>= λ _. k

-- What a transaction leaves behind: its changes, or after an error the store as it was.
abbrev pub settle {ℓ} : {A : Type ℓ} → Db → Result (A × Db) → Result A × Db
settle db (ok (a, db')) = (ok a, db')
settle db (err e) = (err e, db)

abbrev pub transaction {ℓ} : {A : Type ℓ} → Tx A → Db → Result A × Db
transaction m db = settle db (m db)

pub settle-ok {ℓ} :
    {A : Type ℓ} (r : Result (A × Db)) (db : Db) {a : A} {db' : Db}
    → settle db r ≡ (ok a, db')
    → r ≡ ok (a, db')
settle-ok (ok (b, d)) db h = cc
settle-ok (err e) db h = cc

pub settle-err {ℓ} :
    {A : Type ℓ} (r : Result (A × Db)) (db : Db) {e : Error} {db' : Db}
    → settle db r ≡ (err e, db')
    → db' ≡ db
settle-err (ok x) db h = cc
settle-err (err e) db h = cc

-- A transaction keeps what its commit keeps.
pub transaction-keeps {ℓ κ} :
    {A : Type κ} (P : Db → Type ℓ) (body : Tx A) (db : Db)
    → P db
    → ((a : A) (db' : Db) → body db ≡ ok (a, db') → P db')
    → P (transaction body db).1
transaction-keeps {A} P body db h commits = go (body db) refl
  where
    go : (r : Result (A × Db)) → body db ≡ r → P (settle db r).1
    go (ok (a, db')) e = commits a db' e
    go (err x) e = h

-- A successful sequence of steps, taken apart.
pub bind-eq-ok {ℓ κ} :
    {A : Type ℓ} {B : Type κ} (m : Tx A) (f : A → Tx B) (db : Db) {b : B} {db'' : Db}
    → (m >>= f) db ≡ ok (b, db'')
    → (a : A) × (db' : Db) × (m db ≡ ok (a, db')) × (f a db' ≡ ok (b, db''))
bind-eq-ok {A} {B} m f db {b} {db''} h = go (m db) refl h
  where
    go :
        (r : Result (A × Db))
        → m db ≡ r
        → elim r [ ok (a, db') ↦ f a db' | err e ↦ err e ] ≡ ok (b, db'')
        → (a : A) × (db' : Db) × (m db ≡ ok (a, db')) × (f a db' ≡ ok (b, db''))
    go (ok (a, db')) e h = (a, db', e, h)
    go (err x) e h = cc

pub pure-ok {ℓ} :
    {A : Type ℓ} {a b : A} {db db' : Db} → pure a db ≡ ok (b, db') → (b ≡ a) × (db' ≡ db)
pure-ok h = (cc, cc)

-- A sequence whose first step is known to succeed runs the rest; one whose first step fails, fails.
module _ {ℓ κ} {A : Type ℓ} {B : Type κ} (m : Tx A) (f : A → Tx B) (db : Db) {x : B × Db} where
  pub run-then : {a : A} {db' : Db} → m db ≡ ok (a, db') → (m >>= f) db ≡ ok x → f a db' ≡ ok x
  run-then e h =
      subst (λ (r : Result (A × Db)). elim r [ ok (a, d) ↦ f a d | err e ↦ err e ] ≡ ok x) e h

  pub run-err : {e : Error} → m db ≡ err e → (m >>= f) db ≡ ok x → ⊥
  run-err e h =
      err-ne-ok
        (subst (λ (r : Result (A × Db)). elim r [ ok (a, d) ↦ f a d | err e ↦ err e ] ≡ ok x) e h)

pub run-to {ℓ κ} :
    {A : Type ℓ} {B : Type κ} (m : Tx A) (f : A → Tx B) (db : Db) {a : A} {db' : Db}
    → m db ≡ ok (a, db')
    → (m >>= f) db ≡ f a db'
run-to {A} {B} m f db e =
    ap (λ (r : Result (A × Db)). elim r [ ok (a, d) ↦ f a d | err x ↦ err x ]) e

-- A successful sequence that begins with a guard, with a call that leaves the store alone, or with
-- a read: the guard let it pass, and the rest ran on the same store.
module _ {ℓ} {B : Type ℓ} where
  pub fail_if-then :
      (test : Bool) (e : Error) (k : Tx B) (db : Db) {x : B × Db}
      → (fail_if test e >> k) db ≡ ok x
      → (test ≡ false) × (k db ≡ ok x)
  fail_if-then true e k db h = cc
  fail_if-then false e k db h = (refl, h)

  pub lift-then {κ} :
      {A : Type κ} (r : Result A) (f : A → Tx B) (db : Db) {x : B × Db}
      → (lift r >>= f) db ≡ ok x
      → (a : A) × (r ≡ ok a) × (f a db ≡ ok x)
  lift-then (ok a) f db h = (a, refl, h)
  lift-then (err e) f db h = cc

  pub or_fail-then {κ} :
      {A : Type κ} (e : StoreError) (o : Option A) (f : A → Tx B) (db : Db) {x : B × Db}
      → (or_fail e o >>= f) db ≡ ok x
      → (a : A) × (o ≡ some a) × (f a db ≡ ok x)
  or_fail-then e (some a) f db h = (a, refl, h)
  or_fail-then e none f db h = cc
