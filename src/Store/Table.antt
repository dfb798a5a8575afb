-- ===== src/Store/Table.antt =====
-- What SQL statements do to a table. A statement that names a primary key touches one row at most.
use team5_ewaste_platform.Common.{
  ℕ, suc, Bool, true, false, Option, none, some, List, [], ◌∷◌, ◌≡◌, refl, arith, if◌then◌else◌,
  ◌||◌, inl, inr, Bool-cases, Option-cases,
}
use mathlib.Core.Option

module _ {ℓ} {R : Type ℓ} where
  -- SELECT … WHERE key LIMIT 1
  unfoldable pub find : (R → Bool) → List R → Option R
  find key [] = none
  find key (r ∷ rs) = if key r then some r else find key rs

  -- SELECT COUNT(*) … WHERE key, compared with 0.
  unfoldable pub exists : (R → Bool) → List R → Bool
  exists key [] = false
  exists key (r ∷ rs) = key r || exists key rs

  -- SELECT COUNT(*) … WHERE key
  unfoldable pub count : (R → Bool) → List R → ℕ
  count key [] = 0
  count key (r ∷ rs) = let n = count key rs in if key r then suc n else n

  -- UPDATE … SET change WHERE key AND guard, with `key` on the primary key; `none` means that no
  -- row was affected.
  unfoldable pub update : (R → Bool) → (R → Bool) → (R → R) → List R → Option (List R)
  update key guard change [] = none
  update key guard change (r ∷ rs) =
      if key r
      then if guard r then some (change r ∷ rs) else none
      else Option.map (λ t. r ∷ t) (update key guard change rs)

module _ {ℓ} {R : Type ℓ} where
  -- The updated row is the one that the key finds.
  pub find-update_self :
      (key guard : R → Bool) (change : R → R) (rs : List R) {ts : List R}
      → ((r : R) → key r ≡ true → key (change r) ≡ true)
      → update key guard change rs ≡ some ts
      → (r : R) × (find key rs ≡ some r) × (guard r ≡ true) × (find key ts ≡ some (change r))
  unfolding find update
  find-update_self key guard change [] keep h = cc
  find-update_self key guard change (r ∷ rs) {ts} keep h = elim (Bool-cases (key r)) [
    | inl here ↦ elim (Bool-cases (guard r)) [
      | inl allowed ↦ (r, rw here, allowed, ground (arith, keep r))
      | inr refused ↦ absurd (ground arith)
    ]
    | inr later ↦ elim (Option-cases (update key guard change rs)) [
      | inl e ↦ absurd (ground arith)
      | inr (us, e) ↦
          let (x, found, allowed, changed) = find-update_self key guard change rs keep e in
          (x, rw later found, allowed, ground arith)
    ]
  ]

  -- Rows that another key finds stay.
  pub find-update_other :
      (key other guard : R → Bool) (change : R → R) (rs : List R) {ts : List R}
      → ((r : R) → key r ≡ true → (other r ≡ false) × (other (change r) ≡ false))
      → update key guard change rs ≡ some ts
      → find other ts ≡ find other rs
  unfolding find update
  find-update_other key other guard change [] apart h = cc
  find-update_other key other guard change (r ∷ rs) {ts} apart h = elim (Bool-cases (key r)) [
    | inl here ↦ ground (arith, apart r here)
    | inr later ↦ elim (Option-cases (update key guard change rs)) [
      | inl e ↦ absurd (ground arith)
      | inr (us, e) ↦ ground (arith, find-update_other key other guard change rs apart e)
    ]
  ]

  -- An update with a guard that holds of the row found succeeds.
  pub update_succeeds :
      (key guard : R → Bool) (change : R → R) (rs : List R) {r : R}
      → find key rs ≡ some r
      → guard r ≡ true
      → (ts : List R) × (update key guard change rs ≡ some ts)
  unfolding find update
  update_succeeds key guard change [] e h = cc
  update_succeeds key guard change (x ∷ rs) e h = elim (Bool-cases (key x)) [
    | inl here ↦ (change x ∷ rs, ground arith)
    | inr later ↦
        let (us, e') = update_succeeds key guard change rs (ground arith) h in
        (x ∷ us, ground arith)
  ]

  -- An update whose guard fails on the row found affects no row.
  pub update_refused :
      (key guard : R → Bool) (change : R → R) (rs : List R) {r : R}
      → find key rs ≡ some r
      → guard r ≡ false
      → update key guard change rs ≡ none
  unfolding find update
  update_refused key guard change [] e h = refl
  update_refused key guard change (x ∷ rs) e h = elim (Bool-cases (key x)) [
    | inl here ↦ ground arith
    | inr later ↦ ground (arith, update_refused key guard change rs (ground arith) h)
  ]
