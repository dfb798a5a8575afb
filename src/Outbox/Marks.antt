-- ===== src/Outbox/Marks.antt =====
-- What a mark does to the rows. Source: src/backend/internal/repository/outbox.go.
use mathlib.Core.Path.{subst}
use mathlib.Core.List.{Memᴰ}
use team5_ewaste_platform.Common.{
  true, sym, arith, ◌∷◌, [], Bool-cases, Option-cases, Bool, Option, none, some, List, Text, ◌≡◌,
  refl, ◌⊎◌, inl, inr,
}
use team5_ewaste_platform.Store.{OutboxEvent, update}
use team5_ewaste_platform.Outbox.{MarkFault, or_same, has_event, is_pending, mark}

or_same-cases :
    (updated : Option (List OutboxEvent)) (rows : List OutboxEvent)
    → (or_same updated rows ≡ rows) ⊎ (updated ≡ some (or_same updated rows))
or_same-cases none rows = inl refl
or_same-cases (some rows') rows = inr refl

-- A mark changes nothing, or updates the row that it names.
pub mark-cases :
    (fault : MarkFault) (id : Text) (change : OutboxEvent → OutboxEvent)
    (settled : OutboxEvent → Bool) (rows : List OutboxEvent)
    → ((mark fault id change settled rows).1 ≡ rows)
      ⊎ (update (has_event id) is_pending change rows ≡ some (mark fault id change settled rows).1)
unfolding mark
mark-cases (MarkFault.not_written e) id change settled rows = inl refl
mark-cases MarkFault.sound id change settled rows =
    or_same-cases (update (has_event id) is_pending change rows) rows
mark-cases (MarkFault.unanswered e) id change settled rows =
    or_same-cases (update (has_event id) is_pending change rows) rows
mark-cases (MarkFault.not_read e) id change settled rows =
    or_same-cases (update (has_event id) is_pending change rows) rows

some_inj {ℓ} : {A : Type ℓ} {a b : A} → some a ≡ some b → a ≡ b
some_inj h = cc

module _ {ℓ} {A : Type ℓ} (key : A → Bool) (change : A → A) where
  -- The row was there, or is a changed one that the key finds.
  abbrev pub IsOldOrChanged : List A → A → Type ℓ
  IsOldOrChanged rows a = Memᴰ a rows ⊎ ((b : A) × Memᴰ b rows × (key b ≡ true) × (a ≡ change b))

  changed-first :
      (r : A) (rows : List A) {a : A}
      → key r ≡ true
      → Memᴰ a (change r ∷ rows)
      → IsOldOrChanged (r ∷ rows) a
  changed-first r rows here (Memᴰ.head e) = inr (r, Memᴰ.head refl, here, e)
  changed-first r rows here (Memᴰ.tail k) = inl (Memᴰ.tail k)

  changed-later :
      (r : A) (rows us : List A) {a : A}
      → (Memᴰ a us → IsOldOrChanged rows a)
      → Memᴰ a (r ∷ us)
      → IsOldOrChanged (r ∷ rows) a
  changed-later r rows us rest (Memᴰ.head k) = inl (Memᴰ.head k)
  changed-later r rows us rest (Memᴰ.tail k) = elim (rest k) [
    | inl was ↦ inl (Memᴰ.tail was)
    | inr (b, mb, found, changed) ↦ inr (b, Memᴰ.tail mb, found, changed)
  ]

  -- A row after an update.
  pub update-member :
      (guard : A → Bool) (rows : List A) {rows' : List A} {a : A}
      → update key guard change rows ≡ some rows'
      → Memᴰ a rows'
      → IsOldOrChanged rows a
  unfolding update
  update-member guard [] h m = cc
  update-member guard (r ∷ rows) {a = a} h m = elim (Bool-cases (key r)) [
    | inl here ↦ elim (Bool-cases (guard r)) [
      | inl allowed ↦
          changed-first r rows here
            (subst (Memᴰ a) (sym (some_inj (ground (arith, here, allowed)))) m)
      | inr refused ↦ absurd (ground (arith, here, refused))
    ]
    | inr later ↦ elim (Option-cases (update key guard change rows)) [
      | inl e ↦ absurd (ground (arith, later, e))
      | inr (us, e) ↦
          changed-later r rows us (update-member guard rows e)
            (subst (Memᴰ a) (sym (some_inj (ground (arith, later, e)))) m)
    ]
  ]
