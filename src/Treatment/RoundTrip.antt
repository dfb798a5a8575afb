-- ===== src/Treatment/RoundTrip.antt =====
-- A weight that `format_treatment_cents` prints is read back by `parse_treatment_cents`.
use team5_ewaste_platform.Common.{
  ℕ, ◌+◌, ◌/◌, ◌%◌, ◌≤◌, ◌<◌, true, false, [], ◌∷◌, ◌++◌, ◌≡◌, refl, Text, arith, All, All-append,
  some, is_space, trim_space, trim_space_lem, String, ok, Option-cases, inl, inr,
}
use team5_ewaste_platform.Decimal.{is_digit, all_digits, print_int, is_whole}
use team5_ewaste_platform.Treatment.{
  split_point, is_fraction, matches_weight, parse_treatment_cents, format_treatment_cents,
  fraction_cents, max_whole_kg,
}
use team5_ewaste_platform.Decimal.Print.{is_whole-print_int, parse_int-print_int}

is_digit-not-space : (c : ℕ) → is_digit c ≡ true → is_space c ≡ false
unfolding is_digit is_space
is_digit-not-space c h = ground arith

all_digits-not-space : (s : Text) → all_digits s ≡ true → All (λ c. is_space c ≡ false) s
unfolding all_digits
all_digits-not-space [] h = tt
all_digits-not-space (c ∷ s) h =
    (ground (arith, is_digit-not-space c), all_digits-not-space s (ground arith))

is_whole-all_digits : (s : Text) → is_whole s ≡ true → all_digits s ≡ true
unfolding is_whole all_digits
is_whole-all_digits [] h = cc
is_whole-all_digits (c ∷ []) h = ground arith
is_whole-all_digits (c ∷ d ∷ s) h = ground arith

split_point_digits :
    (s f : Text) → all_digits s ≡ true → split_point (s ++ (b'.' ∷ f)) ≡ (s, some f)
unfolding split_point all_digits
split_point_digits [] f h = refl
split_point_digits (c ∷ s) f h = ground (arith, split_point_digits s f)

abbrev tail_of : ℕ → Text
tail_of cents = (b'0' + cents % 100 / 10) ∷ (b'0' + cents % 100 % 10) ∷ []

tail_digits : (cents : ℕ) → all_digits (tail_of cents) ≡ true
unfolding all_digits
tail_digits cents = ground arith

split_point-format :
    (cents : ℕ)
    → split_point (format_treatment_cents cents) ≡ (print_int (cents / 100), some (tail_of cents))
unfolding format_treatment_cents
split_point-format cents =
    split_point_digits (print_int (cents / 100)) (tail_of cents)
      (is_whole-all_digits _ (is_whole-print_int (cents / 100)))

trim_space-format :
    (cents : ℕ) → trim_space (format_treatment_cents cents) ≡ format_treatment_cents cents
unfolding format_treatment_cents
trim_space-format cents = trim_space_lem _ (
    All-append _ (print_int (cents / 100)) (b'.' ∷ tail_of cents)
      (all_digits-not-space _ (is_whole-all_digits _ (is_whole-print_int (cents / 100))))
      (unfold is_space in refl, all_digits-not-space (tail_of cents) (tail_digits cents)))

matches_weight-format : (cents : ℕ) → matches_weight (format_treatment_cents cents) ≡ true
unfolding matches_weight is_fraction
matches_weight-format cents =
    ground (arith, split_point-format cents, is_whole-print_int (cents / 100))

fraction_cents_lem : (cents : ℕ) → fraction_cents (some (tail_of cents)) ≡ cents % 100
unfolding fraction_cents
fraction_cents_lem cents = omega arith

-- Every weight of at most 50,000,000 kg and 99 cents is read back from its print, exactly.
pub parse-format :
    (cents : ℕ) (field : String)
    → cents / 100 ≤ max_whole_kg
    → parse_treatment_cents (format_treatment_cents cents) field ≡ ok cents
unfolding parse_treatment_cents
parse-format cents field h = ground (
  arith,
  trim_space-format cents,
  matches_weight-format cents,
  split_point-format cents,
  parse_int-print_int (cents / 100),
  fraction_cents_lem cents,
)

fraction_cents-lt : (f : Text) → is_fraction f ≡ true → fraction_cents (some f) < 100
unfolding is_fraction fraction_cents
fraction_cents-lt [] h = omega arith
fraction_cents-lt (c ∷ []) h = ground arith
fraction_cents-lt (c ∷ d ∷ []) h = ground arith
fraction_cents-lt (c ∷ d ∷ e ∷ s) h = cc

matched-fraction-lt : (s : Text) → matches_weight s ≡ true → fraction_cents (split_point s).1 < 100
unfolding matches_weight
matched-fraction-lt s h = elim (Option-cases (split_point s).1) [
  | inl e ↦ rw e (unfold fraction_cents in omega arith)
  | inr (f, e) ↦ rw e (fraction_cents-lt f (ground arith))
]

-- A text that is read stays in range.
pub parse_range :
    (raw : Text) (field : String) {cents : ℕ}
    → parse_treatment_cents raw field ≡ ok cents
    → cents / 100 ≤ max_whole_kg
unfolding parse_treatment_cents
parse_range raw field h = ground (arith, matched-fraction-lt (trim_space raw))
