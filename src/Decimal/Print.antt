-- ===== src/Decimal/Print.antt =====
-- Printing a number in decimal and reading it back.
use team5_ewaste_platform.Common.{
  ℕ, zero, suc, ◌+◌, ◌/◌, ◌%◌, ◌≤◌, ◌<◌, true, [], ◌∷◌, ◌≡◌, refl, Text, arith, some,
}
use team5_ewaste_platform.Decimal.{
  all_digits, digits_value, parse_int, max_int64, print_digits, print_int, is_whole,
}

pub digits_value-print_digits :
    (fuel n : ℕ) (out : Text)
    → n < fuel
    → digits_value 0 (print_digits fuel n out) ≡ digits_value n out
unfolding digits_value print_digits
digits_value-print_digits zero n out h = elim h [ ]
digits_value-print_digits (suc fuel) n out h =
    ground (arith, digits_value-print_digits fuel (n / 10) ((b'0' + n % 10) ∷ out))

-- The printed digits are digits, and a printed number other than 0 does not begin with 0.
pub all_digits-print_digits :
    (fuel n : ℕ) (out : Text) → all_digits out ≡ true → all_digits (print_digits fuel n out) ≡ true
unfolding all_digits print_digits
all_digits-print_digits zero n out h = h
all_digits-print_digits (suc fuel) n out h =
    ground (arith, all_digits-print_digits fuel (n / 10) ((b'0' + n % 10) ∷ out))

is_whole-print_digits :
    (fuel n : ℕ) (out : Text)
    → n < fuel
    → 0 < n
    → all_digits out ≡ true
    → is_whole (print_digits fuel n out) ≡ true
unfolding all_digits print_digits is_whole
is_whole-print_digits zero n out h p d = elim h [ ]
is_whole-print_digits (suc fuel) n out h p d =
    ground (arith, is_whole-print_digits fuel (n / 10) ((b'0' + n % 10) ∷ out))

pub is_whole-print_int : (n : ℕ) → is_whole (print_int n) ≡ true
unfolding print_int
is_whole-print_int zero = unfold print_digits is_whole in refl
is_whole-print_int (suc n) =
    is_whole-print_digits (suc (suc n)) (suc n) [] (omega arith) (omega arith)
      (unfold all_digits in refl)

digits_value_nil : (n : ℕ) → digits_value n [] ≡ n
unfolding digits_value
digits_value_nil n = refl

pub parse_int-print_int : (n : ℕ) → n ≤ max_int64 → parse_int (print_int n) ≡ some n
unfolding parse_int print_int
parse_int-print_int n h =
    ground (arith, digits_value-print_digits (suc n) n [] (omega arith), digits_value_nil n)
