-- ===== src/Decimal.antt =====
-- Decimal digits, as package strconv reads them and package fmt prints them.
pub mod Print
use team5_ewaste_platform.Common.{
  ℕ, zero, suc, ◌+◌, ◌-◌, ◌*◌, ◌/◌, ◌%◌, Bool, true, false, ◌&&◌, Option, none, some, [], ◌∷◌, Text,
  is_empty, leb, ◌==◌, if◌then◌else◌,
}

unfoldable pub is_digit : ℕ → Bool
is_digit c = leb b'0' c && leb c b'9'

unfoldable pub all_digits : Text → Bool
unfolding is_digit
all_digits [] = true
all_digits (c ∷ s) = is_digit c && all_digits s

unfoldable pub digits_value : ℕ → Text → ℕ
digits_value n [] = n
digits_value n (c ∷ s) = digits_value (n * 10 + (c - b'0')) s

abbrev pub max_int64 : ℕ
max_int64 = 9223372036854775807

abbrev pub max_uint64 : ℕ
max_uint64 = 18446744073709551615

-- strconv.ParseInt(s, 10, 64) on a text of digits; `none` is ErrRange.
unfoldable pub parse_int : Text → Option ℕ
unfolding digits_value
parse_int s = let n = digits_value 0 s in if leb n max_int64 then some n else none

-- strconv.ParseUint(s, 10, 64) on a text of digits.
unfoldable pub parse_uint : Text → Option ℕ
unfolding digits_value
parse_uint s = let n = digits_value 0 s in if leb n max_uint64 then some n else none

-- The digits of `n` before `out`, by fuel above `n`.
unfoldable pub print_digits : ℕ → ℕ → Text → Text
print_digits zero n out = out
print_digits (suc fuel) n out =
    let rest = print_digits fuel (n / 10) ((b'0' + n % 10) ∷ out) in
    if n / 10 == 0 then (b'0' + n % 10) ∷ out else rest

unfoldable pub print_int : ℕ → Text
unfolding print_digits
print_int n = print_digits (suc n) n []

-- 0|[1-9][0-9]*, a decimal number with no leading zero.
unfoldable pub is_whole : Text → Bool
unfolding all_digits
is_whole [] = false
is_whole (c ∷ s) = if c == b'0' then is_empty s else is_digit c && all_digits s
