-- ===== src/Treatment.antt =====
-- The weights of a treatment, in cents of a kilogram, and the check that they balance.
-- Source: src/backend/internal/service/treatment.go. A weight is a decimal text with at most two
-- places; `int64` cents stay far below 2^63 since the whole part is at most 50,000,000.
pub mod RoundTrip
pub mod Balance
mod Tests
use team5_ewaste_platform.Decimal.{is_digit, digits_value, parse_int, print_int, is_whole}
use team5_ewaste_platform.Common.{
  ℕ, zero, suc, ◌+◌, ◌-◌, ◌*◌, ◌/◌, ◌%◌, ◌^◌, Bool, true, false, ◌&&◌, ◌||◌, Option, none, some, [],
  ◌∷◌, ◌++◌, String, Text, codes, trim_space, is_empty, ltb, leb, ◌==◌, if◌then◌else◌, Error,
  validation, Result, ok, err, ◌>>=◌, ◌>>◌, require, refuse_if,
}

-- strings.SplitN(s, ".", 2): the part before the first point, and the part behind it if there is one.
unfoldable pub split_point : Text → Text × Option Text
split_point [] = ([], none)
split_point (c ∷ s) =
    let (whole, fraction) = split_point s in
    if c == b'.' then ([], some s) else (c ∷ whole, fraction)

-- [0-9]{1,2}
unfoldable pub is_fraction : Text → Bool
unfolding is_digit
is_fraction [] = false
is_fraction (c ∷ []) = is_digit c
is_fraction (c ∷ d ∷ []) = is_digit c && is_digit d
is_fraction (c ∷ d ∷ e ∷ s) = false

-- treatmentWeightRegexp: no digit is a point, so the match splits at the first point.
unfoldable pub matches_weight : Text → Bool
unfolding split_point is_whole is_fraction
matches_weight s =
    let (whole, fraction) = split_point s in
    is_whole whole && elim fraction [ none ↦ true | some f ↦ is_fraction f ]

abbrev pub max_whole_kg : ℕ
max_whole_kg = 50_000_000

abbrev not_a_weight : String → Error
not_a_weight field =
    validation ((field, "must be a non-negative decimal with at most two decimal places") ∷ [])

abbrev out_of_range : String → Error
out_of_range field = validation ((field, "is outside the supported weight range") ∷ [])

-- The cents that the part behind the point adds: one digit counts tens.
unfoldable pub fraction_cents : Option Text → ℕ
unfolding digits_value
fraction_cents none = 0
fraction_cents (some (c ∷ [])) = digits_value 0 (c ∷ b'0' ∷ [])
fraction_cents (some f) = digits_value 0 f

unfoldable pub parse_treatment_cents : Text → String → Result ℕ
unfolding matches_weight parse_int fraction_cents
parse_treatment_cents raw field =
    let s = trim_space raw in
    let (whole, fraction) = split_point s in
    if matches_weight s
    then elim (parse_int whole) [
      | none ↦ err (out_of_range field)
      | some n ↦
          if ltb max_whole_kg n
          then err (out_of_range field)
          else ok (n * 100 + fraction_cents fraction)
    ]
    else err (not_a_weight field)

-- fmt.Sprintf("%d.%02d", cents/100, cents%100)
unfoldable pub format_treatment_cents : ℕ → Text
unfolding print_int
format_treatment_cents cents =
    print_int (cents / 100) ++ (b'.' ∷ (b'0' + cents % 100 / 10) ∷ (b'0' + cents % 100 % 10) ∷ [])

pub data TreatmentDataQuality : Type 0 where
  complete partial missing : TreatmentDataQuality

-- dto.TreatmentRequest
pub record TreatmentRequest : Type 0 where
  pub reused_kg : Option Text
  pub recycled_kg : Option Text
  pub disposed_kg : Option Text
  pub evidence_id : Option Text

pub record NormalizedTreatment : Type 0 where
  pub received_weight_kg : Text
  pub reused_kg : Option Text
  pub recycled_kg : Option Text
  pub disposed_kg : Option Text
  pub unknown_kg : Option Text
  pub diverted_kg : Option Text
  pub data_quality : TreatmentDataQuality
  pub evidence_id : Option Text

abbrev pub overweight : Error
overweight =
    validation (("treatment", "treatment totals must not exceed actual received weight") ∷ [])

-- The stored weights. `received - recycled - disposed` is signed in the source, so the test is
-- written as a sum.
abbrev pub share : ℕ → ℕ → ℕ → ℕ → Option Text → NormalizedTreatment
share received reused recycled disposed evidence =
    let unknown = received - reused - recycled - disposed in
    record {
      received_weight_kg = format_treatment_cents received;
      reused_kg = some (format_treatment_cents reused);
      recycled_kg = some (format_treatment_cents recycled);
      disposed_kg = some (format_treatment_cents disposed);
      unknown_kg = some (format_treatment_cents unknown);
      diverted_kg = some (format_treatment_cents (reused + recycled));
      data_quality = if unknown == 0 then complete else partial;
      evidence_id = evidence;
    }

unfoldable pub balance : ℕ → ℕ → ℕ → ℕ → Option Text → Result NormalizedTreatment
balance received reused recycled disposed evidence =
    if ltb received (reused + recycled + disposed)
    then err overweight
    else ok (share received reused recycled disposed evidence)

-- The three outcomes given together.
unfoldable pub allocate : ℕ → Text → Text → Text → Option Text → Result NormalizedTreatment
unfolding parse_treatment_cents balance
allocate received reused_kg recycled_kg disposed_kg evidence = do
  reused ← parse_treatment_cents reused_kg "reused_kg"
  recycled ← parse_treatment_cents recycled_kg "recycled_kg"
  disposed ← parse_treatment_cents disposed_kg "disposed_kg"
  balance received reused recycled disposed evidence

abbrev incomplete_outcomes : Error
incomplete_outcomes = validation (
    ("treatment", "reused_kg, recycled_kg, and disposed_kg must all be supplied or all be absent")
    ∷ [])

-- The outcomes by how many are supplied: none, all three, or a mixture.
unfoldable pub outcomes :
    ℕ → Option Text → Option Text → Option Text → Option Text → Result NormalizedTreatment
unfolding allocate
outcomes received none none none evidence = ok (record {
  received_weight_kg = format_treatment_cents received;
  reused_kg = none;
  recycled_kg = none;
  disposed_kg = none;
  unknown_kg = some (format_treatment_cents received);
  diverted_kg = none;
  data_quality = missing;
  evidence_id = evidence;
})
outcomes received (some a) (some b) (some c) evidence = allocate received a b c evidence
outcomes received _ _ _ evidence = err incomplete_outcomes

-- The trimmed evidence id, which must not be empty.
unfoldable pub evidence_reference : Option Text → Result (Option Text)
evidence_reference none = ok none
evidence_reference (some raw) =
    let evidence = trim_space raw in
    if is_empty evidence
    then err (validation (("evidence_id", "must not be empty when supplied") ∷ []))
    else ok (some evidence)

abbrev not_positive : Error
not_positive =
    validation
      (("received_weight_kg", "must be a positive decimal with at most two decimal places") ∷ [])

-- `err != nil || receivedCents < 1`
unfoldable pub received_cents : Text → Result ℕ
unfolding parse_treatment_cents
received_cents raw = elim (parse_treatment_cents raw "received_weight_kg") [
  | err _ ↦ err not_positive
  | ok cents ↦ if ltb cents 1 then err not_positive else ok cents
]

unfoldable pub normalize_treatment_request : TreatmentRequest → Text → Result NormalizedTreatment
unfolding received_cents outcomes evidence_reference
normalize_treatment_request request received_weight = do
  received ← received_cents received_weight
  values ← outcomes received request.reused_kg request.recycled_kg request.disposed_kg none
  evidence ← evidence_reference request.evidence_id
  ok (record values { evidence_id = evidence })
