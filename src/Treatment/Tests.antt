-- ===== src/Treatment/Tests.antt =====
-- Treatment requests with concrete weights.
use team5_ewaste_platform.Common.{ℕ, ◌<◌, none, some, ◌≡◌, refl, arith, codes, ok}
use team5_ewaste_platform.Decimal.{print_int}
use team5_ewaste_platform.Common.{trim_space, is_space, trim_left, trim_right}
use team5_ewaste_platform.Decimal.{
  is_whole, is_digit, all_digits, digits_value, parse_int, parse_uint, print_digits,
}
use team5_ewaste_platform.Treatment.{
  TreatmentRequest, NormalizedTreatment, TreatmentDataQuality, normalize_treatment_request,
  parse_treatment_cents, format_treatment_cents, matches_weight, is_fraction, split_point,
  fraction_cents, outcomes, allocate, balance, evidence_reference, received_cents,
}
use team5_ewaste_platform.Treatment.RoundTrip.{parse-format}
use team5_ewaste_platform.Treatment.Balance.{IsBalanced, normalize-IsBalanced}

abbrev request : TreatmentRequest
request = record {
  reused_kg = some (codes "4.50");
  recycled_kg = some (codes "3");
  disposed_kg = some (codes "2.5");
  evidence_id = none;
}

abbrev treatment : NormalizedTreatment
treatment = record {
  received_weight_kg = codes "12.50";
  reused_kg = some (codes "4.50");
  recycled_kg = some (codes "3.00");
  disposed_kg = some (codes "2.50");
  unknown_kg = some (codes "2.50");
  diverted_kg = some (codes "7.50");
  data_quality = TreatmentDataQuality.partial;
  evidence_id = none;
}

normalized : normalize_treatment_request request (codes "12.50") ≡ ok treatment
unfolding normalize_treatment_request parse_treatment_cents format_treatment_cents matches_weight
    is_fraction split_point fraction_cents outcomes allocate balance evidence_reference
    received_cents is_whole is_digit all_digits digits_value parse_int parse_uint print_digits
    print_int trim_space is_space trim_left trim_right
normalized = refl

normalize-IsBalanced_example :
    (received : ℕ) × (parse_treatment_cents (codes "12.50") "received_weight_kg" ≡ ok received)
    × (0 < received)
    × IsBalanced received treatment
normalize-IsBalanced_example = normalize-IsBalanced request (codes "12.50") treatment normalized

parse-format_example :
    parse_treatment_cents (format_treatment_cents 1250) "received_weight_kg" ≡ ok 1250
parse-format_example = parse-format 1250 "received_weight_kg" (omega arith)
