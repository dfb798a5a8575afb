-- ===== src/Batch/Validate.antt =====
-- Validation of a draft and of a stored batch, and the columns that a draft request sets.
-- Source: src/backend/internal/service/batch.go.
use text.Mathlib.Text.{◌==◌ as str_eq}
use mathlib.Core.Option
use team5_ewaste_platform.Common.{
  true, ◌+◌, ◌*◌, Bool, false, ◌&&◌, ◌||◌, not, Option, none, some, is_none, List, [], ◌∷◌, String,
  Text, codes, text_eq, trim_space, to_upper, is_empty, length, ltb, ℤ, is_within, if◌then◌else◌,
  Error, validation, Fields, Result, ok, err, ◌>>=◌, ◌>>◌, require, refuse_if,
}
use team5_ewaste_platform.Store.{Time, Batch}
use team5_ewaste_platform.Dto.{Float64, BatchDraftRequest, DraftChanges}
use team5_ewaste_platform.Platform.{Platform}

abbrev pub hour : Time
hour = 3_600_000_000_000

-- `fields[key] = message`
unfoldable pub put : String → String → Fields → Fields
put key message [] = (key, message) ∷ []
put key message ((k, m) ∷ fields) =
    if str_eq k key then (key, message) ∷ fields else (k, m) ∷ put key message fields

-- `if test { fields[key] = message }`
abbrev pub note_if : Bool → String → String → Fields → Fields
note_if test key message fields = if test then put key message fields else fields

-- A test on a pointer that is not nil.
abbrev pub given_and {ℓ} : {A : Type ℓ} → (A → Bool) → Option A → Bool
given_and test none = false
given_and test (some a) = test a

unfoldable pub allowed_value : Text → List Text → Bool
allowed_value value [] = false
allowed_value value (candidate ∷ rest) = text_eq value candidate || allowed_value value rest

abbrev pub categories : List Text
categories =
    codes "ICT_EQUIPMENT"
    ∷ codes "LARGE_APPLIANCE"
    ∷ codes "BATTERIES"
    ∷ codes "CONSUMER_ELECTRONICS"
    ∷ []

abbrev pub conditions : List Text
conditions = codes "FUNCTIONAL" ∷ codes "REPAIRABLE" ∷ codes "END_OF_LIFE" ∷ []

abbrev pub zones : List Text
zones = codes "NORTH" ∷ codes "SOUTH" ∷ codes "EAST" ∷ codes "WEST" ∷ codes "CENTRAL" ∷ []

unfoldable pub normalize_optional_enum : Option Text → Option Text
normalize_optional_enum none = none
normalize_optional_enum (some value) = some (to_upper (trim_space value))

abbrev pub field_error : String → String → Error
field_error key message = validation ((key, message) ∷ [])

abbrev pub incomplete_batch : Error
incomplete_batch = field_error "batch" "all required fields must be completed before submission"

module _ (p : Platform) where
  -- math.Abs((x*100)-math.Round(x*100)) > 1e-9
  unfoldable pub has_more_places : Float64 → Bool
  has_more_places x =
      let scaled = p.times x (p.constant 100 0) in
      p.less (p.constant 1 9) (p.absolute (p.minus scaled (p.rounded scaled)))

  unfoldable pub is_bad_weight : Float64 → Bool
  unfolding has_more_places
  is_bad_weight w =
      p.is_nan w
      || p.is_inf w
      || p.less w (p.constant 10 2)
      || p.less (p.constant 50000 0) w
      || has_more_places w

  -- The fields that a draft request gets wrong, in the order of the source's tests.
  unfoldable pub draft_fields : BatchDraftRequest → Bool → Time → Fields
  unfolding put allowed_value normalize_optional_enum is_bad_weight
  draft_fields r complete now =
      let category = normalize_optional_enum r.category in
      let condition = normalize_optional_enum r.condition_rating in
      let zone = normalize_optional_enum r.zone in
      let f1 =
        note_if (given_and (λ c. not (allowed_value c categories)) category) "category"
          "unsupported category" [] in
      let f2 =
        note_if (given_and (λ q. not (is_within 1 100000 q)) r.quantity) "quantity"
          "must be between 1 and 100000" f1 in
      let f3 =
        note_if (given_and is_bad_weight r.estimated_weight_kg) "estimated_weight_kg"
          "must have exactly two decimal places and be between 0.10 and 50000.00" f2 in
      let f4 =
        note_if (given_and (λ c. not (allowed_value c conditions)) condition) "condition_rating"
          "unsupported condition rating" f3 in
      let f5 =
        note_if (given_and (λ z. not (allowed_value z zones)) zone) "zone" "unsupported zone" f4 in
      let f6 =
        note_if (given_and (λ n. ltb 500 (length n)) r.notes) "notes"
          "must not exceed 500 characters" f5 in
      let f7 =
        note_if (given_and (λ d. ltb (d + 365 * (24 * hour)) now) r.collection_deadline)
          "collection_deadline" "deadline is too far in the past" f6 in
      let f8 = note_if (complete && is_none category) "category" "is required" f7 in
      let f9 = note_if (complete && is_none r.quantity) "quantity" "is required" f8 in
      let f10 =
        note_if (complete && is_none r.estimated_weight_kg) "estimated_weight_kg" "is required"
          f9 in
      let f11 = note_if (complete && is_none condition) "condition_rating" "is required" f10 in
      let f12 =
        note_if (complete && is_none r.is_data_bearing) "is_data_bearing" "is required" f11 in
      let f13 = note_if (complete && is_none zone) "zone" "is required" f12 in
      let f14 =
        note_if (complete && is_none r.collection_deadline) "collection_deadline" "is required"
          f13 in
      note_if
        (complete
          && given_and (λ d. ltb d (now + 48 * hour) || ltb (now + 90 * (24 * hour)) d)
              r.collection_deadline)
        "collection_deadline" "must be between 48 hours and 90 days from submission" f14

  unfoldable pub validate_draft : BatchDraftRequest → Bool → Time → Result (Unit {0})
  unfolding draft_fields
  validate_draft r complete now =
      let fields = draft_fields r complete now in
      refuse_if (not (is_empty fields)) (validation fields)

  unfoldable pub normalize_stored_weight : Text → Result Text
  unfolding has_more_places
  normalize_stored_weight value = elim (p.parse_float (trim_space value)) [
    | none ↦ err (field_error "estimated_weight_kg" "must be a valid decimal weight")
    | some parsed ↦
        if p.is_nan parsed || p.is_inf parsed
        then err (field_error "estimated_weight_kg" "must be a valid decimal weight")
        else if has_more_places parsed
        then err (field_error "estimated_weight_kg" "must have exactly two decimal places")
        else ok (p.format_float parsed)
  ]

  -- `parsedWeight < 0.10 || parsedWeight > 50000.00`. The error of ParseFloat is dropped, and the
  -- number that comes with it, 0 or an infinity, is out of the range.
  unfoldable pub is_out_of_range : Text → Bool
  is_out_of_range weight = elim (p.parse_float weight) [
    | none ↦ true
    | some w ↦ p.less w (p.constant 10 2) || p.less (p.constant 50000 0) w
  ]

  -- The checks on a batch whose required fields are present.
  unfoldable pub validate_complete_batch :
      ℤ → Text → Text → Text → Text → Time → Time → Result (Unit {0})
  unfolding allowed_value normalize_stored_weight is_out_of_range
  validate_complete_batch quantity category condition zone weight_kg deadline submitted_at = do
    require (is_within 1 100000 quantity) (field_error "quantity" "must be between 1 and 100000")
    require (allowed_value category categories) (field_error "category" "unsupported category")
    require (allowed_value condition conditions)
        (field_error "condition_rating" "unsupported condition rating")
    require (allowed_value zone zones) (field_error "zone" "unsupported zone")
    weight ← normalize_stored_weight weight_kg
    refuse_if (is_out_of_range weight)
        (field_error "estimated_weight_kg" "must be between 0.10 and 50000.00")
    refuse_if
        (ltb deadline (submitted_at + 48 * hour) || ltb (submitted_at + 90 * (24 * hour)) deadline)
        (field_error "collection_deadline" "must be between 48 hours and 90 days from submission")

  unfoldable pub validate_fields :
      Option ℤ
      → Option Text
      → Option Text
      → Option Text
      → Option Text
      → Option Time
      → Time
      → Result (Unit {0})
  unfolding validate_complete_batch
  validate_fields (some q) (some c) (some r) (some z) (some w) (some d) submitted_at =
      validate_complete_batch q c r z w d submitted_at
  validate_fields _ _ _ _ _ _ submitted_at = err incomplete_batch

  unfoldable pub validate_stored_batch : Batch → Time → Result (Unit {0})
  unfolding validate_fields
  validate_stored_batch b submitted_at =
      validate_fields b.quantity b.category b.condition_rating b.zone b.estimated_weight_kg
        b.collection_deadline submitted_at

  unfoldable pub draft_changes : BatchDraftRequest → DraftChanges
  unfolding normalize_optional_enum
  draft_changes r = record {
    category = normalize_optional_enum r.category;
    quantity = r.quantity;
    estimated_weight_kg = Option.map p.format_float r.estimated_weight_kg;
    condition_rating = normalize_optional_enum r.condition_rating;
    is_data_bearing = r.is_data_bearing;
    zone = normalize_optional_enum r.zone;
    collection_deadline = r.collection_deadline;
    notes = r.notes;
  }

-- `len(changes) == 0`
unfoldable pub has_no_changes : DraftChanges → Bool
has_no_changes c =
    is_none c.category
    && is_none c.quantity
    && is_none c.estimated_weight_kg
    && is_none c.condition_rating
    && is_none c.is_data_bearing
    && is_none c.zone
    && is_none c.collection_deadline
    && is_none c.notes
