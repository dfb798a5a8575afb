-- ===== src/Platform.antt =====
-- What the services take from encoding/json, crypto/sha256 and float64 arithmetic, as parameters.
use team5_ewaste_platform.Common.{ℕ, Bool, Option, Text}
use team5_ewaste_platform.Dto.{
  Float64, BatchMutationResult, CanonicalCommand, EventPayload, CanonicalClaim, ClaimResult,
  CanonicalAssignment, AssignmentMutationResult,
}

pub record Platform : Type 0 where
  -- float64: math.IsNaN, math.IsInf, <, -, *, math.Abs, math.Round, and the constant whose decimal
  -- digits and number of places are given.
  pub is_nan : Float64 → Bool
  pub is_inf : Float64 → Bool
  pub less : Float64 → Float64 → Bool
  pub minus : Float64 → Float64 → Float64
  pub times : Float64 → Float64 → Float64
  pub absolute : Float64 → Float64
  pub rounded : Float64 → Float64
  pub constant : ℕ → ℕ → Float64
  -- strconv.ParseFloat(s, 64), and strconv.FormatFloat(x, 'f', 2, 64).
  pub parse_float : Text → Option Float64
  pub format_float : Float64 → Text
  -- hex(sha256(json.Marshal(…)))
  pub command_hash : CanonicalCommand → Text
  pub claim_hash : CanonicalClaim → Text
  pub assignment_hash : CanonicalAssignment → Text
  pub recovery_hash : Text → Text → Text
  -- json.Marshal and json.Unmarshal
  pub payload_json : EventPayload → Text
  pub batch_result_json : BatchMutationResult → Text
  pub read_batch_result : Text → Option BatchMutationResult
  pub assignment_result_json : AssignmentMutationResult → Text
  pub read_assignment_result : Text → Option AssignmentMutationResult
  pub claim_result_json : ClaimResult → Text
  pub read_claim_result : Text → Option ClaimResult
  -- The value that MySQL gives a DECIMAL(_,2) column from the text of a weight, in hundredths.
  pub decimal_cents : Text → ℕ
