-- ===== src/Claim/Prepare.antt =====
-- The checks of a claim before its transaction. Source: requireRecycler, validateClaimRequest and
-- prepareClaimMetadata of src/backend/internal/service/claim.go.
use team5_ewaste_platform.Common.{
  ℕ, Bool, true, false, ◌||◌, ◌&&◌, not, Option, none, some, [], ◌∷◌, Text, ℤ, codes, trim_space,
  equal_fold, is_empty, length, ltb, leb, ◌==◌, if◌then◌else◌, is_positive, pos, negsuc, ClaimError,
  claim, Result, ok, err, refuse_if, require, ◌>>=◌, ◌>>◌,
}
use team5_ewaste_platform.Decimal.{all_digits, parse_uint, print_int}
use team5_ewaste_platform.Dto.{BatchCommandMetadata, ClaimRequest}
use team5_ewaste_platform.Platform.{Platform}
use team5_ewaste_platform.Command.{canonical_actor_scope, validate_metadata}

unfoldable pub require_recycler : BatchCommandMetadata → Result (Unit {0})
require_recycler m = do
  refuse_if (is_empty m.actor.user_id || is_empty m.actor.organisation_id)
      (claim ClaimError.forbidden)
  refuse_if (not (equal_fold (trim_space m.actor.role_code) (codes "RECYCLER")))
      (claim ClaimError.forbidden)
  refuse_if (is_empty m.correlation_id) (claim ClaimError.invalid)

-- `==` on int64.
abbrev pub same_int : ℤ → ℤ → Bool
same_int (pos a) (pos b) = a == b
same_int (pos a) (negsuc b) = false
same_int (negsuc a) (pos b) = false
same_int (negsuc a) (negsuc b) = a == b

-- `err != nil || epoch == 0`
abbrev pub positive_or {ℓ} : {A : Type ℓ} → (ℕ → A) → A → Option ℕ → A
positive_or use_it refused none = refused
positive_or use_it refused (some n) = if n == 0 then refused else use_it n

abbrev pub longer_than : ℕ → Option Text → Bool
longer_than limit none = false
longer_than limit (some s) = ltb limit (length s)

unfoldable pub validate_claim_request : ClaimRequest → ℤ → Result ℕ
unfolding all_digits parse_uint
validate_claim_request request expected_version = do
  refuse_if
      (not (is_positive expected_version)
        || not (same_int request.expected_version expected_version))
      (claim ClaimError.invalid)
  refuse_if (is_empty request.claim_epoch) (claim ClaimError.invalid)
  refuse_if (not (all_digits request.claim_epoch)) (claim ClaimError.invalid)
  epoch ← positive_or ok (err (claim ClaimError.invalid)) (parse_uint request.claim_epoch)
  refuse_if (longer_than 255 request.notes) (claim ClaimError.invalid)
  ok epoch

-- Printable ASCII, the space excluded.
unfoldable pub is_key_text : Text → Bool
is_key_text [] = true
is_key_text (c ∷ s) = not (ltb 0x7f c || leb c 0x20 || c == 0x7f) && is_key_text s

-- Both tests of an idempotency key. `len` counts bytes, `length` code points: they differ on a key
-- with a character above ASCII, which the second test refuses with the same error.
unfoldable pub is_key : Text → Bool
unfolding is_key_text
is_key key = not (ltb (length key) 16 || ltb 64 (length key)) && is_key_text key

abbrev pub claim_opportunity_command : Text
claim_opportunity_command = codes "ClaimOpportunity"

unfoldable pub prepare_claim_metadata :
    Platform → BatchCommandMetadata → Text → ℕ → Option Text → Result BatchCommandMetadata
unfolding is_key canonical_actor_scope validate_metadata print_int
prepare_claim_metadata p m batch_id claim_epoch notes = do
  let scope = canonical_actor_scope m.actor
  require (is_key m.idempotency_key) (claim ClaimError.invalid)
  let prepared : BatchCommandMetadata = record m {
    actor_scope = scope;
    command_name = claim_opportunity_command;
    request_hash = p.claim_hash (record {
      actor_scope = scope;
      batch_id = batch_id;
      expected_version = m.expected_version;
      claim_epoch = print_int claim_epoch;
      notes = notes;
    });
  }
  validate_metadata prepared
  ok prepared

-- What a claim is checked into: its metadata and its epoch.
unfoldable pub prepare_claim :
    Platform → Text → ClaimRequest → BatchCommandMetadata → Result (BatchCommandMetadata × ℕ)
unfolding require_recycler validate_claim_request prepare_claim_metadata
prepare_claim p batch_id request m = do
  require_recycler m
  claim_epoch ← validate_claim_request request m.expected_version
  prepared ← prepare_claim_metadata p m batch_id claim_epoch request.notes
  ok (prepared, claim_epoch)
