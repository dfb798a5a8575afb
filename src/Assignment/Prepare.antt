-- ===== src/Assignment/Prepare.antt =====
-- The checks of a collector's command before its transaction.
-- Source: src/backend/internal/service/assignment.go.
use team5_ewaste_platform.Common.{
  ℕ, ◌+◌, Bool, true, ◌||◌, ◌&&◌, not, [], ◌∷◌, map, Text, codes, text_eq, trim_space, equal_fold,
  is_empty, length, ltb, leb, if◌then◌else◌, is_within, ℤ, AssignmentError, assignment, Result, ok,
  err, refuse_if, require, ◌>>=◌, ◌>>◌, ◌==◌,
}
use team5_ewaste_platform.Decimal.{all_digits, is_digit, parse_uint}
use team5_ewaste_platform.Store.{Time}
use team5_ewaste_platform.Dto.{
  BatchCommandMetadata, AssignmentPayload, HandoffRequest, FailedPickupRequest,
  RejectAssignmentRequest, AssignmentSelectionRequest,
}
use team5_ewaste_platform.Platform.{Platform}
use team5_ewaste_platform.Command.{canonical_actor_scope, validate_metadata}
use team5_ewaste_platform.Claim.Prepare.{is_key, positive_or, same_int, longer_than}

unfoldable pub require_collector : BatchCommandMetadata → Result (Unit {0})
require_collector m = do
  refuse_if
      (is_empty m.actor.user_id
        || is_empty m.actor.organisation_id
        || not (equal_fold (trim_space m.actor.role_code) (codes "COLLECTOR")))
      (assignment AssignmentError.forbidden)
  refuse_if (is_empty m.correlation_id) (assignment AssignmentError.invalid)

unfoldable pub prepare_assignment_metadata :
    Platform → BatchCommandMetadata → Text → Text → AssignmentPayload → Result BatchCommandMetadata
unfolding is_key canonical_actor_scope validate_metadata
prepare_assignment_metadata p m command_name resource_id payload = do
  let scope = canonical_actor_scope m.actor
  require (is_key m.idempotency_key) (assignment AssignmentError.invalid)
  let prepared : BatchCommandMetadata = record m {
    actor_scope = scope;
    command_name = command_name;
    request_hash = p.assignment_hash (record {
      actor_scope = scope;
      command_name = command_name;
      resource_id = resource_id;
      expected_version = m.expected_version;
      payload = payload;
    });
  }
  validate_metadata prepared
  ok prepared

unfoldable pub parse_positive_uint : Text → Result ℕ
unfolding all_digits parse_uint
parse_positive_uint value = do
  refuse_if (is_empty value) (assignment AssignmentError.invalid)
  refuse_if (not (all_digits value)) (assignment AssignmentError.invalid)
  positive_or ok (err (assignment AssignmentError.invalid)) (parse_uint value)

-- A time is zero when it is Go's zero time, the origin from which the model counts.
unfoldable pub is_hex : Text → Bool
unfolding is_digit
is_hex [] = true
is_hex (c ∷ s) = (is_digit c || leb b'a' c && leb c b'f' || leb b'A' c && leb c b'F') && is_hex s

-- strings.ToLower on a text of hexadecimal digits.
lower_digit : ℕ → ℕ
lower_digit c = if leb b'A' c && leb c b'Z' then c + 32 else c

unfoldable pub lower_hex : Text → Text
unfolding lower_digit
lower_hex = map lower_digit

-- `len(hash) != 64` counts bytes; a hash with a character above ASCII is refused by both tests.
unfoldable pub validate_handoff : HandoffRequest → Time → Result (Unit {0})
unfolding is_hex
validate_handoff r now = do
  refuse_if
      (r.pickup_occurred_at == 0
        || ltb now r.pickup_occurred_at
        || is_empty (trim_space r.donor_representative_name)
        || ltb 100 (length r.donor_representative_name)
        || not (is_within 1 100000 r.actual_item_count)
        || not (length r.verification_hash == 64))
      (assignment AssignmentError.invalid)
  require (is_hex r.verification_hash) (assignment AssignmentError.invalid)
  refuse_if (longer_than 500 r.notes) (assignment AssignmentError.invalid)

abbrev is_failure_reason : Text → Bool
is_failure_reason s =
    text_eq s (codes "DONOR_UNAVAILABLE")
    || text_eq s (codes "INCORRECT_ITEMS")
    || text_eq s (codes "ACCESS_DENIED")
    || text_eq s (codes "DAMAGED_HAZARDOUS")
    || text_eq s (codes "SAFETY_CANCEL")

unfoldable pub validate_failure : FailedPickupRequest → Result (Unit {0})
validate_failure r = do
  refuse_if (is_empty (trim_space r.failure_reason) || ltb 100 (length r.failure_reason))
      (assignment AssignmentError.invalid)
  require (is_failure_reason r.failure_reason) (assignment AssignmentError.invalid)
  refuse_if (longer_than 500 r.observed_details) (assignment AssignmentError.invalid)

unfoldable pub validate_rejection : RejectAssignmentRequest → Result (Unit {0})
validate_rejection r =
    refuse_if (is_empty (trim_space r.rejection_reason) || ltb 100 (length r.rejection_reason))
      (assignment AssignmentError.invalid)

-- The commands of a collector, on a batch or on an assignment.
pub data CollectorCommand : Type 0 where
  selection : Text → AssignmentSelectionRequest → CollectorCommand
  acceptance : Text → CollectorCommand
  rejection : Text → RejectAssignmentRequest → CollectorCommand
  handoff : Text → HandoffRequest → CollectorCommand
  failure : Text → FailedPickupRequest → CollectorCommand

-- The first checks of Select: the epoch, the two versions and the scope.
unfoldable pub selection_epoch : AssignmentSelectionRequest → ℤ → Result ℕ
unfolding parse_positive_uint
selection_epoch r expected_version = do
  epoch ← parse_positive_uint r.claim_epoch
  refuse_if (not (same_int r.expected_version expected_version) || is_empty r.collector_scope_id)
      (assignment AssignmentError.invalid)
  ok epoch

-- What a command is checked into: its metadata, and for a selection the epoch.
unfoldable pub prepare_collector :
    Platform → CollectorCommand → BatchCommandMetadata → Time → Result (BatchCommandMetadata × ℕ)
unfolding require_collector prepare_assignment_metadata selection_epoch validate_rejection
    validate_handoff validate_failure
prepare_collector p (CollectorCommand.selection batch_id request) m now = do
  require_collector m
  epoch ← selection_epoch request m.expected_version
  prepared ←
      prepare_assignment_metadata p m (codes "SelectAssignment") batch_id
        (AssignmentPayload.selection request)
  ok (prepared, epoch)
prepare_collector p (CollectorCommand.acceptance assignment_id) m now = do
  require_collector m
  prepared ←
      prepare_assignment_metadata p m (codes "AcceptAssignment") assignment_id
        AssignmentPayload.acceptance
  ok (prepared, 0)
prepare_collector p (CollectorCommand.rejection assignment_id request) m now = do
  validate_rejection request
  require_collector m
  prepared ←
      prepare_assignment_metadata p m (codes "RejectAssignment") assignment_id
        (AssignmentPayload.rejection request)
  ok (prepared, 0)
prepare_collector p (CollectorCommand.handoff assignment_id request) m now = do
  validate_handoff request now
  require_collector m
  prepared ←
      prepare_assignment_metadata p m (codes "RecordHandoff") assignment_id
        (AssignmentPayload.handoff request)
  ok (prepared, 0)
prepare_collector p (CollectorCommand.failure assignment_id request) m now = do
  validate_failure request
  require_collector m
  prepared ←
      prepare_assignment_metadata p m (codes "FailPickup") assignment_id
        (AssignmentPayload.failure request)
  ok (prepared, 0)
