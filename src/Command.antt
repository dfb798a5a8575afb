-- ===== src/Command.antt =====
-- Commands: who may issue them, their replay identity, and the rows that record them.
-- Source: src/backend/internal/service/batch.go and batch_errors.go, ServicePrincipal of assignment.go.
use team5_ewaste_platform.Common.{
  ℕ, ◌||◌, not, Option, none, some, [], ◌∷◌, ◌++◌, Text, codes, text_eq, trim_space, equal_fold,
  is_empty, length, ltb, if◌then◌else◌, Error, forbidden, validation, Result, ok, ◌>>◌, refuse_if,
  ◌+◌,
}
use team5_ewaste_platform.Store.{
  Time, Batch, BatchStatus, Command, CommandState, AuditEvent, AuditType,
}
use team5_ewaste_platform.Dto.{BatchActor, BatchCommandMetadata, CommandPayload}
use team5_ewaste_platform.Platform.{Platform}

-- One call's readings of the clock, the time at which GORM stamps an updated row, and the
-- identifiers that uuid.NewString gives.
pub record Call : Type 0 where
  pub validated_at : Time
  pub now : Time
  pub stored_at : Time
  pub batch_id : Text
  pub command_id : Text
  pub audit_id : Text
  pub event_id : Text

-- The errors that wrap ErrBatchForbidden and ErrBatchValidation with no field.
abbrev pub invalid : Error
invalid = validation []

-- BatchCommandMetadata.Validate
unfoldable pub validate_metadata : BatchCommandMetadata → Result (Unit {0})
validate_metadata m = do
  refuse_if (is_empty m.actor.user_id || is_empty m.actor.organisation_id) forbidden
  refuse_if (is_empty m.correlation_id) invalid
  refuse_if
      (is_empty m.actor_scope
        || is_empty m.command_name
        || is_empty m.idempotency_key
        || is_empty m.request_hash)
      invalid

unfoldable pub require_donor : BatchCommandMetadata → Result (Unit {0})
require_donor m = do
  refuse_if (is_empty m.actor.user_id || is_empty m.actor.organisation_id) forbidden
  refuse_if (is_empty m.correlation_id) invalid
  refuse_if (not (equal_fold (trim_space m.actor.role_code) (codes "DONOR"))) forbidden

unfoldable pub canonical_actor_scope : BatchActor → Text
canonical_actor_scope a =
    codes "user:" ++ (trim_space a.user_id ++ (codes "|org:" ++ trim_space a.organisation_id))

abbrev max_key_length : ℕ
max_key_length = 64

unfoldable pub prepare_metadata :
    Platform → BatchCommandMetadata → Text → Text → CommandPayload → Result BatchCommandMetadata
unfolding canonical_actor_scope validate_metadata
prepare_metadata p m command_name batch_id payload = do
  let scope = canonical_actor_scope m.actor
  refuse_if (is_empty (trim_space m.idempotency_key))
      (validation (("Idempotency-Key", "header is required") ∷ []))
  refuse_if (ltb max_key_length (length m.idempotency_key))
      (validation (("Idempotency-Key", "must not exceed 64 characters") ∷ []))
  let prepared : BatchCommandMetadata = record m {
    actor_scope = scope;
    command_name = command_name;
    request_hash = p.command_hash (record {
      actor_scope = scope;
      command_name = command_name;
      batch_id = batch_id;
      expected_version = m.expected_version;
      payload = payload;
    });
  }
  validate_metadata prepared
  ok prepared

-- strings.HasPrefix and strings.TrimPrefix, together.
unfoldable pub strip_prefix : Text → Text → Option Text
unfolding text_eq
strip_prefix [] s = some s
strip_prefix (c ∷ prefix) [] = none
strip_prefix (c ∷ prefix) (d ∷ s) =
    if text_eq (c ∷ []) (d ∷ []) then strip_prefix prefix s else none

-- BatchCommandMetadata.ServicePrincipal
unfoldable pub service_principal : BatchCommandMetadata → Text
unfolding strip_prefix
service_principal m = elim (strip_prefix (codes "service:") m.actor_scope) [
  | some principal ↦ principal
  | none ↦ []
]

abbrev pub retain_for : Time
retain_for = 86_400_000_000_000

unfoldable pub new_command : Call → BatchCommandMetadata → Text → Time → Command
unfolding service_principal
new_command call m batch_id now = record {
  id = call.command_id;
  actor_user_id = if is_empty (service_principal m) then some m.actor.user_id else none;
  service_principal = if is_empty (service_principal m) then none else some (service_principal m);
  actor_scope = m.actor_scope;
  command_name = m.command_name;
  idempotency_key = m.idempotency_key;
  request_hash = m.request_hash;
  batch_id = batch_id;
  assignment_id = none;
  state = CommandState.in_progress;
  response_status = none;
  response_json = [];
  created_at = now;
  completed_at = none;
  retain_until = now + retain_for;
}

unfoldable pub new_audit_event :
    Call
    → BatchCommandMetadata
    → Text
    → Batch
    → AuditType
    → BatchStatus
    → BatchStatus
    → Time
    → AuditEvent
unfolding service_principal
new_audit_event call m command_id batch event_type from_status to_status occurred_at = record {
  id = call.audit_id;
  batch_id = batch.id;
  command_id = command_id;
  claim_id = none;
  assignment_id = none;
  actor_user_id = if is_empty (service_principal m) then some m.actor.user_id else none;
  actor_organization_id =
      if is_empty (service_principal m) then some m.actor.organisation_id else none;
  service_principal = if is_empty (service_principal m) then none else some (service_principal m);
  event_type = event_type;
  from_status = from_status;
  to_status = to_status;
  batch_version = batch.version;
  sequence_in_command = 1;
  occurred_at = occurred_at;
  correlation_id = m.correlation_id;
}
