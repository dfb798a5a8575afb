-- ===== src/Store/Rows.antt =====
-- The rows of the store, one record for each struct of src/backend/internal/model that a modelled
-- operation reads or writes; the column details_json, which no
-- modelled operation reads, is left out. A time is in nanoseconds since a fixed origin. Weights are the texts that
-- the source reads from DECIMAL columns.
use team5_ewaste_platform.Common.{ℕ, Bool, Option, Text, ℤ, ◌==◌}

abbrev pub Time : Type 0
Time = ℕ

-- model/batch.go
pub data BatchStatus : Type 0 where
  draft submitted matched approved assigned collected verified recycled completed : BatchStatus
  failed_collection : BatchStatus

-- `==` on statuses, by their place in the list above.
abbrev pub status_code : BatchStatus → ℕ
status_code draft = 0
status_code submitted = 1
status_code matched = 2
status_code approved = 3
status_code assigned = 4
status_code collected = 5
status_code verified = 6
status_code recycled = 7
status_code completed = 8
status_code failed_collection = 9

abbrev pub status_eq : BatchStatus → BatchStatus → Bool
status_eq a b = status_code a == status_code b

pub record Batch : Type 0 where
  pub id : Text
  pub organization_id : Text
  pub created_by : Text
  pub status : BatchStatus
  pub category : Option Text
  pub quantity : Option ℤ
  pub estimated_weight_kg : Option Text
  pub condition_rating : Option Text
  pub is_data_bearing : Bool
  pub zone : Option Text
  pub collection_deadline : Option Time
  pub notes : Option Text
  pub claim_epoch : ℕ
  pub current_claim_id : Option Text
  pub current_assignment_id : Option Text
  pub version : ℕ
  pub submitted_at : Option Time
  pub created_at : Time
  pub updated_at : Time

-- model/command_idempotency.go
pub data CommandState : Type 0 where
  in_progress completed : CommandState

pub record Command : Type 0 where
  pub id : Text
  pub actor_user_id : Option Text
  pub service_principal : Option Text
  pub actor_scope : Text
  pub command_name : Text
  pub idempotency_key : Text
  pub request_hash : Text
  pub batch_id : Text
  pub assignment_id : Option Text
  pub state : CommandState
  pub response_status : Option ℕ
  pub response_json : Text
  pub created_at : Time
  pub completed_at : Option Time
  pub retain_until : Time

-- model/batch_audit_event.go
pub data AuditType : Type 0 where
  draft_saved request_submitted claim_confirmed collector_assigned : AuditType
  assignment_accepted assignment_rejected collection_completed : AuditType
  collection_failed collection_recovery_approved treatment_recorded : AuditType
  evidence_uploaded evidence_downloaded analytics_completed : AuditType

pub record AuditEvent : Type 0 where
  pub id : Text
  pub batch_id : Text
  pub command_id : Text
  pub claim_id : Option Text
  pub assignment_id : Option Text
  pub actor_user_id : Option Text
  pub actor_organization_id : Option Text
  pub service_principal : Option Text
  pub event_type : AuditType
  pub from_status : BatchStatus
  pub to_status : BatchStatus
  pub batch_version : ℕ
  pub sequence_in_command : ℕ
  pub occurred_at : Time
  pub correlation_id : Text

-- model/event_outbox.go
pub data EventType : Type 0 where
  request_submitted claim_confirmed collector_assigned collection_completed : EventType
  collection_failed receipt_verified recycling_completed request_completed : EventType

pub data PublishState : Type 0 where
  pending published quarantined : PublishState

pub record OutboxEvent : Type 0 where
  pub event_id : Text
  pub batch_id : Text
  pub command_id : Text
  pub event_type : EventType
  pub topic : Text
  pub schema_version : ℕ
  pub aggregate_version : ℕ
  pub sequence_in_command : ℕ
  pub partition_key : Text
  pub payload_json : Text
  pub correlation_id : Text
  pub occurred_at : Time
  pub created_at : Time
  pub publish_state : PublishState
  pub attempt_count : ℕ
  pub next_attempt_at : Option Time
  pub published_at : Option Time
  pub last_error_code : Option Text
