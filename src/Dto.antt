-- ===== src/Dto.antt =====
-- The requests, results and event payloads that the services read and write, and the metadata of a
-- command. Source: src/backend/internal/dto/batch.go, src/backend/internal/service/batch_errors.go,
-- and the payload structs of src/backend/internal/service/batch.go.
use team5_ewaste_platform.Common.{ℕ, Bool, Option, Text, ℤ}
use team5_ewaste_platform.Store.{Time, BatchStatus, EventType}
use team5_ewaste_platform.Store.Allocation.{AssignmentStatus, PickupStatus}

-- A float64 by its bit pattern; what it means is left to `Platform`.
abbrev pub Float64 : Type 0
Float64 = ℕ

-- dto.BatchDraftRequest
pub record BatchDraftRequest : Type 0 where
  pub category : Option Text
  pub quantity : Option ℤ
  pub estimated_weight_kg : Option Float64
  pub condition_rating : Option Text
  pub is_data_bearing : Option Bool
  pub zone : Option Text
  pub collection_deadline : Option Time
  pub notes : Option Text

-- The map of draftChanges: the columns that a draft request sets.
pub record DraftChanges : Type 0 where
  pub category : Option Text
  pub quantity : Option ℤ
  pub estimated_weight_kg : Option Text
  pub condition_rating : Option Text
  pub is_data_bearing : Option Bool
  pub zone : Option Text
  pub collection_deadline : Option Time
  pub notes : Option Text

-- dto.BatchView
pub record BatchView : Type 0 where
  pub batch_id : Text
  pub status : BatchStatus
  pub version : ℕ
  pub claim_epoch : Text
  pub category : Option Text
  pub quantity : Option ℤ
  pub estimated_weight_kg : Option Float64
  pub condition_rating : Option Text
  pub is_data_bearing : Bool
  pub zone : Option Text
  pub collection_deadline : Option Time
  pub notes : Option Text
  pub created_at : Time
  pub updated_at : Time

-- service.BatchMutationResult; a result with no event has an empty event id and event state.
pub record BatchMutationResult : Type 0 where
  pub batch : BatchView
  pub correlation_id : Text
  pub event_id : Text
  pub event_state : Text

pub record BatchActor : Type 0 where
  pub user_id : Text
  pub organisation_id : Text
  pub role_code : Text

pub record BatchCommandMetadata : Type 0 where
  pub actor : BatchActor
  pub correlation_id : Text
  pub actor_scope : Text
  pub command_name : Text
  pub idempotency_key : Text
  pub request_hash : Text
  pub expected_version : ℤ

-- The payloads that a request hash covers.
pub data CommandPayload : Type 0 where
  draft_payload : BatchDraftRequest → CommandPayload
  submit_payload : Text → CommandPayload

-- The struct that `prepareMetadata` hashes.
pub record CanonicalCommand : Type 0 where
  pub actor_scope : Text
  pub command_name : Text
  pub batch_id : Text
  pub expected_version : ℤ
  pub payload : CommandPayload

-- dto.ClaimRequest
pub record ClaimRequest : Type 0 where
  pub expected_version : ℤ
  pub claim_epoch : Text
  pub notes : Option Text

-- dto.ClaimResult
pub record ClaimResult : Type 0 where
  pub batch_id : Text
  pub status : BatchStatus
  pub version : ℕ
  pub claim_epoch : Text
  pub claim_id : Text
  pub reservation_id : Text
  pub event_id : Text
  pub event_state : Text
  pub correlation_id : Text

-- The struct that `prepareClaimMetadata` hashes.
pub record CanonicalClaim : Type 0 where
  pub actor_scope : Text
  pub batch_id : Text
  pub expected_version : ℤ
  pub claim_epoch : Text
  pub notes : Option Text

-- dto.AssignmentSelectionRequest, RejectAssignmentRequest, HandoffRequest, FailedPickupRequest
pub record AssignmentSelectionRequest : Type 0 where
  pub expected_version : ℤ
  pub claim_epoch : Text
  pub collector_scope_id : Text

pub record RejectAssignmentRequest : Type 0 where
  pub rejection_reason : Text

pub record HandoffRequest : Type 0 where
  pub pickup_occurred_at : Time
  pub donor_representative_name : Text
  pub actual_item_count : ℤ
  pub verification_hash : Text
  pub notes : Option Text

pub record FailedPickupRequest : Type 0 where
  pub failure_reason : Text
  pub observed_details : Option Text

-- The payloads that the hash of an assignment command covers; that of an acceptance is nil.
pub data AssignmentPayload : Type 0 where
  selection : AssignmentSelectionRequest → AssignmentPayload
  acceptance : AssignmentPayload
  rejection : RejectAssignmentRequest → AssignmentPayload
  handoff : HandoffRequest → AssignmentPayload
  failure : FailedPickupRequest → AssignmentPayload

-- The struct that `prepareAssignmentMetadata` hashes.
pub record CanonicalAssignment : Type 0 where
  pub actor_scope : Text
  pub command_name : Text
  pub resource_id : Text
  pub expected_version : ℤ
  pub payload : AssignmentPayload

-- dto.AssignmentView and dto.AssignmentMutationResult
pub record AssignmentView : Type 0 where
  pub assignment_id : Text
  pub batch_id : Text
  pub claim_id : Text
  pub collector_user_id : Text
  pub collector_scope_id : Text
  pub assignment_status : AssignmentStatus
  pub assignment_sequence : ℕ
  pub version : ℕ
  pub created_at : Time
  pub updated_at : Time

pub record AssignmentMutationResult : Type 0 where
  pub data_view : AssignmentView
  pub correlation_id : Text
  pub event_id : Text
  pub event_state : Text

-- What every event payload states; `schema_version` and `sequence_in_command` are 1 throughout.
pub record EventHeader : Type 0 where
  pub event_id : Text
  pub command_id : Text
  pub batch_id : Text
  pub batch_version : ℕ
  pub claim_epoch : Text
  pub occurred_at : Time
  pub correlation_id : Text

pub record RequestSubmittedData : Type 0 where
  pub organization_id : Text
  pub submitted_at : Time
  pub category : Text
  pub quantity : ℤ
  pub estimated_weight_kg : Text
  pub condition_rating : Text
  pub is_data_bearing : Bool
  pub zone : Text
  pub collection_deadline : Time

pub record ClaimConfirmedData : Type 0 where
  pub claim_id : Text
  pub recycler_org_id : Text
  pub actor_user_id : Text
  pub claimed_at : Time

pub record CollectorAssignedData : Type 0 where
  pub assignment_id : Text
  pub claim_id : Text
  pub collector_user_id : Text
  pub recycler_org_id : Text
  pub assignment_version : Text
  pub previous_assignment_id : Option Text
  pub collector_org_id : Text
  pub collector_scope_id : Text
  pub assignment_sequence : Text
  pub assigned_at : Time

-- The data of a collection event; the keys that only one of its two kinds has are optional.
pub record CollectionData : Type 0 where
  pub assignment_id : Text
  pub handoff_id : Text
  pub collector_user_id : Text
  pub collector_org_id : Text
  pub collector_scope_id : Text
  pub pickup_occurred_at : Time
  pub pickup_status : PickupStatus
  pub recorded_at : Time
  pub failure_reason : Option Text
  pub actual_item_count : Option ℤ
  pub verification_hash : Option Text

pub data EventPayload : Type 0 where
  collector_assigned : EventHeader → CollectorAssignedData → EventPayload
  collection : EventType → EventHeader → CollectionData → EventPayload
  claim_confirmed : EventHeader → ClaimConfirmedData → EventPayload
  request_submitted : EventHeader → RequestSubmittedData → EventPayload
