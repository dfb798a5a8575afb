-- ===== src/Store/Allocation.antt =====
-- The rows that claims and assignments write. Source: batch_claim.go, claim.go, matching.go,
-- assignment.go, assignment_action.go and handoff.go of src/backend/internal/model. A capacity
-- pool's two DECIMAL columns are in hundredths of a kilogram.
use team5_ewaste_platform.Common.{ℕ, Bool, Option, Text, ℤ}
use team5_ewaste_platform.Store.Rows.{Time, BatchStatus}

pub data ClaimStatus : Type 0 where
  accepted superseded rejected : ClaimStatus

pub record BatchClaim : Type 0 where
  pub id : Text
  pub batch_id : Text
  pub claim_epoch : ℕ
  pub recycler_org_id : Text
  pub claimed_by : Text
  pub claim_status : ClaimStatus
  pub idempotency_key : Text
  pub claimed_at : Time
  pub superseded_at : Option Time
  pub notes : Option Text
  pub created_at : Time

pub data ReservationStatus : Type 0 where
  reserved released : ReservationStatus

pub record CapacityReservation : Type 0 where
  pub id : Text
  pub batch_id : Text
  pub claim_id : Text
  pub capacity_pool_id : Text
  pub reserved_kg : Text
  pub status : ReservationStatus
  pub reserved_at : Time
  pub released_at : Option Time
  pub release_reason : Option Text
  pub release_command_id : Option Text
  pub version : ℕ

pub record CapacityPool : Type 0 where
  pub id : Text
  pub recycler_org_id : Text
  pub total_kg : ℕ
  pub reserved_kg : ℕ
  pub is_active : Bool
  pub version : ℕ
  pub updated_at : Time

pub data AssignmentStatus : Type 0 where
  pending accepted superseded completed failed : AssignmentStatus

pub record BatchAssignment : Type 0 where
  pub id : Text
  pub batch_id : Text
  pub claim_id : Text
  pub recycler_org_id : Text
  pub collector_org_id : Text
  pub collector_user_id : Text
  pub collector_scope_id : Text
  pub assignment_sequence : ℕ
  pub claim_epoch : ℕ
  pub previous_assignment_id : Option Text
  pub assignment_status : AssignmentStatus
  pub rejection_reason : Option Text
  pub reassignment_reason : Option Text
  pub assigned_at : Time
  pub responded_at : Option Time
  pub closed_at : Option Time
  pub closure_reason : Option Text
  pub version : ℕ
  pub created_at : Time
  pub updated_at : Time

pub data ActionType : Type 0 where
  assigned accepted rejected handoff_recorded pickup_failed reassigned : ActionType

pub record AssignmentAction : Type 0 where
  pub id : Text
  pub batch_id : Text
  pub assignment_id : Text
  pub action_type : ActionType
  pub actor_user_id : Option Text
  pub service_principal : Option Text
  pub reason : Option Text
  pub previous_assignment_id : Option Text
  pub from_status : BatchStatus
  pub to_status : BatchStatus
  pub assignment_version : ℕ
  pub command_id : Text
  pub occurred_at : Time
  pub correlation_id : Text

pub data PickupStatus : Type 0 where
  collected failed_collection : PickupStatus

pub record BatchHandoff : Type 0 where
  pub id : Text
  pub batch_id : Text
  pub assignment_id : Text
  pub collector_user_id : Text
  pub collector_org_id : Text
  pub pickup_status : PickupStatus
  pub donor_representative_name : Option Text
  pub actual_item_count : Option ℤ
  pub verification_hash : Option Text
  pub failure_reason : Option Text
  pub quantity_discrepancy_reason : Option Text
  pub notes : Option Text
  pub pickup_occurred_at : Time
  pub recorded_at : Time
  pub collected_at : Option Time
  pub command_id : Text
  pub correlation_id : Text
  pub created_at : Time
