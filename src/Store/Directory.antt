-- ===== src/Store/Directory.antt =====
-- The tables that claims and assignments read and never write: people, organisations, the scopes of
-- collectors, and what the matcher wrote. Source: the structs of src/backend/internal/model, and the
-- columns that FindEligibleMatch of src/backend/internal/repository/claim.go names.
use team5_ewaste_platform.Common.{ℕ, Bool, Option, List, Text}
use team5_ewaste_platform.Store.Rows.{Time}

-- model/user.go
pub record User : Type 0 where
  pub user_id : Text
  pub organisation_id : Text
  pub role_code : Text
  pub status : Text

-- model/role.go
pub record Role : Type 0 where
  pub role_code : Text
  pub allowed_organisation_type : Text
  pub is_active : Bool

-- model/organisation.go
pub record Organisation : Type 0 where
  pub organisation_id : Text
  pub organisation_type : Text
  pub status : Text

-- model/collector_scope.go
pub record CollectorScope : Type 0 where
  pub id : Text
  pub recycler_org_id : Text
  pub collector_org_id : Text
  pub zone : Text
  pub is_active : Bool
  pub version : ℕ
  pub valid_from : Time
  pub valid_until : Option Time

-- The tables matched_results, matching_decisions, recycler_matching_profiles,
-- recycler_category_capabilities and recycler_service_zones.
pub record MatchedResult : Type 0 where
  pub id : Text
  pub decision_id : Text
  pub batch_id : Text
  pub recycler_org_id : Text
  pub capacity_pool_id : Option Text
  pub is_matched : Bool
  pub category_match : Bool
  pub capability_match : Bool
  pub capacity_available : Bool
  pub zone_match : Bool
  pub deadline_viable : Bool

pub record MatchingDecision : Type 0 where
  pub id : Text
  pub batch_id : Text
  pub outcome : Text
  pub claim_epoch : ℕ
  pub batch_version : ℕ

pub record MatchingProfile : Type 0 where
  pub recycler_org_id : Text
  pub is_active : Bool

pub record CategoryCapability : Type 0 where
  pub recycler_org_id : Text
  pub capacity_pool_id : Text
  pub category : Text
  pub is_active : Bool
  pub supports_data_bearing : Bool
  pub accepted_conditions : List Text

pub record ServiceZone : Type 0 where
  pub recycler_org_id : Text
  pub zone : Text
  pub is_active : Bool
  pub minimum_lead_minutes : ℕ

pub record Directory : Type 0 where
  pub users : List User
  pub roles : List Role
  pub organisations : List Organisation
  pub scopes : List CollectorScope
  pub matched_results : List MatchedResult
  pub decisions : List MatchingDecision
  pub profiles : List MatchingProfile
  pub capabilities : List CategoryCapability
  pub zones : List ServiceZone
