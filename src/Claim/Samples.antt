-- ===== src/Claim/Samples.antt =====
-- A small store with a matched batch, and a claim of it, for the tests.
use team5_ewaste_platform.Common.{true, false, none, some, [], ◌∷◌, codes, pos}
use team5_ewaste_platform.Store.{Batch, BatchStatus, Db}
use team5_ewaste_platform.Samples.{plain, empty_db}
use team5_ewaste_platform.Platform.{Platform}
use team5_ewaste_platform.Dto.{BatchCommandMetadata, ClaimRequest, ClaimResult}
use team5_ewaste_platform.Lease.{LeaseResult}
use team5_ewaste_platform.Claim.{ClaimCall, Surroundings, claim_batch}

abbrev pub matched : Batch
matched = record {
  id = codes "b1";
  organization_id = codes "o1";
  created_by = codes "u1";
  status = BatchStatus.matched;
  category = some (codes "BATTERIES");
  quantity = some (pos 4);
  estimated_weight_kg = some (codes "12.50");
  condition_rating = some (codes "REPAIRABLE");
  is_data_bearing = false;
  zone = some (codes "EAST");
  collection_deadline = some 260_000_000_000_000;
  notes = none;
  claim_epoch = 1;
  current_claim_id = none;
  current_assignment_id = none;
  version = 5;
  submitted_at = some 30;
  created_at = 10;
  updated_at = 20;
}

abbrev pub db : Db
db = record empty_db {
  batches = matched ∷ [];
  pools =
      record {
        id = codes "q1";
        recycler_org_id = codes "r1";
        total_kg = 2000;
        reserved_kg = 0;
        is_active = true;
        version = 1;
        updated_at = 5;
      }
      ∷ [];
  directory = record {
    users =
        record {
          user_id = codes "v1";
          organisation_id = codes "r1";
          role_code = codes "RECYCLER";
          status = codes "ACTIVE";
        }
        ∷ record {
          user_id = codes "w1";
          organisation_id = codes "l1";
          role_code = codes "COLLECTOR";
          status = codes "ACTIVE";
        }
        ∷ [];
    roles =
        record {
          role_code = codes "RECYCLER";
          allowed_organisation_type = codes "PROCESSING_FACILITY";
          is_active = true;
        }
        ∷ record {
          role_code = codes "COLLECTOR";
          allowed_organisation_type = codes "COLLECTION_OPERATOR";
          is_active = true;
        }
        ∷ [];
    organisations =
        record {
          organisation_id = codes "r1";
          organisation_type = codes "PROCESSING_FACILITY";
          status = codes "ACTIVE";
        }
        ∷ record {
          organisation_id = codes "l1";
          organisation_type = codes "COLLECTION_OPERATOR";
          status = codes "ACTIVE";
        }
        ∷ [];
    scopes =
        record {
          id = codes "z1";
          recycler_org_id = codes "r1";
          collector_org_id = codes "l1";
          zone = codes "EAST";
          is_active = true;
          version = 1;
          valid_from = 1;
          valid_until = none;
        }
        ∷ [];
    matched_results =
        record {
          id = codes "mr1";
          decision_id = codes "d1";
          batch_id = codes "b1";
          recycler_org_id = codes "r1";
          capacity_pool_id = some (codes "q1");
          is_matched = true;
          category_match = true;
          capability_match = true;
          capacity_available = true;
          zone_match = true;
          deadline_viable = true;
        }
        ∷ [];
    decisions =
        record {
          id = codes "d1";
          batch_id = codes "b1";
          outcome = codes "MATCHED";
          claim_epoch = 1;
          batch_version = 4;
        }
        ∷ [];
    profiles = record { recycler_org_id = codes "r1"; is_active = true } ∷ [];
    capabilities =
        record {
          recycler_org_id = codes "r1";
          capacity_pool_id = codes "q1";
          category = codes "BATTERIES";
          is_active = true;
          supports_data_bearing = false;
          accepted_conditions = codes "FUNCTIONAL" ∷ codes "REPAIRABLE" ∷ [];
        }
        ∷ [];
    zones =
        record {
          recycler_org_id = codes "r1";
          zone = codes "EAST";
          is_active = true;
          minimum_lead_minutes = 60;
        }
        ∷ [];
  };
}

abbrev pub call : ClaimCall
call = record {
  call = record {
    validated_at = 1000;
    now = 5_001_234;
    stored_at = 1002;
    batch_id = codes "none";
    command_id = codes "c1";
    audit_id = codes "a1";
    event_id = codes "e1";
  };
  command_at = 5_001_000;
  database_now = 5_001_100;
  claim_id = codes "k1";
  reservation_id = codes "s1";
}

abbrev pub metadata : BatchCommandMetadata
metadata = record {
  actor = record {
    user_id = codes "v1";
    organisation_id = codes "r1";
    role_code = codes "RECYCLER";
  };
  correlation_id = codes "x1";
  actor_scope = [];
  command_name = [];
  idempotency_key = codes "0123456789abcdef";
  request_hash = [];
  expected_version = pos 5;
}

abbrev pub request : ClaimRequest
request = record { expected_version = pos 5; claim_epoch = codes "1"; notes = none }

abbrev pub prepared : BatchCommandMetadata
prepared = record metadata {
  actor_scope = codes "user:v1|org:r1";
  command_name = codes "ClaimOpportunity";
  request_hash = codes "b1";
}

-- The lease is acquired, its renewal fails, and the transaction commits.
abbrev pub losing : Surroundings
losing = record {
  has_leases = true;
  acquired = LeaseResult.done;
  is_cancelled = false;
  renewal_fails = true;
  before_claim = λ db. db;
  before_resolve = λ db. db;
}

abbrev pub without_leases : Surroundings
without_leases = record losing { has_leases = false }

abbrev pub answer : ClaimResult
answer = record {
  batch_id = codes "b1";
  status = BatchStatus.approved;
  version = 6;
  claim_epoch = codes "1";
  claim_id = codes "k1";
  reservation_id = codes "s1";
  event_id = codes "e1";
  event_state = codes "PENDING";
  correlation_id = codes "x1";
}

-- The platform whose JSON reads back this answer, and whose weights are 12.50 kg.
abbrev pub sample : Platform
sample = record plain { read_claim_result = λ s. some answer; decimal_cents = λ s. 1250 }

abbrev pub after : Db
after = (claim_batch sample losing call (codes "b1") request metadata db).1
