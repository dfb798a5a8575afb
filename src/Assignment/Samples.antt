-- ===== src/Assignment/Samples.antt =====
-- The commands of a collector on the store that a claim leaves, for the tests.
use team5_ewaste_platform.Common.{none, some, [], ◌∷◌, codes, pos, ◌++◌, Result, ok, err}
use team5_ewaste_platform.Store.{Db, BatchStatus}
use team5_ewaste_platform.Store.Allocation.{AssignmentStatus}
use team5_ewaste_platform.Dto.{
  BatchCommandMetadata, HandoffRequest, AssignmentSelectionRequest, AssignmentMutationResult,
}
use team5_ewaste_platform.Claim.Samples.{sample, matched, db, after}
use team5_ewaste_platform.Assignment.Prepare.{CollectorCommand}
use team5_ewaste_platform.Assignment.Rows.{AssignmentCall, Pickup}
use team5_ewaste_platform.Assignment.{Others}
use team5_ewaste_platform.Assignment.Transaction.{pickup_new, select_new}
use team5_ewaste_platform.Samples.{empty_db}

abbrev pub alone : Others
alone = record { before_command = λ db. db; before_resolve = λ db. db }

abbrev pub select_call : AssignmentCall
select_call = record {
  call = record {
    validated_at = 6_000_000;
    now = 6_001_234;
    stored_at = 6_002_000;
    batch_id = codes "none";
    command_id = codes "c2";
    audit_id = codes "a2";
    event_id = codes "e2";
  };
  scope_at = 6_000_500;
  assignment_id = codes "g1";
  action_id = codes "n1";
  second_action_id = codes "n2";
  handoff_id = codes "none";
}

abbrev pub handoff_call : AssignmentCall
handoff_call = record select_call {
  call = record {
    validated_at = 9_000_000;
    now = 9_001_234;
    stored_at = 9_002_000;
    batch_id = codes "none";
    command_id = codes "c3";
    audit_id = codes "a3";
    event_id = codes "e3";
  };
  action_id = codes "n3";
  handoff_id = codes "h1";
}

abbrev pub select_metadata : BatchCommandMetadata
select_metadata = record {
  actor = record {
    user_id = codes "w1";
    organisation_id = codes "l1";
    role_code = codes "COLLECTOR";
  };
  correlation_id = codes "x2";
  actor_scope = [];
  command_name = [];
  idempotency_key = codes "select-0123456789";
  request_hash = [];
  expected_version = pos 6;
}

abbrev pub handoff_metadata : BatchCommandMetadata
handoff_metadata = record select_metadata {
  correlation_id = codes "x3";
  idempotency_key = codes "handoff-0123456789";
  expected_version = pos 7;
}

abbrev pub selection : CollectorCommand
selection =
    CollectorCommand.selection (codes "b1") (record {
      expected_version = pos 6;
      claim_epoch = codes "1";
      collector_scope_id = codes "z1";
    })

abbrev pub selection_request : AssignmentSelectionRequest
selection_request = record {
  expected_version = pos 6;
  claim_epoch = codes "1";
  collector_scope_id = codes "z1";
}

abbrev pub selection_answer : AssignmentMutationResult
selection_answer = record {
  data_view = record {
    assignment_id = codes "g1";
    batch_id = codes "b1";
    claim_id = codes "k1";
    collector_user_id = codes "w1";
    collector_scope_id = codes "z1";
    assignment_status = AssignmentStatus.accepted;
    assignment_sequence = 1;
    version = 1;
    created_at = 6_001_000;
    updated_at = 6_001_000;
  };
  correlation_id = codes "x2";
  event_id = codes "e2";
  event_state = codes "PENDING";
}

abbrev pub handoff_request : HandoffRequest
handoff_request = record {
  pickup_occurred_at = 8_500_000;
  donor_representative_name = codes "Kim";
  actual_item_count = pos 4;
  verification_hash =
      codes "00112233445566778899AABBCCDDEEFF" ++ codes "00112233445566778899aabbccddeeff";
  notes = none;
}

abbrev pub handoff : CollectorCommand
handoff = CollectorCommand.handoff (codes "g1") handoff_request

abbrev pub handoff_prepared : BatchCommandMetadata
handoff_prepared = record handoff_metadata {
  actor_scope = codes "user:w1|org:l1";
  command_name = codes "RecordHandoff";
  request_hash = codes "RecordHandoff" ++ codes "g1";
}

abbrev pub assigned_db : Db
assigned_db = record empty_db {
  directory = db.directory;
  batches =
      record matched {
        status = BatchStatus.assigned;
        version = 7;
        current_claim_id = some (codes "k1");
        current_assignment_id = some (codes "g1");
      }
      ∷ [];
  assignments =
      record {
        id = codes "g1";
        batch_id = codes "b1";
        claim_id = codes "k1";
        recycler_org_id = codes "r1";
        collector_org_id = codes "l1";
        collector_user_id = codes "w1";
        collector_scope_id = codes "z1";
        assignment_sequence = 1;
        claim_epoch = 1;
        previous_assignment_id = none;
        assignment_status = AssignmentStatus.accepted;
        rejection_reason = none;
        reassignment_reason = none;
        assigned_at = 6_001_000;
        responded_at = some 6_001_000;
        closed_at = none;
        closure_reason = none;
        version = 1;
        created_at = 6_001_000;
        updated_at = 6_001_000;
      }
      ∷ [];
}

abbrev pub handoff_answer : AssignmentMutationResult
handoff_answer = record {
  data_view = record {
    assignment_id = codes "g1";
    batch_id = codes "b1";
    claim_id = codes "k1";
    collector_user_id = codes "w1";
    collector_scope_id = codes "z1";
    assignment_status = AssignmentStatus.completed;
    assignment_sequence = 1;
    version = 2;
    created_at = 6_001_000;
    updated_at = 9_001_000;
  };
  correlation_id = codes "x3";
  event_id = codes "e3";
  event_state = codes "PENDING";
}

abbrev store_of : Result (AssignmentMutationResult × Db) → Db
store_of (ok (result, db)) = db
store_of (err e) = empty_db

abbrev pub collected_db : Db
collected_db = store_of (
    pickup_new sample handoff_call handoff_prepared (codes "g1") (Pickup.collected handoff_request)
      assigned_db)

abbrev pub selected_db : Db
selected_db =
    store_of (select_new sample select_call select_metadata (codes "b1") selection_request 1 after)
