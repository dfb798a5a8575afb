-- ===== src/Batch/View.antt =====
-- What the donor's commands build: the new row, the view of a batch, the submission's event.
-- Source: src/backend/internal/service/batch.go and batch_mapper.go, src/backend/internal/model/batch.go.
use mathlib.Core.Option
use team5_ewaste_platform.Common.{
  Bool, false, ◌&&◌, Option, none, some, is_none, [], Text, codes, text_eq, ℤ, if◌then◌else◌, store,
  stale_version, batch_concurrency, Result, ok, err, ◌>>=◌,
}
use team5_ewaste_platform.Decimal.{print_int}
use team5_ewaste_platform.Store.{
  Time, Batch, BatchStatus, status_eq, OutboxEvent, EventType, PublishState,
}
use team5_ewaste_platform.Store.Statements.{apply_changes}
use team5_ewaste_platform.Dto.{
  BatchDraftRequest, BatchView, BatchMutationResult, BatchCommandMetadata, EventPayload,
}
use team5_ewaste_platform.Platform.{Platform}
use team5_ewaste_platform.Command.{Call, invalid}
use team5_ewaste_platform.Batch.Validate.{draft_changes, normalize_stored_weight}

abbrev pub request_submitted_topic : Text
request_submitted_topic = codes "ewaste.batch.events"

-- mapRepositoryBatchError, on the result of a statement.
unfoldable pub map_batch_error {ℓ} : {A : Type ℓ} → Result A → Result A
map_batch_error (err (store batch_concurrency)) = err stale_version
map_batch_error r = r

-- CanEdit and CanSubmit of model/batch.go
unfoldable pub can_edit : Batch → Bool
can_edit b = status_eq b.status BatchStatus.draft

unfoldable pub can_submit : Batch → Bool
can_submit b = status_eq b.status BatchStatus.draft

unfoldable pub is_owner : BatchCommandMetadata → Batch → Bool
is_owner m b =
    text_eq b.organization_id m.actor.organisation_id && text_eq b.created_by m.actor.user_id

module _ (p : Platform) where
  unfoldable pub batch_to_dto : Batch → BatchView
  batch_to_dto b = record {
    batch_id = b.id;
    status = b.status;
    version = b.version;
    claim_epoch = if is_none b.current_claim_id then [] else print_int b.claim_epoch;
    category = b.category;
    quantity = b.quantity;
    estimated_weight_kg = Option.bind b.estimated_weight_kg p.parse_float;
    condition_rating = b.condition_rating;
    is_data_bearing = b.is_data_bearing;
    zone = b.zone;
    collection_deadline = b.collection_deadline;
    notes = b.notes;
    created_at = b.created_at;
    updated_at = b.updated_at;
  }

  -- The batch that a create call inserts.
  unfoldable pub new_draft : Call → BatchDraftRequest → BatchCommandMetadata → Batch
  unfolding draft_changes
  new_draft call request m = apply_changes (draft_changes p request) (record {
    id = call.batch_id;
    organization_id = m.actor.organisation_id;
    created_by = m.actor.user_id;
    status = BatchStatus.draft;
    category = none;
    quantity = none;
    estimated_weight_kg = none;
    condition_rating = none;
    is_data_bearing = false;
    zone = none;
    collection_deadline = none;
    notes = none;
    claim_epoch = 1;
    current_claim_id = none;
    current_assignment_id = none;
    version = 1;
    submitted_at = none;
    created_at = call.now;
    updated_at = call.now;
  })

  unfoldable pub draft_result : BatchCommandMetadata → Batch → BatchMutationResult
  draft_result m b = record {
    batch = batch_to_dto b;
    correlation_id = m.correlation_id;
    event_id = [];
    event_state = [];
  }

  -- The payload of RequestSubmitted, once no required field is missing.
  unfoldable pub submitted_payload :
      Text → Text → Batch → Text → Time → Text → ℤ → Text → Text → Text → Time → Result Text
  unfolding normalize_stored_weight
  submitted_payload event_id command_id b correlation_id at category quantity kg condition zone
        deadline =
      do
        weight ← normalize_stored_weight p kg
        ok (
            p.payload_json (
              EventPayload.request_submitted
                (record {
                  event_id = event_id;
                  command_id = command_id;
                  batch_id = b.id;
                  batch_version = b.version;
                  claim_epoch = print_int b.claim_epoch;
                  occurred_at = at;
                  correlation_id = correlation_id;
                })
                (record {
                  organization_id = b.organization_id;
                  submitted_at = at;
                  category = category;
                  quantity = quantity;
                  estimated_weight_kg = weight;
                  condition_rating = condition;
                  is_data_bearing = b.is_data_bearing;
                  zone = zone;
                  collection_deadline = deadline;
                })))

  unfoldable pub payload_of :
      Text
      → Text
      → Batch
      → Text
      → Option Time
      → Option Text
      → Option ℤ
      → Option Text
      → Option Text
      → Option Text
      → Option Time
      → Result Text
  unfolding submitted_payload
  payload_of event_id command_id b correlation_id (some at) (some c) (some q) (some w) (some r)
        (some z) (some d) =
      submitted_payload event_id command_id b correlation_id at c q w r z d
  payload_of event_id command_id b correlation_id _ _ _ _ _ _ _ = err invalid

  unfoldable pub build_request_submitted_payload : Text → Text → Batch → Text → Result Text
  unfolding payload_of
  build_request_submitted_payload event_id command_id b correlation_id =
      payload_of event_id command_id b correlation_id b.submitted_at b.category b.quantity
        b.estimated_weight_kg b.condition_rating b.zone b.collection_deadline

  unfoldable pub submit_result : Call → BatchCommandMetadata → Batch → BatchMutationResult
  unfolding batch_to_dto
  submit_result call m b = record {
    batch = batch_to_dto b;
    correlation_id = m.correlation_id;
    event_id = call.event_id;
    event_state = codes "PENDING";
  }

-- The outbox row that a submission writes, and newOutbox of assignment.go in general.
unfoldable pub new_outbox :
    Text → Text → Batch → EventType → Text → Text → Text → Time → OutboxEvent
new_outbox event_id command_id b event_type topic payload correlation_id now = record {
  event_id = event_id;
  batch_id = b.id;
  command_id = command_id;
  event_type = event_type;
  topic = topic;
  schema_version = 1;
  aggregate_version = b.version;
  sequence_in_command = 1;
  partition_key = b.id;
  payload_json = payload;
  correlation_id = correlation_id;
  occurred_at = now;
  created_at = now;
  publish_state = PublishState.pending;
  attempt_count = 0;
  next_attempt_at = some now;
  published_at = none;
  last_error_code = none;
}
