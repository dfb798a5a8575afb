-- ===== src/Batch/Replay.antt =====
-- The donor's replays. Source: `loadReplay` of src/backend/internal/service/batch.go.
use team5_ewaste_platform.Common.{idempotency_conflict, in_progress, decode_replay}
use team5_ewaste_platform.Dto.{BatchMutationResult}
use team5_ewaste_platform.Platform.{Platform}
use team5_ewaste_platform.Replay.{ReplayRules}

abbrev pub batch_rules : Platform → ReplayRules BatchMutationResult
batch_rules p = record {
  conflict = idempotency_conflict;
  busy = in_progress;
  undecodable = decode_replay;
  read = p.read_batch_result;
}
