-- ===== src/Batch/Prepare.antt =====
-- What each donor command checks before its transaction.
-- Source: src/backend/internal/service/batch.go.
use team5_ewaste_platform.Common.{
  false, [], ◌∷◌, not, Text, codes, is_positive, stale_version, validation, Result, ◌>>◌, refuse_if,
}
use team5_ewaste_platform.Dto.{
  BatchDraftRequest, BatchCommandMetadata, draft_payload, submit_payload,
}
use team5_ewaste_platform.Platform.{Platform}
use team5_ewaste_platform.Command.{Call, require_donor, prepare_metadata}
use team5_ewaste_platform.Batch.Validate.{validate_draft, draft_changes, has_no_changes}

abbrev pub create_batch_command : Text
create_batch_command = codes "CreateBatchDraft"

abbrev pub edit_batch_command : Text
edit_batch_command = codes "EditBatchDraft"

abbrev pub submit_batch_command : Text
submit_batch_command = codes "SubmitBatch"

module _ (p : Platform) where
  unfoldable pub prepare_create :
      Call → BatchDraftRequest → BatchCommandMetadata → Result BatchCommandMetadata
  unfolding require_donor validate_draft prepare_metadata
  prepare_create call request m = do
    require_donor m
    validate_draft p request false call.validated_at
    prepare_metadata p m create_batch_command [] (draft_payload request)

  unfoldable pub prepare_edit :
      Call → Text → BatchDraftRequest → BatchCommandMetadata → Result BatchCommandMetadata
  unfolding require_donor validate_draft prepare_metadata draft_changes has_no_changes
  prepare_edit call batch_id request m = do
    require_donor m
    refuse_if (not (is_positive m.expected_version)) stale_version
    validate_draft p request false call.validated_at
    refuse_if (has_no_changes (draft_changes p request))
        (validation (("request", "at least one editable field is required") ∷ []))
    prepare_metadata p m edit_batch_command batch_id (draft_payload request)

  unfoldable pub prepare_submit : Text → BatchCommandMetadata → Result BatchCommandMetadata
  unfolding require_donor prepare_metadata
  prepare_submit batch_id m = do
    require_donor m
    refuse_if (not (is_positive m.expected_version)) stale_version
    prepare_metadata p m submit_batch_command batch_id (submit_payload batch_id)
