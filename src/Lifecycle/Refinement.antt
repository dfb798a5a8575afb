-- ===== src/Lifecycle/Refinement.antt =====
-- The services' commands implement the life of a batch.
-- Source: src/backend/internal/service/{batch,claim,assignment}.go.
use mathlib.Core.Path.{subst}
use team5_ewaste_platform.Common.{
  ℕ, true, if◌then◌else◌, ◌==◌, Option, ◌≡◌, refl, sym, ap, ◌∙◌, arith, Text,
}
use team5_ewaste_platform.Store.{BatchStatus, status_code, status_eq, Db}
use team5_ewaste_platform.Dto.{
  BatchMutationResult, BatchCommandMetadata, ClaimResult, AssignmentMutationResult,
}
use team5_ewaste_platform.Platform.{Platform}
use team5_ewaste_platform.Command.{Call}
use team5_ewaste_platform.Batch.{DonorCommand}
use team5_ewaste_platform.Batch.View.{new_draft}
use team5_ewaste_platform.Batch.Effects.{submitted_row}
use team5_ewaste_platform.Batch.Drafts.{edited_row}
use team5_ewaste_platform.Batch.Commands.{perform-Done, perform-err}
use team5_ewaste_platform.Batch.Commands as Donor
use team5_ewaste_platform.Claim.{ClaimCall, claim_at}
use team5_ewaste_platform.Claim.Statements.{approved_row}
use team5_ewaste_platform.Claim.Effects.{Claimed}
use team5_ewaste_platform.Assignment.Prepare.{CollectorCommand}
use team5_ewaste_platform.Assignment.Rows.{AssignmentCall, Pickup, to_status}
use team5_ewaste_platform.Assignment.Effects.{PickedUp}
use team5_ewaste_platform.Assignment.Responses.{Responded}
use team5_ewaste_platform.Assignment.Recovery.{Recovered}
use team5_ewaste_platform.Assignment.Selection.{Selected}
use team5_ewaste_platform.Assignment.Outcome.{perform_collector-keeps, recover-keeps}
use team5_ewaste_platform.Assignment.Outcome as Collector
use team5_ewaste_platform.Lifecycle.{
  Move, edit, submit, claim, assign, accept, reject, collect, lose, recover, lives, Step,
  updated-Step, created-Step,
}

-- The status of a code; codes tell statuses apart.
status_of : ℕ → BatchStatus
status_of n =
    if n == 0
    then BatchStatus.draft
    else if n == 1
    then BatchStatus.submitted
    else if n == 2
    then BatchStatus.matched
    else if n == 3
    then BatchStatus.approved
    else if n == 4
    then BatchStatus.assigned
    else if n == 5
    then BatchStatus.collected
    else if n == 6
    then BatchStatus.verified
    else if n == 7
    then BatchStatus.recycled
    else if n == 8
    then BatchStatus.completed
    else BatchStatus.failed_collection

status_of_code : (s : BatchStatus) → status_of (status_code s) ≡ s
unfolding status_of
status_of_code BatchStatus.draft = refl
status_of_code BatchStatus.submitted = refl
status_of_code BatchStatus.matched = refl
status_of_code BatchStatus.approved = refl
status_of_code BatchStatus.assigned = refl
status_of_code BatchStatus.collected = refl
status_of_code BatchStatus.verified = refl
status_of_code BatchStatus.recycled = refl
status_of_code BatchStatus.completed = refl
status_of_code BatchStatus.failed_collection = refl

status_eq_lem : (s t : BatchStatus) → status_eq s t ≡ true → s ≡ t
status_eq_lem s t h =
    let same : status_code s ≡ status_code t = ground (arith, h) in
    sym (status_of_code s) ∙ ap status_of same ∙ status_of_code t

-- The moves of the single commands.
pub Claimed-Step :
    (p : Platform) (c : ClaimCall) (m : BatchCommandMetadata) (batch_id : Text) (epoch : ℕ)
    (notes : Option Text) (db : Db) (result : ClaimResult) (db' : Db)
    → Claimed p c m batch_id epoch notes db result db'
    → Step (lives db) (lives db')
Claimed-Step p c m batch_id epoch notes db result db' d =
    updated-Step db db' batch_id d.batches d.before
      (approved_row c.claim_id (claim_at p c m) d.before) d.updated (ap (λ e. e.batches) d.final)
      (subst (λ s. Move s BatchStatus.approved)
        (sym (status_eq_lem d.before.status BatchStatus.matched (ground (arith, d.claimable))))
        claim)
      refl

Responded-Step :
    (p : Platform) (c : AssignmentCall) (m : BatchCommandMetadata) (assignment_id : Text) (db : Db)
    (result : AssignmentMutationResult) (db' : Db) (to : BatchStatus) {respond : _} {current : _}
    {type : _} {audit_type : _} {reason : _} {allowed : _}
    → Move BatchStatus.assigned to
    → Responded p c m assignment_id db result db' respond to current type audit_type reason allowed
    → Step (lives db) (lives db')
Responded-Step p c m assignment_id db result db' to edge d =
    updated-Step db db' d.own.batch_id d.batches d.before _ d.updated (ap (λ e. e.batches) d.final)
      (subst (λ s. Move s to)
        (sym (status_eq_lem d.before.status BatchStatus.assigned (ground (arith, d.was_assigned))))
        edge)
      refl

pickup_move : (pickup : Pickup) → Move BatchStatus.assigned (to_status pickup)
pickup_move (Pickup.collected r) = collect
pickup_move (Pickup.failed r) = lose

PickedUp-Step :
    (p : Platform) (c : AssignmentCall) (m : BatchCommandMetadata) (assignment_id : Text) (db : Db)
    (result : AssignmentMutationResult) (db' : Db) (pickup : Pickup)
    → PickedUp p c m assignment_id db result db' pickup
    → Step (lives db) (lives db')
PickedUp-Step p c m assignment_id db result db' pickup d =
    updated-Step db db' d.own.batch_id d.batches d.before _ d.updated (ap (λ e. e.batches) d.final)
      (subst (λ s. Move s (to_status pickup))
        (sym (status_eq_lem d.before.status BatchStatus.assigned (ground (arith, d.was_accepted))))
        (pickup_move pickup))
      refl

selected-Step :
    (p : Platform) (c : AssignmentCall) (m : BatchCommandMetadata) (batch_id : Text) (request : _)
    (epoch : ℕ) (db : Db) (result : AssignmentMutationResult) (db' : Db)
    → Selected p c m batch_id request epoch db result db'
    → Step (lives db) (lives db')
selected-Step p c m batch_id request epoch db result db' d =
    updated-Step db db' batch_id d.batches d.before _ d.updated (ap (λ e. e.batches) d.final)
      (subst (λ s. Move s BatchStatus.assigned)
        (sym (status_eq_lem d.before.status BatchStatus.approved (ground (arith, d.was_free))))
        assign)
      refl

pub Recovered-Step :
    (p : Platform) (c : AssignmentCall) (principal correlation_id assignment_id : Text)
    (m : BatchCommandMetadata) (db : Db) (result : AssignmentMutationResult) (db' : Db)
    → Recovered p c principal correlation_id assignment_id m db result db'
    → Step (lives db) (lives db')
Recovered-Step p c principal correlation_id assignment_id m db result db' d =
    updated-Step db db' d.own.batch_id d.batches d.before _ d.updated (ap (λ e. e.batches) d.final)
      (subst (λ s. Move s BatchStatus.approved)
        (sym (
          status_eq_lem d.before.status BatchStatus.failed_collection
            (ground (arith, d.was_failed))))
        recover)
      refl

pub collector-Step :
    (p : Platform) (c : AssignmentCall) (m : BatchCommandMetadata) (epoch : ℕ) (db : Db)
    (result : AssignmentMutationResult) (db' : Db) (op : CollectorCommand)
    → Collector.Done p c m epoch db result db' op
    → Step (lives db) (lives db')
unfolding Collector.Done
collector-Step p c m epoch db result db' (CollectorCommand.selection batch_id request) d =
    selected-Step p c m batch_id request epoch db result db' d
collector-Step p c m epoch db result db' (CollectorCommand.acceptance assignment_id) d =
    Responded-Step p c m assignment_id db result db' BatchStatus.assigned accept d
collector-Step p c m epoch db result db' (CollectorCommand.rejection assignment_id request) d =
    Responded-Step p c m assignment_id db result db' BatchStatus.approved reject d
collector-Step p c m epoch db result db' (CollectorCommand.handoff assignment_id request) d =
    PickedUp-Step p c m assignment_id db result db' (Pickup.collected request) d
collector-Step p c m epoch db result db' (CollectorCommand.failure assignment_id request) d =
    PickedUp-Step p c m assignment_id db result db' (Pickup.failed request) d

pub donor-Step :
    (p : Platform) (call : Call) (op : DonorCommand) (m : BatchCommandMetadata) (db : Db)
    (result : BatchMutationResult) (db' : Db)
    → Donor.Done p call op m db result db'
    → Step (lives db) (lives db')
unfolding Donor.Done new_draft edited_row submitted_row
donor-Step p call (DonorCommand.creation request) m db result db' d =
    created-Step db db' (new_draft p call request m) d.fresh (ap (λ e. e.batches) d.final) refl refl
donor-Step p call (DonorCommand.edit batch_id request) m db result db' d =
    updated-Step db db' batch_id d.batches d.before _ d.updated (ap (λ e. e.batches) d.final)
      (subst (λ s. Move s s) (sym d.checked.was_draft) edit) refl
donor-Step p call (DonorCommand.submission batch_id) m db result db' d =
    updated-Step db db' batch_id d.batches d.before _ d.updated (ap (λ e. e.batches) d.final)
      (subst (λ s. Move s BatchStatus.submitted) (sym d.checked.was_draft) submit) refl
