-- ===== src/Replay.antt =====
-- The replay of a completed command, which every service has in the same form.
-- Source: `loadReplay` of src/backend/internal/service/{batch,claim,assignment}.go.
pub mod Idempotence
use team5_ewaste_platform.Common.{Option, none, some, Text, text_eq, not, Error}
use team5_ewaste_platform.Store.{Command, Tx, pure, fail, fail_if, ◌>>=◌, ◌>>◌}
use team5_ewaste_platform.Store.Statements.{find_command, is_in_progress}
use team5_ewaste_platform.Dto.{BatchCommandMetadata}

-- The errors of a service, and its reading of stored responses.
pub record ReplayRules (R : Type 0) : Type 0 where
  pub conflict : Error
  pub busy : Error
  pub undecodable : Error
  pub read : Text → Option R

module _ {R : Type 0} (rules : ReplayRules R) where
  -- What a command that was found answers to a request of the given hash.
  unfoldable pub replay_of : Text → Command → Tx (Option R)
  replay_of request_hash command = do
    fail_if (not (text_eq command.request_hash request_hash)) rules.conflict
    fail_if (is_in_progress command) rules.busy
    elim (rules.read command.response_json) [
      | none ↦ fail rules.undecodable
      | some result ↦ pure (some result)
    ]

  unfoldable pub replay_found : Text → Option Command → Tx (Option R)
  unfolding replay_of
  replay_found request_hash none = pure none
  replay_found request_hash (some command) = replay_of request_hash command

  unfoldable pub load_replay : BatchCommandMetadata → Tx (Option R)
  unfolding find_command replay_found
  load_replay m = do
    found ← find_command m.actor_scope m.command_name m.idempotency_key
    replay_found m.request_hash found

  -- `if replay != nil { return *replay }`, and the rest of the transaction otherwise.
  unfoldable pub answer_or : Tx R → Option R → Tx R
  answer_or rest (some result) = pure result
  answer_or rest none = rest

  unfoldable pub or_replay : BatchCommandMetadata → Tx R → Tx R
  unfolding load_replay answer_or
  or_replay m rest = do replay ← load_replay m; answer_or rest replay
