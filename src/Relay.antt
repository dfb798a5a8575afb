-- ===== src/Relay.antt =====
-- One pass of the outbox relay: it claims due events and publishes each.
-- Source: src/backend/internal/outbox/relay.go.
mod Tests
pub mod Safety
pub mod Progress
use team5_ewaste_platform.Common.{
  ℕ, zero, suc, ◌+◌, ◌*◌, Bool, false, List, [], ◌∷◌, Text, codes, ℤ, pos, negsuc, Result, ok, err,
}
use team5_ewaste_platform.Store.{Time, OutboxEvent}
use team5_ewaste_platform.Outbox.{
  MarkFault, claim_pending, mark_published, mark_retry, mark_quarantined,
}

-- The fields of RelayConfig that a pass reads.
pub record RelayConfig : Type 0 where
  pub batch_size : ℕ
  pub lease_duration : Time
  pub retry_backoff : Time

-- `if x <= 0 { x = default }`
abbrev pub or_default : ℤ → ℕ → ℕ
or_default (pos zero) default = default
or_default (pos (suc n)) default = suc n
or_default (negsuc n) default = default

abbrev second : Time
second = 1_000_000_000

-- NewRelay's defaults.
unfoldable pub new_config : ℤ → ℤ → ℤ → RelayConfig
new_config batch_size lease_duration retry_backoff = record {
  batch_size = or_default batch_size 50;
  lease_duration = or_default lease_duration (30 * second);
  retry_backoff = or_default retry_backoff (5 * second);
}

-- What the publisher and the context make of one event: the context ends before or during the
-- publication, the publisher accepts it, or refuses it for good, or fails for now.
pub data Delivery : Type 0 where
  cancelled delivered rejected failed : Delivery

abbrev invalid_code : Text
invalid_code = codes "OUTBOX_EVENT_INVALID"

abbrev kafka_code : Text
kafka_code = codes "KAFKA_PUBLISH_FAILED"

-- `if ctx.Err() != nil { return }`, and the rest of the loop otherwise.
abbrev pub unless_cancelled : Delivery → List OutboxEvent → List OutboxEvent → List OutboxEvent
unless_cancelled Delivery.cancelled rows rest = rows
unless_cancelled Delivery.delivered rows rest = rest
unless_cancelled Delivery.rejected rows rest = rest
unless_cancelled Delivery.failed rows rest = rest

module _ (config : RelayConfig) (deliver : OutboxEvent → Delivery) (clock : OutboxEvent → Time)
    (fault : OutboxEvent → MarkFault) where
  -- The rows once one event has been handled; `clock` is what r.now() reads then, and `fault` how the
  -- event's mark ends. An error of the mark is logged, and the loop goes on.
  unfoldable pub handle : Delivery → OutboxEvent → List OutboxEvent → List OutboxEvent
  unfolding mark_published mark_retry mark_quarantined
  handle Delivery.cancelled e rows = rows
  handle Delivery.delivered e rows = (mark_published (fault e) e.event_id (clock e) rows).1
  handle Delivery.rejected e rows = (mark_quarantined (fault e) e.event_id invalid_code rows).1
  handle Delivery.failed e rows =
      (mark_retry (fault e) e.event_id (clock e + config.retry_backoff) kafka_code rows).1

  unfoldable pub process_events : List OutboxEvent → List OutboxEvent → List OutboxEvent
  unfolding handle
  process_events [] rows = rows
  process_events (e ∷ events) rows =
      unless_cancelled (deliver e) rows (process_events events (handle (deliver e) e rows))

  unfoldable pub process_claimed :
      Result (List OutboxEvent × List OutboxEvent) → List OutboxEvent → List OutboxEvent
  unfolding process_events
  process_claimed (err e) rows = rows
  process_claimed (ok (events, claimed)) rows = process_events events claimed

  unfoldable pub process_once : (OutboxEvent → Bool) → Time → List OutboxEvent → List OutboxEvent
  unfolding claim_pending process_claimed
  process_once locked now rows =
      process_claimed (claim_pending locked now config.batch_size config.lease_duration rows) rows
