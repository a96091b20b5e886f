-- ===== src/Examples/Dispatching.antt =====
-- The theorems on messages and dispatches, at a concrete message, client and configuration.
use faststream_outbox.Base.{
  ◌+◌, ◌≡◌, ◌↔◌, refl, Bool, true, false, not, ◌&&◌, pos, none, some, List, [], ◌∷◌, Result, ok,
  inl, inr, raise, Error, or_else, if◌then◌else◌,
}
use faststream_outbox.Message.Types.{
  DlqFailureReason, Outcome, RetryStrategy, answers, OutboxInnerMessage,
}
use faststream_outbox.Message.{nack, pending_delay_seconds, assert_state_set, state_set}
use faststream_outbox.Message.Intent.{
  Call, run_calls, time_of, chosen, run_calls_first, nack-retry_iff,
}
use faststream_outbox.Table.{Database}
use faststream_outbox.Subscriber.Types.{LeaseClient, Config, Event, PendingFlush, World}
use faststream_outbox.Subscriber.Flush.{tagged}
use faststream_outbox.Subscriber.Dispatch.{dispatch_one, write_outcome}
use faststream_outbox.Subscriber.Buffering.{flush_buffer}
use faststream_outbox.Subscriber.Closing.{Weights, Dispatches}
use faststream_outbox.Subscriber.Closing.Pipeline.{dispatch_one-Closes}
use faststream_outbox.Subscriber.Batch.{Settles, timed_rows, flush_buffer-Settles}
use faststream_outbox.Subscriber.Effects.{outbox_client, settlement, write_outcome-settles}
use faststream_outbox.Subscriber.Worker.{Turn, worker_inner}
use faststream_outbox.Subscriber.Worker.Balance.{worker_inner-balance}
use faststream_outbox.Examples.{orders, message, failed}

abbrev after_thirty : RetryStrategy
after_thirty first last attempts exception = answers (some (pos 30))

abbrev config : Config
config = record {
  max_deliveries = some 3;
  retry_strategy = some after_thirty;
  terminal_flush_batch_size = 5;
  lease_ttl = 60;
  dlq_table = true;
  last_exception_renderer = none;
}

abbrev client : LeaseClient Database
client = outbox_client 120 true

abbrev idle_world : World Database
idle_world = record { client = orders; metrics = []; taken = 0; done = 0; requeued = 0 }

-- A handler that succeeds, and one that trips the configuration guard.
abbrev succeed : OutboxInnerMessage → Database → Database × (OutboxInnerMessage × Result (Unit {0}))
succeed m db = (db, (record m { outcome = some Outcome.ack }, ok tt))

abbrev misconfigured :
    OutboxInnerMessage → Database → Database × (OutboxInnerMessage × Result (Unit {0}))
misconfigured m db = (db, (m, raise Error.config_error))

abbrev a_turn :
    (OutboxInnerMessage → Database → Database × (OutboxInnerMessage × Result (Unit {0})))
    → Bool
    → Turn Database
a_turn consume stale = record {
  row = message;
  idle = true;
  stale = stale;
  consume = consume;
  now = 120;
  duration = 3;
  monotonic = 125;
}

-- One row whose handler ran, and one over its delivery limit.
abbrev pending : List PendingFlush
pending =
    record {
      row = record message { handler_duration_seconds = some 3 };
      emission = tagged Event.acked (some 3) none message;
    }
    ∷ record {
      row = message;
      emission = tagged (Event.nacked_terminal DlqFailureReason.max_deliveries) none none message;
    }
    ∷ []

run_calls_first_example :
    run_calls (Call.nacks 110 ∷ Call.acks 111 ∷ Call.rejects 112 ∷ []) message ≡ record message {
      attempts_count = 0 + 1;
      last_attempt_at = some (time_of (Call.nacks 110));
      first_attempt_at = some (or_else none (time_of (Call.nacks 110)));
      outcome = some (chosen (Call.nacks 110) message);
    }
unfolding faststream_outbox.Table.row_to_message
run_calls_first_example =
    run_calls_first (Call.nacks 110) (Call.acks 111 ∷ Call.rejects 112 ∷ []) message refl

nack-retry_iff_example :
    (pending_delay_seconds (nack 110 (record message { retry_strategy = some after_thirty }))
      ≡ some (pos 30))
    ↔ ((s : RetryStrategy) × (some after_thirty ≡ some s)
        × (s (some (or_else none 110)) (some 110) (0 + 1) none ≡ answers (some (pos 30))))
unfolding faststream_outbox.Table.row_to_message
nack-retry_iff_example =
    nack-retry_iff 110 (record message { retry_strategy = some after_thirty }) (pos 30) refl

abbrev timed_only : Weights
timed_only = record { untimed = 0; opening = 0 }

dispatch_one-Closes_example :
    Dispatches timed_only idle_world
      (dispatch_one config client true true misconfigured 120 3 message (some []) idle_world).1
unfolding faststream_outbox.Table.row_to_message faststream_outbox.Message.allow_delivery
dispatch_one-Closes_example =
    dispatch_one-Closes timed_only config client true true misconfigured 120 3 7 message (some [])
      idle_world (λ m s. (refl, refl)) refl refl

write_outcome-settles_example :
    (write_outcome config client true true 120 failed none idle_world).1.0.client ≡ (
      if not (state_set failed) && not true
      then orders
      else settlement config client 7
          (assert_state_set 120 failed)
          (assert_state_set 120 failed).outcome
          orders)
unfolding faststream_outbox.Table.row_to_message
write_outcome-settles_example =
    write_outcome-settles config client true true 120 7 failed idle_world refl

flush_buffer-Settles_example :
    Settles timed_only 2 1 idle_world (flush_buffer config client true true pending idle_world).0
unfolding timed_rows faststream_outbox.Table.row_to_message
flush_buffer-Settles_example =
    flush_buffer-Settles timed_only config client true true pending idle_world
      ((refl, inl refl), ((refl, inr refl), tt))

worker_inner-balance_example :
    let w =
      (worker_inner config client true true
        (raise Error.cancelled_error)
        (a_turn succeed false ∷ a_turn misconfigured false ∷ a_turn succeed true ∷ [])
        []
        idle_world).0 in
    w.done + 0 ≡ 0 + w.taken
worker_inner-balance_example =
    worker_inner-balance config client true true (raise Error.cancelled_error)
      (a_turn succeed false ∷ a_turn misconfigured false ∷ a_turn succeed true ∷ []) idle_world
