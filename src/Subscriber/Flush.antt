-- ===== src/Subscriber/Flush.antt =====
-- faststream_outbox/subscriber/usecase.py: the write of one settled row, and the metrics that go with
-- it. Logging is left out, and the metrics recorder is taken not to change the state that is modelled.
use faststream_outbox.Base.{
  ℕ, Bool, true, false, not, ◌&&◌, ◌||◌, Option, none, some, String, ℤ, Result, ok, raise,
  is_exception, nat_eq, is_some, if◌then◌else◌,
}
use faststream_outbox.Message.Types.{HandlerError, DlqFailureReason, OutboxInnerMessage}
use faststream_outbox.Message.{terminal_failure_reason, pending_delay_seconds}
use faststream_outbox.Table.{DlqPayload}
use faststream_outbox.Client.{Reschedule}
use faststream_outbox.Subscriber.Truncate.{truncate_str}
use faststream_outbox.Subscriber.Types.{
  LeaseClient, Config, Phase, Event, Emission, World, emit, answered,
}

abbrev pub exception_type : Option HandlerError → Option String
exception_type none = none
exception_type (some e) = some e.type_name

-- A row's emission, with the tags that most events share.
abbrev pub tagged : Event → Option ℕ → Option String → OutboxInnerMessage → Emission
tagged event duration exception row = record {
  event = event;
  row_id = row.id;
  queue = row.queue;
  deliveries_count = row.deliveries_count;
  duration_seconds = duration;
  exception_type = exception;
}

module _ (cfg : Config) where
  -- `_render_last_exception`; without a renderer, `repr`.
  unfoldable pub render_last_exception : Option HandlerError → Option String
  render_last_exception none = none
  render_last_exception (some e) = elim cfg.last_exception_renderer [
    | none ↦ some (truncate_str e.rendered)
    | some renderer ↦ elim (renderer e) [
      | none ↦ none
      | some rendered ↦ some (truncate_str rendered)
    ]
  ]

  unfoldable pub terminal_has_dlq : OutboxInnerMessage → Bool
  terminal_has_dlq row = is_some (terminal_failure_reason row) && cfg.dlq_table

  payload_for : Option DlqFailureReason → Option HandlerError → Option DlqPayload
  payload_for none e = none
  payload_for (some reason) e =
      if cfg.dlq_table
      then some (record { failure_reason = reason; last_exception = render_last_exception e })
      else none

  -- The DLQ payload that `_flush_terminal` builds.
  unfoldable pub dlq_payload : OutboxInnerMessage → Option DlqPayload
  unfolding payload_for
  dlq_payload row = payload_for (terminal_failure_reason row) row.last_exception

  module _ {ℓ} {S : Type ℓ} (client : LeaseClient S) (has_writer running : Bool) where
    unfoldable pub emit_lease_lost : Phase → OutboxInnerMessage → World S → World S
    emit_lease_lost phase row w =
        emit (tagged (Event.lease_lost phase) row.handler_duration_seconds none row) w

    unfoldable pub emit_dispatch_abandoned : OutboxInnerMessage → World S → World S
    emit_dispatch_abandoned row w = elim row.handler_duration_seconds [
      | none ↦ w
      | some d ↦ emit (tagged Event.dispatch_abandoned (some d) none row) w
    ]

    -- The end of `_flush_terminal`, by the client's answer.
    unfoldable pub terminal_written :
        OutboxInnerMessage → Option DlqPayload → S × Result Bool → World S → World S × Result Bool
    terminal_written row payload (s, raise e) w = (answered s w, raise e)
    terminal_written row payload (s, ok false) w =
        (emit_lease_lost Phase.terminal row (answered s w), ok false)
    terminal_written row none (s, ok true) w = (answered s w, ok true)
    terminal_written row (some p) (s, ok true) w = (
      emit
          (tagged (Event.dlq_written p.failure_reason) none (exception_type row.last_exception) row)
          (answered s w),
      ok true,
    )

    -- `_flush_terminal`, by the row's token.
    unfoldable pub held_terminal : Option ℕ → OutboxInnerMessage → World S → World S × Result Bool
    unfolding terminal_written
    held_terminal none row w = (w, ok false)
    held_terminal (some token) row w =
        terminal_written row (dlq_payload row)
          (client.delete_with_lease row.id token (dlq_payload row) w.client) w

    unfoldable pub flush_terminal : OutboxInnerMessage → World S → World S × Result Bool
    unfolding held_terminal
    flush_terminal row w = held_terminal row.acquired_token row w

    unfoldable pub retry_written :
        OutboxInnerMessage → S × Result Bool → World S → World S × Result Bool
    retry_written row (s, raise e) w = (answered s w, raise e)
    retry_written row (s, ok false) w = (emit_lease_lost Phase.retry row (answered s w), ok false)
    retry_written row (s, ok true) w = (answered s w, ok true)

    abbrev pub retry_schedule : OutboxInnerMessage → ℤ → Reschedule
    retry_schedule row delay = record {
      delay_seconds = delay;
      attempts_count = row.attempts_count;
      first_attempt_at = row.first_attempt_at;
      last_attempt_at = row.last_attempt_at;
    }

    -- `_flush_retry`, by the row's token and delay.
    unfoldable pub held_retry :
        Option ℕ → Option ℤ → OutboxInnerMessage → World S → World S × Result Bool
    unfolding retry_written
    held_retry none delay row w = (w, ok false)
    held_retry (some token) none row w = (w, ok false)
    held_retry (some token) (some delay) row w =
        retry_written row
          (client.mark_pending_with_lease row.id token (retry_schedule row delay) w.client) w

    unfoldable pub flush_retry : OutboxInnerMessage → World S → World S × Result Bool
    unfolding held_retry
    flush_retry row w = held_retry row.acquired_token (pending_delay_seconds row) row w

    -- The handler of `_safe_flush`.
    unfoldable pub flush_outcome :
        OutboxInnerMessage → World S × Result Bool → World S × Result Bool
    flush_outcome row (w, ok landed) = (w, ok landed)
    flush_outcome row (w, raise e) = (
      emit_dispatch_abandoned row w,
      if has_writer || not (is_exception e) then raise e else ok false,
    )

    unfoldable pub safe_flush : Bool → OutboxInnerMessage → World S → World S × Result Bool
    unfolding flush_outcome
    safe_flush terminal row w =
        flush_outcome row (if terminal then flush_terminal row w else flush_retry row w)

    -- The metric that waits for a write, emitted if it landed.
    unfoldable pub emit_landed : Emission → World S × Result Bool → World S × Result Bool
    emit_landed e (w, raise x) = (w, raise x)
    emit_landed e (w, ok true) = (emit e w, ok false)
    emit_landed e (w, ok false) = (w, ok false)
