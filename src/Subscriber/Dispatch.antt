-- ===== src/Subscriber/Dispatch.antt =====
-- faststream_outbox/subscriber/usecase.py: `dispatch_one`, the write of its outcome, and the buffer of
-- plain deletes. `consume`, the FastStream pipeline around the handler, is a parameter.
use faststream_outbox.Base.{
  ℕ, Bool, true, false, not, ◌&&◌, Option, none, some, List, [], ◌∷◌, ◌++◌, length, Result, ok,
  raise, Error, is_exception, ltb, nat_eq, if◌then◌else◌,
}
use faststream_outbox.Message.Types.{DlqFailureReason, Outcome, OutboxInnerMessage}
use faststream_outbox.Message.{state_set, allow_delivery, assert_state_set}
use faststream_outbox.Subscriber.Types.{
  LeaseClient, Config, Event, Emission, PendingFlush, World, emit, answered,
}
use faststream_outbox.Subscriber.Flush.{
  exception_type, tagged, terminal_has_dlq, emit_dispatch_abandoned, safe_flush, emit_landed,
}

module _ {ℓ} {S : Type ℓ} (cfg : Config) (client : LeaseClient S) (has_writer running : Bool) where
  -- The buffer is none on the inline path. The result: what is buffered now, and whether `row` is.
  unfoldable pub flush_or_buffer :
      OutboxInnerMessage
      → Emission
      → Option (List PendingFlush)
      → World S
      → List PendingFlush × (World S × Result Bool)
  unfolding emit_landed
  flush_or_buffer row e none w = (
    [],
    emit_landed cfg client has_writer running e
        (safe_flush cfg client has_writer running true row w),
  )
  flush_or_buffer row e (some buffer) w =
      if ltb 1 cfg.terminal_flush_batch_size && not (terminal_has_dlq cfg row)
      then (buffer ++ record { row = row; emission = e } ∷ [], (w, ok true))
      else (
        buffer,
        emit_landed cfg client has_writer running e
            (safe_flush cfg client has_writer running true row w),
      )

  abbrev pub kept : Option (List PendingFlush) → List PendingFlush
  kept none = []
  kept (some buffer) = buffer

  -- The match of `_write_outcome` on the recorded outcome.
  unfoldable pub write_recorded :
      Option Outcome
      → OutboxInnerMessage
      → Option (List PendingFlush)
      → World S
      → List PendingFlush × (World S × Result Bool)
  unfolding emit_landed
  write_recorded (some (Outcome.terminal reason)) row buffer w =
      flush_or_buffer row
        (tagged (Event.nacked_terminal reason) row.handler_duration_seconds
          (exception_type row.last_exception) row)
        buffer w
  write_recorded (some (Outcome.retry delay)) row buffer w = (
    kept buffer,
    emit_landed cfg client has_writer running
        (tagged (Event.nacked_retried delay) row.handler_duration_seconds
          (exception_type row.last_exception) row)
        (safe_flush cfg client has_writer running false row w),
  )
  write_recorded (some Outcome.ack) row buffer w =
      flush_or_buffer row (tagged Event.acked row.handler_duration_seconds none row) buffer w
  write_recorded none row buffer w =
      flush_or_buffer row (tagged Event.acked row.handler_duration_seconds none row) buffer w

  unfoldable pub write_outcome :
      ℕ
      → OutboxInnerMessage
      → Option (List PendingFlush)
      → World S
      → List PendingFlush × (World S × Result Bool)
  unfolding write_recorded
  write_outcome now row buffer w =
      if not (state_set row) && not running
      then (kept buffer, (emit_dispatch_abandoned cfg client has_writer running row w, ok false))
      else write_recorded (assert_state_set now row).outcome (assert_state_set now row) buffer w

  -- `raise` at the end of the arm that handles a configuration error.
  unfoldable pub then_raise :
      Error
      → List PendingFlush
      → List PendingFlush × (World S × Result Bool)
      → List PendingFlush × (World S × Result Bool)
  then_raise e buffer (b, (w, raise x)) = (buffer, (w, raise x))
  then_raise e buffer (b, (w, ok done)) = (buffer, (w, raise e))

  abbrev pub timed : ℕ → OutboxInnerMessage → OutboxInnerMessage
  timed duration row = record row { handler_duration_seconds = some duration }

  -- What follows `consume`, by how it ended. A cancellation is handled by no arm.
  unfoldable pub after_consume :
      ℕ
      → ℕ
      → OutboxInnerMessage
      → Result (Unit {0})
      → Option (List PendingFlush)
      → World S
      → List PendingFlush × (World S × Result Bool)
  unfolding write_outcome then_raise
  after_consume now duration row (ok tt) buffer w = write_outcome now (timed duration row) buffer w
  after_consume now duration row (raise Error.config_error) buffer w =
      then_raise Error.config_error (kept buffer) (write_outcome now (timed duration row) none w)
  after_consume now duration row (raise e) buffer w =
      if is_exception e
      then (
        kept buffer,
        (emit_dispatch_abandoned cfg client has_writer running (timed duration row) w, ok false),
      )
      else (kept buffer, (w, raise e))

  -- `consume` changes the row and, through the handler, the tables.
  unfoldable pub dispatch_one :
      (OutboxInnerMessage → S → S × (OutboxInnerMessage × Result (Unit {0})))
      → ℕ
      → ℕ
      → OutboxInnerMessage
      → Option (List PendingFlush)
      → World S
      → List PendingFlush × (World S × Result Bool)
  unfolding after_consume
  dispatch_one consume now duration row buffer w =
      let row' = record row { retry_strategy = cfg.retry_strategy } in
      let (admitted, allowed) = allow_delivery cfg.max_deliveries row' in
      if allowed
      then (let (s, (consumed, end)) = consume admitted w.client in
          after_consume now duration consumed end buffer
            (answered s (emit (tagged (Event.dispatched (length row.payload)) none none row) w)))
      else flush_or_buffer admitted
          (tagged (Event.nacked_terminal DlqFailureReason.max_deliveries) none none admitted) buffer
          w
