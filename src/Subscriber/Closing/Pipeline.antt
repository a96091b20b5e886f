-- ===== src/Subscriber/Closing/Pipeline.antt =====
-- The closing events of a whole dispatch, from its start to its write.
use faststream_outbox.Base.{
  ℕ, ◌≡◌, refl, ap, ◌∙◌, Bool, true, false, not, ◌&&◌, Option, none, some, List, Result, ok, raise,
  Error, ltb, length, Bool-cases, inl, inr, arith,
}
use faststream_outbox.Message.Types.{Outcome, OutboxInnerMessage}
use faststream_outbox.Message.{allow_delivery, assert_state_set, state_set}
use faststream_outbox.Subscriber.Types.{
  LeaseClient, Config, Event, Emission, PendingFlush, World, emit, answered,
}
use faststream_outbox.Subscriber.Flush.{tagged, terminal_has_dlq, emit_landed}
use faststream_outbox.Subscriber.Dispatch.{
  flush_or_buffer, kept, write_recorded, write_outcome, then_raise, timed, after_consume,
  dispatch_one,
}
use faststream_outbox.Subscriber.Closing.{
  weight, closes, closed-emit, awaited, Closes, Dispatches, Weights, settled-same, admitted-same,
  Ends, abandoned-closes, safe_terminal-Closes, safe_retry-Closes, emit_landed-Closes,
}

module _ {ℓ} {S : Type ℓ} (u : Weights) (cfg : Config) (client : LeaseClient S)
    (has_writer running : Bool) where
  flush_or_buffer-Closes :
      (row : OutboxInnerMessage) (e : Emission) (buffer : Option (List PendingFlush)) (w : World S)
      {t d : ℕ}
      → row.acquired_token ≡ some t
      → row.handler_duration_seconds ≡ some d
      → closes u e ≡ 1
      → Closes u w (flush_or_buffer cfg client has_writer running row e buffer w).1
  unfolding flush_or_buffer
  flush_or_buffer-Closes row e none w held spent k =
      emit_landed-Closes u cfg client has_writer running e w _ k
        (safe_terminal-Closes u cfg client has_writer running row w held spent)
  flush_or_buffer-Closes row e (some buffer) w held spent k =
      elim (Bool-cases (ltb 1 cfg.terminal_flush_batch_size && not (terminal_has_dlq cfg row))) [
        | inl f ↦ rw f refl
        | inr f ↦ rw f (
            emit_landed-Closes u cfg client has_writer running e w _ k
              (safe_terminal-Closes u cfg client has_writer running row w held spent))
      ]

  write_recorded-Closes :
      (o : Option Outcome) (row : OutboxInnerMessage) (buffer : Option (List PendingFlush))
      (w : World S) {t d : ℕ}
      → row.outcome ≡ o
      → row.acquired_token ≡ some t
      → row.handler_duration_seconds ≡ some d
      → Closes u w (write_recorded cfg client has_writer running o row buffer w).1
  unfolding write_recorded
  write_recorded-Closes (some (Outcome.terminal r)) row buffer w o held spent =
      flush_or_buffer-Closes row _ buffer w held spent (ap (weight u.untimed) spent)
  write_recorded-Closes (some (Outcome.retry delay)) row buffer w o held spent =
      emit_landed-Closes u cfg client has_writer running _ w _ (ap (weight u.untimed) spent)
        (safe_retry-Closes u cfg client has_writer running row w held spent o)
  write_recorded-Closes (some Outcome.ack) row buffer w o held spent =
      flush_or_buffer-Closes row _ buffer w held spent (ap (weight u.untimed) spent)
  write_recorded-Closes none row buffer w o held spent =
      flush_or_buffer-Closes row _ buffer w held spent (ap (weight u.untimed) spent)

  write_outcome-Closes :
      (now : ℕ) (row : OutboxInnerMessage) (buffer : Option (List PendingFlush)) (w : World S)
      {t d : ℕ}
      → row.acquired_token ≡ some t
      → row.handler_duration_seconds ≡ some d
      → Closes u w (write_outcome cfg client has_writer running now row buffer w).1
  unfolding write_outcome
  write_outcome-Closes now row buffer w held spent =
      elim (Bool-cases (not (state_set row) && not running)) [
        | inl e ↦
            rw e (ground (arith, abandoned-closes u cfg client has_writer running row w spent))
        | inr e ↦ rw e (
            write_recorded-Closes (assert_state_set now row).outcome (assert_state_set now row)
              buffer w refl ((settled-same now row).0 ∙ held) ((settled-same now row).1 ∙ spent))
      ]

  -- The inline path buffers nothing: its answer is false, or an error.
  emit_landed-inline :
      (e : Emission) (a : World S × Result Bool)
      → awaited (emit_landed cfg client has_writer running e a).1 ≡ 0
  unfolding emit_landed
  emit_landed-inline e (w, ok true) = refl
  emit_landed-inline e (w, ok false) = refl
  emit_landed-inline e (w, raise x) = refl

  write_outcome-inline :
      (now : ℕ) (row : OutboxInnerMessage) (w : World S)
      → awaited (write_outcome cfg client has_writer running now row none w).1.1 ≡ 0
  unfolding write_outcome
  write_outcome-inline now row w = elim (Bool-cases (not (state_set row) && not running)) [
    | inl e ↦ rw e refl
    | inr e ↦ rw e (recorded (assert_state_set now row).outcome (assert_state_set now row))
  ]
    where
      recorded :
          (o : Option Outcome) (row : OutboxInnerMessage)
          → awaited (write_recorded cfg client has_writer running o row none w).1.1 ≡ 0
      recorded (some (Outcome.terminal r)) row =
          unfold write_recorded flush_or_buffer in emit_landed-inline _ _
      recorded (some (Outcome.retry delay)) row = unfold write_recorded in emit_landed-inline _ _
      recorded (some Outcome.ack) row =
          unfold write_recorded flush_or_buffer in emit_landed-inline _ _
      recorded none row = unfold write_recorded flush_or_buffer in emit_landed-inline _ _

  then_raise-Closes :
      (e : Error) (b : List PendingFlush) (w : World S)
      (a : List PendingFlush × (World S × Result Bool))
      → awaited a.1.1 ≡ 0
      → Closes u w a.1
      → Closes u w (then_raise cfg client has_writer running e b a).1
  unfolding then_raise
  then_raise-Closes e b w (b', (w', ok true)) h k = absurd (ground arith)
  then_raise-Closes e b w (b', (w', ok false)) h k = k
  then_raise-Closes e b w (b', (w', raise x)) h k = k

  after_consume-Closes :
      (now duration : ℕ) (row : OutboxInnerMessage) (end : Result (Unit {0}))
      (buffer : Option (List PendingFlush)) (w : World S) {t : ℕ}
      → row.acquired_token ≡ some t
      → Ends end
      → Closes u w (after_consume cfg client has_writer running now duration row end buffer w).1
  unfolding after_consume
  after_consume-Closes now d row (ok tt) buffer w held k =
      write_outcome-Closes now (timed cfg client has_writer running d row) buffer w held refl
  after_consume-Closes now d row (raise Error.config_error) buffer w held k =
      then_raise-Closes Error.config_error (kept cfg client has_writer running buffer) w
        (write_outcome cfg client has_writer running now (timed cfg client has_writer running d row)
          none w)
        (write_outcome-inline now (timed cfg client has_writer running d row) w)
        (write_outcome-Closes now (timed cfg client has_writer running d row) none w held refl)
  after_consume-Closes now d row (raise Error.cancelled_error) buffer w held k =
      absurd (ground arith)
  after_consume-Closes now d row (raise Error.system_exit) buffer w held k = absurd (ground arith)
  after_consume-Closes now d row (raise e) buffer w held k = ground (
    arith,
    abandoned-closes u cfg client has_writer running (timed cfg client has_writer running d row) w
        refl,
  )

-- A row that has a lease and is below its delivery limit is dispatched once and closed once: after
-- dispatch_one, with any configuration, client and buffer, the recorder has one `dispatched` more,
-- and exactly one event more of acked, nacked_terminal, nacked_retried, lease_lost and
-- dispatch_abandoned, which carries the duration of the handler; or the row is buffered with that
-- event still to come. This is said by an equation that holds whatever is counted for a `dispatched`
-- and for a closing event without a duration. It is for a handler that keeps the row's token and is
-- not cancelled.
pub dispatch_one-Closes {ℓ} :
    {S : Type ℓ} (u : Weights) (cfg : Config) (client : LeaseClient S) (has_writer running : Bool)
    (consume : OutboxInnerMessage → S → S × (OutboxInnerMessage × Result (Unit {0})))
    (now duration token : ℕ) (row : OutboxInnerMessage) (buffer : Option (List PendingFlush))
    (w : World S)
    → ((m : OutboxInnerMessage) (s : S)
        → ((consume m s).1.0.acquired_token ≡ m.acquired_token) × Ends (consume m s).1.1)
    → row.acquired_token ≡ some token
    → (allow_delivery cfg.max_deliveries (record row { retry_strategy = cfg.retry_strategy })).1
      ≡ true
    → Dispatches u w
        (dispatch_one cfg client has_writer running consume now duration row buffer w).1
unfolding dispatch_one
dispatch_one-Closes u cfg client has_writer running consume now d t row buffer w keeps held
      allowed =
    rw allowed (
      ground (
        arith,
        closed-emit u w.metrics (tagged (Event.dispatched (length row.payload)) none none row),
        after_consume-Closes u cfg client has_writer running now d (consume admitted w.client).1.0
            (consume admitted w.client).1.1 buffer
            (answered (consume admitted w.client).0
              (emit (tagged (Event.dispatched (length row.payload)) none none row) w))
            ((keeps admitted w.client).0
              ∙ (admitted-same cfg.max_deliveries
                    (record row { retry_strategy = cfg.retry_strategy })
                  ∙ held))
            (keeps admitted w.client).1,
      ))
  where
    admitted : OutboxInnerMessage
    admitted =
        (allow_delivery cfg.max_deliveries (record row { retry_strategy = cfg.retry_strategy })).0
