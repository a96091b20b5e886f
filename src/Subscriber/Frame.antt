-- ===== src/Subscriber/Frame.antt =====
-- What a dispatch leaves alone: the worker's count of the rows taken and done.
use faststream_outbox.Base.{
  ℕ, ◌+◌, ◌≡◌, refl, Bool, true, false, not, ◌&&◌, Option, none, some, List, [], ◌∷◌, ℤ, Result, ok,
  raise, Error, ltb, length, length-append, Bool-cases, inl, inr, arith,
}
use faststream_outbox.Message.Types.{Outcome, DlqFailureReason, OutboxInnerMessage}
use faststream_outbox.Message.{allow_delivery, assert_state_set, state_set, pending_delay_seconds}
use faststream_outbox.Table.{DlqPayload}
use faststream_outbox.Subscriber.Types.{
  LeaseClient, Config, Phase, Event, Emission, PendingFlush, World, emit, answered,
}
use faststream_outbox.Subscriber.Flush.{
  terminal_has_dlq, dlq_payload, terminal_written, flush_terminal, held_terminal, held_retry,
  retry_written, retry_schedule, flush_retry, flush_outcome, safe_flush, emit_landed, tagged,
}
use faststream_outbox.Subscriber.Dispatch.{
  flush_or_buffer, kept, write_recorded, write_outcome, then_raise, after_consume, dispatch_one,
  timed,
}
use faststream_outbox.Subscriber.Closing.{awaited}
use faststream_outbox.Subscriber.Batch.{lost-keeps, abandoned-keeps}

-- The counts are as before.
abbrev pub Quiet {ℓ} : {S : Type ℓ} → World S → World S → Type 0
Quiet w w' = (w'.done ≡ w.done) × (w'.taken ≡ w.taken)

-- The buffer grows by the row that is buffered.
abbrev pub Buffers {ℓ} :
    {S : Type ℓ} → List PendingFlush → List PendingFlush × (World S × Result Bool) → Type 0
Buffers buffer a = length a.0 ≡ length buffer + awaited a.1.1

module _ {ℓ} {S : Type ℓ} (cfg : Config) (client : LeaseClient S) (has_writer running : Bool) where
  terminal_written-Quiet :
      (row : OutboxInnerMessage) (p : Option DlqPayload) (a : S × Result Bool) (w : World S)
      → Quiet w (terminal_written cfg client has_writer running row p a w).0
  unfolding terminal_written
  terminal_written-Quiet row p (s, raise e) w = (refl, refl)
  terminal_written-Quiet row p (s, ok false) w =
      lost-keeps cfg client has_writer running Phase.terminal row (answered s w)
  terminal_written-Quiet row none (s, ok true) w = (refl, refl)
  terminal_written-Quiet row (some p) (s, ok true) w = (refl, refl)

  retry_written-Quiet :
      (row : OutboxInnerMessage) (a : S × Result Bool) (w : World S)
      → Quiet w (retry_written cfg client has_writer running row a w).0
  unfolding retry_written
  retry_written-Quiet row (s, raise e) w = (refl, refl)
  retry_written-Quiet row (s, ok false) w =
      lost-keeps cfg client has_writer running Phase.retry row (answered s w)
  retry_written-Quiet row (s, ok true) w = (refl, refl)

  held_terminal-Quiet :
      (t : Option ℕ) (row : OutboxInnerMessage) (w : World S)
      → Quiet w (held_terminal cfg client has_writer running t row w).0
  unfolding held_terminal
  held_terminal-Quiet none row w = (refl, refl)
  held_terminal-Quiet (some t) row w =
      terminal_written-Quiet row (dlq_payload cfg row)
        (client.delete_with_lease row.id t (dlq_payload cfg row) w.client) w

  held_retry-Quiet :
      (t : Option ℕ) (d : Option ℤ) (row : OutboxInnerMessage) (w : World S)
      → Quiet w (held_retry cfg client has_writer running t d row w).0
  unfolding held_retry
  held_retry-Quiet none d row w = (refl, refl)
  held_retry-Quiet (some t) none row w = (refl, refl)
  held_retry-Quiet (some t) (some d) row w =
      retry_written-Quiet row
        (client.mark_pending_with_lease row.id t
          (retry_schedule cfg client has_writer running row d) w.client)
        w

  flush_outcome-Quiet :
      (row : OutboxInnerMessage) (w : World S) (a : World S × Result Bool)
      → Quiet w a.0
      → Quiet w (flush_outcome cfg client has_writer running row a).0
  unfolding flush_outcome
  flush_outcome-Quiet row w (w', ok b) k = k
  flush_outcome-Quiet row w (w', raise e) k =
      ground (arith, abandoned-keeps cfg client has_writer running row w')

  safe_flush-Quiet :
      (terminal : Bool) (row : OutboxInnerMessage) (w : World S)
      → Quiet w (safe_flush cfg client has_writer running terminal row w).0
  unfolding safe_flush flush_terminal flush_retry
  safe_flush-Quiet true row w =
      flush_outcome-Quiet row w (flush_terminal cfg client has_writer running row w)
        (held_terminal-Quiet row.acquired_token row w)
  safe_flush-Quiet false row w =
      flush_outcome-Quiet row w (flush_retry cfg client has_writer running row w)
        (held_retry-Quiet row.acquired_token (pending_delay_seconds row) row w)

  emit_landed-Quiet :
      (e : Emission) (w : World S) (a : World S × Result Bool)
      → Quiet w a.0
      → Quiet w (emit_landed cfg client has_writer running e a).0
        × (awaited (emit_landed cfg client has_writer running e a).1 ≡ 0)
  unfolding emit_landed
  emit_landed-Quiet e w (w', ok true) k = (k, refl)
  emit_landed-Quiet e w (w', ok false) k = (k, refl)
  emit_landed-Quiet e w (w', raise x) k = (k, refl)

  -- A step of the dispatch keeps the counts, and its buffer is as its answer says.
  abbrev Framed : List PendingFlush → World S → List PendingFlush × (World S × Result Bool) → Type 0
  Framed buffer w a = Quiet w a.1.0 × Buffers buffer a

  landed-Framed :
      (e : Emission) (b : List PendingFlush) (w : World S) (a : World S × Result Bool)
      → Quiet w a.0
      → Framed b w (b, emit_landed cfg client has_writer running e a)
  landed-Framed e b w a k = ground (arith, emit_landed-Quiet e w a k)

  flush_or_buffer-Framed :
      (row : OutboxInnerMessage) (e : Emission) (buffer : Option (List PendingFlush)) (w : World S)
      → Framed
          (kept cfg client has_writer running buffer)
          w
          (flush_or_buffer cfg client has_writer running row e buffer w)
  unfolding flush_or_buffer
  flush_or_buffer-Framed row e none w = ground (
    arith,
    emit_landed-Quiet e w (safe_flush cfg client has_writer running true row w)
        (safe_flush-Quiet true row w),
  )
  flush_or_buffer-Framed row e (some buffer) w =
      elim (Bool-cases (ltb 1 cfg.terminal_flush_batch_size && not (terminal_has_dlq cfg row))) [
        | inl f ↦
            rw f ((refl, refl), length-append buffer (record { row = row; emission = e } ∷ []))
        | inr f ↦ rw f (
            ground (
              arith,
              emit_landed-Quiet e w (safe_flush cfg client has_writer running true row w)
                  (safe_flush-Quiet true row w),
            ))
      ]

  write_recorded-Framed :
      (o : Option Outcome) (row : OutboxInnerMessage) (buffer : Option (List PendingFlush))
      (w : World S)
      → Framed
          (kept cfg client has_writer running buffer)
          w
          (write_recorded cfg client has_writer running o row buffer w)
  unfolding write_recorded
  write_recorded-Framed (some (Outcome.terminal r)) row buffer w =
      flush_or_buffer-Framed row _ buffer w
  write_recorded-Framed (some (Outcome.retry delay)) row buffer w =
      landed-Framed _ (kept cfg client has_writer running buffer) w
        (safe_flush cfg client has_writer running false row w) (safe_flush-Quiet false row w)
  write_recorded-Framed (some Outcome.ack) row buffer w = flush_or_buffer-Framed row _ buffer w
  write_recorded-Framed none row buffer w = flush_or_buffer-Framed row _ buffer w

  write_outcome-Framed :
      (now : ℕ) (row : OutboxInnerMessage) (buffer : Option (List PendingFlush)) (w : World S)
      → Framed
          (kept cfg client has_writer running buffer)
          w
          (write_outcome cfg client has_writer running now row buffer w)
  unfolding write_outcome
  write_outcome-Framed now row buffer w = elim (Bool-cases (not (state_set row) && not running)) [
    | inl e ↦ rw e (ground (arith, abandoned-keeps cfg client has_writer running row w))
    | inr e ↦ rw e (
        write_recorded-Framed (assert_state_set now row).outcome (assert_state_set now row) buffer
          w)
  ]

  then_raise-Framed :
      (e : Error) (b : List PendingFlush) (w : World S)
      (a : List PendingFlush × (World S × Result Bool))
      → Quiet w a.1.0
      → Framed b w (then_raise cfg client has_writer running e b a)
  unfolding then_raise
  then_raise-Framed e b w (b', (w', ok x)) k = ground arith
  then_raise-Framed e b w (b', (w', raise x)) k = ground arith

  after_consume-Framed :
      (now duration : ℕ) (row : OutboxInnerMessage) (end : Result (Unit {0}))
      (buffer : Option (List PendingFlush)) (w : World S)
      → Framed
          (kept cfg client has_writer running buffer)
          w
          (after_consume cfg client has_writer running now duration row end buffer w)
  unfolding after_consume
  after_consume-Framed now d row (ok tt) buffer w =
      write_outcome-Framed now (timed cfg client has_writer running d row) buffer w
  after_consume-Framed now d row (raise Error.config_error) buffer w =
      then_raise-Framed Error.config_error (kept cfg client has_writer running buffer) w
        (write_outcome cfg client has_writer running now (timed cfg client has_writer running d row)
          none w)
        (write_outcome-Framed now (timed cfg client has_writer running d row) none w).0
  after_consume-Framed now d row (raise Error.cancelled_error) buffer w = ground arith
  after_consume-Framed now d row (raise Error.system_exit) buffer w = ground arith
  after_consume-Framed now d row (raise e) buffer w = ground (
    arith,
    abandoned-keeps cfg client has_writer running (timed cfg client has_writer running d row) w,
  )

  pub dispatch_one-Framed :
      (consume : OutboxInnerMessage → S → S × (OutboxInnerMessage × Result (Unit {0})))
      (now duration : ℕ) (row : OutboxInnerMessage) (buffer : Option (List PendingFlush))
      (w : World S)
      → Framed
          (kept cfg client has_writer running buffer)
          w
          (dispatch_one cfg client has_writer running consume now duration row buffer w)
  unfolding dispatch_one
  dispatch_one-Framed consume now d row buffer w =
      elim (Bool-cases
        (allow_delivery cfg.max_deliveries
          (record row { retry_strategy = cfg.retry_strategy })).1) [
            | inl e ↦ rw e (
                ground (
                  arith,
                  after_consume-Framed now d (consume admitted w.client).1.0
                      (consume admitted w.client).1.1 buffer
                      (answered (consume admitted w.client).0
                        (emit (tagged (Event.dispatched (length row.payload)) none none row) w)),
                ))
            | inr e ↦ rw e (
                flush_or_buffer-Framed admitted
                  (tagged (Event.nacked_terminal DlqFailureReason.max_deliveries) none none
                    admitted)
                  buffer w)
          ]
    where
      admitted : OutboxInnerMessage
      admitted =
          (allow_delivery cfg.max_deliveries (record row { retry_strategy = cfg.retry_strategy })).0
