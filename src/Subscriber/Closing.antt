-- ===== src/Subscriber/Closing.antt =====
-- The metrics of a dispatch: each `dispatched` is closed by one later event, whatever the client
-- answers and however the handler ends.
pub mod Pipeline
use faststream_outbox.Base.{
  ℕ, ◌+◌, ◌≡◌, refl, subst, sym, ◌∙◌, Bool, true, false, not, ◌&&◌, Option, none, some, List, [],
  ◌∷◌, ◌++◌, ℤ, Result, ok, raise, Error, is_exception, ltb, length, Bool-cases, inl, inr, arith,
}
use faststream_outbox.Message.Types.{Outcome, OutboxInnerMessage}
use faststream_outbox.Message.{
  nack, reject, do_nack, do_reject, update_state_if_not_set, record_attempt, allow_delivery,
  assert_state_set, state_set, pending_delay_seconds,
}
use faststream_outbox.Table.{DlqPayload}
use faststream_outbox.Subscriber.Types.{
  LeaseClient, Config, Phase, Event, Emission, PendingFlush, World, emit, answered,
}
use faststream_outbox.Subscriber.Flush.{
  exception_type, tagged, terminal_has_dlq, dlq_payload, emit_lease_lost, emit_dispatch_abandoned,
  terminal_written, flush_terminal, held_terminal, held_retry, retry_written, retry_schedule,
  flush_retry, flush_outcome, safe_flush, emit_landed,
}
use faststream_outbox.Subscriber.Dispatch.{
  flush_or_buffer, kept, write_recorded, write_outcome, then_raise, timed, after_consume,
  dispatch_one,
}

-- What an event is counted as: a closing event counts one if it has the duration of its handler, and
-- `untimed` if not; a `dispatched` counts `opening`. What holds for each choice of these numbers says
-- how many events of each kind there are.
pub record Weights : Type 0 where
  pub untimed : ℕ
  pub opening : ℕ

abbrev pub weight : ℕ → Option ℕ → ℕ
weight untimed none = untimed
weight untimed (some d) = 1

abbrev pub weighed : Weights → Option ℕ → Event → ℕ
weighed u d (Event.dispatched n) = u.opening
weighed u d (Event.dlq_written r) = 0
weighed u d _ = weight u.untimed d

abbrev pub closes : Weights → Emission → ℕ
closes u e = weighed u e.duration_seconds e.event

abbrev pub closed : Weights → List Emission → ℕ
closed u [] = 0
closed u (e ∷ es) = closes u e + closed u es

pub closed-emit :
    (u : Weights) (es : List Emission) (e : Emission)
    → closed u (es ++ e ∷ []) ≡ closed u es + closes u e
closed-emit u [] e = omega arith
closed-emit u (x ∷ xs) e = omega (arith, closed-emit u xs e)

-- One for a write that landed, or a row that is buffered: its event is still to come.
abbrev pub awaited : Result Bool → ℕ
awaited (ok true) = 1
awaited _ = 0

-- From `w`, one closing event more, unless it is still to come.
abbrev pub Closes {ℓ} : {S : Type ℓ} → Weights → World S → World S × Result Bool → Type 0
Closes u w (w', r) = closed u w'.metrics + awaited r ≡ closed u w.metrics + 1

-- The same after a `dispatched`.
abbrev pub Dispatches {ℓ} : {S : Type ℓ} → Weights → World S → World S × Result Bool → Type 0
Dispatches u w (w', r) = closed u w'.metrics + awaited r ≡ closed u w.metrics + u.opening + 1

pub delay_of_retry :
    (row : OutboxInnerMessage) {delay : ℤ}
    → row.outcome ≡ some (Outcome.retry delay)
    → pending_delay_seconds row ≡ some delay
unfolding pending_delay_seconds
delay_of_retry row o = rw o refl

pub admitted-same :
    (limit : Option ℕ) (row : OutboxInnerMessage)
    → (allow_delivery limit row).0.acquired_token ≡ row.acquired_token
unfolding allow_delivery
admitted-same limit row = ground arith

pub settled-same :
    (now : ℕ) (row : OutboxInnerMessage)
    → ((assert_state_set now row).acquired_token ≡ row.acquired_token)
      × ((assert_state_set now row).handler_duration_seconds ≡ row.handler_duration_seconds)
unfolding assert_state_set nack reject do_nack do_reject update_state_if_not_set record_attempt
settled-same now row = (ground arith, ground arith)

-- How a handler ends, other than by a cancellation.
abbrev pub Ends : Result (Unit {0}) → Type 0
Ends (ok u) = Unit
Ends (raise e) = is_exception e ≡ true

module _ {ℓ} {S : Type ℓ} (u : Weights) (cfg : Config) (client : LeaseClient S)
    (has_writer running : Bool) where
  pub abandoned-closes :
      (row : OutboxInnerMessage) (w : World S) {d : ℕ}
      → row.handler_duration_seconds ≡ some d
      → closed u (emit_dispatch_abandoned cfg client has_writer running row w).metrics
        ≡ closed u w.metrics + 1
  unfolding emit_dispatch_abandoned
  abandoned-closes row w {d} h =
      rw h (closed-emit u w.metrics (tagged Event.dispatch_abandoned (some d) none row))

  pub lost-closes :
      (p : Phase) (row : OutboxInnerMessage) (w : World S) {d : ℕ}
      → row.handler_duration_seconds ≡ some d
      → closed u (emit_lease_lost cfg client has_writer running p row w).metrics
        ≡ closed u w.metrics + 1
  unfolding emit_lease_lost
  lost-closes p row w {d} h =
      rw h (closed-emit u w.metrics (tagged (Event.lease_lost p) (some d) none row))

  -- A flush closes nothing if its write landed or raised, and reports the lost lease else.
  abbrev Flushes : World S → World S × Result Bool → Type 0
  Flushes w (w', raise e) = closed u w'.metrics ≡ closed u w.metrics
  Flushes w (w', ok landed) = Closes u w (w', ok landed)

  terminal_written-Flushes :
      (row : OutboxInnerMessage) (p : Option DlqPayload) (a : S × Result Bool) (w : World S) {d : ℕ}
      → row.handler_duration_seconds ≡ some d
      → Flushes w (terminal_written cfg client has_writer running row p a w)
  unfolding terminal_written
  terminal_written-Flushes row p (s, raise e) w spent = refl
  terminal_written-Flushes row p (s, ok false) w spent =
      ground (arith, lost-closes Phase.terminal row (answered s w) spent)
  terminal_written-Flushes row none (s, ok true) w spent = refl
  terminal_written-Flushes row (some p) (s, ok true) w spent = ground (
    arith,
    closed-emit u w.metrics
        (tagged (Event.dlq_written p.failure_reason) none (exception_type row.last_exception) row),
  )

  retry_written-Flushes :
      (row : OutboxInnerMessage) (a : S × Result Bool) (w : World S) {d : ℕ}
      → row.handler_duration_seconds ≡ some d
      → Flushes w (retry_written cfg client has_writer running row a w)
  unfolding retry_written
  retry_written-Flushes row (s, raise e) w spent = refl
  retry_written-Flushes row (s, ok false) w spent =
      ground (arith, lost-closes Phase.retry row (answered s w) spent)
  retry_written-Flushes row (s, ok true) w spent = refl

  flush_outcome-Closes :
      (row : OutboxInnerMessage) (w : World S) (a : World S × Result Bool) {d : ℕ}
      → row.handler_duration_seconds ≡ some d
      → Flushes w a
      → Closes u w (flush_outcome cfg client has_writer running row a)
  unfolding flush_outcome
  flush_outcome-Closes row w (w', ok b) h k = k
  flush_outcome-Closes row w (w', raise e) h k = ground (arith, abandoned-closes row w' h)

  pub safe_terminal-Closes :
      (row : OutboxInnerMessage) (w : World S) {t d : ℕ}
      → row.acquired_token ≡ some t
      → row.handler_duration_seconds ≡ some d
      → Closes u w (safe_flush cfg client has_writer running true row w)
  unfolding safe_flush flush_terminal held_terminal
  safe_terminal-Closes row w {t} held spent =
      subst
        (λ k. Closes u w (
          flush_outcome cfg client has_writer running row
            (held_terminal cfg client has_writer running k row w)))
        (sym held)
        (flush_outcome-Closes row w _ spent (
          terminal_written-Flushes row (dlq_payload cfg row)
            (client.delete_with_lease row.id t (dlq_payload cfg row) w.client) w spent))

  pub safe_retry-Closes :
      (row : OutboxInnerMessage) (w : World S) {t d : ℕ} {delay : ℤ}
      → row.acquired_token ≡ some t
      → row.handler_duration_seconds ≡ some d
      → row.outcome ≡ some (Outcome.retry delay)
      → Closes u w (safe_flush cfg client has_writer running false row w)
  unfolding safe_flush flush_retry held_retry
  safe_retry-Closes row w {t} {delay = delay} held spent o =
      subst
        (λ k. Closes u w (
          flush_outcome cfg client has_writer running row
            (held_retry cfg client has_writer running k (pending_delay_seconds row) row w)))
        (sym held)
        (subst
          (λ k. Closes u w (
            flush_outcome cfg client has_writer running row
              (held_retry cfg client has_writer running (some t) k row w)))
          (sym (delay_of_retry row o))
          (flush_outcome-Closes row w _ spent (
            retry_written-Flushes row
              (client.mark_pending_with_lease row.id t
                (retry_schedule cfg client has_writer running row delay) w.client)
              w spent)))

  pub emit_landed-Closes :
      (e : Emission) (w : World S) (a : World S × Result Bool)
      → closes u e ≡ 1
      → Closes u w a
      → Closes u w (emit_landed cfg client has_writer running e a)
  unfolding emit_landed
  emit_landed-Closes e w (w', ok true) k h = ground (arith, closed-emit u w'.metrics e)
  emit_landed-Closes e w (w', ok false) k h = h
  emit_landed-Closes e w (w', raise x) k h = h
