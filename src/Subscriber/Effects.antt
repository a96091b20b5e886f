-- ===== src/Subscriber/Effects.antt =====
-- What a dispatch asks of the client: the one write that the recorded outcome calls for.
use faststream_outbox.Base.{
  ℕ, ◌≡◌, refl, sym, ap, ◌∙◌, subst, Bool, true, false, not, ◌&&◌, Option, none, some, ℤ, Result,
  ok, raise, is_some, if◌then◌else◌, Bool-cases, inl, inr, arith,
}
use faststream_outbox.Message.Types.{Outcome, DlqFailureReason, OutboxInnerMessage}
use faststream_outbox.Message.{
  assert_state_set, state_set, pending_delay_seconds, terminal_failure_reason, nack, reject,
  do_nack, do_reject, update_state_if_not_set, record_attempt,
}
use faststream_outbox.Table.{DlqPayload, Database}
use faststream_outbox.Client
use faststream_outbox.Client.{Reschedule}
use faststream_outbox.Subscriber.Types.{LeaseClient, Config, Emission, World}
use faststream_outbox.Subscriber.Flush.{
  render_last_exception, dlq_payload, emit_lease_lost, emit_dispatch_abandoned, terminal_written,
  flush_terminal, held_terminal, held_retry, retry_written, retry_schedule, flush_retry,
  flush_outcome, safe_flush, emit_landed,
}
use faststream_outbox.Subscriber.Dispatch.{flush_or_buffer, write_recorded, write_outcome}
use faststream_outbox.Subscriber.Closing.{settled-same, delay_of_retry}

-- The statements of OutboxClient fill the interface, with a live connection at the time `now`.
answer : {A : Type 0} → Database → Result (Database × A) → Database × Result A
answer db (ok (db', a)) = (db', ok a)
answer db (raise e) = (db, raise e)

unfoldable pub outbox_client : ℕ → Bool → LeaseClient Database
unfolding answer
outbox_client now has_dlq = record {
  delete_with_lease = λ id token payload db.
      answer db (Client.delete_with_lease true has_dlq now id token payload db);
  delete_batch_with_lease = λ pairs db. answer db (Client.delete_batch_with_lease true pairs db);
  mark_pending_with_lease =
      λ id token s db. answer db (Client.mark_pending_with_lease true now id token s db);
}

-- The audit copy that a failure asks for, where there is a DLQ table.
abbrev pub audit_of : Config → DlqFailureReason → OutboxInnerMessage → Option DlqPayload
audit_of cfg reason row =
    if cfg.dlq_table
    then some (record {
      failure_reason = reason;
      last_exception = render_last_exception cfg row.last_exception;
    })
    else none

-- The write that an outcome calls for.
unfoldable pub settlement {ℓ} :
    {S : Type ℓ} → Config → LeaseClient S → ℕ → OutboxInnerMessage → Option Outcome → S → S
settlement cfg client token row none s = s
settlement cfg client token row (some Outcome.ack) s =
    (client.delete_with_lease row.id token none s).0
settlement cfg client token row (some (Outcome.terminal reason)) s =
    (client.delete_with_lease row.id token (audit_of cfg reason row) s).0
settlement cfg client token row (some (Outcome.retry delay)) s =
    (client.mark_pending_with_lease row.id token
      (record {
        delay_seconds = delay;
        attempts_count = row.attempts_count;
        first_attempt_at = row.first_attempt_at;
        last_attempt_at = row.last_attempt_at;
      })
      s).0

-- The audit copy by the whole outcome.
audit_for : Config → OutboxInnerMessage → Outcome → Option DlqPayload
audit_for cfg row (Outcome.terminal reason) = audit_of cfg reason row
audit_for cfg row o = none

payload-of :
    (cfg : Config) (row : OutboxInnerMessage) (o : Outcome)
    → row.outcome ≡ some o
    → dlq_payload cfg row ≡ audit_for cfg row o
unfolding dlq_payload terminal_failure_reason audit_for
payload-of cfg row Outcome.ack h = ground arith
payload-of cfg row (Outcome.retry d) h = ground arith
payload-of cfg row (Outcome.terminal reason) h = ground arith

assert_state_set-settles :
    (now : ℕ) (row : OutboxInnerMessage) → is_some (assert_state_set now row).outcome ≡ true
unfolding assert_state_set nack reject do_nack do_reject update_state_if_not_set record_attempt
assert_state_set-settles now row = ground arith

module _ {ℓ} {S : Type ℓ} (cfg : Config) (client : LeaseClient S) (has_writer running : Bool) where
  abandoned-client :
      (row : OutboxInnerMessage) (w : World S)
      → (emit_dispatch_abandoned cfg client has_writer running row w).client ≡ w.client
  unfolding emit_dispatch_abandoned
  abandoned-client row w = ground arith

  flush_outcome-client :
      (row : OutboxInnerMessage) (a : World S × Result Bool)
      → (flush_outcome cfg client has_writer running row a).0.client ≡ a.0.client
  unfolding flush_outcome
  flush_outcome-client row (w, ok b) = refl
  flush_outcome-client row (w, raise e) = abandoned-client row w

  emit_landed-client :
      (e : Emission) (a : World S × Result Bool)
      → (emit_landed cfg client has_writer running e a).0.client ≡ a.0.client
  unfolding emit_landed
  emit_landed-client e (w, ok true) = refl
  emit_landed-client e (w, ok false) = refl
  emit_landed-client e (w, raise x) = refl

  terminal_written-client :
      (row : OutboxInnerMessage) (p : Option DlqPayload) (a : S × Result Bool) (w : World S)
      → (terminal_written cfg client has_writer running row p a w).0.client ≡ a.0
  unfolding terminal_written emit_lease_lost
  terminal_written-client row p (s, raise e) w = refl
  terminal_written-client row p (s, ok false) w = refl
  terminal_written-client row none (s, ok true) w = refl
  terminal_written-client row (some p) (s, ok true) w = refl

  retry_written-client :
      (row : OutboxInnerMessage) (a : S × Result Bool) (w : World S)
      → (retry_written cfg client has_writer running row a w).0.client ≡ a.0
  unfolding retry_written emit_lease_lost
  retry_written-client row (s, raise e) w = refl
  retry_written-client row (s, ok false) w = refl
  retry_written-client row (s, ok true) w = refl

  terminal-client :
      (row : OutboxInnerMessage) (w : World S) (e : Emission) {t : ℕ}
      → row.acquired_token ≡ some t
      → (flush_or_buffer cfg client has_writer running row e none w).1.0.client
        ≡ (client.delete_with_lease row.id t (dlq_payload cfg row) w.client).0
  unfolding flush_or_buffer safe_flush flush_terminal held_terminal
  terminal-client row w e {t} held =
      emit_landed-client e (safe_flush cfg client has_writer running true row w)
      ∙ (flush_outcome-client row (flush_terminal cfg client has_writer running row w)
          ∙ subst
              (λ k.
                (held_terminal cfg client has_writer running k row w).0.client
                ≡ (client.delete_with_lease row.id t (dlq_payload cfg row) w.client).0)
              (sym held)
              (terminal_written-client row (dlq_payload cfg row)
                (client.delete_with_lease row.id t (dlq_payload cfg row) w.client) w))

  retry-client :
      (row : OutboxInnerMessage) (w : World S) (e : Emission) {t : ℕ} {delay : ℤ}
      → row.acquired_token ≡ some t
      → row.outcome ≡ some (Outcome.retry delay)
      → (emit_landed cfg client has_writer running e
          (safe_flush cfg client has_writer running false row w)).0.client
        ≡ (client.mark_pending_with_lease row.id t
            (retry_schedule cfg client has_writer running row delay)
            w.client).0
  unfolding safe_flush flush_retry held_retry
  retry-client row w e {t} {delay = delay} held o =
      emit_landed-client e (safe_flush cfg client has_writer running false row w)
      ∙ (flush_outcome-client row (flush_retry cfg client has_writer running row w)
          ∙ subst
              (λ k.
                (held_retry cfg client has_writer running k (pending_delay_seconds row) row
                  w).0.client
                ≡ (client.mark_pending_with_lease row.id t
                    (retry_schedule cfg client has_writer running row delay) w.client).0)
              (sym held)
              (subst
                (λ k.
                  (held_retry cfg client has_writer running (some t) k row w).0.client
                  ≡ (client.mark_pending_with_lease row.id t
                      (retry_schedule cfg client has_writer running row delay) w.client).0)
                (sym (delay_of_retry row o))
                (retry_written-client row
                  (client.mark_pending_with_lease row.id t
                    (retry_schedule cfg client has_writer running row delay) w.client)
                  w)))

  recorded-client :
      (o : Option Outcome) (row : OutboxInnerMessage) (w : World S) {t : ℕ}
      → row.acquired_token ≡ some t
      → row.outcome ≡ o
      → is_some o ≡ true
      → (write_recorded cfg client has_writer running o row none w).1.0.client
        ≡ settlement cfg client t row o w.client
  unfolding write_recorded settlement audit_for
  recorded-client none row w held h k = absurd (ground arith)
  recorded-client (some Outcome.ack) row w {t} held h k =
      terminal-client row w _ held
      ∙ ap (λ p. (client.delete_with_lease row.id t p w.client).0)
          (payload-of cfg row Outcome.ack h)
  recorded-client (some (Outcome.retry d)) row w held h k = retry-client row w _ held h
  recorded-client (some (Outcome.terminal r)) row w {t} held h k =
      terminal-client row w _ held
      ∙ ap (λ p. (client.delete_with_lease row.id t p w.client).0)
          (payload-of cfg row (Outcome.terminal r) h)

-- What the inline write of a row under a lease does to the tables: nothing if the handler was
-- skipped by a shutdown, and else the one statement that the settled outcome calls for, whatever
-- the client answers. An acknowledged row is deleted with no audit copy; a failed one is deleted,
-- with an audit copy exactly if there is a DLQ table; a retried one is rescheduled with its
-- attempts and timestamps.
pub write_outcome-settles {ℓ} :
    {S : Type ℓ} (cfg : Config) (client : LeaseClient S) (has_writer running : Bool) (now token : ℕ)
    (row : OutboxInnerMessage) (w : World S)
    → row.acquired_token ≡ some token
    → let m = assert_state_set now row in
      (write_outcome cfg client has_writer running now row none w).1.0.client ≡ (
        if not (state_set row) && not running
        then w.client
        else settlement cfg client token m m.outcome w.client)
unfolding write_outcome
write_outcome-settles cfg client has_writer running now t row w held =
    elim (Bool-cases (not (state_set row) && not running)) [
      | inl e ↦ rw e (abandoned-client cfg client has_writer running row w)
      | inr e ↦ rw e (
          recorded-client cfg client has_writer running (assert_state_set now row).outcome
            (assert_state_set now row) w ((settled-same now row).0 ∙ held) refl
            (assert_state_set-settles now row))
    ]
