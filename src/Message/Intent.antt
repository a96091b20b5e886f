-- ===== src/Message/Intent.antt =====
-- The intent recorded on a message: set once, by the first call, and never left out.
use faststream_outbox.Base.{
  ℕ, ◌+◌, ◌≡◌, refl, ◌↔◌, none, some, List, [], ◌∷◌, ℤ, is_some, or_else, if◌then◌else◌,
  Option-cases, inl, inr, arith,
}
use faststream_outbox.Message.Types.{
  Outcome, answers, DlqFailureReason, RetryStrategy, OutboxInnerMessage,
}
use faststream_outbox.Message.{
  ack, nack, reject, assert_state_set, nack_outcome, pending_delay_seconds,
}

-- The calls that record intent, each with the time at which it is made.
pub data Call : Type 0 where
  acks nacks rejects settles : ℕ → Call

unfoldable pub call : Call → OutboxInnerMessage → OutboxInnerMessage
call (acks now) m = ack now m
call (nacks now) m = nack now m
call (rejects now) m = reject now m
call (settles now) m = assert_state_set now m

unfoldable pub run_calls : List Call → OutboxInnerMessage → OutboxInnerMessage
run_calls [] m = m
run_calls (c ∷ cs) m = run_calls cs (call c m)

call_settled : (c : Call) (m : OutboxInnerMessage) {o : Outcome} → m.outcome ≡ some o → call c m ≡ m
unfolding call ack nack reject assert_state_set
call_settled (acks now) m h = rw h
call_settled (nacks now) m h = rw h
call_settled (rejects now) m h = rw h
call_settled (settles now) m h = rw h

run_calls_settled :
    (cs : List Call) (m : OutboxInnerMessage) {o : Outcome}
    → m.outcome ≡ some o
    → run_calls cs m ≡ m
unfolding run_calls
run_calls_settled [] m h = refl
run_calls_settled (c ∷ cs) m h = rw (call_settled c m h) (run_calls_settled cs m h)

abbrev pub time_of : Call → ℕ
time_of (acks now) = now
time_of (nacks now) = now
time_of (rejects now) = now
time_of (settles now) = now

-- What the strategy of an unsettled message says of its next attempt.
unfoldable pub nacked : ℕ → OutboxInnerMessage → Outcome
unfolding nack_outcome
nacked now m = elim m.retry_strategy [
  | none ↦ Outcome.terminal DlqFailureReason.retry_terminal
  | some strategy ↦ nack_outcome (
      strategy (some (or_else m.first_attempt_at now)) (some now) (m.attempts_count + 1)
        m.last_exception)
]

-- The outcome that a first call leaves.
unfoldable pub chosen : Call → OutboxInnerMessage → Outcome
unfolding nacked
chosen (acks now) m = Outcome.ack
chosen (nacks now) m = nacked now m
chosen (rejects now) m = Outcome.terminal DlqFailureReason.rejected
chosen (settles now) m =
    if is_some m.last_exception then nacked now m else Outcome.terminal DlqFailureReason.rejected

call_first :
    (c : Call) (m : OutboxInnerMessage)
    → m.outcome ≡ none
    → call c m ≡ record m {
      attempts_count = m.attempts_count + 1;
      last_attempt_at = some (time_of c);
      first_attempt_at = some (or_else m.first_attempt_at (time_of c));
      outcome = some (chosen c m);
    }
unfolding call chosen ack nack reject assert_state_set
call_first (acks now) m h = ground arith
call_first (nacks now) m h = ground arith
call_first (rejects now) m h = ground arith
call_first (settles now) m h = ground arith

-- On a message with no outcome yet, the first of any sequence of ack, nack, reject and
-- assert_state_set calls decides alone: it counts one attempt, stamps its time as the last attempt
-- (and as the first, where none was), and records the outcome that it chooses. Later calls change
-- nothing. The strategy that a nack asks answers, or raises an Exception.
pub run_calls_first :
    (c : Call) (cs : List Call) (m : OutboxInnerMessage)
    → m.outcome ≡ none
    → run_calls (c ∷ cs) m ≡ record m {
      attempts_count = m.attempts_count + 1;
      last_attempt_at = some (time_of c);
      first_attempt_at = some (or_else m.first_attempt_at (time_of c));
      outcome = some (chosen c m);
    }
unfolding run_calls
run_calls_first c cs m h = rw (call_first c m h) (run_calls_settled cs _ refl)

-- A nack of a message with no outcome schedules a retry after `d` exactly if the message has a
-- strategy and it answers `d` for the counted attempt, with both timestamps set.
pub nack-retry_iff :
    (now : ℕ) (m : OutboxInnerMessage) (d : ℤ)
    → m.outcome ≡ none
    → (pending_delay_seconds (nack now m) ≡ some d) ↔ (
        (s : RetryStrategy) × (m.retry_strategy ≡ some s)
        × (s
              (some (or_else m.first_attempt_at now))
              (some now)
              (m.attempts_count + 1)
              m.last_exception
            ≡ answers (some d)))
unfolding nack pending_delay_seconds
nack-retry_iff now m d h = (
  λ e. elim (Option-cases m.retry_strategy) [
    | inl absent ↦ absurd (ground arith)
    | inr (s, given) ↦ (s, given, ground arith)
  ],
  λ (s, given, answer). ground arith,
)
