-- ===== src/Message.antt =====
-- faststream_outbox/message.py and _scheduling.py: the in-memory copy of a claimed row, the intent
-- that a handler records on it, and the activation times of a published row. Times are
-- microseconds on one clock, `timedelta` and delays are signed microseconds; a call that reads the
-- clock takes `now`, and a UUID is a number.
pub mod Types
pub mod Intent
pub mod Scheduling
pub mod Parser
use Types.{DlqFailureReason, Outcome, Advice, answers, excepts, RetryStrategy, OutboxInnerMessage}
use faststream_outbox.Base.{
  ℕ, ◌+◌, Bool, true, false, not, Option, none, some, List, String, ℤ, ltb, is_some, if◌then◌else◌,
}

abbrev pub state_set : OutboxInnerMessage → Bool
state_set m = is_some m.outcome

reason_of : Option Outcome → Option DlqFailureReason
reason_of (some (Outcome.terminal r)) = some r
reason_of _ = none

unfoldable pub terminal_failure_reason : OutboxInnerMessage → Option DlqFailureReason
unfolding reason_of
terminal_failure_reason m = reason_of m.outcome

delay_of : Option Outcome → Option ℤ
delay_of (some (Outcome.retry d)) = some d
delay_of _ = none

unfoldable pub pending_delay_seconds : OutboxInnerMessage → Option ℤ
unfolding delay_of
pending_delay_seconds m = delay_of m.outcome

unfoldable pub record_attempt : ℕ → OutboxInnerMessage → OutboxInnerMessage
record_attempt now m = record m {
  attempts_count = m.attempts_count + 1;
  last_attempt_at = some now;
  first_attempt_at = if is_some m.first_attempt_at then m.first_attempt_at else some now;
}

-- `_update_state_if_not_set`: the first intent wins.
unfoldable pub update_state_if_not_set :
    (OutboxInnerMessage → OutboxInnerMessage) → OutboxInnerMessage → OutboxInnerMessage
update_state_if_not_set fn m = if is_some m.outcome then m else fn m

-- `_ack`.
unfoldable pub do_ack : ℕ → OutboxInnerMessage → OutboxInnerMessage
unfolding record_attempt
do_ack now m = record (record_attempt now m) { outcome = some Outcome.ack }

-- The outcome that `_nack` records: the arm of `except Exception`, and the test of the delay.
unfoldable pub nack_outcome : Advice → Outcome
nack_outcome excepts = Outcome.terminal DlqFailureReason.retry_terminal
nack_outcome (answers none) = Outcome.terminal DlqFailureReason.retry_terminal
nack_outcome (answers (some d)) = Outcome.retry d

-- No strategy is no delay.
unfoldable pub ask_strategy : Option RetryStrategy → OutboxInnerMessage → Advice
ask_strategy none m = answers none
ask_strategy (some get_next_attempt_delay) m =
    get_next_attempt_delay m.first_attempt_at m.last_attempt_at m.attempts_count m.last_exception

-- `_nack`.
unfoldable pub do_nack : ℕ → OutboxInnerMessage → OutboxInnerMessage
unfolding record_attempt nack_outcome ask_strategy
do_nack now m =
    let m' = record_attempt now m in
    record m' { outcome = some (nack_outcome (ask_strategy m'.retry_strategy m')) }

-- `_reject`.
unfoldable pub do_reject : ℕ → OutboxInnerMessage → OutboxInnerMessage
unfolding record_attempt
do_reject now m = record (record_attempt now m) {
  outcome = some (Outcome.terminal DlqFailureReason.rejected);
}

unfoldable pub ack : ℕ → OutboxInnerMessage → OutboxInnerMessage
unfolding update_state_if_not_set do_ack
ack now = update_state_if_not_set (do_ack now)

unfoldable pub nack : ℕ → OutboxInnerMessage → OutboxInnerMessage
unfolding update_state_if_not_set do_nack
nack now = update_state_if_not_set (do_nack now)

unfoldable pub reject : ℕ → OutboxInnerMessage → OutboxInnerMessage
unfolding update_state_if_not_set do_reject
reject now = update_state_if_not_set (do_reject now)

over_limit : Option ℕ → ℕ → Bool
over_limit none deliveries = false
over_limit (some limit) deliveries = ltb limit deliveries

-- The message, and whether the handler may run. The log line is left out.
unfoldable pub allow_delivery : Option ℕ → OutboxInnerMessage → OutboxInnerMessage × Bool
unfolding over_limit
allow_delivery limit m =
    if over_limit limit m.deliveries_count
    then (record m { outcome = some (Outcome.terminal DlqFailureReason.max_deliveries) }, false)
    else (m, true)

unfoldable pub assert_state_set : ℕ → OutboxInnerMessage → OutboxInnerMessage
unfolding nack reject
assert_state_set now m =
    if is_some m.outcome then m else if is_some m.last_exception then nack now m else reject now m
