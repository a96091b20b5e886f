-- ===== src/Message/Types.antt =====
-- The data of faststream_outbox/message.py: the outcomes of a delivery, the retry strategy's
-- protocol, and the in-memory copy of a row.
use faststream_outbox.Base.{ℕ, Option, List, String, ℤ}

-- What is read of a `BaseException`: its class name and its `repr`.
pub record HandlerError : Type 0 where
  pub type_name : String
  pub rendered : String

pub data DlqFailureReason : Type 0 where
  max_deliveries retry_terminal rejected : DlqFailureReason

pub data Outcome : Type 0 where
  ack : Outcome
  retry : ℤ → Outcome
  terminal : DlqFailureReason → Outcome

-- What a call of a strategy comes to: its answer, or an Exception. A strategy that raises a
-- BaseException of another kind, and so ends the process, is left out.
pub data Advice : Type 0 where
  answers : Option ℤ → Advice
  excepts : Advice

-- `get_next_attempt_delay`: first and last attempt time, attempts, exception.
abbrev pub RetryStrategy : Type 0
RetryStrategy = Option ℕ → Option ℕ → ℕ → Option HandlerError → Advice

abbrev pub Headers : Type 0
Headers = List (String × String)

pub record OutboxInnerMessage : Type 0 where
  pub id : ℕ
  pub queue : String
  pub payload : List ℕ
  pub headers : Option Headers
  pub attempts_count : ℕ
  pub deliveries_count : ℕ
  pub created_at : ℕ
  pub next_attempt_at : ℕ
  pub first_attempt_at : Option ℕ
  pub last_attempt_at : Option ℕ
  pub acquired_at : Option ℕ
  pub acquired_token : Option ℕ
  pub timer_id : Option String
  pub retry_strategy : Option RetryStrategy
  pub last_exception : Option HandlerError
  pub outcome : Option Outcome
  pub claimed_at_monotonic : ℕ
  pub handler_duration_seconds : Option ℕ
