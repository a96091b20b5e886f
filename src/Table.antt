-- ===== src/Table.antt =====
-- faststream_outbox/schema.py: the outbox table and its dead-letter companion as values. A column
-- of `make_outbox_table` is a field of `Row`; the partial unique index on `(queue, timer_id)` and
-- the CHECK on the lease are predicates on the rows.
pub mod Rows
pub mod Identifiers
use faststream_outbox.Base.{
  ℕ, ◌+◌, Option, none, some, List, [], ◌∷◌, String, Bool, true, false, ◌==◌, ◌&&◌, nat_eq,
  string_eq,
}
use faststream_outbox.Message.Types.{Headers, DlqFailureReason, OutboxInnerMessage}

pub record Row : Type 0 where
  pub id : ℕ
  pub queue : String
  pub payload : List ℕ
  pub headers : Option Headers
  pub attempts_count : ℕ
  pub deliveries_count : ℕ
  pub created_at : ℕ
  pub next_attempt_at : ℕ
  pub first_attempt_at : Option ℕ
  pub last_attempt_at : Option ℕ
  pub acquired_at : Option ℕ
  pub acquired_token : Option ℕ
  pub timer_id : Option String

-- The DLQ columns: those of `_DLQ_PROJECTION`, `failed_at`, and the injected ones.
pub record DlqRow : Type 0 where
  pub original_id : ℕ
  pub queue : String
  pub payload : List ℕ
  pub headers : Option Headers
  pub deliveries_count : ℕ
  pub created_at : ℕ
  pub timer_id : Option String
  pub failed_at : ℕ
  pub failure_reason : DlqFailureReason
  pub last_exception : Option String

-- The two injected columns, as the caller supplies them.
pub record DlqPayload : Type 0 where
  pub failure_reason : DlqFailureReason
  pub last_exception : Option String

-- `_DLQ_PROJECTION` with the injected columns.
unfoldable pub archive : ℕ → DlqPayload → Row → DlqRow
archive now p r = record {
  original_id = r.id;
  queue = r.queue;
  payload = r.payload;
  headers = r.headers;
  deliveries_count = r.deliveries_count;
  created_at = r.created_at;
  timer_id = r.timer_id;
  failed_at = now;
  failure_reason = p.failure_reason;
  last_exception = p.last_exception;
}

-- `_row_to_message` and `_to_inner`: a fresh message, built at `monotonic`.
unfoldable pub row_to_message : ℕ → Row → OutboxInnerMessage
row_to_message monotonic r = record {
  id = r.id;
  queue = r.queue;
  payload = r.payload;
  headers = r.headers;
  attempts_count = r.attempts_count;
  deliveries_count = r.deliveries_count;
  created_at = r.created_at;
  next_attempt_at = r.next_attempt_at;
  first_attempt_at = r.first_attempt_at;
  last_attempt_at = r.last_attempt_at;
  acquired_at = r.acquired_at;
  acquired_token = r.acquired_token;
  timer_id = r.timer_id;
  retry_strategy = none;
  last_exception = none;
  outcome = none;
  claimed_at_monotonic = monotonic;
  handler_duration_seconds = none;
}

-- The sort key of a claim: `(next_attempt_at, id)`.
abbrev pub key_of : Row → ℕ × ℕ
key_of r = (r.next_attempt_at, r.id)

-- SQL's `acquired_token = :token`: NULL matches nothing.
abbrev pub holds : Option ℕ → ℕ → Bool
holds none token = false
holds (some t) token = t == token

-- The claim: a new lease, and one more delivery.
unfoldable pub claim : ℕ → ℕ → Row → Row
claim now token r = record r {
  acquired_at = some now;
  acquired_token = some token;
  deliveries_count = r.deliveries_count + 1;
}

-- `timer_id = :timer_id` on a nullable column.
abbrev pub is_timer : Option String → String → Bool
is_timer none timer_id = false
is_timer (some t) timer_id = t == timer_id

-- The two tables, and the sequence behind the `id` column.
pub record Database : Type 0 where
  pub rows : List Row
  pub next_id : ℕ
  pub dlq_rows : List DlqRow
