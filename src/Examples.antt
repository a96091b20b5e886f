-- ===== src/Examples.antt =====
-- Concrete rows, messages and clients for the examples below.
pub mod Storage
pub mod Dispatching
pub mod Publishing
pub mod Notifying
pub mod Checking
pub mod Running
pub mod Wiring
pub mod Handling
pub mod Measuring
use faststream_outbox.Base.{ℕ, Bool, true, false, Option, none, some, List, [], ◌∷◌, String}
use faststream_outbox.Message.Types.{HandlerError, OutboxInnerMessage}
use faststream_outbox.Table.{Row, Database, DlqPayload, row_to_message}
use faststream_outbox.Client.{Claim}
use faststream_outbox.Fake.{FakeOutboxClient}

abbrev pub row : ℕ → ℕ → Option ℕ → Option ℕ → Option String → Row
row id due at token timer = record {
  id = id;
  queue = "orders";
  payload = 1 ∷ [];
  headers = none;
  attempts_count = 0;
  deliveries_count = 1;
  created_at = 0;
  next_attempt_at = due;
  first_attempt_at = none;
  last_attempt_at = none;
  acquired_at = at;
  acquired_token = token;
  timer_id = timer;
}

-- Row 1 is leased under token 7 since 100; row 2 is a free timer.
abbrev pub orders : Database
orders = record {
  rows = row 1 10 (some 100) (some 7) none ∷ row 2 20 none none (some "daily") ∷ [];
  next_id = 3;
  dlq_rows = [];
}

abbrev pub fake_orders : FakeOutboxClient
fake_orders = record { dlq_enabled = true; tables = orders; dispatchable = [] }

abbrev pub claim_at : ℕ → ℕ → Claim
claim_at now token = record {
  now = now;
  limit = 10;
  lease_ttl = 60;
  token = token;
  locked = λ n. false;
}

abbrev pub message : OutboxInnerMessage
message = row_to_message 100 (row 1 10 (some 100) (some 7) none)

abbrev pub failed : OutboxInnerMessage
failed = record message {
  last_exception = some (record { type_name = "ValueError"; rendered = "ValueError('no')" });
}
