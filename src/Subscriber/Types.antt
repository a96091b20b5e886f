-- ===== src/Subscriber/Types.antt =====
-- The state that faststream_outbox/subscriber/usecase.py keeps while it dispatches a row: what it
-- asks of the client, what it emits to the metrics recorder, and the buffer of pending deletes.
use faststream_outbox.Base.{ℕ, Bool, Option, List, [], ◌∷◌, ◌++◌, String, ℤ, Result}
use faststream_outbox.Message.Types.{
  HandlerError, DlqFailureReason, RetryStrategy, OutboxInnerMessage,
}
use faststream_outbox.Table.{DlqPayload}
use faststream_outbox.Client.{Reschedule}

-- What a dispatch asks of `AbstractOutboxClient`. A call that raises may still have had an effect.
pub record LeaseClient {ℓ} (S : Type ℓ) : Type ℓ where
  pub delete_with_lease : ℕ → ℕ → Option DlqPayload → S → S × Result Bool
  pub delete_batch_with_lease : List (ℕ × ℕ) → S → S × Result (List (ℕ × ℕ))
  pub mark_pending_with_lease : ℕ → ℕ → Reschedule → S → S × Result Bool

-- The settings that a dispatch reads; `dlq_table` is whether there is one.
pub record Config : Type 0 where
  pub max_deliveries : Option ℕ
  pub retry_strategy : Option RetryStrategy
  pub terminal_flush_batch_size : ℕ
  pub lease_ttl : ℕ
  pub dlq_table : Bool
  pub last_exception_renderer : Option (HandlerError → Option String)

pub data Phase : Type 0 where
  terminal retry : Phase

-- A metric's name, with the tags that only it has.
pub data Event : Type 0 where
  dispatched : ℕ → Event
  acked : Event
  nacked_terminal : DlqFailureReason → Event
  nacked_retried : ℤ → Event
  lease_lost : Phase → Event
  dispatch_abandoned : Event
  dlq_written : DlqFailureReason → Event

-- `row_id` says which row an emission is about; only a lost lease carries it as a tag.
pub record Emission : Type 0 where
  pub event : Event
  pub row_id : ℕ
  pub queue : String
  pub deliveries_count : ℕ
  pub duration_seconds : Option ℕ
  pub exception_type : Option String

-- `_PendingFlush`: the row, and the metric that is due when its delete lands.
pub record PendingFlush : Type 0 where
  pub row : OutboxInnerMessage
  pub emission : Emission

-- `taken` counts the rows taken off `_inflight`, `done` the calls of its `task_done`, `requeued` the
-- rows put back.
pub record World {ℓ} (S : Type ℓ) : Type ℓ where
  pub client : S
  pub metrics : List Emission
  pub taken : ℕ
  pub done : ℕ
  pub requeued : ℕ

abbrev pub emit {ℓ} : {S : Type ℓ} → Emission → World S → World S
emit e w = record w { metrics = w.metrics ++ e ∷ [] }

abbrev pub answered {ℓ} : {S : Type ℓ} → S → World S → World S
answered s w = record w { client = s }
