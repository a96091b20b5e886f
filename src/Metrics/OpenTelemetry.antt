-- ===== src/Metrics/OpenTelemetry.antt =====
-- faststream_outbox/metrics/opentelemetry.py, OpenTelemetryRecorder: what an event does to the
-- instruments. A counter or histogram of OpenTelemetry is what was added to it, with its attributes.
pub mod Agreement
use Prim.Native.String.{String}
use faststream_outbox.Base.{
  ℕ, Bool, true, false, ◌&&◌, Option, none, some, List, [], ◌∷◌, ◌++◌, ltb, ◌==◌, string_eq,
  if◌then◌else◌,
}
use faststream_outbox.Message.Types.{DlqFailureReason}
use faststream_outbox.Subscriber.Types.{Phase, Event, Emission}
use faststream_outbox.Publish.Producer.{Published}
use faststream_outbox.Metrics.Prometheus.{Status, LoopEvent, fetched, drain_timed_out}

pub data Operation : Type 0 where
  receive process publish : Operation

-- The attributes of a measurement; `messaging.system` is always the same.
pub record Attributes : Type 0 where
  pub destination : String
  pub operation : Operation
  pub handler : Option String
  pub status : Option Status
  pub terminal_reason : Option DlqFailureReason
  pub lease_phase : Option Phase
  pub dlq_reason : Option DlqFailureReason
  pub error_type : Option String

pub data Measurement : Type 0 where
  process_duration publish_duration publish_messages : Attributes → ℕ → Measurement
  process_messages fetch_batches lease_lost dlq_written drain_timeout : Attributes → Measurement

-- Which of the optional instruments `__init__` makes.
pub record Instruments : Type 0 where
  pub include_bus_metrics : Bool
  pub include_messages_counters : Bool

-- `if handler`.
abbrev pub named : Option String → Option String
named none = none
named (some h) = if h == "" then none else some h

-- `_attrs`, with no further attribute.
unfoldable pub attrs : String → Option String → Operation → Attributes
attrs queue subscriber operation = record {
  destination = queue;
  operation = operation;
  handler = named subscriber;
  status = none;
  terminal_reason = none;
  lease_phase = none;
  dlq_reason = none;
  error_type = none;
}

abbrev pub timed : (Attributes → ℕ → Measurement) → Attributes → Option ℕ → List Measurement
timed histogram a none = []
timed histogram a (some d) = histogram a d ∷ []

-- What a settled row is measured as.
unfoldable pub settled :
    Instruments → Option String → Emission → Status → Option DlqFailureReason → List Measurement
unfolding attrs
settled i subscriber e status reason =
    let a = record (attrs e.queue subscriber Operation.process) {
      status = some status;
      terminal_reason = reason;
      error_type = e.exception_type;
    } in
    if i.include_bus_metrics
    then timed Measurement.process_duration a e.duration_seconds
      ++ (if i.include_messages_counters then Measurement.process_messages a ∷ [] else [])
    else []

-- `__call__` at the events of a dispatch.
unfoldable pub measure_event : Instruments → Option String → Emission → Event → List Measurement
unfolding settled
measure_event i subscriber e (Event.dispatched size) = []
measure_event i subscriber e Event.acked = settled i subscriber e Status.acked none
measure_event i subscriber e (Event.nacked_retried d) = settled i subscriber e Status.nacked none
measure_event i subscriber e (Event.nacked_terminal r) =
    settled i subscriber e Status.nacked (some r)
measure_event i subscriber e (Event.lease_lost phase) =
    Measurement.lease_lost (record (attrs e.queue subscriber Operation.process) {
      lease_phase = some phase;
      error_type = some "lease_lost";
    })
    ∷ []
measure_event i subscriber e (Event.dlq_written reason) =
    Measurement.dlq_written (record (attrs e.queue subscriber Operation.process) {
      dlq_reason = some reason;
      error_type = e.exception_type;
    })
    ∷ []
measure_event i subscriber e Event.dispatch_abandoned = []

-- The events of the fetch loop and of `stop`.
unfoldable pub measure_loop : String → Option String → LoopEvent → List Measurement
unfolding attrs
measure_loop queue subscriber (fetched count) =
    Measurement.fetch_batches (attrs queue subscriber Operation.receive) ∷ []
measure_loop queue subscriber drain_timed_out =
    Measurement.drain_timeout (attrs queue subscriber Operation.process) ∷ []

-- The event of the producer.
unfoldable pub measure_published :
    Instruments → String → Option String → Option ℕ → Option String → Published → List Measurement
unfolding attrs
measure_published i queue subscriber duration exception_type m =
    let a = record (attrs queue subscriber Operation.publish) {
      status = some (if m.success then Status.success else Status.error);
      error_type = exception_type;
    } in
    if i.include_bus_metrics
    then timed Measurement.publish_duration a duration
      ++ (if i.include_messages_counters && ltb 0 m.count
          then Measurement.publish_messages a m.count ∷ []
          else [])
    else []
