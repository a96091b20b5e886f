-- ===== src/Metrics/Prometheus.antt =====
-- faststream_outbox/metrics/prometheus.py, PrometheusRecorder: what an event does to the series. A
-- counter, gauge or histogram of prometheus_client is what was added to it, with its labels, which are
-- given: app_name, the broker, the handler or destination, and the custom ones.
use Prim.Native.String.{String}
use faststream_outbox.Base.{
  ℕ, Bool, true, false, ◌&&◌, Option, none, some, List, [], ◌∷◌, ◌++◌, Result, ok, Error, raise_if,
  not, ltb, if◌then◌else◌,
}
use faststream_outbox.Message.Types.{DlqFailureReason}
use faststream_outbox.Subscriber.Types.{Phase, Event, Emission}
use faststream_outbox.Publish.Producer.{Published}

pub data Status : Type 0 where
  acked nacked error success : Status

-- An update of a series: `inc`, `dec` or `observe`. The label of the handler or the destination comes
-- first, then the custom ones.
pub data Update : Type 0 where
  received_total in_process_inc in_process_dec : List String → Update
  received_size processed_duration published_duration : List String → ℕ → Update
  processed_total : List String → Status → Update
  processed_exceptions published_exceptions : List String → String → Update
  published_total : List String → Status → ℕ → Update
  fetch_batches : List String → Bool → Update
  terminal_reason dlq_written : List String → DlqFailureReason → Update
  lease_lost : List String → Phase → Update
  drain_timeout : List String → Update

-- The events of the fetch loop and of `stop`, which no row is about.
pub data LoopEvent : Type 0 where
  fetched : (count : ℕ) → LoopEvent
  drain_timed_out : LoopEvent

abbrev pub timed_updates : List String → Option ℕ → List Update
timed_updates labels none = []
timed_updates labels (some d) =
    Update.in_process_dec labels ∷ Update.processed_duration labels d ∷ []

abbrev pub exception_updates : List String → Option String → List Update
exception_updates labels none = []
exception_updates labels (some exc) = Update.processed_exceptions labels exc ∷ []

abbrev pub processed : List String → Status → Emission → List Update
processed labels status e =
    Update.processed_total labels status ∷ timed_updates labels e.duration_seconds
    ++ exception_updates labels e.exception_type

abbrev pub left : List String → Option ℕ → List Update
left labels none = []
left labels (some d) = Update.in_process_dec labels ∷ []

-- `_record_bus_consume`.
unfoldable pub record_bus_consume : List String → Event → Emission → List Update
record_bus_consume labels (Event.dispatched size) e =
    Update.received_total labels
    ∷ Update.received_size labels size
    ∷ Update.in_process_inc labels
    ∷ []
record_bus_consume labels Event.acked e = processed labels Status.acked e
record_bus_consume labels (Event.nacked_retried d) e = processed labels Status.nacked e
record_bus_consume labels (Event.nacked_terminal r) e = processed labels Status.nacked e
record_bus_consume labels (Event.lease_lost p) e =
    Update.processed_total labels Status.error ∷ left labels e.duration_seconds
record_bus_consume labels Event.dispatch_abandoned e = left labels e.duration_seconds
record_bus_consume labels (Event.dlq_written r) e = []

-- The series of the outbox itself.
abbrev pub record_outbox : List String → Event → List Update
record_outbox labels (Event.nacked_terminal r) = Update.terminal_reason labels r ∷ []
record_outbox labels (Event.lease_lost p) = Update.lease_lost labels p ∷ []
record_outbox labels (Event.dlq_written r) = Update.dlq_written labels r ∷ []
record_outbox labels _ = []

-- `__call__`, at an event of a dispatch, for a subscriber of that name.
unfoldable pub record_event : Bool → List String → Emission → List Update
unfolding record_bus_consume
record_event include_bus_metrics labels e =
    (if include_bus_metrics then record_bus_consume labels e.event e else [])
    ++ record_outbox labels e.event

unfoldable pub record_loop : List String → LoopEvent → List Update
record_loop labels (fetched count) = Update.fetch_batches labels (ltb 0 count) ∷ []
record_loop labels drain_timed_out = Update.drain_timeout labels ∷ []

-- The event of the producer: `_record_published` if the series of the bus are kept, with the duration and the class of the error that the producer tags.
unfoldable pub record_published :
    Bool → List String → Option ℕ → Option String → Published → List Update
record_published false labels duration exception_type m = []
record_published true labels duration exception_type m =
    (if m.success
      then (if ltb 0 m.count then Update.published_total labels Status.success m.count ∷ [] else [])
      else Update.published_total labels Status.error 1 ∷ [])
    ++ elim duration [ none ↦ [] | some d ↦ Update.published_duration labels d ∷ [] ]
    ++ elim exception_type [ none ↦ [] | some e ↦ Update.published_exceptions labels e ∷ [] ]

-- The check of `__init__` on the interval of the lag: finite and positive.
unfoldable pub check_lag_interval : Option (Bool × Bool) → Result (Unit {0})
check_lag_interval none = ok tt
check_lag_interval (some (is_finite, is_positive)) =
    raise_if (not (is_finite && is_positive)) Error.value_error
