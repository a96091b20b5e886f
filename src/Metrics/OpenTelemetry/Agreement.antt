-- ===== src/Metrics/OpenTelemetry/Agreement.antt =====
-- What the two recorders count of a delivery.
use mathlib.Core.List.{append-nil}
use Prim.Native.String.{String}
use faststream_outbox.Base.{
  ℕ, ◌≡◌, refl, true, Option, none, some, List, [], ◌∷◌, ◌++◌, ap, sym, ◌∙◌,
}
use faststream_outbox.Message.Types.{DlqFailureReason}
use faststream_outbox.Subscriber.Types.{Phase, Event, Emission}
use faststream_outbox.Metrics.Prometheus.{
  Status, Update, timed_updates, exception_updates, left, record_event,
}
use faststream_outbox.Metrics.OpenTelemetry.{
  Attributes, Measurement, Instruments, measure_event, timed,
}

-- What one unit of a counter says, in either recorder: how a delivery ended, the class of its
-- exception, why it is over for good, a lost lease with its phase, or an audit row with its reason.
pub data Count : Type 0 where
  delivery : Status → Count
  failed : String → Count
  terminated : DlqFailureReason → Count
  lost : Phase → Count
  audited : DlqFailureReason → Count

-- Prometheus alone counts the `dispatched` rows, and a lost lease a second time as a delivery with
-- status `error`; these are left out.
abbrev pub counted : Update → List Count
counted (Update.processed_total labels Status.error) = []
counted (Update.processed_total labels status) = Count.delivery status ∷ []
counted (Update.processed_exceptions labels exc) = Count.failed exc ∷ []
counted (Update.terminal_reason labels r) = Count.terminated r ∷ []
counted (Update.lease_lost labels p) = Count.lost p ∷ []
counted (Update.dlq_written labels r) = Count.audited r ∷ []
counted _ = []

abbrev each {ℓ} : {A : Type ℓ} → (A → Count) → Option A → List Count
each f none = []
each f (some x) = f x ∷ []

-- OpenTelemetry has one counter of deliveries, with the rest as its attributes.
abbrev pub measured : Measurement → List Count
measured (Measurement.process_messages a) =
    each Count.delivery a.status
    ++ each Count.failed a.error_type
    ++ each Count.terminated a.terminal_reason
measured (Measurement.lease_lost a) = each Count.lost a.lease_phase
measured (Measurement.dlq_written a) = each Count.audited a.dlq_reason
measured _ = []

abbrev pub flat {ℓ} : {A : Type ℓ} → (A → List Count) → List A → List Count
flat f [] = []
flat f (x ∷ xs) = f x ++ flat f xs

abbrev all_on : Instruments
all_on = record { include_bus_metrics = true; include_messages_counters = true }

-- Durations count nothing.
timed_lem :
    (a : Attributes) (d : Option ℕ) (ms : List Measurement)
    → flat measured (timed Measurement.process_duration a d ++ ms) ≡ flat measured ms
timed_lem a none ms = refl
timed_lem a (some d) ms = refl

processed_lem :
    (labels : List String) (d : Option ℕ) (x : Option String) (us : List Update)
    → flat counted ((timed_updates labels d ++ exception_updates labels x) ++ us)
      ≡ each Count.failed x ++ flat counted us
processed_lem labels none none us = refl
processed_lem labels none (some x) us = refl
processed_lem labels (some d) none us = refl
processed_lem labels (some d) (some x) us = refl

left_lem :
    (labels : List String) (d : Option ℕ) (us : List Update)
    → flat counted (left labels d ++ us) ≡ flat counted us
left_lem labels none us = refl
left_lem labels (some d) us = refl

event_lem :
    (labels : List String) (subscriber : Option String) (e : Emission) (event : Event)
    → flat measured (measure_event all_on subscriber e event)
      ≡ flat counted (record_event true labels (record e { event = event }))
unfolding measure_event record_event
event_lem labels subscriber e (Event.dispatched size) = refl
event_lem labels subscriber e Event.acked =
    timed_lem _ e.duration_seconds _
    ∙ (append-nil _
        ∙ sym (
            ap (◌∷◌ (Count.delivery Status.acked))
              (processed_lem labels e.duration_seconds e.exception_type [])))
event_lem labels subscriber e (Event.nacked_retried d) =
    timed_lem _ e.duration_seconds _
    ∙ (append-nil _
        ∙ sym (
            ap (◌∷◌ (Count.delivery Status.nacked))
              (processed_lem labels e.duration_seconds e.exception_type [])))
event_lem labels subscriber e (Event.nacked_terminal r) =
    timed_lem _ e.duration_seconds _
    ∙ (append-nil _
        ∙ sym (
            ap (◌∷◌ (Count.delivery Status.nacked)) (
              processed_lem labels e.duration_seconds e.exception_type
                (Update.terminal_reason labels r ∷ []))))
event_lem labels subscriber e (Event.lease_lost phase) =
    sym (left_lem labels e.duration_seconds (Update.lease_lost labels phase ∷ []))
event_lem labels subscriber e (Event.dlq_written reason) = refl
event_lem labels subscriber e Event.dispatch_abandoned = sym (left_lem labels e.duration_seconds [])

-- With all their series on, the Prometheus and the OpenTelemetry recorder count a settled or lost
-- delivery alike: the status of an acked or nacked delivery, the class of its exception, the reason of
-- a terminal one, the phase of a lost lease, and the reason of an audit row. Left out is what
-- Prometheus counts alone: a `dispatched` row, and the status `error` of a lost lease.
pub measure_event-record_event :
    (labels : List String) (subscriber : Option String) (e : Emission)
    → flat measured (
        measure_event
          (record { include_bus_metrics = true; include_messages_counters = true })
          subscriber
          e
          e.event)
      ≡ flat counted (record_event true labels e)
measure_event-record_event labels subscriber e = event_lem labels subscriber e e.event
