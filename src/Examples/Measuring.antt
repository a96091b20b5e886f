-- ===== src/Examples/Measuring.antt =====
-- The theorems on the metrics of the lag and of the recorders, at concrete rows, gauges and events.
use faststream_outbox.Base.{◌≡◌, refl, true, some, none, List, [], ◌∷◌, ok, raise, Error, filter}
use faststream_outbox.Base.Sort.{sort}
use faststream_outbox.Client.Fetch.{due, available}
use faststream_outbox.Message.Types.{DlqFailureReason}
use faststream_outbox.Subscriber.Types.{Event, Emission}
use faststream_outbox.Subscriber.Flush.{tagged}
use faststream_outbox.Metrics.Lag.{lag_statement, reported}
use faststream_outbox.Metrics.Lag.Oldest.{oldest_age, lag_statement-oldest}
use faststream_outbox.Metrics.Lag.Sampler.{
  Sample, Gauges, Answers, start_sampling, set_label, sample_queue,
}
use faststream_outbox.Broker.Queues.{Pool, lease_ttl_by_queue}
use faststream_outbox.Broker.Start.{OutboxBroker, Started, stop}
use faststream_outbox.Broker.Start.Sampled.{BrokerEvent, live, live-stop}
use faststream_outbox.Metrics.Prometheus.{record_event}
use faststream_outbox.Metrics.OpenTelemetry.{measure_event}
use faststream_outbox.Metrics.OpenTelemetry.Agreement.{
  flat, measured, counted, measure_event-record_event,
}
use faststream_outbox.Examples.{orders, message, claim_at}

-- At 190 the lease of row 1, due since 10, has expired; row 2 is due since 20.
lag_statement-oldest_example :
    reported (lag_statement 190 60 "orders" orders.rows).0
    ≡ oldest_age 190
        (filter (due (claim_at 190 8) (available (claim_at 190 8)) ("orders" ∷ [])) orders.rows)
lag_statement-oldest_example =
    lag_statement-oldest (claim_at 190 8) "orders" (λ id. refl) orders.rows

oldest_order : reported (lag_statement 190 60 "orders" orders.rows).0 ≡ 180
unfolding lag_statement sort
oldest_order = refl

-- Two rounds of the sampler: every query answers, and every query fails.
abbrev answers : Answers
answers queue = ok (some 3, 100)

abbrev failures : Answers
failures queue = raise Error.timeout_error

abbrev gauges : Gauges
gauges = record {
  age = ("bills", Sample.seconds 4) ∷ [];
  freshness = ("bills", Sample.seconds 90) ∷ [];
}

-- One subscriber, and a recorder that samples the queue lag.
abbrev broker : OutboxBroker
broker = record {
  engine = some (Pool.queue_pool 5 10);
  prometheus = true;
  queue_lag_interval = some 15;
  subscribers =
      (
        record { queues = "orders" ∷ "mails" ∷ []; max_workers = 2; lease_ttl = 60; direct = true },
        [],
      )
      ∷ [];
}

abbrev begin : BrokerEvent (Unit {0})
begin = BrokerEvent.start_event (λ engine w. (w, ok tt)) (λ w. (w, ok tt))

-- It starts twice, with a sample after each start, and its last subscriber fails to stop.
abbrev events : List (BrokerEvent (Unit {0}))
events =
    begin ∷ BrokerEvent.sample_event answers 2 ∷ begin ∷ BrokerEvent.sample_event failures 1 ∷ []

abbrev before_start : Started (Unit {0})
before_start = record {
  world = tt;
  gauges = gauges;
  queue_lag = none;
  warned = record { ids = []; log = [] };
  duplicates = [];
}

sampled_lem :
    (live broker (begin ∷ BrokerEvent.sample_event answers 1 ∷ []) before_start).gauges.age
    ≡ ("bills", Sample.seconds 4) ∷ ("orders", Sample.seconds 3) ∷ ("mails", Sample.nan) ∷ []
unfolding live start_sampling set_label sample_queue
sampled_lem = refl

live-stop_example :
    (stop
      (λ sub w. (w, raise Error.timeout_error))
      (0 ∷ [])
      (live broker events before_start)).gauges
    ≡ gauges
unfolding lease_ttl_by_queue
live-stop_example =
    live-stop broker events (λ sub w. (w, raise Error.timeout_error)) (0 ∷ []) before_start refl
      (refl, tt) (refl, tt)

abbrev rejected_order : Emission
rejected_order =
    tagged (Event.nacked_terminal DlqFailureReason.rejected) (some 3) (some "ValueError") message

measure_event-record_event_example :
    flat measured (
      measure_event
        (record { include_bus_metrics = true; include_messages_counters = true })
        (some "handler")
        rejected_order
        rejected_order.event)
    ≡ flat counted (record_event true ("handler" ∷ []) rejected_order)
measure_event-record_event_example =
    measure_event-record_event ("handler" ∷ []) (some "handler") rejected_order
