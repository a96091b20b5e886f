-- ===== src/Broker/Start.antt =====
-- faststream_outbox/broker.py: `client`, `_connect`, `start` and `_start_queue_lag`, and `stop` of a
-- broker that was started. FastStream's `connect`, which calls `_connect`, and its own `start` are
-- parameters; every subscriber is an OutboxSubscriber.
pub mod Sampled
use faststream_outbox.Base.{
  ℕ, Bool, true, false, not, ◌||◌, Option, none, some, List, [], ◌∷◌, ◌++◌, map, String, Result, ok,
  raise, Error, is_some, is_none, if◌then◌else◌,
}
use faststream_outbox.Metrics.Lag.Sampler.{Gauges, start_sampling, stop_sampling}
use faststream_outbox.Broker.Queues.{Pool, Sub, check_pool_capacity, duplicated, lease_ttl_by_queue}
use faststream_outbox.Broker.Foreign.{
  Publisher, Relaying, Warned, warn_on_unstarted_foreign_publishers,
}
use faststream_outbox.Broker.Registration.{warn}
use faststream_outbox.Broker.Shutdown.{broker_stop}

-- What the constructor was given, with the subscribers and the publishers of their calls.
-- `queue_lag_interval` is that of a PrometheusRecorder; `prometheus` is whether the recorder is one.
pub record OutboxBroker : Type 0 where
  pub engine : Option Pool
  pub prometheus : Bool
  pub queue_lag_interval : Option ℕ
  pub subscribers : List (Sub × List (List Publisher))

-- `client`, which the constructor builds if there is an engine.
unfoldable pub client : OutboxBroker → Result Pool
client broker = elim broker.engine [ none ↦ raise Error.runtime_error | some engine ↦ ok engine ]

unfoldable pub connect_engine : OutboxBroker → Result Pool
connect_engine broker = elim broker.engine [
  | none ↦ raise (Error.other_error "IncorrectState")
  | some engine ↦ ok engine
]

abbrev pub subs_of : OutboxBroker → List Sub
subs_of broker = map (λ s. s.0) broker.subscribers

abbrev pub relaying : Sub × List (List Publisher) → Relaying
relaying (s, calls) = record { queues = s.queues; calls = calls }

-- What a start changes. `queue_lag` is the context of the sampler with its queues; `duplicates` are
-- the warnings about queues with several subscribers.
pub record Started {ℓ} (W : Type ℓ) : Type ℓ where
  pub world : W
  pub gauges : Gauges
  pub queue_lag : Option (List (String × ℕ))
  pub warned : Warned
  pub duplicates : List (List String)

-- `PrometheusRecorder._queue_lag_context`.
abbrev pub queue_lag_context : Option ℕ → List (String × ℕ) → Option (List (String × ℕ))
queue_lag_context none ttls = none
queue_lag_context (some interval) [] = none
queue_lag_context (some interval) (t ∷ ttls) = some (t ∷ ttls)

abbrev pub queues_of : List (String × ℕ) → List String
queues_of = map (λ t. t.0)

module _ {ℓ} {W : Type ℓ} where
  -- `context.__aenter__()`, up to the `yield`.
  abbrev pub enter_queue_lag : Option (List (String × ℕ)) → Started W → Started W
  enter_queue_lag none b = b
  enter_queue_lag (some ttls) b = record b {
    gauges = start_sampling (queues_of ttls) b.gauges;
    queue_lag = some ttls;
  }

  unfoldable pub start_queue_lag : OutboxBroker → Started W → Started W
  unfolding lease_ttl_by_queue
  start_queue_lag broker b =
      if is_some b.queue_lag || (not broker.prometheus || is_none broker.engine)
      then b
      else if is_none broker.queue_lag_interval
      then b
      else enter_queue_lag
          (queue_lag_context broker.queue_lag_interval (lease_ttl_by_queue (subs_of broker) [])) b

  -- The warnings of a start.
  unfoldable pub warn_each : OutboxBroker → Started W → Started W
  unfolding duplicated warn_on_unstarted_foreign_publishers
  warn_each broker b = record b {
    warned = warn_on_unstarted_foreign_publishers (map relaying broker.subscribers) b.warned;
    duplicates = warn (duplicated (subs_of broker)) b.duplicates;
  }

  module _ (connect : Result Pool → W → W × Result (Unit {0}))
      (upstream_start : W → W × Result (Unit {0})) where
    abbrev pub after_start :
        OutboxBroker → Started W → W × Result (Unit {0}) → Started W × Result (Unit {0})
    after_start broker b (w, raise e) = (record b { world = w }, raise e)
    after_start broker b (w, ok _) =
        (start_queue_lag broker (warn_each broker (record b { world = w })), ok tt)

    abbrev pub after_connect :
        OutboxBroker → Started W → W × Result (Unit {0}) → Started W × Result (Unit {0})
    after_connect broker b (w, raise e) = (record b { world = w }, raise e)
    after_connect broker b (w, ok _) = after_start broker b (upstream_start w)

    abbrev pub after_check :
        OutboxBroker → Started W → Result (Unit {0}) → Started W × Result (Unit {0})
    after_check broker b (raise e) = (b, raise e)
    after_check broker b (ok _) = after_connect broker b (connect (connect_engine broker) b.world)

    unfoldable pub start : OutboxBroker → Started W → Started W × Result (Unit {0})
    unfolding check_pool_capacity connect_engine start_queue_lag warn_each
    start broker b = after_check broker b (check_pool_capacity broker.engine (subs_of broker))

  -- `queue_lag.__aexit__`, with the series that it removes; the stop of a subscriber leaves the gauges
  -- of the sampler alone.
  abbrev pub exit_queue_lag :
      Option (List (String × ℕ)) → W × Gauges → (W × Gauges) × Result (Unit {0})
  exit_queue_lag none (w, g) = ((w, g), ok tt)
  exit_queue_lag (some ttls) (w, g) = ((w, stop_sampling (queues_of ttls) g), ok tt)

  abbrev pub beside : Gauges → W × Result (Unit {0}) → (W × Gauges) × Result (Unit {0})
  beside g (w, r) = ((w, g), r)

  abbrev pub aside :
      (ℕ → W → W × Result (Unit {0})) → ℕ → W × Gauges → (W × Gauges) × Result (Unit {0})
  aside stop_subscriber sub world = beside world.1 (stop_subscriber sub world.0)

  abbrev pub stopped : Started W → W × Gauges → Started W
  stopped b (w, g) = record b { world = w; gauges = g; queue_lag = none }

  -- `stop`, over the subscribers by number.
  unfoldable pub stop : (ℕ → W → W × Result (Unit {0})) → List ℕ → Started W → Started W
  unfolding broker_stop
  stop stop_subscriber subs b =
      stopped b
        (broker_stop (aside stop_subscriber) (exit_queue_lag b.queue_lag) subs (record {
          running = true;
          queue_lag = is_some b.queue_lag;
          world = (b.world, b.gauges);
          errors = [];
        })).0.world
