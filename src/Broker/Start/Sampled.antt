-- ===== src/Broker/Start/Sampled.antt =====
-- The series of the lag sampler over the starts and stops of one broker.
use faststream_outbox.Base.{
  ℕ, ◌≡◌, refl, sym, ap, subst, ◌∙◌, true, false, not, ◌||◌, Option, none, some, List, [], ◌∷◌,
  take, String, Result, ok, raise, is_some, is_none, contains, string_eq, All, Bool-cases, inl, inr,
  arith,
}
use faststream_outbox.Metrics.Lag.Sampler.{
  Answers, Gauges, Agree, Agree-trans, Unlabelled, one_round, one_round-served, sample_each,
  start_sampling, stop_sampling, start-Agree, each-Agree, served, stop-others, others_same,
  gauges_eq,
}
use faststream_outbox.Broker.Queues.{Pool, lease_ttl_by_queue}
use faststream_outbox.Broker.Shutdown.{Broker, logged, stop_all, broker_stop}
use faststream_outbox.Broker.Start.{
  OutboxBroker, Started, subs_of, queues_of, queue_lag_context, enter_queue_lag, start_queue_lag,
  warn_each, after_start, after_connect, after_check, connect_engine, start, exit_queue_lag, beside,
  aside, stop,
}

-- What happens to a broker in its life: a start, of which FastStream's part may raise, some queries of
-- the sampler, and a stop.
pub data BrokerEvent {ℓ} (W : Type ℓ) : Type ℓ where
  start_event :
      (connect : Result Pool → W → W × Result (Unit {0}))
      → (upstream_start : W → W × Result (Unit {0})) → BrokerEvent W
  sample_event : (answers : Answers) → (queries : ℕ) → BrokerEvent W
  stop_event : (stop_subscriber : ℕ → W → W × Result (Unit {0})) → (subs : List ℕ) → BrokerEvent W

abbrev sampled : Answers → ℕ → Option (List (String × ℕ)) → Gauges → Gauges
sampled answers queries none g = g
sampled answers queries (some ttls) g =
    sample_each (take queries (one_round (queues_of ttls) answers)) g

unfoldable step {ℓ} : {W : Type ℓ} → OutboxBroker → BrokerEvent W → Started W → Started W
unfolding start stop sample_each
step broker (start_event connect upstream_start) b = (start connect upstream_start broker b).0
step broker (sample_event answers queries) b = record b {
  gauges = sampled answers queries b.queue_lag b.gauges;
}
step broker (stop_event stop_subscriber subs) b = stop stop_subscriber subs b

unfoldable pub live {ℓ} : {W : Type ℓ} → OutboxBroker → List (BrokerEvent W) → Started W → Started W
unfolding step
live broker [] b = b
live broker (e ∷ events) b = live broker events (step broker e b)

-- The queues that the sampler of a broker measures.
abbrev pub lag_queues : OutboxBroker → List String
lag_queues broker = queues_of (lease_ttl_by_queue (subs_of broker) [])

-- The gauges at any moment, against those before.
abbrev Kept : List (String × ℕ) → Gauges → Option (List (String × ℕ)) → Gauges → Type 0
Kept ttls before none g = g ≡ before
Kept ttls before (some measured) g = (measured ≡ ttls) × Agree (queues_of ttls) g before

unmeasured :
    (measured : List (String × ℕ)) (before : Gauges) (q : Option (List (String × ℕ))) (g : Gauges)
    → is_some q ≡ false
    → Kept measured before q g
    → g ≡ before
unmeasured measured before none g h k = k
unmeasured measured before (some m) g h k = ground (arith, h)

served_same :
    (measured all : List (String × ℕ))
    → measured ≡ all
    → All (λ q. contains q (queues_of all) ≡ true) (queues_of measured)
served_same measured all e =
    subst (λ m. All (λ q. contains q (queues_of all) ≡ true) (queues_of m)) (sym e)
      (served (queues_of all))

stop_sampling_lem :
    (measured all : List (String × ℕ)) (g before : Gauges)
    → measured ≡ all
    → Agree (queues_of all) g before
    → Unlabelled (queues_of all) before.age
    → Unlabelled (queues_of all) before.freshness
    → stop_sampling (queues_of measured) g ≡ before
stop_sampling_lem measured all g before e k age freshness =
    let stopped = stop-others (queues_of all) g in
    ap (λ m. stop_sampling (queues_of m) g) e
    ∙ gauges_eq (stopped.0 ∙ k.0 ∙ others_same (queues_of all) before.age age)
        (stopped.1 ∙ k.1 ∙ others_same (queues_of all) before.freshness freshness)

sampled-Kept :
    (answers : Answers) (queries : ℕ) (all : List (String × ℕ)) (before : Gauges)
    (q : Option (List (String × ℕ))) (g : Gauges)
    → Kept all before q g
    → Kept all before q (sampled answers queries q g)
sampled-Kept answers queries all before none g k = k
sampled-Kept answers queries all before (some measured) g (e, k) = (
  e,
  Agree-trans (queues_of all) _ g before
      (each-Agree (queues_of all) (one_round (queues_of measured) answers) queries g (
        one_round-served (queues_of all) (queues_of measured) answers (served_same measured all e)))
      k,
)

logged-gauges {ℓ} :
    {W : Type ℓ} (stop_subscriber : ℕ → W × Gauges → (W × Gauges) × Result (Unit {0}))
    (exit_lag : W × Gauges → (W × Gauges) × Result (Unit {0})) (sub : ℕ)
    (answer : W × Result (Unit {0})) (b : Broker (W × Gauges))
    → (logged stop_subscriber exit_lag sub (beside b.world.1 answer) b).world.1 ≡ b.world.1
logged-gauges stop_subscriber exit_lag sub (w, ok u) b = refl
logged-gauges stop_subscriber exit_lag sub (w, raise e) b = refl

stop_all-gauges {ℓ} :
    {W : Type ℓ} (stop_subscriber : ℕ → W → W × Result (Unit {0}))
    (exit_lag : W × Gauges → (W × Gauges) × Result (Unit {0})) (subs : List ℕ)
    (b : Broker (W × Gauges))
    → (stop_all (aside stop_subscriber) exit_lag subs b).world.1 ≡ b.world.1
unfolding stop_all
stop_all-gauges stop_subscriber exit_lag [] b = refl
stop_all-gauges stop_subscriber exit_lag (sub ∷ subs) b =
    let answer = stop_subscriber sub b.world.0 in
    stop_all-gauges stop_subscriber exit_lag subs
      (logged (aside stop_subscriber) exit_lag sub (beside b.world.1 answer) b)
    ∙ logged-gauges (aside stop_subscriber) exit_lag sub answer b

module _ {ℓ} {W : Type ℓ} (broker : OutboxBroker) (all : List (String × ℕ))
    (same : lease_ttl_by_queue (subs_of broker) [] ≡ all) (before : Gauges) where
  abbrev Fits : Started W → Type 0
  Fits b = Kept all before b.queue_lag b.gauges

  entered-Kept :
      (interval : Option ℕ) (measured : List (String × ℕ)) (b : Started W)
      → is_some b.queue_lag ≡ false
      → measured ≡ all
      → Fits b
      → Fits (enter_queue_lag (queue_lag_context interval measured) b)
  entered-Kept none measured b h e k = k
  entered-Kept (some i) [] b h e k = k
  entered-Kept (some i) (t ∷ ts) b h e k = (
    e,
    subst (Agree (queues_of all) (start_sampling (queues_of (t ∷ ts)) b.gauges))
        (unmeasured all before b.queue_lag b.gauges h k)
        (start-Agree (queues_of all) (queues_of (t ∷ ts)) b.gauges (served_same (t ∷ ts) all e)),
  )

  start_queue_lag-Kept : (b : Started W) → Fits b → Fits (start_queue_lag broker b)
  unfolding start_queue_lag
  start_queue_lag-Kept b k =
      elim (Bool-cases (is_some b.queue_lag || (not broker.prometheus || is_none broker.engine))) [
        | inl e ↦ rw (e, start_queue_lag) k
        | inr e ↦
            let entered = entered-Kept broker.queue_lag_interval _ b (ground (arith, e)) same k in
            elim (Bool-cases (is_none broker.queue_lag_interval)) [
              | inl f ↦ rw (e, f, start_queue_lag) k
              | inr f ↦ rw (e, f, start_queue_lag) entered
            ]
      ]

  after_start-Kept :
      (connect : Result Pool → W → W × Result (Unit {0}))
      (upstream_start : W → W × Result (Unit {0})) (b : Started W) (answer : W × Result (Unit {0}))
      → Fits b
      → Fits (after_start connect upstream_start broker b answer).0
  unfolding warn_each
  after_start-Kept connect upstream_start b (w, raise e) k = k
  after_start-Kept connect upstream_start b (w, ok u) k =
      start_queue_lag-Kept (warn_each broker (record b { world = w })) k

  after_connect-Kept :
      (connect : Result Pool → W → W × Result (Unit {0}))
      (upstream_start : W → W × Result (Unit {0})) (b : Started W) (answer : W × Result (Unit {0}))
      → Fits b
      → Fits (after_connect connect upstream_start broker b answer).0
  after_connect-Kept connect upstream_start b (w, raise e) k = k
  after_connect-Kept connect upstream_start b (w, ok u) k =
      after_start-Kept connect upstream_start b (upstream_start w) k

  after_check-Kept :
      (connect : Result Pool → W → W × Result (Unit {0}))
      (upstream_start : W → W × Result (Unit {0})) (b : Started W) (answer : Result (Unit {0}))
      → Fits b
      → Fits (after_check connect upstream_start broker b answer).0
  unfolding connect_engine
  after_check-Kept connect upstream_start b (raise e) k = k
  after_check-Kept connect upstream_start b (ok u) k =
      after_connect-Kept connect upstream_start b _ k

  module _ (age : Unlabelled (queues_of all) before.age)
      (freshness : Unlabelled (queues_of all) before.freshness) where
    halted-gauges :
        (stop_subscriber : ℕ → W → W × Result (Unit {0})) (subs : List ℕ)
        (q : Option (List (String × ℕ))) (w : W) (g : Gauges)
        → Kept all before q g
        → (broker_stop (aside stop_subscriber) (exit_queue_lag q) subs (record {
          running = true;
          queue_lag = is_some q;
          world = (w, g);
          errors = [];
        })).0.world.1
          ≡ before
    unfolding broker_stop
    halted-gauges stop_subscriber subs none w g k =
        stop_all-gauges stop_subscriber (exit_queue_lag none) subs _ ∙ k
    halted-gauges stop_subscriber subs (some measured) w g (e, k) =
        stop_all-gauges stop_subscriber (exit_queue_lag (some measured)) subs _
        ∙ stop_sampling_lem measured all g before e k age freshness

    stop-gauges :
        (stop_subscriber : ℕ → W → W × Result (Unit {0})) (subs : List ℕ) (b : Started W)
        → Fits b
        → (stop stop_subscriber subs b).gauges ≡ before
    unfolding stop
    stop-gauges stop_subscriber subs b k =
        halted-gauges stop_subscriber subs b.queue_lag b.world b.gauges k

    step-Fits : (e : BrokerEvent W) (b : Started W) → Fits b → Fits (step broker e b)
    unfolding step start
    step-Fits (start_event connect upstream_start) b k =
        after_check-Kept connect upstream_start b _ k
    step-Fits (sample_event answers queries) b k =
        sampled-Kept answers queries all before b.queue_lag b.gauges k
    step-Fits (stop_event stop_subscriber subs) b k = stop-gauges stop_subscriber subs b k

    live-Fits :
        (events : List (BrokerEvent W)) (b : Started W) → Fits b → Fits (live broker events b)
    unfolding live
    live-Fits [] b k = k
    live-Fits (e ∷ events) b k = live-Fits events (step broker e b) (step-Fits e b k)

-- Through any starts, queries of the sampler and stops of a broker, in any order and whatever fails, a
-- stop leaves the two gauges of the queue lag as they were before the first start.
pub live-stop {ℓ} :
    {W : Type ℓ} (broker : OutboxBroker) (events : List (BrokerEvent W))
    (stop_subscriber : ℕ → W → W × Result (Unit {0})) (subs : List ℕ) (b : Started W)
    → b.queue_lag ≡ none
    → Unlabelled (lag_queues broker) b.gauges.age
    → Unlabelled (lag_queues broker) b.gauges.freshness
    → (stop stop_subscriber subs (live broker events b)).gauges ≡ b.gauges
live-stop broker events stop_subscriber subs b none_yet age freshness =
    let begun =
      subst (λ q. Kept (lease_ttl_by_queue (subs_of broker) []) b.gauges q b.gauges) (sym none_yet)
        refl in
    stop-gauges broker _ refl b.gauges age freshness stop_subscriber subs (live broker events b)
      (live-Fits broker _ refl b.gauges age freshness events b begun)
