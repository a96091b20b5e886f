-- ===== src/Broker/Shutdown.antt =====
-- faststream_outbox/broker.py, `stop` and `ping`. The stop of a subscriber, the exit of the lag
-- sampler and the ping of the client are parameters; subscribers that stop at once are run one after
-- another.
use faststream_outbox.Base.{
  ℕ, Bool, true, false, not, Option, none, some, List, [], ◌∷◌, ◌++◌, Result, ok, raise, Error,
  if◌then◌else◌, any,
}

-- `world` is what the subscribers and the sampler change; `errors` are the lines logged, each a
-- subscriber with its error.
pub record Broker {ℓ} (W : Type ℓ) : Type ℓ where
  pub running : Bool
  pub queue_lag : Bool
  pub world : W
  pub errors : List (ℕ × Error)

module _ {ℓ} {W : Type ℓ} (stop_subscriber : ℕ → W → W × Result (Unit {0}))
    (exit_lag : W → W × Result (Unit {0})) where
  abbrev pub logged : ℕ → W × Result (Unit {0}) → Broker W → Broker W
  logged sub (w, ok u) b = record b { world = w }
  logged sub (w, raise e) b = record b { world = w; errors = b.errors ++ (sub, e) ∷ [] }

  -- `gather(..., return_exceptions=True)` and the loop over its results.
  unfoldable pub stop_all : List ℕ → Broker W → Broker W
  stop_all [] b = b
  stop_all (sub ∷ subs) b = stop_all subs (logged sub (stop_subscriber sub b.world) b)

  abbrev pub after_lag : List ℕ → Broker W → W × Result (Unit {0}) → Broker W × Result (Unit {0})
  unfolding stop_all
  after_lag subs b (w, ok u) = (stop_all subs (record b { world = w }), ok tt)
  after_lag subs b (w, raise e) = (record b { world = w }, raise e)

  unfoldable pub broker_stop : List ℕ → Broker W → Broker W × Result (Unit {0})
  unfolding stop_all
  broker_stop subs b =
      let halted = record b { running = false; queue_lag = false } in
      if b.queue_lag
      then after_lag subs halted (exit_lag b.world)
      else (stop_all subs halted, ok tt)

-- `ping` within its timeout: whether there is a client, what it answers, and for each task of each
-- subscriber whether it is done.
unfoldable pub ping : Option Bool → List (List Bool) → Bool
ping none tasks = false
ping (some false) tasks = false
ping (some true) tasks = not (any (any (λ done. done)) tasks)
