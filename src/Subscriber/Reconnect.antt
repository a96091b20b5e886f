-- ===== src/Subscriber/Reconnect.antt =====
-- faststream_outbox/subscriber/usecase.py, `_compute_backoff` and `_run_with_reconnect`: the loop that
-- reopens the connections of the fetch loop and of the workers. What each cycle meets is given; floats
-- are a parameter, and times of the monotonic clock are in microseconds.
pub mod Backoff
use faststream_outbox.Base.{
  ℕ, suc, ◌+◌, ◌-◌, ◌≤◌, ◌<◌, ◌≡◌, refl, Bool, true, false, not, ◌&&◌, ◌||◌, Option, none, some,
  List, [], ◌∷◌, ◌++◌, Result, ok, raise, Error, ◌>>=◌, leb, min, if◌then◌else◌, All, arith,
}
use faststream_outbox.Retry.{Floats, min_float}

abbrev pub backoff_exp_cap : ℕ
backoff_exp_cap = 30

abbrev pub backoff_max_seconds : ℕ
backoff_max_seconds = 30

abbrev pub backoff_reset_threshold : ℕ
backoff_reset_threshold = 60000000

-- How a cycle ends: the loop inside returns, a writer is stale, or an exception is raised; a
-- cancellation is no Exception.
pub data Ended : Type 0 where
  returned stale_writer failed cancelled : Ended

-- `client` is whether there is one, `started` the clock where the resources were opened, `ended_at` the
-- clock where the error is handled, and `jitter` the draw from 0.5 to 1.5.
pub record Cycle (F : Type 0) : Type 0 where
  pub running : Bool
  pub stopping : Bool
  pub client : Bool
  pub started : Option ℕ
  pub ended : Ended
  pub ended_at : ℕ
  pub jitter : F

-- `sleeps` are the delays slept, in order.
pub record Reconnect (F : Type 0) : Type 0 where
  pub error_attempt : ℕ
  pub fetch_generation : ℕ
  pub sleeps : List F

abbrev pub was_healthy : Option ℕ → ℕ → Bool
was_healthy none now = false
was_healthy (some started) now = leb backoff_reset_threshold (now - started)

module _ {F : Type 0} (f : Floats F) where
  unfoldable pub compute_backoff : ℕ → F → F → F → Result F
  compute_backoff attempt ceiling base jitter = do
    p ← f.pow (f.of_ℕ 2) (attempt - 1)
    ok (min_float f (f.mul (f.mul base p) jitter) ceiling)

  -- The handler of an Exception.
  unfoldable pub back_off : Bool → Cycle F → Reconnect F → Result (Reconnect F)
  unfolding compute_backoff
  back_off recycle_writers_on_error c s =
      let before = if was_healthy c.started c.ended_at then 0 else s.error_attempt in
      let attempt = min (before + 1) backoff_exp_cap in
      do
        d ← compute_backoff attempt (f.of_ℕ backoff_max_seconds) (f.of_ℕ 1) c.jitter
        ok (record {
          error_attempt = attempt;
          fetch_generation =
              if recycle_writers_on_error then s.fetch_generation + 1 else s.fetch_generation;
          sleeps = s.sleeps ++ d ∷ [];
        })

  unfoldable pub end_cycle : Bool → Ended → Cycle F → Reconnect F → Result (Reconnect F)
  unfolding back_off
  end_cycle recycle Ended.returned c s = ok s
  end_cycle recycle Ended.stale_writer c s = ok s
  end_cycle recycle Ended.failed c s = back_off recycle c s
  end_cycle recycle Ended.cancelled c s = raise Error.cancelled_error

  unfoldable pub run_with_reconnect :
      (halt_on_drain recycle_writers_on_error : Bool)
      → List (Cycle F)
      → Reconnect F
      → Result (Reconnect F)
  unfolding end_cycle
  run_with_reconnect halt recycle [] s = ok s
  run_with_reconnect halt recycle (c ∷ cs) s =
      if not (c.running && not (halt && c.stopping)) || not c.client
      then ok s
      else (do t ← end_cycle recycle c.ended c s; run_with_reconnect halt recycle cs t)
