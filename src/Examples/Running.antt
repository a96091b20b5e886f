-- ===== src/Examples/Running.antt =====
-- Concrete runs of the tasks of a subscriber: a drain, and a loop that reconnects.
use faststream_outbox.Base.{
  ℕ, ◌≡◌, refl, true, false, Option, none, some, List, [], ◌∷◌, ok, ◌^◌, ◌<◌, ltb, arith,
}
use faststream_outbox.Subscriber.Draining.{Stopper, Loop, Step, started, run}
use faststream_outbox.Subscriber.Draining.Steady.{IsSteady}
use faststream_outbox.Subscriber.Draining.Reached.{reached-IsSteady}
use faststream_outbox.Subscriber.Draining.Joined.{drain, drain-joins}
use faststream_outbox.Subscriber.Reconnect.{Ended, Cycle, Reconnect, run_with_reconnect}
use faststream_outbox.Subscriber.Reconnect.Backoff.{IsBounded, run_with_reconnect-IsBounded}
use faststream_outbox.Examples.Publishing.{whole, whole-IsOrder}

-- Two of three rows are fetched while `stop` is called; one worker holds one of them.
abbrev until_joining : List (Step ℕ)
until_joining =
    Step.check_free
    ∷ Step.take_claim_lock
    ∷ Step.stop_called
    ∷ Step.rows_fetched (8 ∷ 9 ∷ [])
    ∷ Step.take_row
    ∷ Step.stop_locks
    ∷ []

abbrev joining : Loop ℕ
joining = record {
  maxsize = 3;
  refill_at = 1;
  running = true;
  stopping = true;
  queued = 9 ∷ [];
  held = 1;
  unfinished = 2;
  fetcher = faststream_outbox.Subscriber.Draining.Fetcher.idle;
  stopper = Stopper.joining;
  queue_full = false;
}

until_joining_lem : run until_joining (started 3) ≡ some joining
unfolding run started
until_joining_lem = refl

reached-IsSteady_example : IsSteady joining
reached-IsSteady_example = reached-IsSteady 3 until_joining joining until_joining_lem

drain-joins_example :
    (t : Loop ℕ) × ((run (drain joining) joining ≡ some t) × (t.stopper ≡ Stopper.drained))
drain-joins_example = drain-joins 3 until_joining joining until_joining_lem refl refl

abbrev cycle : Ended → Option ℕ → Cycle ℕ
cycle e opened = record {
  running = true;
  stopping = false;
  client = true;
  started = opened;
  ended = e;
  ended_at = 90000000;
  jitter = 1;
}

abbrev fresh : Reconnect ℕ
fresh = record { error_attempt = 0; fetch_generation = 0; sleeps = [] }

abbrev cycles : List (Cycle ℕ)
cycles =
    cycle Ended.failed none
    ∷ cycle Ended.failed (some 60000000)
    ∷ cycle Ended.failed (some 1000000)
    ∷ cycle Ended.stale_writer (some 1000000)
    ∷ []

cycles_lem :
    run_with_reconnect whole true true cycles fresh
    ≡ ok (record { error_attempt = 1; fetch_generation = 3; sleeps = 1 ∷ 2 ∷ 1 ∷ [] })
unfolding run_with_reconnect
cycles_lem = refl

power : (n : ℕ) → n < 30 → (p : ℕ) × (whole.pow 2 n ≡ ok p)
power n h = (2 ^ n, rw (few n h) refl)
  where
    few : (n : ℕ) → n < 30 → ltb 40 n ≡ false
    few n h = ground arith

run_with_reconnect-IsBounded_example :
    (t : Reconnect ℕ) × ((run_with_reconnect whole true true cycles fresh ≡ ok t)
      × IsBounded ℕ whole t)
run_with_reconnect-IsBounded_example =
    run_with_reconnect-IsBounded whole whole-IsOrder power true true cycles fresh refl
      (record { capped = omega arith; below = tt })
