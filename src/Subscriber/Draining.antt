-- ===== src/Subscriber/Draining.antt =====
-- faststream_outbox/subscriber/usecase.py: the tasks of one subscriber around its `_inflight` queue.
-- A step is what a task does between two awaits: the fetch loop of `_fetch_inner`, the workers'
-- `get`, `put_nowait` and `task_done`, and `stop`. The tasks interleave as the steps are listed.
pub mod Steady
pub mod Adding
pub mod Claims
pub mod Stops
pub mod Reached
pub mod Joined
use faststream_outbox.Base.{
  ℕ, ◌+◌, ◌-◌, ◌/◌, max, Bool, true, false, not, ◌&&◌, Option, none, some, List, [], ◌∷◌, ◌++◌,
  length, ltb, leb, nat_eqb, if◌then◌else◌,
}

-- Where the fetch loop is: outside a claim, or waiting for the claim lock or the database with the
-- count of free slots that it read.
pub data Fetcher : Type 0 where
  idle : Fetcher
  waiting fetching : (free : ℕ) → Fetcher

-- Where `stop` is: it waits for the claim lock, then for the queue to be joined.
pub data Stopper : Type 0 where
  not_called locking joining drained timed_out cancelled : Stopper

-- `held` counts the rows that workers took without a `task_done` yet, `unfinished` is the queue's
-- own count, and `queue_full` is whether a `put_nowait` has raised.
pub record Loop {ℓ} (R : Type ℓ) : Type ℓ where
  pub maxsize : ℕ
  pub refill_at : ℕ
  pub running : Bool
  pub stopping : Bool
  pub queued : List R
  pub held : ℕ
  pub unfinished : ℕ
  pub fetcher : Fetcher
  pub stopper : Stopper
  pub queue_full : Bool

pub data Step {ℓ} (R : Type ℓ) : Type ℓ where
  check_free take_claim_lock : Step R
  rows_fetched : List R → Step R
  fetch_failed : Step R
  take_row give_back row_done : Step R
  stop_called stop_locks joined drain_times_out cancel_tasks : Step R

-- After `start`, with the queue of `__init__`.
unfoldable pub started {ℓ} : {R : Type ℓ} → ℕ → Loop R
started fetch_batch_size = record {
  maxsize = fetch_batch_size;
  refill_at = max 1 (fetch_batch_size / 2);
  running = true;
  stopping = false;
  queued = [];
  held = 0;
  unfinished = 0;
  fetcher = Fetcher.idle;
  stopper = Stopper.not_called;
  queue_full = false;
}

module _ {ℓ} {R : Type ℓ} where
  abbrev pub free : Loop R → ℕ
  free s = s.maxsize - length s.queued

  unfoldable pub put_nowait : R → Loop R → Loop R
  put_nowait row s =
      if leb s.maxsize (length s.queued)
      then record s { queue_full = true }
      else record s { queued = s.queued ++ row ∷ []; unfinished = s.unfinished + 1 }

  unfoldable pub put_each : List R → Loop R → Loop R
  unfolding put_nowait
  put_each [] s = s
  put_each (row ∷ rows) s = put_each rows (put_nowait row s)

  abbrev pub task_done : Loop R → Loop R
  task_done s = record s { unfinished = s.unfinished - 1 }

  abbrev pub allowed : Bool → Loop R → Option (Loop R)
  allowed b s = if b then some s else none

  -- A turn of the fetch loop, from its test to the wait for the lock.
  unfoldable pub check : Fetcher → Loop R → Option (Loop R)
  check Fetcher.idle s =
      allowed (s.running && not s.stopping && leb s.refill_at (free s))
        (record s { fetcher = Fetcher.waiting (free s) })
  check _ s = none

  unfoldable pub lock : Fetcher → Loop R → Option (Loop R)
  lock (Fetcher.waiting n) s =
      some (record s { fetcher = if s.stopping then Fetcher.idle else Fetcher.fetching n })
  lock _ s = none

  -- A fetch answers at most as many rows as its limit.
  unfoldable pub enqueue : List R → Fetcher → Loop R → Option (Loop R)
  unfolding put_each
  enqueue rows (Fetcher.fetching n) s =
      allowed (leb (length rows) n) (record (put_each rows s) { fetcher = Fetcher.idle })
  enqueue rows _ s = none

  unfoldable pub take : List R → Loop R → Option (Loop R)
  take [] s = none
  take (row ∷ rows) s = allowed s.running (record s { queued = rows; held = s.held + 1 })

  -- A worker with a stale writer: `get`, `put_nowait` and `task_done`, without an await between.
  unfoldable pub give_back_row : List R → Loop R → Option (Loop R)
  unfolding put_nowait
  give_back_row [] s = none
  give_back_row (row ∷ rows) s =
      allowed s.running (task_done (put_nowait row (record s { queued = rows })))

  -- `async with self._claim_lock: pass` goes through while no claim holds the lock.
  unfoldable pub pass_lock : Stopper → Fetcher → Loop R → Option (Loop R)
  pass_lock Stopper.locking (Fetcher.fetching n) s = none
  pass_lock Stopper.locking _ s = some (record s { stopper = Stopper.joining })
  pass_lock _ f s = none

  unfoldable pub join : Stopper → Loop R → Option (Loop R)
  join Stopper.joining s = allowed (nat_eqb s.unfinished 0) (record s { stopper = Stopper.drained })
  join _ s = none

  unfoldable pub time_out : Stopper → Loop R → Option (Loop R)
  time_out Stopper.locking s = some (record s { stopper = Stopper.timed_out })
  time_out Stopper.joining s = some (record s { stopper = Stopper.timed_out })
  time_out _ s = none

  -- The end of `stop`: the tasks are cancelled, and the queue is a new one.
  abbrev pub reset : Loop R → Loop R
  reset s = record s {
    running = false;
    queued = [];
    held = 0;
    unfinished = 0;
    fetcher = Fetcher.idle;
    stopper = Stopper.cancelled;
  }

  unfoldable pub cancel : Stopper → Loop R → Option (Loop R)
  cancel Stopper.drained s = some (reset s)
  cancel Stopper.timed_out s = some (reset s)
  cancel _ s = none

  abbrev pub stop : Stopper → Loop R → Option (Loop R)
  stop Stopper.not_called s = some (record s { stopping = true; stopper = Stopper.locking })
  stop _ s = none

  -- None where the task is not at that point.
  unfoldable pub step : Step R → Loop R → Option (Loop R)
  unfolding check lock enqueue take give_back_row pass_lock join time_out cancel
  step Step.check_free s = check s.fetcher s
  step Step.take_claim_lock s = lock s.fetcher s
  step (Step.rows_fetched rows) s = enqueue rows s.fetcher s
  step Step.fetch_failed s = elim s.fetcher [
    | Fetcher.idle ↦ none
    | _ ↦ some (record s { fetcher = Fetcher.idle })
  ]
  step Step.take_row s = take s.queued s
  step Step.give_back s = give_back_row s.queued s
  step Step.row_done s = allowed (ltb 0 s.held) (task_done (record s { held = s.held - 1 }))
  step Step.stop_called s = stop s.stopper s
  step Step.stop_locks s = pass_lock s.stopper s.fetcher s
  step Step.joined s = join s.stopper s
  step Step.drain_times_out s = time_out s.stopper s
  step Step.cancel_tasks s = cancel s.stopper s

  unfoldable pub run : List (Step R) → Loop R → Option (Loop R)
  unfolding step
  run [] s = some s
  run (e ∷ es) s = elim (step e s) [ none ↦ none | some s' ↦ run es s' ]
