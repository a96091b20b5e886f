-- ===== src/Subscriber/Worker.antt =====
-- faststream_outbox/subscriber/usecase.py, `_worker_inner`: rows are taken off the in-flight queue,
-- dispatched, and settled. A turn is one pass of its loop, with what the pass sees: whether the
-- queue is empty at first, whether the fetch loop lost its connection, and the clock. The signal
-- that wakes the fetch loop is left out.
pub mod Balance
use faststream_outbox.Base.{
  ℕ, suc, ◌+◌, ◌-◌, ◌*◌, Bool, true, false, not, ◌&&◌, ◌||◌, Option, none, some, List, [], ◌∷◌,
  String, length, Result, ok, raise, Error, is_exception, leb, if◌then◌else◌,
}
use faststream_outbox.Message.Types.{OutboxInnerMessage}
use faststream_outbox.Subscriber.Types.{LeaseClient, Config, PendingFlush, World}
use faststream_outbox.Subscriber.Dispatch.{dispatch_one}
use faststream_outbox.Subscriber.Buffering.{flush_buffer}

pub record Turn {ℓ} (S : Type ℓ) : Type ℓ where
  pub row : OutboxInnerMessage
  pub idle : Bool
  pub stale : Bool
  pub consume : OutboxInnerMessage → S → S × (OutboxInnerMessage × Result (Unit {0}))
  pub now : ℕ
  pub duration : ℕ
  pub monotonic : ℕ

module _ {ℓ} {S : Type ℓ} (cfg : Config) (client : LeaseClient S) (has_writer running : Bool) where
  -- `task_done` for a row that is not buffered, and what the turn's try statement lets pass.
  unfoldable pub dispatched_row :
      List PendingFlush × (World S × Result Bool)
      → List PendingFlush × (World S × Result (Unit {0}))
  dispatched_row (b, (w, ok true)) = (b, (w, ok tt))
  dispatched_row (b, (w, ok false)) = (b, (record w { done = w.done + 1 }, ok tt))
  dispatched_row (b, (w, raise Error.config_error)) = (b, (record w { done = w.done + 1 }, ok tt))
  dispatched_row (b, (w, raise e)) = (b, (record w { done = w.done + 1 }, raise e))

  -- The buffer is full, or its first row is older than half the lease.
  unfoldable pub is_due : ℕ → List PendingFlush → Bool
  is_due monotonic [] = false
  is_due monotonic (p ∷ ps) =
      leb cfg.terminal_flush_batch_size (length (p ∷ ps))
      || leb cfg.lease_ttl (2 * (monotonic - p.row.claimed_at_monotonic))

  unfoldable pub flush_due :
      ℕ
      → List PendingFlush × (World S × Result (Unit {0}))
      → List PendingFlush × (World S × Result (Unit {0}))
  flush_due monotonic (b, (w, raise e)) = (b, (w, raise e))
  flush_due monotonic (b, (w, ok u)) =
      if is_due monotonic b
      then ([], flush_buffer cfg client has_writer running b w)
      else (b, (w, ok u))

  -- A worker whose writer is stale gives the row back, and ends.
  unfoldable pub recycle :
      World S × Result (Unit {0}) → List PendingFlush × (World S × Result (Unit {0}))
  recycle (w, raise e) = ([], (w, raise e))
  recycle (w, ok u) = ([], (w, raise Error.stale_writer_error))

  -- A turn from where the row is taken.
  unfoldable pub taken_turn :
      Turn S → List PendingFlush → World S → List PendingFlush × (World S × Result (Unit {0}))
  unfolding dispatched_row flush_due recycle
  taken_turn t buffer w =
      let w' = record w { taken = w.taken + 1 } in
      if has_writer && t.stale
      then recycle (
          flush_buffer cfg client has_writer running buffer
            (record w' { requeued = w'.requeued + 1; done = w'.done + 1 }))
      else flush_due t.monotonic (
          dispatched_row (
            dispatch_one cfg client has_writer running t.consume t.now t.duration t.row
              (some buffer) w'))

  -- After the flush of an idle worker; an error ends the loop with nothing taken.
  unfoldable pub idle_turn :
      Turn S → World S × Result (Unit {0}) → List PendingFlush × (World S × Result (Unit {0}))
  unfolding taken_turn
  idle_turn t (w, raise e) = ([], (w, raise e))
  idle_turn t (w, ok u) = taken_turn t [] w

  unfoldable pub turn :
      Turn S → List PendingFlush → World S → List PendingFlush × (World S × Result (Unit {0}))
  unfolding taken_turn idle_turn
  turn t buffer w =
      if t.idle
      then idle_turn t (flush_buffer cfg client has_writer running buffer w)
      else taken_turn t buffer w

  -- The finally clause: errors of the flush are dropped, but not a cancellation.
  unfoldable pub exit_with :
      Result (Unit {0}) → World S × Result (Unit {0}) → World S × Result (Unit {0})
  exit_with end (w, ok u) = (w, end)
  exit_with end (w, raise e) = (w, if is_exception e then end else raise e)

  unfoldable pub leave :
      Result (Unit {0}) → List PendingFlush → World S → World S × Result (Unit {0})
  unfolding exit_with
  leave end buffer w = exit_with end (flush_buffer cfg client has_writer running buffer w)

  -- The loop goes on after a turn that raised nothing.
  unfoldable pub after_turn :
      (List PendingFlush → World S → World S × Result (Unit {0}))
      → List PendingFlush × (World S × Result (Unit {0}))
      → World S × Result (Unit {0})
  unfolding leave
  after_turn continue (b, (w, ok u)) = continue b w
  after_turn continue (b, (w, raise e)) = leave (raise e) b w

  -- `end` is how the loop ends when no row is left: stopped, or cancelled at the queue.
  unfoldable pub worker_inner :
      Result (Unit {0}) → List (Turn S) → List PendingFlush → World S → World S × Result (Unit {0})
  unfolding leave turn after_turn
  worker_inner end [] buffer w = leave end buffer w
  worker_inner end (t ∷ ts) buffer w = after_turn (λ b w. worker_inner end ts b w) (turn t buffer w)
