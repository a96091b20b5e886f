-- ===== src/Subscriber/Worker/Balance.antt =====
-- The drain barrier of faststream_outbox/subscriber/usecase.py: `stop` waits on `_inflight.join()`,
-- which needs one `task_done` for each row that a worker takes.
use faststream_outbox.Base.{
  ℕ, ◌+◌, ◌≡◌, Bool, true, false, ◌&&◌, some, List, [], ◌∷◌, Result, ok, raise, Error, length,
  Bool-cases, inl, inr, arith,
}
use faststream_outbox.Subscriber.Types.{LeaseClient, Phase, Config, PendingFlush, World, answered}
use faststream_outbox.Subscriber.Dispatch.{dispatch_one}
use faststream_outbox.Subscriber.Buffering.{
  flush_buffer, report_flushed, report_abandoned, pairs_of, flushed, landed,
}
use faststream_outbox.Subscriber.Closing.{awaited}
use faststream_outbox.Subscriber.Batch.{lost-keeps, abandoned-keeps}
use faststream_outbox.Subscriber.Frame.{dispatch_one-Framed}
use faststream_outbox.Subscriber.Worker.{
  Turn, dispatched_row, is_due, flush_due, recycle, taken_turn, idle_turn, turn, exit_with, leave,
  after_turn, worker_inner,
}

-- Of the rows taken since the counts `k`, those that are not buffered are done.
abbrev pub Balanced {ℓ} : {S : Type ℓ} → ℕ → ℕ × ℕ → World S → Type 0
Balanced n k w = w.done + n + k.0 ≡ w.taken + k.1

module _ {ℓ} {S : Type ℓ} (cfg : Config) (client : LeaseClient S) (has_writer running : Bool)
    (k : ℕ × ℕ) where
  report_flushed-done :
      (deleted : List (ℕ × ℕ)) (buffer : List PendingFlush) (w : World S)
      → Balanced (length buffer) k w
      → Balanced 0 k (report_flushed cfg client has_writer running deleted buffer w)
  unfolding report_flushed
  report_flushed-done deleted [] w h = h
  report_flushed-done deleted (p ∷ ps) w h =
      elim (Bool-cases (landed cfg client has_writer running p.row deleted)) [
        | inl e ↦ rw (e, report_flushed) (report_flushed-done deleted ps _ (omega (arith, h)))
        | inr e ↦
            rw (e, report_flushed)
              (report_flushed-done deleted ps _
                (ground (arith, lost-keeps cfg client has_writer running Phase.terminal p.row w)))
      ]

  report_abandoned-done :
      (buffer : List PendingFlush) (w : World S)
      → Balanced (length buffer) k w
      → Balanced 0 k (report_abandoned cfg client has_writer running buffer w)
  unfolding report_abandoned
  report_abandoned-done [] w h = h
  report_abandoned-done (p ∷ ps) w h =
      report_abandoned-done ps _
        (ground (arith, abandoned-keeps cfg client has_writer running p.row w))

  flushed-done :
      (buffer : List PendingFlush) (a : S × Result (List (ℕ × ℕ))) (w : World S)
      → Balanced (length buffer) k w
      → Balanced 0 k (flushed cfg client has_writer running buffer a w).0
  unfolding flushed
  flushed-done buffer (s, ok deleted) w h = report_flushed-done deleted buffer (answered s w) h
  flushed-done buffer (s, raise e) w h = report_abandoned-done buffer (answered s w) h

  flush_buffer-done :
      (buffer : List PendingFlush) (w : World S)
      → Balanced (length buffer) k w
      → Balanced 0 k (flush_buffer cfg client has_writer running buffer w).0
  unfolding flush_buffer
  flush_buffer-done [] w h = h
  flush_buffer-done (p ∷ ps) w h =
      flushed-done (p ∷ ps)
        (client.delete_batch_with_lease (pairs_of cfg client has_writer running (p ∷ ps)) w.client)
        w h

  -- A turn's buffer and its counts.
  abbrev After : List PendingFlush × (World S × Result (Unit {0})) → Type 0
  After a = Balanced (length a.0) k a.1.0

  dispatched_row-done :
      (a : List PendingFlush × (World S × Result Bool))
      → a.1.0.done + length a.0 + k.0 + 1 ≡ a.1.0.taken + k.1 + awaited a.1.1
      → After (dispatched_row cfg client has_writer running a)
  unfolding dispatched_row
  dispatched_row-done (b, (w, ok true)) h = omega (arith, h)
  dispatched_row-done (b, (w, ok false)) h = omega (arith, h)
  dispatched_row-done (b, (w, raise Error.config_error)) h = omega (arith, h)
  dispatched_row-done (b, (w, raise e)) h = omega (arith, h)

  flush_due-done :
      (monotonic : ℕ) (a : List PendingFlush × (World S × Result (Unit {0})))
      → After a
      → After (flush_due cfg client has_writer running monotonic a)
  unfolding flush_due
  flush_due-done m (b, (w, raise e)) h = h
  flush_due-done m (b, (w, ok u)) h = elim (Bool-cases (is_due cfg client has_writer running m b)) [
    | inl e ↦ rw (e, flush_due) (flush_buffer-done b w h)
    | inr e ↦ rw (e, flush_due) h
  ]

  recycle-done :
      (a : World S × Result (Unit {0}))
      → Balanced 0 k a.0
      → After (recycle cfg client has_writer running a)
  unfolding recycle
  recycle-done (w, raise e) h = h
  recycle-done (w, ok u) h = h

  taken_turn-done :
      (t : Turn S) (buffer : List PendingFlush) (w : World S)
      → Balanced (length buffer) k w
      → After (taken_turn cfg client has_writer running t buffer w)
  unfolding taken_turn
  taken_turn-done t buffer w h = elim (Bool-cases (has_writer && t.stale)) [
    | inl e ↦ rw e (
        recycle-done _ (
          flush_buffer-done buffer
            (record w { taken = w.taken + 1; requeued = w.requeued + 1; done = w.done + 1 })
            (omega (arith, h))))
    | inr e ↦ rw e (
        flush_due-done t.monotonic _ (
          dispatched_row-done dispatched (
            ground (
              arith,
              h,
              dispatch_one-Framed cfg client has_writer running t.consume t.now t.duration t.row
                  (some buffer) (record w { taken = w.taken + 1 }),
            ))))
  ]
    where
      dispatched : List PendingFlush × (World S × Result Bool)
      dispatched =
          dispatch_one cfg client has_writer running t.consume t.now t.duration t.row (some buffer)
            (record w { taken = w.taken + 1 })

  idle_turn-done :
      (t : Turn S) (a : World S × Result (Unit {0}))
      → Balanced 0 k a.0
      → After (idle_turn cfg client has_writer running t a)
  unfolding idle_turn
  idle_turn-done t (w, raise e) h = h
  idle_turn-done t (w, ok u) h = taken_turn-done t [] w h

  turn-done :
      (t : Turn S) (buffer : List PendingFlush) (w : World S)
      → Balanced (length buffer) k w
      → After (turn cfg client has_writer running t buffer w)
  unfolding turn
  turn-done t buffer w h = elim (Bool-cases t.idle) [
    | inl e ↦ rw e (idle_turn-done t _ (flush_buffer-done buffer w h))
    | inr e ↦ rw e (taken_turn-done t buffer w h)
  ]

  leave-done :
      (end : Result (Unit {0})) (buffer : List PendingFlush) (w : World S)
      → Balanced (length buffer) k w
      → Balanced 0 k (leave cfg client has_writer running end buffer w).0
  unfolding leave
  leave-done end buffer w h =
      kept (flush_buffer cfg client has_writer running buffer w) (flush_buffer-done buffer w h)
    where
      kept :
          (a : World S × Result (Unit {0}))
          → Balanced 0 k a.0
          → Balanced 0 k (exit_with cfg client has_writer running end a).0
      kept (w, ok u) h = unfold exit_with in h
      kept (w, raise e) h = unfold exit_with in h

  after_turn-done :
      (continue : List PendingFlush → World S → World S × Result (Unit {0}))
      → ((b : List PendingFlush) (w : World S)
          → Balanced (length b) k w
          → Balanced 0 k (continue b w).0)
      → (a : List PendingFlush × (World S × Result (Unit {0}))) → After a
      → Balanced 0 k (after_turn cfg client has_writer running continue a).0
  unfolding after_turn
  after_turn-done continue f (b, (w, ok u)) h = f b w h
  after_turn-done continue f (b, (w, raise e)) h = leave-done (raise e) b w h

  worker_inner-done :
      (end : Result (Unit {0})) (ts : List (Turn S)) (buffer : List PendingFlush) (w : World S)
      → Balanced (length buffer) k w
      → Balanced 0 k (worker_inner cfg client has_writer running end ts buffer w).0
  unfolding worker_inner
  worker_inner-done end [] buffer w h = leave-done end buffer w h
  worker_inner-done end (t ∷ ts) buffer w h =
      after_turn-done (λ b w. worker_inner cfg client has_writer running end ts b w)
        (λ b w g. worker_inner-done end ts b w g) (turn cfg client has_writer running t buffer w)
        (turn-done t buffer w h)

-- A worker loop that starts with nothing buffered calls task_done exactly as often as it takes a
-- row off the in-flight queue, however its turns go and however it ends: handlers and statements
-- may raise or be cancelled, the writer may be recycled, and the flush on exit may fail. Both are
-- counted over the whole loop.
pub worker_inner-balance {ℓ} :
    {S : Type ℓ} (cfg : Config) (client : LeaseClient S) (has_writer running : Bool)
    (end : Result (Unit {0})) (ts : List (Turn S)) (w : World S)
    → let w' = (worker_inner cfg client has_writer running end ts [] w).0 in
      w'.done + w.taken ≡ w.done + w'.taken
worker_inner-balance cfg client has_writer running end ts w = omega (
  arith,
  worker_inner-done cfg client has_writer running (w.taken, w.done) end ts [] w (omega arith),
)
