-- ===== src/Subscriber/Draining/Reached.antt =====
-- faststream_outbox/subscriber/usecase.py: every step of the fetch loop, the workers and `stop` keeps
-- what holds of the tasks.
use faststream_outbox.Base.{ℕ, ◌≡◌, refl, subst, Option, none, some, List, [], ◌∷◌, arith}
use faststream_outbox.Subscriber.Draining.{Loop, Step, started, step, run}
use faststream_outbox.Subscriber.Draining.Steady.{IsSteady, Steady, allowed-Steady}
use faststream_outbox.Subscriber.Draining.Claims.{
  check-Steady, lock-Steady, enqueue-Steady, take-Steady, give_back-Steady, fail-Steady,
}
use faststream_outbox.Subscriber.Draining.Stops.{
  pass_lock-Steady, join-Steady, time_out-Steady, cancel-Steady, stop-Steady,
}

module _ {ℓ} {R : Type ℓ} where
  step-Steady : (e : Step R) (s : Loop R) → IsSteady s → Steady (step e s)
  unfolding step
  step-Steady Step.check_free s h = check-Steady s.fetcher s refl h
  step-Steady Step.take_claim_lock s h = lock-Steady s.fetcher s refl h
  step-Steady (Step.rows_fetched rows) s h = enqueue-Steady rows s.fetcher s refl h
  step-Steady Step.fetch_failed s h = fail-Steady s.fetcher s refl h
  step-Steady Step.take_row s h = take-Steady s.queued s refl h
  step-Steady Step.give_back s h = give_back-Steady s.queued s refl h
  step-Steady Step.row_done s h = allowed-Steady _ _ (λ g. record {
    fits = h.fits;
    balanced = ground (arith, h.balanced, g);
    never_full = h.never_full;
    called = h.called;
    halted = h.halted;
    empty = ground (arith, h.empty, g);
  })
  step-Steady Step.stop_called s h = stop-Steady s.stopper s refl h
  step-Steady Step.stop_locks s h = pass_lock-Steady s.stopper s.fetcher s refl refl h
  step-Steady Step.joined s h = join-Steady s.stopper s refl h
  step-Steady Step.drain_times_out s h = time_out-Steady s.stopper s refl h
  step-Steady Step.cancel_tasks s h = cancel-Steady s.stopper s refl h

  onward :
      (o : Option (Loop R)) (f : Loop R → Option (Loop R))
      → Steady o
      → ((t : Loop R) → IsSteady t → Steady (f t))
      → Steady (elim o [ none ↦ none | some t ↦ f t ])
  onward none f h k = tt
  onward (some t) f h k = k t h

  run-Steady : (es : List (Step R)) (s : Loop R) → IsSteady s → Steady (run es s)
  unfolding run
  run-Steady [] s h = h
  run-Steady (e ∷ es) s h = onward (step e s) (run es) (step-Steady e s h) (run-Steady es)

started-IsSteady {ℓ} : {R : Type ℓ} (n : ℕ) → IsSteady {R = R} (started n)
unfolding started
started-IsSteady n = record {
  fits = omega arith;
  balanced = omega arith;
  never_full = refl;
  called = refl;
  halted = refl;
  empty = refl;
}

-- However the fetch loop, the workers and `stop` interleave, the queue never holds more rows than its
-- size, those of the claim under way included, so no `put_nowait` raises; the queue's count of
-- unfinished rows is that of the rows queued and held; and once the drain is over no row is queued or
-- held.
pub reached-IsSteady {ℓ} :
    {R : Type ℓ} (fetch_batch_size : ℕ) (steps : List (Step R)) (s : Loop R)
    → run steps (started fetch_batch_size) ≡ some s
    → IsSteady s
reached-IsSteady n steps s h = subst Steady h (run-Steady steps (started n) (started-IsSteady n))
