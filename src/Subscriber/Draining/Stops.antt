-- ===== src/Subscriber/Draining/Stops.antt =====
-- faststream_outbox/subscriber/usecase.py: the steps of `stop` keep what holds of the tasks.
use faststream_outbox.Base.{◌≡◌, true, arith}
use faststream_outbox.Subscriber.Draining.{
  Fetcher, Stopper, Loop, pass_lock, join, time_out, reset, cancel, stop,
}
use faststream_outbox.Subscriber.Draining.Steady.{IsSteady, Steady, allowed-Steady, is_called}

module _ {ℓ} {R : Type ℓ} where
  pub pass_lock-Steady :
      (p : Stopper) (f : Fetcher) (s : Loop R)
      → s.stopper ≡ p
      → s.fetcher ≡ f
      → IsSteady s
      → Steady (pass_lock p f s)
  unfolding pass_lock
  pass_lock-Steady Stopper.locking (Fetcher.fetching n) s e k h = tt
  pass_lock-Steady Stopper.locking Fetcher.idle s e k h = record {
    fits = h.fits;
    balanced = h.balanced;
    never_full = h.never_full;
    called = ground (arith, h.called, e);
    halted = ground (arith, k);
    empty = ground arith;
  }
  pass_lock-Steady Stopper.locking (Fetcher.waiting n) s e k h = record {
    fits = h.fits;
    balanced = h.balanced;
    never_full = h.never_full;
    called = ground (arith, h.called, e);
    halted = ground (arith, k);
    empty = ground arith;
  }
  pass_lock-Steady Stopper.not_called f s e k h = tt
  pass_lock-Steady Stopper.joining f s e k h = tt
  pass_lock-Steady Stopper.drained f s e k h = tt
  pass_lock-Steady Stopper.timed_out f s e k h = tt
  pass_lock-Steady Stopper.cancelled f s e k h = tt

  pub join-Steady : (p : Stopper) (s : Loop R) → s.stopper ≡ p → IsSteady s → Steady (join p s)
  unfolding join
  join-Steady Stopper.joining s e h = allowed-Steady _ _ (λ g. record {
    fits = h.fits;
    balanced = h.balanced;
    never_full = h.never_full;
    called = ground (arith, h.called, e);
    halted = ground (arith, h.halted, e);
    empty = ground (arith, h.balanced, g);
  })
  join-Steady Stopper.not_called s e h = tt
  join-Steady Stopper.locking s e h = tt
  join-Steady Stopper.drained s e h = tt
  join-Steady Stopper.timed_out s e h = tt
  join-Steady Stopper.cancelled s e h = tt

  pub time_out-Steady :
      (p : Stopper) (s : Loop R) → s.stopper ≡ p → IsSteady s → Steady (time_out p s)
  unfolding time_out
  time_out-Steady Stopper.locking s e h = record {
    fits = h.fits;
    balanced = h.balanced;
    never_full = h.never_full;
    called = ground (arith, h.called, e);
    halted = ground arith;
    empty = ground arith;
  }
  time_out-Steady Stopper.joining s e h = record {
    fits = h.fits;
    balanced = h.balanced;
    never_full = h.never_full;
    called = ground (arith, h.called, e);
    halted = ground arith;
    empty = ground arith;
  }
  time_out-Steady Stopper.not_called s e h = tt
  time_out-Steady Stopper.drained s e h = tt
  time_out-Steady Stopper.timed_out s e h = tt
  time_out-Steady Stopper.cancelled s e h = tt

  reset-IsSteady : (s : Loop R) → (is_called s.stopper ≡ true) → IsSteady s → IsSteady (reset s)
  reset-IsSteady s e h = record {
    fits = omega arith;
    balanced = omega arith;
    never_full = h.never_full;
    called = ground (arith, h.called, e);
    halted = ground arith;
    empty = ground arith;
  }

  pub cancel-Steady : (p : Stopper) (s : Loop R) → s.stopper ≡ p → IsSteady s → Steady (cancel p s)
  unfolding cancel
  cancel-Steady Stopper.drained s e h = reset-IsSteady s (ground (arith, e)) h
  cancel-Steady Stopper.timed_out s e h = reset-IsSteady s (ground (arith, e)) h
  cancel-Steady Stopper.not_called s e h = tt
  cancel-Steady Stopper.locking s e h = tt
  cancel-Steady Stopper.joining s e h = tt
  cancel-Steady Stopper.cancelled s e h = tt

  pub stop-Steady : (p : Stopper) (s : Loop R) → s.stopper ≡ p → IsSteady s → Steady (stop p s)
  stop-Steady Stopper.not_called s e h = record {
    fits = h.fits;
    balanced = h.balanced;
    never_full = h.never_full;
    called = ground arith;
    halted = ground arith;
    empty = ground arith;
  }
  stop-Steady Stopper.locking s e h = tt
  stop-Steady Stopper.joining s e h = tt
  stop-Steady Stopper.drained s e h = tt
  stop-Steady Stopper.timed_out s e h = tt
  stop-Steady Stopper.cancelled s e h = tt
