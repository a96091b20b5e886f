-- ===== src/Subscriber/Reconnect/Backoff.antt =====
-- faststream_outbox/subscriber/usecase.py: the backoff of `_run_with_reconnect` stays in its bounds.
use faststream_outbox.Base.{
  ℕ, ◌+◌, ◌-◌, ◌≤◌, ◌<◌, ◌≡◌, refl, Bool, true, false, not, ◌&&◌, ◌||◌, List, [], ◌∷◌, ◌++◌, Result,
  ok, min, if◌then◌else◌, All, All-append, any, Bool-cases, inl, inr, arith,
}
use faststream_outbox.Retry.{Floats, min_float}
use faststream_outbox.Retry.Bounds.{IsOrder, min-right}
use faststream_outbox.Subscriber.Reconnect.{
  Ended, Cycle, Reconnect, backoff_max_seconds, backoff_exp_cap, compute_backoff, back_off,
  end_cycle, run_with_reconnect, was_healthy,
}

abbrev pub ends_by_cancellation : Ended → Bool
ends_by_cancellation Ended.cancelled = true
ends_by_cancellation _ = false

abbrev pub is_cancelled : {F : Type 0} → Cycle F → Bool
is_cancelled c = ends_by_cancellation c.ended

-- The attempts are capped, and no delay exceeds the ceiling.
pub record IsBounded (F : Type 0) (f : Floats F) (s : Reconnect F) : Type 0 where
  pub capped : s.error_attempt ≤ backoff_exp_cap
  pub below : All (λ d. f.lt (f.of_ℕ backoff_max_seconds) d ≡ false) s.sleeps

module _ {F : Type 0} (f : Floats F) (o : IsOrder F f)
    (powers : (n : ℕ) → n < backoff_exp_cap → (p : F) × (f.pow (f.of_ℕ 2) n ≡ ok p)) where
  attempts :
      (n : ℕ)
      → (min (n + 1) backoff_exp_cap - 1 < backoff_exp_cap)
        × (min (n + 1) backoff_exp_cap ≤ backoff_exp_cap)
  attempts n = (omega arith, omega arith)

  abbrev Continues : Result (Reconnect F) → Type 0
  Continues r = (t : Reconnect F) × ((r ≡ ok t) × IsBounded F f t)

  back_off-Continues :
      (recycle : Bool) (c : Cycle F) (s : Reconnect F)
      → IsBounded F f s
      → Continues (back_off f recycle c s)
  unfolding back_off compute_backoff
  back_off-Continues recycle c s h =
      let before = if was_healthy c.started c.ended_at then 0 else s.error_attempt in
      let p = powers (min (before + 1) backoff_exp_cap - 1) (attempts before).0 in
      let d = min_float f (f.mul (f.mul (f.of_ℕ 1) p.0) c.jitter) (f.of_ℕ backoff_max_seconds) in
      (
        record {
          error_attempt = min (before + 1) backoff_exp_cap;
          fetch_generation = if recycle then s.fetch_generation + 1 else s.fetch_generation;
          sleeps = s.sleeps ++ d ∷ [];
        },
        (
          rw (p.1, back_off, compute_backoff) refl,
          record {
            capped = (attempts before).1;
            below =
                All-append (λ x. f.lt (f.of_ℕ backoff_max_seconds) x ≡ false) s.sleeps (d ∷ [])
                  h.below
                  (
                    min-right f o (f.mul (f.mul (f.of_ℕ 1) p.0) c.jitter)
                        (f.of_ℕ backoff_max_seconds),
                    tt,
                  );
          },
        ),
      )

  end_cycle-Continues :
      (recycle : Bool) (e : Ended) (c : Cycle F) (s : Reconnect F)
      → ends_by_cancellation e ≡ false
      → IsBounded F f s
      → Continues (end_cycle f recycle e c s)
  unfolding end_cycle
  end_cycle-Continues recycle Ended.returned c s n h = (s, (refl, h))
  end_cycle-Continues recycle Ended.stale_writer c s n h = (s, (refl, h))
  end_cycle-Continues recycle Ended.failed c s n h = back_off-Continues recycle c s h
  end_cycle-Continues recycle Ended.cancelled c s n h = absurd (ground (arith, n))

  -- Whatever the cycles meet, short of a cancellation, the loop raises nothing: its exponents stay
  -- where powers of two do not overflow, and no delay is above the ceiling of 30 seconds.
  pub run_with_reconnect-IsBounded :
      (halt recycle : Bool) (cs : List (Cycle F)) (s : Reconnect F)
      → any is_cancelled cs ≡ false
      → IsBounded F f s
      → (t : Reconnect F) × ((run_with_reconnect f halt recycle cs s ≡ ok t) × IsBounded F f t)
  unfolding run_with_reconnect
  run_with_reconnect-IsBounded halt recycle [] s n h = (s, (refl, h))
  run_with_reconnect-IsBounded halt recycle (c ∷ cs) s n h =
      elim (Bool-cases (not (c.running && not (halt && c.stopping)) || not c.client)) [
        | inl e ↦ (s, (rw (e, run_with_reconnect) refl, h))
        | inr e ↦
            let (t, k) = end_cycle-Continues recycle c.ended c s (ground (arith, n)) h in
            let (u, l) = run_with_reconnect-IsBounded halt recycle cs t (ground (arith, n)) k.1 in
            (u, (rw (e, k.0, run_with_reconnect) l.0, l.1))
      ]
