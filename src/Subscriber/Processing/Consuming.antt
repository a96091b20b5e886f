-- ===== src/Subscriber/Processing/Consuming.antt =====
-- What of a handler's errors leaves `consume`, and how the exception reaches the retry strategy.
use faststream_outbox.Base.{
  ◌≡◌, ◌≢◌, ◌↔◌, ◌⊎◌, refl, inl, inr, Bool, true, false, Option, none, Result, ok, raise, Error,
  is_exception, arith, ap,
}
use faststream_outbox.Subscriber.Processing.{Reply, Run, carry, after_process, consume}

-- What passes: the configuration error, and what is neither an Exception nor a SystemExit.
abbrev pub Passes : Error → Type 0
Passes e = (e ≡ Error.config_error) ⊎ ((is_exception e ≡ false) × (e ≢ Error.system_exit))

kept_inside :
    (x e : Error)
    → is_exception x ≡ true
    → x ≢ Error.config_error
    → ◌≡◌ {A = Result Reply} (raise x) (raise e)
    → ¬ Passes e
kept_inside x e caught other same (inl c) = other (ground (arith, same, c))
kept_inside x e caught other same (inr (n, k)) =
    let met : x ≡ e = ground (arith, same) in absurd (ground (arith, ap is_exception met))

exit_inside : (e : Error) → ◌≡◌ {A = Result Reply} (raise Error.system_exit) (raise e) → ¬ Passes e
exit_inside e same (inl c) = absurd (ground (arith, same, c))
exit_inside e same (inr (n, k)) = k (ground (arith, same))

module _ {ℓ} {S : Type ℓ} (stop : Bool → Run S → Run S × Result (Unit {0})) where
  stopped :
      (p : Run S × Result (Unit {0})) {e : Error}
      → p.1 ≡ ok tt
      → (carry {B = Option Reply} (λ _ r. (r, ok none)) p).1 ≢ raise e
  stopped (r, ok u) h k = ground (arith, k)
  stopped (r, raise x) h k = ground (arith, h)

  -- If `stop` raises nothing, an error leaves `consume` exactly if `process_message` raised it and it is
  -- the configuration error, or neither an Exception nor a SystemExit. Every other error stays inside:
  -- a SystemExit, and each Exception but the configuration error.
  pub consume-raises_iff :
      (process : Run S → Run S × Result Reply) (r : Run S) (e : Error)
      → ((exit_app : Bool) (q : Run S) → (stop exit_app q).1 ≡ ok tt)
      → ((consume true stop process r).1 ≡ raise e) ↔ (((process r).1 ≡ raise e) × Passes e)
  unfolding consume
  consume-raises_iff process r e quiet = after (process r)
    where
      after :
          (p : Run S × Result Reply)
          → ((after_process stop p).1 ≡ raise e) ↔ ((p.1 ≡ raise e) × Passes e)
      after (q, ok reply) = (λ h. absurd (ground (arith, h)), λ h. absurd (ground (arith, h.0)))
      after (q, raise Error.config_error) =
          (λ h. (ground (arith, h), inl (ground (arith, h))), λ h. ground (arith, h.0))
      after (q, raise Error.stop_consume) = (
        λ h. absurd (stopped (stop false q) (quiet false q) h),
        λ h. absurd (kept_inside Error.stop_consume e refl (λ k. ground (arith, k)) h.0 h.1),
      )
      after (q, raise Error.system_exit) = (
        λ h. absurd (stopped (stop true q) (quiet true q) h),
        λ h. absurd (exit_inside e h.0 h.1),
      )
      after (q, raise Error.cancelled_error) = (
        λ h. (ground (arith, h), inr (ground (arith, h), λ k. ground (arith, h, k))),
        λ h. ground (arith, h.0),
      )
      after (q, raise x) = (
        λ h. absurd (ground (arith, h)),
        λ h. absurd (kept_inside x e (ground arith) (λ k. ground (arith, k)) h.0 h.1),
      )
