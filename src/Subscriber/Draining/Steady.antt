-- ===== src/Subscriber/Draining/Steady.antt =====
-- faststream_outbox/subscriber/usecase.py: what holds of the tasks of a subscriber at every moment.
use faststream_outbox.Base.{
  ℕ, ◌+◌, ◌≤◌, ◌≡◌, refl, Bool, true, false, not, ◌&&◌, Option, none, some, length, ltb,
}
use faststream_outbox.Subscriber.Draining.{Fetcher, Stopper, Loop, allowed}

-- The rows that a claim under way may still add.
abbrev pub budget : Fetcher → ℕ
budget Fetcher.idle = 0
budget (Fetcher.waiting n) = n
budget (Fetcher.fetching n) = n

abbrev pub is_claiming : Fetcher → Bool
is_claiming (Fetcher.fetching n) = true
is_claiming _ = false

abbrev pub is_called : Stopper → Bool
is_called Stopper.not_called = false
is_called _ = true

-- No claim runs any more.
abbrev pub is_past_lock : Stopper → Bool
is_past_lock Stopper.joining = true
is_past_lock Stopper.drained = true
is_past_lock Stopper.cancelled = true
is_past_lock _ = false

abbrev pub is_drained : Stopper → Bool
is_drained Stopper.drained = true
is_drained Stopper.cancelled = true
is_drained _ = false

pub past_called : (p : Stopper) → (is_past_lock p && not (is_called p)) ≡ false
past_called Stopper.not_called = refl
past_called Stopper.locking = refl
past_called Stopper.joining = refl
past_called Stopper.drained = refl
past_called Stopper.timed_out = refl
past_called Stopper.cancelled = refl

pub drained_past : (p : Stopper) → (is_drained p && not (is_past_lock p)) ≡ false
drained_past Stopper.not_called = refl
drained_past Stopper.locking = refl
drained_past Stopper.joining = refl
drained_past Stopper.drained = refl
drained_past Stopper.timed_out = refl
drained_past Stopper.cancelled = refl

module _ {ℓ} {R : Type ℓ} where
  pub record IsSteady (s : Loop R) : Type ℓ where
    pub fits : length s.queued + budget s.fetcher ≤ s.maxsize
    pub balanced : s.unfinished ≡ length s.queued + s.held
    pub never_full : s.queue_full ≡ false
    pub called : (is_called s.stopper && not s.stopping) ≡ false
    pub halted : (is_past_lock s.stopper && is_claiming s.fetcher) ≡ false
    pub empty : (is_drained s.stopper && ltb 0 (length s.queued + s.held)) ≡ false

  abbrev pub Steady : Option (Loop R) → Type ℓ
  Steady none = Unit
  Steady (some s) = IsSteady s

  pub allowed-Steady : (b : Bool) (s : Loop R) → (b ≡ true → IsSteady s) → Steady (allowed b s)
  allowed-Steady true s h = h refl
  allowed-Steady false s h = tt
