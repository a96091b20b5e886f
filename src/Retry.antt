-- ===== src/Retry.antt =====
-- faststream_outbox/retry.py: the retry strategies. Floats are a parameter, with the operations and
-- the comparisons that the code uses; `uniform` draws the jitter. A NaN has no place in `Floats`:
-- its comparison is a total order.
pub mod Bounds
use faststream_outbox.Base.{
  ℕ, ◌-◌, ◌≡◌, Bool, true, false, not, ◌&&◌, ◌||◌, Option, none, some, Result, ok, raise, Error,
  raise_if, ◌>>=◌, ◌>>◌, ltb, leb, if◌then◌else◌, max,
}

pub record Floats (F : Type 0) : Type 0 where
  pub add : F → F → F
  pub mul : F → F → F
  pub pow : F → ℕ → Result F
  pub of_ℕ : ℕ → F
  pub seconds : ℕ → ℕ → F
  pub lt : F → F → Bool
  pub nil : F → Bool
  pub half : F → F
  pub negate : F → F
  pub max_delay_seconds : F
  pub max_jitter_factor : F

-- The knobs of `_RetryStrategyTemplate`, and those of the strategy on it.
pub record Template (F : Type 0) : Type 0 where
  pub max_attempts : Option ℕ
  pub max_total_delay_seconds : Option F

pub data Strategy (F : Type 0) : Type 0 where
  no_retry : Strategy F
  constant : F → F → Strategy F
  linear : F → F → F → Strategy F
  exponential : F → F → Option F → F → Strategy F

module _ {F : Type 0} (f : Floats F) where
  abbrev pub zero_float : F
  zero_float = f.of_ℕ 0

  abbrev pub positive : F → Bool
  positive x = f.lt zero_float x

  -- Python's `min(a, b)`.
  abbrev pub min_float : F → F → F
  min_float a b = if f.lt b a then b else a

  unfoldable pub validate_jitter_factor : F → Result (Unit {0})
  validate_jitter_factor j =
      raise_if (f.lt j zero_float || f.lt f.max_jitter_factor j) Error.value_error

  -- A knob that may be unset.
  abbrev pub unset_or : (F → Bool) → Option F → Bool
  unset_or p none = true
  unset_or p (some x) = p x

  abbrev pub at_least_one : Option ℕ → Bool
  at_least_one none = true
  at_least_one (some n) = leb 1 n

  -- `__post_init__` of the template, then of the strategy.
  unfoldable pub validate_template : Template F → Result (Unit {0})
  validate_template t = do
    raise_if (not (at_least_one t.max_attempts)) Error.value_error
    raise_if (not (unset_or positive t.max_total_delay_seconds)) Error.value_error

  unfoldable pub post_init : Template F → Strategy F → Result (Unit {0})
  unfolding validate_template validate_jitter_factor
  post_init t no_retry = ok tt
  post_init t (constant delay jitter) = do
    validate_template t
    raise_if (not (positive delay)) Error.value_error
    validate_jitter_factor jitter
  post_init t (linear initial step jitter) = do
    validate_template t
    raise_if (not (positive initial)) Error.value_error
    raise_if (f.lt step zero_float) Error.value_error
    validate_jitter_factor jitter
  post_init t (exponential initial multiplier max_delay jitter) = do
    validate_template t
    raise_if (not (positive initial)) Error.value_error
    raise_if (not (positive multiplier)) Error.value_error
    raise_if (not (unset_or positive max_delay)) Error.value_error
    validate_jitter_factor jitter

  module _ (uniform : F → F → F) where
    unfoldable pub jittered : F → F → F
    jittered jitter delay =
        if f.nil jitter
        then delay
        else f.mul delay (f.add (f.of_ℕ 1) (uniform (f.negate (f.half jitter)) (f.half jitter)))

    abbrev pub clamped : Option F → F → F
    clamped none delay = delay
    clamped (some m) delay = min_float delay m

    -- The power of an unbounded exponential overflows in the end; any other error passes.
    unfoldable pub grown : F → Result F → Result F
    grown initial (ok p) = ok (f.mul initial p)
    grown initial (raise Error.overflow_error) = ok f.max_delay_seconds
    grown initial (raise e) = raise e

    -- `_delay_seconds` of each strategy; NoRetry has none.
    unfoldable pub delay_seconds : Strategy F → ℕ → Result (Option F)
    unfolding jittered grown
    delay_seconds no_retry attempts = ok none
    delay_seconds (constant delay jitter) attempts = ok (some (jittered jitter delay))
    delay_seconds (linear initial step jitter) attempts =
        ok (some (jittered jitter (f.add initial (f.mul step (f.of_ℕ (attempts - 1))))))
    delay_seconds (exponential initial multiplier max_delay jitter) attempts = do
      delay ← grown initial (f.pow multiplier (attempts - 1))
      ok (some (min_float (clamped max_delay (jittered jitter delay)) f.max_delay_seconds))

    abbrev pub exhausted : Option ℕ → ℕ → Bool
    exhausted none attempts = false
    exhausted (some n) attempts = leb n attempts

    -- The budget `max_total_delay_seconds` is overrun.
    abbrev pub overrun : Option F → ℕ → ℕ → F → Bool
    overrun none first last delay = false
    overrun (some budget) first last delay = f.lt budget (f.add (f.seconds first last) delay)

    abbrev pub within : Option F → ℕ → ℕ → Option F → Option F
    within budget first last none = none
    within budget first last (some delay) =
        if overrun budget first last delay then none else some delay

    -- `get_next_attempt_delay`; NoRetry reads no knob.
    unfoldable pub get_next_attempt_delay : Template F → Strategy F → ℕ → ℕ → ℕ → Result (Option F)
    unfolding delay_seconds
    get_next_attempt_delay t s first last attempts =
        let delay = delay_seconds s attempts in
        if exhausted t.max_attempts attempts
        then ok none
        else (do d ← delay; ok (within t.max_total_delay_seconds first last d))
