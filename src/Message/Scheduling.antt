-- ===== src/Message/Scheduling.antt =====
-- faststream_outbox/_scheduling.py: `activate_in` and `activate_at` as one activation time.
use faststream_outbox.Base.{
  ℕ, ◌+◌, ◌-◌, ◌≡◌, Bool, false, Option, none, some, ℤ, pos, negsuc, Result, ok, raise, Error,
  ◌>>=◌, ltb, leb, ltb_ℤ, if◌then◌else◌, arith,
}

-- The last `datetime`, in microseconds after the first one.
abbrev pub max_datetime : ℕ
max_datetime = 315537897599999999

-- `t + delta`: Python refuses a result that is no `datetime`.
unfoldable pub shift : ℕ → ℤ → Result ℕ
shift t (pos n) = if leb (t + n) max_datetime then ok (t + n) else raise Error.overflow_error
shift t (negsuc n) = if leb (n + 1) t then ok (t - (n + 1)) else raise Error.overflow_error

unfoldable pub is_future_dated : Option ℤ → Option ℕ → ℕ → Bool
is_future_dated (some activate_in) activate_at now = ltb_ℤ (pos 0) activate_in
is_future_dated none (some activate_at) now = ltb now activate_at
is_future_dated none none now = false

unfoldable pub resolve_next_attempt_client_side : Option ℤ → Option ℕ → ℕ → Result (Option ℕ)
unfolding shift
resolve_next_attempt_client_side (some activate_in) activate_at now = do
  t ← shift now activate_in
  ok (some t)
resolve_next_attempt_client_side none activate_at now = ok activate_at

-- An unset activation time is the present.
abbrev pub is_after : Option ℕ → ℕ → Bool
is_after none now = false
is_after (some t) now = ltb now t

-- A row counts as future-dated exactly if the activation time that its arguments resolve to lies
-- after the present.
pub is_future_dated-resolve :
    (activate_in : Option ℤ) (activate_at : Option ℕ) (now : ℕ) {next : Option ℕ}
    → resolve_next_attempt_client_side activate_in activate_at now ≡ ok next
    → is_future_dated activate_in activate_at now ≡ is_after next now
unfolding is_future_dated resolve_next_attempt_client_side
is_future_dated-resolve (some (pos n)) a now h = ground arith
is_future_dated-resolve (some (negsuc n)) a now h = ground arith
is_future_dated-resolve none (some a) now h = ground arith
is_future_dated-resolve none none now h = ground arith
