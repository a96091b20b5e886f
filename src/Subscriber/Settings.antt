-- ===== src/Subscriber/Settings.antt =====
-- faststream_outbox/subscriber/config.py, `OutboxSubscriberConfig.__post_init__`: which settings of a
-- subscriber are refused, and which are warned about. The comparison of floats is a parameter.
pub mod Accepted
use Prim.Native.String.{String}
use faststream_outbox.Base.{
  ℕ, ◌≡◌, Bool, true, false, not, ◌&&◌, ◌||◌, Option, none, some, List, [], ◌∷◌, ◌++◌, ℤ, pos,
  negsuc, Result, ok, raise, Error, raise_if, ◌>>=◌, ◌>>◌, ltb, leb, ◌==◌, string_eq, if◌then◌else◌,
  is_some, is_none, any, filter, length, ltb_ℤ,
}
use faststream_outbox.Publish.Command.{Queue, check_queue}
use faststream_outbox.Retry.{Floats, zero_float}

-- A Python value that is asked to be an int: a bool or any other type is no count.
pub data Count : Type 0 where
  int : ℤ → Count
  not_an_int : Count

-- A NaN or an infinity is no finite number.
pub data Number (F : Type 0) : Type 0 where
  finite : F → Number F
  not_finite : Number F

pub data AckPolicy : Type 0 where
  nack_on_error reject_on_error ack_first manual other_policy : AckPolicy

-- `ack_policy` is none where it was not passed; of the retry strategy only whether it is NoRetry is
-- read.
pub record Settings (F : Type 0) : Type 0 where
  pub queues : List Queue
  pub max_workers : Count
  pub fetch_batch_size : Count
  pub terminal_flush_batch_size : Count
  pub max_deliveries : Option Count
  pub min_fetch_interval : Number F
  pub max_fetch_interval : Number F
  pub lease_ttl_seconds : Number F
  pub query_timeout_seconds : Option (Number F)
  pub ack_policy : Option AckPolicy
  pub no_retry : Option Bool

pub data Warning : Type 0 where
  retry_strategy_ignored same_as_reject cap_unreachable lease_within_wait : Warning

abbrev pub same_queue : Queue → Queue → Bool
same_queue (Queue.text a) (Queue.text b) = a == b
same_queue _ _ = false

-- `queues.count(q)`.
abbrev pub occurrences : Queue → List Queue → ℕ
occurrences q queues = length (filter (same_queue q) queues)

unfoldable pub check_each : List Queue → Result (Unit {0})
check_each [] = ok tt
check_each (q ∷ queues) = check_queue q >> check_each queues

unfoldable pub validate_queues : List Queue → Result (Unit {0})
unfolding check_each
validate_queues queues =
    check_each queues >> raise_if (any (λ q. ltb 1 (occurrences q queues)) queues) Error.value_error

abbrev pub is_int : Count → Bool
is_int (int n) = true
is_int not_an_int = false

-- `value is None or isinstance(value, int)`.
abbrev pub is_int_or_none : Option Count → Bool
is_int_or_none none = true
is_int_or_none (some c) = is_int c

-- `n >= 1`, of an int.
abbrev pub at_least_one : Count → Bool
at_least_one (int n) = ltb_ℤ (pos 0) n
at_least_one not_an_int = false

abbrev pub unlimited_or_one : Option Count → Bool
unlimited_or_one none = true
unlimited_or_one (some c) = at_least_one c

abbrev pub is_finite : {F : Type 0} → Number F → Bool
is_finite (finite x) = true
is_finite not_finite = false

abbrev pub is_finite_or_none : {F : Type 0} → Option (Number F) → Bool
is_finite_or_none none = true
is_finite_or_none (some x) = is_finite x

module _ {F : Type 0} (f : Floats F) where
  -- `a < b` and `a <= b`, of finite numbers.
  abbrev pub before : Number F → Number F → Bool
  before (finite a) (finite b) = f.lt a b
  before _ _ = false

  abbrev pub at_most : Number F → Number F → Bool
  at_most (finite a) (finite b) = not (f.lt b a)
  at_most _ _ = false

  abbrev pub positive : Number F → Bool
  positive x = before (finite (zero_float f)) x

  unfoldable pub validate_numbers : Settings F → Result (Unit {0})
  validate_numbers s = do
    raise_if (not (is_int s.max_workers)) Error.type_error
    raise_if (not (is_int s.fetch_batch_size)) Error.type_error
    raise_if (not (is_int s.terminal_flush_batch_size)) Error.type_error
    raise_if (not (is_int_or_none s.max_deliveries)) Error.type_error
    raise_if (not (is_finite s.min_fetch_interval)) Error.value_error
    raise_if (not (is_finite s.max_fetch_interval)) Error.value_error
    raise_if (not (is_finite s.lease_ttl_seconds)) Error.value_error
    raise_if (not (is_finite_or_none s.query_timeout_seconds)) Error.value_error
    raise_if (not (unlimited_or_one s.max_deliveries)) Error.value_error

  unfoldable pub validate_query_timeout : Option (Number F) → Number F → Result (Unit {0})
  validate_query_timeout none lease = ok tt
  validate_query_timeout (some timeout) lease =
      raise_if (not (positive timeout)) Error.value_error
      >> raise_if (not (at_most timeout lease)) Error.value_error

  abbrev pub is_policy : Option AckPolicy → AckPolicy → Bool
  is_policy (some AckPolicy.nack_on_error) AckPolicy.nack_on_error = true
  is_policy (some AckPolicy.reject_on_error) AckPolicy.reject_on_error = true
  is_policy (some AckPolicy.ack_first) AckPolicy.ack_first = true
  is_policy _ _ = false

  abbrev pub is_no_retry : Option Bool → Bool
  is_no_retry none = false
  is_no_retry (some b) = b

  abbrev pub warn_if : Bool → Warning → List Warning
  warn_if b w = if b then w ∷ [] else []

  unfoldable pub warnings : Settings F → List Warning
  warnings s =
      warn_if
        (is_policy s.ack_policy AckPolicy.reject_on_error
          && is_some s.no_retry
          && not (is_no_retry s.no_retry))
        Warning.retry_strategy_ignored
      ++ warn_if (is_policy s.ack_policy AckPolicy.nack_on_error && is_no_retry s.no_retry)
          Warning.same_as_reject
      ++ warn_if (is_some s.max_deliveries && is_no_retry s.no_retry) Warning.cap_unreachable
      ++ warn_if (at_most s.lease_ttl_seconds s.max_fetch_interval) Warning.lease_within_wait

  unfoldable pub validate : Settings F → Result (List Warning)
  unfolding validate_queues validate_numbers validate_query_timeout warnings
  validate s = do
    validate_queues s.queues
    validate_numbers s
    raise_if (not (at_least_one s.max_workers)) Error.value_error
    raise_if (not (at_least_one s.fetch_batch_size)) Error.value_error
    raise_if (not (at_least_one s.terminal_flush_batch_size)) Error.value_error
    raise_if (not (positive s.min_fetch_interval)) Error.value_error
    raise_if (not (positive s.max_fetch_interval)) Error.value_error
    raise_if (not (positive s.lease_ttl_seconds)) Error.value_error
    validate_query_timeout s.query_timeout_seconds s.lease_ttl_seconds
    raise_if (not (at_most s.min_fetch_interval s.max_fetch_interval)) Error.value_error
    raise_if (is_policy s.ack_policy AckPolicy.ack_first) Error.value_error
    ok (warnings s)

  -- `query_timeout`: the lease, unless it is set.
  abbrev pub query_timeout : Settings F → Number F
  query_timeout s = elim s.query_timeout_seconds [ none ↦ s.lease_ttl_seconds | some t ↦ t ]

-- The `ack_policy` property: what was not passed is NACK_ON_ERROR.
abbrev pub effective_ack_policy : Option AckPolicy → AckPolicy
effective_ack_policy none = AckPolicy.nack_on_error
effective_ack_policy (some p) = p
