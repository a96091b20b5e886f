-- ===== src/Subscriber/Settings/Accepted.antt =====
-- faststream_outbox/subscriber/config.py: what the settings of a subscriber are that are not refused.
use Prim.Native.String.{String, count}
use faststream_outbox.Base.{
  ℕ, zero, suc, ◌≤◌, ◌<◌, ◌≡◌, ◌↔◌, refl, Bool, true, false, not, Option, none, some, List, [], ◌∷◌,
  pos, negsuc, ok, Error, raise_if, ◌>>◌, passes, both, last_check, ltb, any, All, arith,
}
use faststream_outbox.Publish.Command.{Queue, check_queue, check_queue_iff, max_queue_length}
use faststream_outbox.Retry.{Floats}
use faststream_outbox.Subscriber.Settings.{
  Count, int, not_an_int, Number, finite, not_finite, AckPolicy, Settings, occurrences, check_each,
  validate_queues, is_int, is_int_or_none, at_least_one, unlimited_or_one, is_finite,
  is_finite_or_none, at_most, positive, validate_numbers, validate_query_timeout, is_policy,
  validate, warnings,
}

abbrev pub IsNamed : Queue → Type 0
IsNamed q = (s : String) × ((q ≡ Queue.text s) × ((0 < count s) × (count s ≤ max_queue_length)))

abbrev pub IsPositiveInt : Count → Type 0
IsPositiveInt c = (n : ℕ) × (c ≡ int (pos (suc n)))

abbrev pub IsCap : Option Count → Type 0
IsCap none = Unit
IsCap (some c) = IsPositiveInt c

check_each_iff : (queues : List Queue) → (check_each queues ≡ ok tt) ↔ All IsNamed queues
unfolding check_each
check_each_iff [] = (λ h. tt, λ h. refl)
check_each_iff (q ∷ queues) =
    let split = both (check_queue q) (check_each queues) in
    let rest = check_each_iff queues in
    (
      λ h. ((check_queue_iff q).0 (split.0 h).0, rest.0 (split.0 h).1),
      λ h. split.1 ((check_queue_iff q).1 h.0, rest.1 h.1),
    )

none_more :
    (p : Queue → ℕ) (queues : List Queue)
    → (any (λ q. ltb 1 (p q)) queues ≡ false) ↔ All (λ q. p q ≤ 1) queues
none_more p [] = (λ h. tt, λ h. refl)
none_more p (q ∷ queues) =
    let rest = none_more p queues in
    (λ h. (ground (arith, h), rest.0 (ground (arith, h))), λ h. ground (arith, h.0, rest.1 h.1))

at_least_one_iff : (c : Count) → (at_least_one c ≡ true) ↔ IsPositiveInt c
at_least_one_iff not_an_int =
    (λ h. absurd (ground (arith, h)), λ (n, h). absurd (ground (arith, h)))
at_least_one_iff (int (pos zero)) =
    (λ h. absurd (ground (arith, h)), λ (n, h). absurd (ground (arith, h)))
at_least_one_iff (int (pos (suc n))) = (λ h. (n, refl), λ h. ground arith)
at_least_one_iff (int (negsuc n)) =
    (λ h. absurd (ground (arith, h)), λ (m, h). absurd (ground (arith, h)))

unlimited_iff : (o : Option Count) → (unlimited_or_one o ≡ true) ↔ IsCap o
unlimited_iff none = (λ h. tt, λ h. refl)
unlimited_iff (some c) = at_least_one_iff c

unnegated : {b : Bool} → not b ≡ false → b ≡ true
unnegated h = ground (arith, h)

int_of_positive : (c : Count) → at_least_one c ≡ true → is_int c ≡ true
int_of_positive (int n) h = refl
int_of_positive not_an_int h = absurd (ground (arith, h))

int_of_cap : (o : Option Count) → unlimited_or_one o ≡ true → is_int_or_none o ≡ true
int_of_cap none h = refl
int_of_cap (some c) h = int_of_positive c h

module _ {F : Type 0} (f : Floats F) where
  abbrev pub TimeoutFits : Option (Number F) → Number F → Type 0
  TimeoutFits none lease = Unit
  TimeoutFits (some t) lease = (positive f t ≡ true) × (at_most f t lease ≡ true)

  finite_of_positive : (x : Number F) → positive f x ≡ true → is_finite x ≡ true
  finite_of_positive (finite x) h = refl
  finite_of_positive not_finite h = absurd (ground (arith, h))

  finite_of_timeout :
      (o : Option (Number F)) (lease : Number F) → TimeoutFits o lease → is_finite_or_none o ≡ true
  finite_of_timeout none lease h = refl
  finite_of_timeout (some x) lease h = finite_of_positive x h.0

  timeout_iff :
      (o : Option (Number F)) (lease : Number F)
      → (validate_query_timeout f o lease ≡ ok tt) ↔ TimeoutFits o lease
  unfolding validate_query_timeout
  timeout_iff none lease = (λ h. tt, λ h. refl)
  timeout_iff (some t) lease = pair (positive f t) (at_most f t lease)
    where
      pair :
          (a b : Bool)
          → ((raise_if (not a) Error.value_error >> raise_if (not b) Error.value_error) ≡ ok tt)
            ↔ ((a ≡ true) × (b ≡ true))
      pair true true = (λ h. (refl, refl), λ h. refl)
      pair true false = (λ h. absurd (ground (arith, h)), λ h. absurd (ground (arith, h.1)))
      pair false b = (λ h. absurd (ground (arith, h)), λ h. absurd (ground (arith, h.0)))

  -- Settings that a subscriber can run on.
  pub record IsConfigured (s : Settings F) : Type 0 where
    pub named : All IsNamed s.queues
    pub once : All (λ q. occurrences q s.queues ≤ 1) s.queues
    pub workers : IsPositiveInt s.max_workers
    pub batch : IsPositiveInt s.fetch_batch_size
    pub flush : IsPositiveInt s.terminal_flush_batch_size
    pub deliveries : IsCap s.max_deliveries
    pub idle : positive f s.min_fetch_interval ≡ true
    pub ceiling : positive f s.max_fetch_interval ≡ true
    pub lease : positive f s.lease_ttl_seconds ≡ true
    pub timeout : TimeoutFits s.query_timeout_seconds s.lease_ttl_seconds
    pub ordered : at_most f s.min_fetch_interval s.max_fetch_interval ≡ true
    pub after_handler : is_policy f s.ack_policy AckPolicy.ack_first ≡ false

  queues_iff :
      (queues : List Queue)
      → (validate_queues queues ≡ ok tt)
        ↔ (All IsNamed queues × All (λ q. occurrences q queues ≤ 1) queues)
  unfolding validate_queues
  queues_iff queues =
      let split =
        both (check_each queues)
          (raise_if (any (λ q. ltb 1 (occurrences q queues)) queues) Error.value_error) in
      let each = check_each_iff queues in
      let once = none_more (λ q. occurrences q queues) queues in
      let last = last_check (any (λ q. ltb 1 (occurrences q queues)) queues) Error.value_error in
      (
        λ h. (each.0 (split.0 h).0, once.0 (last.0 (split.0 h).1)),
        λ h. split.1 (each.1 h.0, last.1 (once.1 h.1)),
      )

  deliveries_checked :
      (s : Settings F) → validate_numbers f s ≡ ok tt → unlimited_or_one s.max_deliveries ≡ true
  unfolding validate_numbers
  deliveries_checked s h = ground (arith, h)

  numbers_pass :
      (s : Settings F)
      → is_int s.max_workers ≡ true
      → is_int s.fetch_batch_size ≡ true
      → is_int s.terminal_flush_batch_size ≡ true
      → is_int_or_none s.max_deliveries ≡ true
      → is_finite s.min_fetch_interval ≡ true
      → is_finite s.max_fetch_interval ≡ true
      → is_finite s.lease_ttl_seconds ≡ true
      → is_finite_or_none s.query_timeout_seconds ≡ true
      → unlimited_or_one s.max_deliveries ≡ true
      → validate_numbers f s ≡ ok tt
  unfolding validate_numbers
  numbers_pass s a b c d e g h i j = rw (a, b, c, d, e, g, h, i, j) refl

  -- Settings are accepted, with the warnings that are due, exactly if each queue is a name of 1 to
  -- 255 characters and named once, the counts are ints above zero (the cap on deliveries if it is
  -- set), the intervals and the lease are finite and above zero, the idle interval is at most its
  -- ceiling, a query timeout that is set is above zero and at most the lease, and the policy is not
  -- to acknowledge first.
  pub validate-IsConfigured : (s : Settings F) → (validate f s ≡ ok (warnings f s)) ↔ IsConfigured s
  unfolding validate
  validate-IsConfigured s = (
    λ h.
        let p1 = (both (validate_queues s.queues) _).0 h in
        let p2 = (both (validate_numbers f s) _).0 p1.1 in
        let p3 = (passes (not (at_least_one s.max_workers)) Error.value_error _).0 p2.1 in
        let p4 = (passes (not (at_least_one s.fetch_batch_size)) Error.value_error _).0 p3.1 in
        let p5 =
          (passes (not (at_least_one s.terminal_flush_batch_size)) Error.value_error _).0 p4.1 in
        let p6 = (passes (not (positive f s.min_fetch_interval)) Error.value_error _).0 p5.1 in
        let p7 = (passes (not (positive f s.max_fetch_interval)) Error.value_error _).0 p6.1 in
        let p8 = (passes (not (positive f s.lease_ttl_seconds)) Error.value_error _).0 p7.1 in
        let p9 =
          (both (validate_query_timeout f s.query_timeout_seconds s.lease_ttl_seconds) _).0 p8.1 in
        let p10 =
          (passes (not (at_most f s.min_fetch_interval s.max_fetch_interval)) Error.value_error _).0
            p9.1 in
        let p11 =
          (passes (is_policy f s.ack_policy AckPolicy.ack_first) Error.value_error _).0 p10.1 in
        record {
          named = ((queues_iff s.queues).0 p1.0).0;
          once = ((queues_iff s.queues).0 p1.0).1;
          workers = (at_least_one_iff s.max_workers).0 (unnegated p3.0);
          batch = (at_least_one_iff s.fetch_batch_size).0 (unnegated p4.0);
          flush = (at_least_one_iff s.terminal_flush_batch_size).0 (unnegated p5.0);
          deliveries = (unlimited_iff s.max_deliveries).0 (deliveries_checked s p2.0);
          idle = unnegated p6.0;
          ceiling = unnegated p7.0;
          lease = unnegated p8.0;
          timeout = (timeout_iff s.query_timeout_seconds s.lease_ttl_seconds).0 p9.0;
          ordered = unnegated p10.0;
          after_handler = p11.0;
        },
    λ c.
        let workers = (at_least_one_iff s.max_workers).1 c.workers in
        let batch = (at_least_one_iff s.fetch_batch_size).1 c.batch in
        let flush = (at_least_one_iff s.terminal_flush_batch_size).1 c.flush in
        let deliveries = (unlimited_iff s.max_deliveries).1 c.deliveries in
        let numbers =
          numbers_pass s (int_of_positive s.max_workers workers)
            (int_of_positive s.fetch_batch_size batch)
            (int_of_positive s.terminal_flush_batch_size flush)
            (int_of_cap s.max_deliveries deliveries)
            (finite_of_positive s.min_fetch_interval c.idle)
            (finite_of_positive s.max_fetch_interval c.ceiling)
            (finite_of_positive s.lease_ttl_seconds c.lease)
            (finite_of_timeout s.query_timeout_seconds s.lease_ttl_seconds c.timeout) deliveries in
        let timeout = (timeout_iff s.query_timeout_seconds s.lease_ttl_seconds).1 c.timeout in
        rw
          (
            (queues_iff s.queues).1 (c.named, c.once),
            numbers,
            workers,
            batch,
            flush,
            c.idle,
            c.ceiling,
            c.lease,
            timeout,
            c.ordered,
            c.after_handler,
          )
          refl,
  )
