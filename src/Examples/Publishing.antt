-- ===== src/Examples/Publishing.antt =====
-- The theorems on retries and publishing, at concrete strategies, headers and inserters.
use faststream_outbox.Base.{
  ◌<◌, ℕ, ◌+◌, ◌-◌, ◌*◌, ◌^◌, ◌≡◌, ◌↔◌, true, false, Option, none, some, List, [], ◌∷◌, String, ltb,
  length, Result, ok, raise, Error, if◌then◌else◌, arith,
}
use faststream_outbox.Message.Types.{Headers}
use faststream_outbox.Retry.{Floats, Strategy, delay_seconds, get_next_attempt_delay}
use faststream_outbox.Retry.Bounds.{IsOrder, next_attempt_iff}
use faststream_outbox.Client.Insert.{TimerConflict}
use faststream_outbox.Publish.Envelope.{encode_headers}
use faststream_outbox.Publish.Command.{PublishArgs, Queue, Conflict, OutboxPublishCommand}
use faststream_outbox.Publish.Producer.{Inserter, Producing}
use faststream_outbox.Publish.Relay.{maybe_propagate_inbound_headers, propagated-encodes}

-- Whole seconds stand for floats; a power of more than 40 overflows.
abbrev pub whole : Floats ℕ
whole = record {
  add = λ a b. a + b;
  mul = λ a b. a * b;
  pow = λ a n. if ltb 40 n then raise Error.overflow_error else ok (a ^ n);
  of_ℕ = λ n. n;
  seconds = λ first last. last - first;
  lt = ltb;
  nil = λ a. ltb a 1;
  half = λ a. a;
  negate = λ a. 0;
  max_delay_seconds = 3153600000;
  max_jitter_factor = 2;
}

pub whole-IsOrder : IsOrder ℕ whole
whole-IsOrder = record {
  irreflexive = λ a. ground arith;
  transitive = λ a b c h k. ground arith;
  asymmetric = λ a b h. ground arith;
}

abbrev no_jitter : ℕ → ℕ → ℕ
no_jitter a b = a

abbrev doubling : Strategy ℕ
doubling = Strategy.exponential 1 2 (some 300) 0

next_attempt_iff_example :
    (get_next_attempt_delay whole no_jitter
        (record { max_attempts = some 10; max_total_delay_seconds = some 100 })
        doubling
        0
        40
        5
      ≡ ok (some 16))
    ↔ ((5 < 10)
        × ((delay_seconds whole no_jitter doubling 5 ≡ ok (some 16)) × (ltb 100 56 ≡ false)))
next_attempt_iff_example =
    next_attempt_iff whole no_jitter
      (record { max_attempts = some 10; max_total_delay_seconds = some 100 }) doubling 0 40 5 16

abbrev traced : Headers
traced = ("trace", "t1") ∷ ("correlation_id", "c1") ∷ []

propagated-encodes_example :
    (out : Headers) × (encode_headers
        (some "text/plain")
        (maybe_propagate_inbound_headers true
          (("content-type", "application/json") ∷ traced)
          (record { is_outbox = true; headers = [] })).headers
        (some "c2")
        "fresh"
      ≡ ok out)
propagated-encodes_example =
    propagated-encodes (("content-type", "application/json") ∷ traced) (some "text/plain")
      (some "c2") "fresh"

abbrev args : PublishArgs
args = record {
  queue = Queue.text "orders";
  session = true;
  activate_in = none;
  activate_at = some (100, true);
  timer_id = some "daily";
  timer_conflict = Conflict.policy TimerConflict.extend;
}

-- Bodies are numbers; zero fails to encode. An insert answers the next id.
abbrev encode_number : ℕ → Result (List ℕ × Option String)
encode_number n = if ltb n 1 then raise Error.type_error else ok (n ∷ [], none)

abbrev counting : Inserter ℕ
counting = record {
  insert = λ a payload headers s. (s + 1, ok (some s));
  insert_batch = λ a rows s. (s + length rows, ok tt);
}

abbrev command : OutboxPublishCommand ℕ
command = record {
  body = 4;
  extra_bodies = 5 ∷ [];
  args = args;
  headers = some traced;
  correlation_id = none;
}

abbrev producing : Producing ℕ
producing = record { store = 1; metrics = [] }
