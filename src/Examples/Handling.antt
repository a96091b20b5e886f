-- ===== src/Examples/Handling.antt =====
-- The theorems on the handling of a message and on the connections of the fetch loop, at a concrete
-- handler, its middlewares and a concrete subscriber of the test broker.
use faststream_outbox.Base.{
  ℕ, ◌+◌, ◌≡◌, ◌↔◌, ◌⊎◌, refl, Bool, true, false, pos, none, some, Option, List, [], ◌∷◌, String,
  Result, ok, raise, Error, arith,
}
use faststream_outbox.Message.Types.{HandlerError, RetryStrategy, answers, OutboxInnerMessage}
use faststream_outbox.Message.{ack, nack}
use faststream_outbox.Message.Parser.{parse_message}
use faststream_outbox.Message.Parser.Delivery.{Receives, delivered, parse_message-encode_payload}
use faststream_outbox.Publish.Envelope.{encode_payload}
use faststream_outbox.Client.Insert.{NewRow}
use faststream_outbox.Fake.{FakeOutboxClient}
use faststream_outbox.Subscriber.Types.{World}
use faststream_outbox.Fake.Delivering.{
  Attached, Tick, find_subscriber_for_queue, dispatching_publish,
}
use faststream_outbox.Fake.Delivering.Acknowledged.{storing, spent, dispatching_publish-consumes}
use faststream_outbox.Subscriber.Processing.{
  Reply, Run, Middleware, foreign, Handler, suitable, choose, enter_each, process_message, consume,
}
use faststream_outbox.Subscriber.Processing.Exits.{Moves, process_message-exits}
use faststream_outbox.Subscriber.Processing.Firing.{stores, relays, process_message-fires}
use faststream_outbox.Subscriber.Processing.Consuming.{Passes, consume-raises_iff}
use faststream_outbox.Subscriber.Processing.Capture.{capture}
use faststream_outbox.Subscriber.Listening.{Answers, open_fetch_resources}
use faststream_outbox.Subscriber.Listening.Closed.{Holds, open_fetch_resources-Holds}
use faststream_outbox.Examples.{orders, message}

-- The state of a handling: a number that stands for the handler's own data, and the row.
abbrev State : Type 0
State = ℕ × OutboxInnerMessage

abbrev str : ℕ → String
str n = "1"

abbrev an_outbox_reply : Reply
an_outbox_reply = record {
  response = record { is_outbox = true; headers = [] };
  correlation_id = none;
  in_transaction = true;
}

abbrev produce : Reply → State → State × Result (Unit {0})
produce reply s = ((s.0 + 1, s.1), ok tt)

abbrev relay : Reply → State → State × Result (Unit {0})
relay reply s = (s, ok tt)

-- A handler that answers with an OutboxResponse, under a foreign publisher.
abbrev doubling : Handler State
doubling = record {
  id = 1;
  is_suitable = λ m. ok (some (parse_message str m));
  call = λ m s. (s, ok an_outbox_reply);
  publishers = foreign relay ∷ [];
}

abbrev failing : Handler State
failing = record {
  id = 2;
  is_suitable = λ m. ok (some (parse_message str m));
  call = λ m s. (s, raise Error.value_error);
  publishers = [];
}

abbrev describe : Error → HandlerError
describe e = record { type_name = "ValueError"; rendered = "ValueError()" }

-- An acknowledgement that nacks on an error at the time 120.
abbrev exit_nacking : Option Error → State → State × Result Bool
exit_nacking none s = (s, ok false)
exit_nacking (some e) s = ((s.0, nack 120 s.1), ok false)

abbrev nacking : Middleware State
nacking = record { id = 7; enter = λ s. (s, ok tt); exit = exit_nacking }

-- A middleware of the user, which looks on.
abbrev watching : Middleware State
watching = record { id = 9; enter = λ s. (s, ok tt); exit = λ pending s. (s, ok false) }

abbrev stack : List (Middleware State)
stack = nacking ∷ capture 8 describe ∷ []

abbrev after_thirty : RetryStrategy
after_thirty first last attempts exception = answers (some (pos 30))

abbrev retried : OutboxInnerMessage
retried = record message { retry_strategy = some after_thirty }

abbrev start : Run State
start = record { state = (0, retried); marks = [] }

process_message-exits_example :
    Moves
      (7 ∷ 8 ∷ [])
      (8 ∷ 7 ∷ [])
      start
      (process_message produce true stack (doubling ∷ []) message start).0
unfolding enter_each choose capture
process_message-exits_example =
    process_message-exits produce true stack (doubling ∷ []) message start
      (suitable doubling (parse_message str message)) refl refl

process_message-fires_example :
    (stores (process_message produce true stack (doubling ∷ []) message start).0.marks ≡ stores [])
    ⊎ (relays (process_message produce true stack (doubling ∷ []) message start).0.marks
        ≡ relays [])
process_message-fires_example =
    process_message-fires produce true stack (doubling ∷ []) message start

-- The configuration error leaves `consume`.
consume-raises_iff_example :
    ((consume true
        (λ exit_app (r : Run State). (r, ok tt))
        (process_message produce true stack (doubling ∷ []) message)
        start).1
      ≡ raise Error.config_error)
    ↔ (((process_message produce true stack (doubling ∷ []) message start).1
          ≡ raise Error.config_error)
        × Passes Error.config_error)
consume-raises_iff_example =
    consume-raises_iff (λ exit_app r. (r, ok tt))
      (process_message produce true stack (doubling ∷ []) message) start Error.config_error
      (λ exit_app q. refl)

-- The LISTEN times out, and the close of its connection hangs too.
abbrev hanging : Answers
hanging = record {
  raw_connection = ok tt;
  detach = ok tt;
  add_listener = raise Error.timeout_error;
  close = raise Error.timeout_error;
  terminate = ok tt;
  connect = ok tt;
  execution_options = ok tt;
}

open_fetch_resources-Holds_example :
    Holds 0 0 [] (open_fetch_resources true true hanging (ok tt) []).0
open_fetch_resources-Holds_example = open_fetch_resources-Holds true true hanging (ok tt) []

abbrev plain : List ℕ → Result (List ℕ × Option String)
plain body = ok (body, some "text/plain")

parse_message-encode_payload_example :
    let m = delivered str 100 101 5 9 102 none (record {
      queue = "orders";
      payload = 1 ∷ [];
      headers =
          some (("tenant", "a") ∷ ("content-type", "text/plain") ∷ ("correlation_id", "c") ∷ []);
      timer_id = none;
    }) in
    Receives plain (1 ∷ []) (("tenant", "a") ∷ []) none "c" m
    × (m.reply_to ≡ "orders")
    × (m.message_id ≡ str 5)
unfolding encode_payload
parse_message-encode_payload_example =
    parse_message-encode_payload plain (1 ∷ []) (("tenant", "a") ∷ []) none "c" str 100 101 5 9 102
      none "orders" none refl

abbrev acking : Attached
acking = record {
  has_calls = true;
  queues = "orders" ∷ [];
  config = record {
    max_deliveries = some 3;
    retry_strategy = none;
    terminal_flush_batch_size = 1;
    lease_ttl = 60;
    dlq_table = true;
    last_exception_renderer = none;
  };
  running = true;
  consume = λ m k. (k, (ack 52 m, ok tt));
}

abbrev ticks : ℕ → Tick
ticks id = record { claimed_at = 50; token = 9; monotonic = 51; now = 52; duration = 1 }

abbrev order : NewRow
order = record { queue = "orders"; payload = 1 ∷ []; headers = none; timer_id = none }

abbrev fake_world : World FakeOutboxClient
fake_world = record {
  client = record { dlq_enabled = true; tables = orders; dispatchable = [] };
  metrics = [];
  taken = 0;
  done = 0;
  requeued = 0;
}

-- A row that is due far in the future is delivered at once.
dispatching_publish-consumes_example :
    ((dispatching_publish false ticks (acking ∷ []) (storing 40 4000 order) fake_world).1
      ≡ ok (some 3))
    × ((dispatching_publish false ticks (acking ∷ []) (storing 40 4000 order) fake_world).0.client
        ≡ spent fake_world.client)
unfolding find_subscriber_for_queue
dispatching_publish-consumes_example =
    dispatching_publish-consumes ticks (acking ∷ []) acking 40 4000 order fake_world refl
      (λ m k. (52, refl)) (omega arith) (omega arith) refl
