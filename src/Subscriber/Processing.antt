-- ===== src/Subscriber/Processing.antt =====
-- faststream_outbox/subscriber/usecase.py, `process_message` and `consume`, and the response publisher
-- of faststream_outbox/publisher/fake.py. The handlers, the middlewares, the foreign publishers, the
-- producer and `stop` are parameters; they act on a state `S`. The context scopes and the lock are left
-- out, as is the cache of `is_suitable`, whose filter, parser and decoder change nothing in `S`.
pub mod Choice
pub mod Exits
pub mod Firing
pub mod Consuming
pub mod Capture
use mathlib.Core.List.{reverse}
use faststream_outbox.Base.{
  ℕ, Bool, true, false, not, ◌&&◌, Option, none, some, List, [], ◌∷◌, ◌++◌, String, Result, ok,
  raise, Error, is_exception, if◌then◌else◌, map, ◌==◌, string_eq,
}
use faststream_outbox.Message.Types.{Headers, OutboxInnerMessage}
use faststream_outbox.Message.Parser.{OutboxMessage}
use faststream_outbox.Publish.Relay.{
  Response, maybe_propagate_inbound_headers, reject_outbox_response_with_foreign_publisher,
}

-- What `ensure_response` makes of a handler's result; `in_transaction` is what the session of an
-- OutboxResponse answers when it is published.
pub record Reply : Type 0 where
  pub response : Response
  pub correlation_id : Option String
  pub in_transaction : Bool

-- `ensure_response(None)`.
abbrev pub no_reply : Reply
no_reply = record {
  response = record { is_outbox = false; headers = [] };
  correlation_id = none;
  in_transaction = false;
}

-- What a run leaves on record: the handler called, a row handed to the producer, a body published to a
-- foreign broker, a middleware entered or exited.
pub data Mark : Type 0 where
  called entered exited : ℕ → Mark
  stored relayed : Mark

pub record Run {ℓ} (S : Type ℓ) : Type ℓ where
  pub state : S
  pub marks : List Mark

-- `__aenter__` and `__aexit__`: an exit that answers true suppresses the exception it is given.
pub record Middleware {ℓ} (S : Type ℓ) : Type ℓ where
  pub id : ℕ
  pub enter : S → S × Result (Unit {0})
  pub exit : Option Error → S → S × Result Bool

-- A publisher decorates the handler; the outbox's own is known by its class.
pub data Publisher {ℓ} (S : Type ℓ) : Type ℓ where
  outbox : Publisher S
  foreign : (Reply → S → S × Result (Unit {0})) → Publisher S

abbrev pub is_fake {ℓ} : {S : Type ℓ} → Publisher S → Bool
is_fake outbox = true
is_fake (foreign publish) = false

pub record Handler {ℓ} (S : Type ℓ) : Type ℓ where
  pub id : ℕ
  pub is_suitable : OutboxInnerMessage → Result (Option OutboxMessage)
  pub call : OutboxMessage → S → S × Result Reply
  pub publishers : List (Publisher S)

-- An exception ends a run; else the next step takes the value and the run so far.
abbrev pub carry {ℓ κ μ} :
    {S : Type ℓ} {A : Type κ} {B : Type μ}
    → (A → Run S → Run S × Result B)
    → Run S × Result A
    → Run S × Result B
carry f (r, ok x) = f x r
carry f (r, raise e) = (r, raise e)

infixl 5 ◌>>=◌
abbrev pub ◌>>=◌ {ℓ κ μ} :
    {S : Type ℓ} {A : Type κ} {B : Type μ}
    → (Run S → Run S × Result A)
    → (A → Run S → Run S × Result B)
    → Run S
    → Run S × Result B
◌>>=◌ m f r = carry f (m r)

-- A call that a parameter answers, and what it leaves on record.
abbrev pub mark {ℓ κ} :
    {S : Type ℓ} {A : Type κ} → Mark → (S → S × Result A) → Run S → Run S × Result A
mark m act r = let (s, a) = act r.state in (record { state = s; marks = r.marks ++ m ∷ [] }, a)

-- Whether the loop over `self.calls` finds a handler.
pub data Found {ℓ} (S : Type ℓ) : Type ℓ where
  suitable : Handler S → OutboxMessage → Found S
  unparsable : Error → Found S
  unsuitable : Found S

-- One round of the search. An Exception of `is_suitable` ends it; any other passes through.
abbrev pub weigh {ℓ} :
    {S : Type ℓ} → Handler S → Result (Option OutboxMessage) → Result (Found S) → Result (Found S)
weigh h (raise e) later = if is_exception e then ok (unparsable e) else raise e
weigh h (ok none) later = later
weigh h (ok (some message)) later = ok (suitable h message)

unfoldable pub choose {ℓ} : {S : Type ℓ} → List (Handler S) → OutboxInnerMessage → Result (Found S)
choose [] msg = ok unsuitable
choose (h ∷ hs) msg = weigh h (h.is_suitable msg) (choose hs msg)

-- `if not result_msg.correlation_id`, then the headers of the inbound message.
abbrev pub filled : Option String → String → Option String
filled none inbound = some inbound
filled (some c) inbound = if c == "" then some inbound else some c

unfoldable pub complete : Bool → OutboxMessage → Reply → Reply
unfolding maybe_propagate_inbound_headers
complete propagate message r = record {
  response = maybe_propagate_inbound_headers propagate message.headers r.response;
  correlation_id = filled r.correlation_id message.correlation_id;
  in_transaction = r.in_transaction;
}

module _ {ℓ} {S : Type ℓ} (producer : Reply → S → S × Result (Unit {0})) where
  -- `OutboxFakePublisher._publish`; a plain response is no OutboxPublishCommand.
  unfoldable pub fake_publish : Reply → Run S → Run S × Result (Unit {0})
  fake_publish reply r =
      if not reply.response.is_outbox
      then (r, ok tt)
      else if not reply.in_transaction
      then (r, raise Error.config_error)
      else mark Mark.stored (producer reply) r

  unfoldable pub publish_to : Reply → Publisher S → Run S → Run S × Result (Unit {0})
  unfolding fake_publish
  publish_to reply outbox r = fake_publish reply r
  publish_to reply (foreign publish) r = mark Mark.relayed (publish reply) r

  unfoldable pub publish_each : Reply → List (Publisher S) → Run S → Run S × Result (Unit {0})
  unfolding publish_to
  publish_each reply [] r = (r, ok tt)
  publish_each reply (p ∷ ps) r = (publish_to reply p >>= (λ _. publish_each reply ps)) r

  abbrev pub answer {κ} : {A : Type κ} → Reply → A → Run S → Run S × Result Reply
  answer reply _ r = (r, ok reply)

  -- The loop over the response publisher and the handler's own. The first is there because the parser
  -- sets `reply_to`.
  abbrev pub publish_reply {κ} :
      {A : Type κ} → List (Publisher S) → Reply → A → Run S → Run S × Result Reply
  publish_reply publishers reply _ r =
      carry (answer reply) (publish_each reply (outbox ∷ publishers) r)

  -- What follows the call of the handler.
  unfoldable pub respond : Bool → Handler S → OutboxMessage → Reply → Run S → Run S × Result Reply
  unfolding publish_each complete reject_outbox_response_with_foreign_publisher
  respond propagate h message answered r =
      let reply = complete propagate message answered in
      carry (publish_reply h.publishers reply)
        (r, reject_outbox_response_with_foreign_publisher reply.response (map is_fake h.publishers))

  unfoldable pub settle : Bool → Found S → Run S → Run S × Result Reply
  unfolding respond
  settle propagate (suitable h message) r =
      (mark (Mark.called h.id) (h.call message) >>= respond propagate h message) r
  settle propagate (unparsable e) r = (r, raise e)
  settle propagate unsuitable r = (r, raise (Error.other_error "SubscriberNotFound"))

  unfoldable pub enter_each : List (Middleware S) → Run S → Run S × Result (Unit {0})
  enter_each [] r = (r, ok tt)
  enter_each (m ∷ ms) r = (mark (Mark.entered m.id) m.enter >>= (λ _. enter_each ms)) r

  abbrev pub after_exit : Option Error → Result Bool → Option Error
  after_exit pending (raise e) = some e
  after_exit pending (ok true) = none
  after_exit pending (ok false) = pending

  -- The exit stack, last entered first: an exception of an exit takes the place of the one before.
  unfoldable pub exit_each : List (Middleware S) → Option Error → Run S → Run S × Option Error
  exit_each [] pending r = (r, pending)
  exit_each (m ∷ ms) pending r =
      let (r', answer) = mark (Mark.exited m.id) (m.exit pending) r in
      exit_each ms (after_exit pending answer) r'

  abbrev pub error_of : Result Reply → Option Error
  error_of (ok reply) = none
  error_of (raise e) = some e

  -- A suppressed exception leaves `ensure_response(None)`.
  abbrev pub outcome : Result Reply → Option Error → Result Reply
  outcome body (some e) = raise e
  outcome (ok reply) none = ok reply
  outcome (raise e) none = ok no_reply

  abbrev pub close : List (Middleware S) → Run S × Result Reply → Run S × Result Reply
  close middlewares (r, body) =
      let (r', pending) = exit_each (reverse middlewares) (error_of body) r in
      (r', outcome body pending)

  -- The exits are pushed once the search is over.
  abbrev pub process_chosen :
      Bool → List (Middleware S) → Result (Found S) → Run S → Run S × Result Reply
  process_chosen propagate middlewares (raise e) r = (r, raise e)
  process_chosen propagate middlewares (ok found) r = close middlewares (settle propagate found r)

  unfoldable pub process_message :
      Bool
      → List (Middleware S)
      → List (Handler S)
      → OutboxInnerMessage
      → Run S
      → Run S × Result Reply
  unfolding choose settle enter_each exit_each
  process_message propagate middlewares calls msg r =
      (enter_each middlewares >>= (λ _. process_chosen propagate middlewares (choose calls msg))) r

-- `consume`, with what `process_message` came to. `stop` is `_stop_from_handler`.
unfoldable pub after_process {ℓ} :
    {S : Type ℓ}
    → (Bool → Run S → Run S × Result (Unit {0}))
    → Run S × Result Reply
    → Run S × Result (Option Reply)
after_process stop (r, ok reply) = (r, ok (some reply))
after_process stop (r, raise Error.config_error) = (r, raise Error.config_error)
after_process stop (r, raise Error.stop_consume) = (stop false >>= (λ _ r'. (r', ok none))) r
after_process stop (r, raise Error.system_exit) = (stop true >>= (λ _ r'. (r', ok none))) r
after_process stop (r, raise e) = (r, if is_exception e then ok none else raise e)

unfoldable pub consume {ℓ} :
    {S : Type ℓ}
    → Bool
    → (Bool → Run S → Run S × Result (Unit {0}))
    → (Run S → Run S × Result Reply)
    → Run S
    → Run S × Result (Option Reply)
unfolding after_process
consume running stop process r = if running then after_process stop (process r) else (r, ok none)
