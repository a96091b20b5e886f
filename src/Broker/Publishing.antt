-- ===== src/Broker/Publishing.antt =====
-- faststream_outbox/broker.py, `publish` and `publish_batch`, and publisher/usecase.py,
-- `OutboxPublisher.publish`: a command is built from what the caller gives. `_basic_publish` and
-- `_basic_publish_batch` of FastStream, which run the middlewares and the producer, are parameters.
pub mod Batches
use Prim.Native.String.{String}
use faststream_outbox.Base.{
  ℕ, ◌≡◌, refl, ap, ◌∙◌, Bool, true, false, not, ◌&&◌, ◌||◌, Option, none, some, List, [], ◌∷◌, ℤ,
  Result, ok, raise, Error, raise_if, ◌>>=◌, ◌>>◌, map_result, is_some, ◌==◌, string_eq,
  if◌then◌else◌, Bool-cases, inl, inr, arith,
}
use faststream_outbox.Message.Types.{Headers}
use faststream_outbox.Client.Insert.{TimerConflict}
use faststream_outbox.Publish.Envelope.{get, set}
use faststream_outbox.Publish.Command.{
  Queue, Conflict, PublishArgs, OutboxPublishCommand, publish_command, validate_publish_args,
}

-- The arguments of a batch: no timer.
abbrev pub batch_args : Queue → Bool → Option ℤ → Option (ℕ × Bool) → PublishArgs
batch_args queue session activate_in activate_at = record {
  queue = queue;
  session = session;
  activate_in = activate_in;
  activate_at = activate_at;
  timer_id = none;
  timer_conflict = Conflict.policy TimerConflict.ignore;
}

-- `require_session_or_connection`.
abbrev pub require_session : Bool → Result (Unit {0})
require_session session = raise_if (not session) Error.type_error

-- `{**a, **b}`.
unfoldable pub merge_headers : Headers → Headers → Headers
unfolding set
merge_headers a [] = a
merge_headers a ((k, v) ∷ b) = merge_headers (set k v a) b

abbrev pub or_no_headers : Option Headers → Headers
or_no_headers none = []
or_no_headers (some h) = h

-- A batch of at least one body.
unfoldable pub batch_command {κ} :
    {B : Type κ} → B → List B → PublishArgs → Option Headers → Result (OutboxPublishCommand B)
unfolding publish_command
batch_command first rest args headers = publish_command first rest args headers none

module _ {ℓ κ} {S : Type ℓ} {B : Type κ} where
  -- What is done with a command that was built, or the error of building it.
  abbrev pub send {μ} :
      {R : Type μ}
      → (OutboxPublishCommand B → S → S × Result R)
      → Result (OutboxPublishCommand B)
      → S
      → S × Result R
  send basic (raise e) s = (s, raise e)
  send basic (ok cmd) s = basic cmd s

  unfoldable pub broker_publish :
      (OutboxPublishCommand B → S → S × Result (Option ℕ))
      → B
      → PublishArgs
      → Option Headers
      → Option String
      → S
      → S × Result (Option ℕ)
  unfolding publish_command
  broker_publish basic body args headers correlation_id s =
      send basic (publish_command body [] args headers correlation_id) s

  -- The static headers of the publisher, then those of the call.
  unfoldable pub publisher_publish :
      (OutboxPublishCommand B → S → S × Result (Option ℕ))
      → Headers
      → B
      → PublishArgs
      → Option Headers
      → Option String
      → S
      → S × Result (Option ℕ)
  unfolding publish_command merge_headers
  publisher_publish basic static body args headers correlation_id s =
      send basic
        (publish_command body [] args (some (merge_headers static (or_no_headers headers)))
          correlation_id)
        s

  unfoldable pub broker_publish_batch :
      (OutboxPublishCommand B → S → S × Result (Unit {0}))
      → List B
      → PublishArgs
      → Option Headers
      → S
      → S × Result (Unit {0})
  unfolding batch_command validate_publish_args
  broker_publish_batch basic [] args headers s =
      (s, require_session args.session >> validate_publish_args args)
  broker_publish_batch basic (first ∷ rest) args headers s =
      send basic (require_session args.session >> batch_command first rest args headers) s
