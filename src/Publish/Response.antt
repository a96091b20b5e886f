-- ===== src/Publish/Response.antt =====
-- faststream_outbox/response.py: `OutboxResponse`, checked where a handler makes it and again where
-- it becomes a command, and the setter of `batch_bodies`.
use Prim.Native.String.{String}
use faststream_outbox.Base.{
  ◌≡◌, refl, subst, Option, none, some, List, [], ◌∷◌, Result, ok, ◌>>◌, both, ok-inj,
}
use faststream_outbox.Message.Types.{Headers}
use faststream_outbox.Publish.Envelope.{get, correlation_id_header}
use faststream_outbox.Publish.Command.{
  PublishArgs, OutboxPublishCommand, publish_command, validate_publish_args,
}

pub record OutboxResponse {ℓ} (B : Type ℓ) : Type ℓ where
  pub body : B
  pub args : PublishArgs
  pub headers : Option Headers
  pub correlation_id : Option String

-- The correlation id of the headers, where none is given.
unfoldable pub inferred : Option String → Option Headers → Option String
unfolding get
inferred (some c) headers = some c
inferred none none = none
inferred none (some h) = get correlation_id_header h

-- `OutboxResponse.__init__`.
unfoldable pub outbox_response {ℓ} :
    {B : Type ℓ} → B → PublishArgs → Option Headers → Option String → Result (OutboxResponse B)
unfolding validate_publish_args inferred
outbox_response body args headers correlation_id = do
  validate_publish_args args
  ok (record {
    body = body;
    args = args;
    headers = headers;
    correlation_id = inferred correlation_id headers;
  })

unfoldable pub as_publish_command {ℓ} :
    {B : Type ℓ} → OutboxResponse B → Result (OutboxPublishCommand B)
unfolding publish_command
as_publish_command r = publish_command r.body [] r.args r.headers r.correlation_id

-- The setter of `batch_bodies`; no bodies leave one that is None.
unfoldable pub set_batch_bodies {ℓ} :
    {B : Type ℓ}
    → List (Option B)
    → OutboxPublishCommand (Option B)
    → OutboxPublishCommand (Option B)
set_batch_bodies [] c = record c { body = none; extra_bodies = [] }
set_batch_bodies (b ∷ bs) c = record c { body = b; extra_bodies = bs }

command_checked {ℓ} :
    {B : Type ℓ} (body : B) (args : PublishArgs) (headers : Option Headers) (c : Option String)
    → validate_publish_args args ≡ ok tt
    → publish_command body [] args headers c
      ≡ ok (record {
        body = body;
        extra_bodies = [];
        args = args;
        headers = headers;
        correlation_id = c;
      })
unfolding publish_command
command_checked body args headers c h = rw h refl

-- A response that a handler could make becomes a command without an error, and the command holds its
-- body alone, with the arguments, the headers and the correlation id of the response.
pub as_publish_command-outbox_response {ℓ} :
    {B : Type ℓ} (body : B) (args : PublishArgs) (headers : Option Headers)
    (correlation_id : Option String) (r : OutboxResponse B)
    → outbox_response body args headers correlation_id ≡ ok r
    → as_publish_command r
      ≡ ok (record {
        body = body;
        extra_bodies = [];
        args = args;
        headers = headers;
        correlation_id = inferred correlation_id headers;
      })
unfolding outbox_response as_publish_command
as_publish_command-outbox_response body args headers c r h =
    let split = (both (validate_publish_args args) _).0 h in
    subst
      (λ x.
        as_publish_command x
        ≡ ok (record {
          body = body;
          extra_bodies = [];
          args = args;
          headers = headers;
          correlation_id = inferred c headers;
        }))
      (ok-inj split.1) (command_checked body args headers (inferred c headers) split.0)
