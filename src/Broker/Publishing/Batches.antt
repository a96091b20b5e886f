-- ===== src/Broker/Publishing/Batches.antt =====
-- faststream_outbox/broker.py, `publish_batch`: a batch of no bodies is checked as any other is.
use faststream_outbox.Base.{
  ℕ, ◌≡◌, refl, sym, ap, Bool, true, false, ◌&&◌, Option, List, [], ℤ, Result, ok, raise, Error,
  raise_if, ◌>>◌, map_result,
}
use faststream_outbox.Message.Types.{Headers}
use faststream_outbox.Publish.Command.{
  Queue, OutboxPublishCommand, publish_command, validate_publish_args, is_cons,
}
use faststream_outbox.Broker.Publishing.{
  batch_args, require_session, batch_command, broker_publish_batch,
}

abbrev pub forget {κ} : {B : Type κ} → OutboxPublishCommand B → Unit {0}
forget c = tt

passed {κ} :
    {B : Type κ} (v : Result (Unit {0})) (b : Bool) (x : OutboxPublishCommand B)
    → map_result forget (v >> (raise_if (b && false) Error.value_error >> ok x)) ≡ v
passed (raise e) b x = refl
passed (ok u) true x = refl
passed (ok u) false x = refl

command-validate {κ} :
    {B : Type κ} (first : B) (rest : List B) (queue : Queue) (session : Bool)
    (activate_in : Option ℤ) (activate_at : Option (ℕ × Bool)) (headers : Option Headers)
    → map_result forget
        (batch_command first rest (batch_args queue session activate_in activate_at) headers)
      ≡ validate_publish_args (batch_args queue session activate_in activate_at)
unfolding batch_command publish_command
command-validate first rest queue session activate_in activate_at headers =
    passed (validate_publish_args (batch_args queue session activate_in activate_at)) (is_cons rest)
      _

-- A batch of no bodies writes nothing, and raises what building the command of any other batch with
-- the same arguments raises, if anything.
pub empty_batch {ℓ κ} :
    {S : Type ℓ} {B : Type κ} (basic : OutboxPublishCommand B → S → S × Result (Unit {0}))
    (first : B) (rest : List B) (queue : Queue) (session : Bool) (activate_in : Option ℤ)
    (activate_at : Option (ℕ × Bool)) (headers : Option Headers) (s : S)
    → broker_publish_batch basic [] (batch_args queue session activate_in activate_at) headers s ≡ (
      s,
      map_result forget (
          require_session session
          >> batch_command first rest (batch_args queue session activate_in activate_at) headers),
    )
unfolding broker_publish_batch
empty_batch basic first rest queue true activate_in activate_at headers s =
    ap (λ r. (s, r)) (sym (command-validate first rest queue true activate_in activate_at headers))
empty_batch basic first rest queue false activate_in activate_at headers s = refl
