-- ===== src/Publish/Producer.antt =====
-- faststream_outbox/publisher/producer.py, OutboxProducer: a command is encoded, written, and
-- reported to the metrics recorder. The inserter is an interface whose calls may raise; the client
-- and the engineless inserter both fill it.
pub mod Reports
use faststream_outbox.Base.{
  ℕ, suc, ◌+◌, ◌≡◌, refl, subst, ap, ◌∙◌, Bool, true, false, Option, none, some, List, [], ◌∷◌,
  ◌++◌, String, ℤ, Result, ok, raise, Error, ◌>>=◌, length, length-append, is_some, if◌then◌else◌,
  Option-cases, inl, inr, arith,
}
use faststream_outbox.Message.Types.{Headers}
use faststream_outbox.Publish.Envelope.{encode_payload}
use faststream_outbox.Publish.Command.{PublishArgs, OutboxPublishCommand, batch_bodies}

pub record Inserter {ℓ} (S : Type ℓ) : Type ℓ where
  pub insert : PublishArgs → List ℕ → Headers → S → S × Result (Option ℕ)
  pub insert_batch : PublishArgs → List (List ℕ × Headers) → S → S × Result (Unit {0})

-- The `published` event; its duration is left out.
pub record Published : Type 0 where
  pub success : Bool
  pub count : ℕ
  pub size_bytes : ℕ

pub record Producing {ℓ} (S : Type ℓ) : Type ℓ where
  pub store : S
  pub metrics : List Published

abbrev pub or_empty : Option Headers → Headers
or_empty none = []
or_empty (some h) = h

module _ {ℓ} {S : Type ℓ} {B : Type ℓ} (inserter : Inserter S)
    (encode_message : B → Result (List ℕ × Option String)) where
  abbrev pub reported : S → Published → Producing S → Producing S
  reported s m p = record { store = s; metrics = p.metrics ++ m ∷ [] }

  -- The report on a single INSERT. A timer conflict inserts no row.
  unfoldable pub inserted :
      ℕ → S × Result (Option ℕ) → Producing S → Producing S × Result (Option ℕ)
  inserted size (s, raise e) p =
      (reported s (record { success = false; count = 0; size_bytes = size }) p, raise e)
  inserted size (s, ok id) p = (
    reported s (record { success = true; count = if is_some id then 1 else 0; size_bytes = size })
        p,
    ok id,
  )

  unfoldable pub publish_encoded :
      PublishArgs → Result (List ℕ × Headers) → Producing S → Producing S × Result (Option ℕ)
  unfolding inserted
  publish_encoded args (raise e) p =
      (reported p.store (record { success = false; count = 0; size_bytes = 0 }) p, raise e)
  publish_encoded args (ok (payload, headers)) p =
      inserted (length payload) (inserter.insert args payload headers p.store) p

  -- `generated` is the id that `gen_cor_id` gives.
  unfoldable pub publish :
      String → OutboxPublishCommand B → Producing S → Producing S × Result (Option ℕ)
  unfolding publish_encoded
  publish generated cmd p =
      publish_encoded cmd.args
        (encode_payload encode_message cmd.body (or_empty cmd.headers) cmd.correlation_id generated)
        p

  -- The rows so far, their size, and how the loop over the bodies ended.
  abbrev pub Encoded : Type 0
  Encoded = (List (List ℕ × Headers) × ℕ) × Result (Unit {0})

  unfoldable pub encode_next :
      List (List ℕ × Headers)
      → ℕ
      → Result (List ℕ × Headers)
      → (List (List ℕ × Headers) → ℕ → Encoded)
      → Encoded
  encode_next rows size (raise e) continue = ((rows, size), raise e)
  encode_next rows size (ok row) continue = continue (rows ++ row ∷ []) (size + length row.0)

  unfoldable pub encode_each :
      (ℕ → String) → Headers → List B → List (List ℕ × Headers) → ℕ → Encoded
  unfolding encode_next
  encode_each generated headers [] rows size = ((rows, size), ok tt)
  encode_each generated headers (b ∷ bs) rows size =
      encode_next rows size (encode_payload encode_message b headers none (generated (length rows)))
        (λ rows size. encode_each generated headers bs rows size)

  unfoldable pub batch_inserted :
      ℕ → ℕ → S × Result (Unit {0}) → Producing S → Producing S × Result (Unit {0})
  batch_inserted count size (s, raise e) p =
      (reported s (record { success = false; count = 0; size_bytes = size }) p, raise e)
  batch_inserted count size (s, ok u) p =
      (reported s (record { success = true; count = count; size_bytes = size }) p, ok u)

  unfoldable pub batch_encoded :
      PublishArgs
      → (List (List ℕ × Headers) × ℕ) × Result (Unit {0})
      → Producing S
      → Producing S × Result (Unit {0})
  unfolding batch_inserted
  batch_encoded args ((rows, size), raise e) p =
      (reported p.store (record { success = false; count = 0; size_bytes = size }) p, raise e)
  batch_encoded args ((rows, size), ok u) p =
      batch_inserted (length rows) size (inserter.insert_batch args rows p.store) p

  unfoldable pub publish_batch :
      (ℕ → String) → OutboxPublishCommand B → Producing S → Producing S × Result (Unit {0})
  unfolding encode_each batch_encoded
  publish_batch generated cmd p =
      batch_encoded cmd.args (encode_each generated (or_empty cmd.headers) (batch_bodies cmd) [] 0)
        p
