-- ===== src/Publish/Producer/Reports.antt =====
-- What the producer reports of a publish, on every path.
use faststream_outbox.Base.{
  ℕ, suc, ◌+◌, ◌≡◌, refl, subst, ◌∙◌, true, false, Option, none, some, List, [], ◌∷◌, ◌++◌, String,
  Result, ok, raise, length, length-append, arith,
}
use faststream_outbox.Message.Types.{Headers}
use faststream_outbox.Publish.Envelope.{encode_payload}
use faststream_outbox.Publish.Command.{PublishArgs, OutboxPublishCommand, batch_bodies}
use faststream_outbox.Publish.Producer.{
  Inserter, Published, Producing, or_empty, inserted, publish_encoded, publish, Encoded,
  encode_next, encode_each, batch_inserted, batch_encoded, publish_batch,
}

zero_add : (n : ℕ) → 0 + n ≡ n
zero_add n = omega arith

abbrev pub batch_report_of : Result (Unit {0}) → ℕ → ℕ → Published
batch_report_of (raise e) count size = record { success = false; count = 0; size_bytes = size }
batch_report_of (ok u) count size = record { success = true; count = count; size_bytes = size }

-- What a publish reports, by how it ended.
abbrev pub report_of : Result (Option ℕ) → ℕ → Published
report_of (raise e) size = record { success = false; count = 0; size_bytes = size }
report_of (ok none) size = record { success = true; count = 0; size_bytes = size }
report_of (ok (some id)) size = record { success = true; count = 1; size_bytes = size }

module _ {ℓ} {S : Type ℓ} {B : Type ℓ} (inserter : Inserter S)
    (encode_message : B → Result (List ℕ × Option String)) where
  inserted-reports :
      (size : ℕ) (a : S × Result (Option ℕ)) (p : Producing S)
      → let result = inserted inserter encode_message size a p in
        result.0.metrics ≡ p.metrics ++ report_of result.1 size ∷ []
  unfolding inserted
  inserted-reports size (s, raise e) p = refl
  inserted-reports size (s, ok none) p = refl
  inserted-reports size (s, ok (some id)) p = refl

  encoded-reports :
      (args : PublishArgs) (r : Result (List ℕ × Headers)) (p : Producing S)
      → let result = publish_encoded inserter encode_message args r p in
        (size : ℕ) × (result.0.metrics ≡ p.metrics ++ report_of result.1 size ∷ [])
  unfolding publish_encoded
  encoded-reports args (raise e) p = (0, refl)
  encoded-reports args (ok (payload, headers)) p = (
    length payload,
    inserted-reports (length payload) (inserter.insert args payload headers p.store) p,
  )

  encode_next-rows :
      (n : ℕ) (rows : List (List ℕ × Headers)) (size : ℕ) (r : Result (List ℕ × Headers))
      (continue : List (List ℕ × Headers) → ℕ → Encoded inserter encode_message)
      → ((rows : List (List ℕ × Headers)) (size : ℕ)
          → (continue rows size).1 ≡ ok tt
          → length (continue rows size).0.0 ≡ length rows + n)
      → (encode_next inserter encode_message rows size r continue).1 ≡ ok tt
      → length (encode_next inserter encode_message rows size r continue).0.0 ≡ length rows + suc n
  unfolding encode_next
  encode_next-rows n rows size (raise e) continue k h = absurd (ground arith)
  encode_next-rows n rows size (ok row) continue k h =
      ground (arith, k (rows ++ row ∷ []) (size + length row.0) h, length-append rows (row ∷ []))

  -- A loop that ends well has one row for each body.
  encode_each-rows :
      (generated : ℕ → String) (h : Headers) (bs : List B) (rows : List (List ℕ × Headers))
      (size : ℕ)
      → (encode_each inserter encode_message generated h bs rows size).1 ≡ ok tt
      → length (encode_each inserter encode_message generated h bs rows size).0.0
        ≡ length rows + length bs
  unfolding encode_each
  encode_each-rows generated h [] rows size e = omega arith
  encode_each-rows generated h (b ∷ bs) rows size e =
      encode_next-rows (length bs) rows size
        (encode_payload encode_message b h none (generated (length rows)))
        (λ rows size. encode_each inserter encode_message generated h bs rows size)
        (λ rows size k. encode_each-rows generated h bs rows size k) e

  batch_inserted-reports :
      (count size : ℕ) (a : S × Result (Unit {0})) (p : Producing S)
      → let result = batch_inserted inserter encode_message count size a p in
        result.0.metrics ≡ p.metrics ++ batch_report_of result.1 count size ∷ []
  unfolding batch_inserted
  batch_inserted-reports count size (s, raise e) p = refl
  batch_inserted-reports count size (s, ok u) p = refl

  batch_encoded-reports :
      (n : ℕ) (args : PublishArgs) (r : Encoded inserter encode_message) (p : Producing S)
      → (r.1 ≡ ok tt → length r.0.0 ≡ n)
      → let result = batch_encoded inserter encode_message args r p in
        (size : ℕ) × (result.0.metrics ≡ p.metrics ++ batch_report_of result.1 n size ∷ [])
  unfolding batch_encoded
  batch_encoded-reports n args ((rows, size), raise e) p h = (size, refl)
  batch_encoded-reports n args ((rows, size), ok u) p h = (
    size,
    subst
        (λ k.
          (batch_inserted inserter encode_message (length rows) size
            (inserter.insert_batch args rows p.store) p).0.metrics
          ≡ p.metrics
            ++ batch_report_of
                (batch_inserted inserter encode_message (length rows) size
                  (inserter.insert_batch args rows p.store) p).1
                k size
              ∷ [])
        (h refl)
        (batch_inserted-reports (length rows) size (inserter.insert_batch args rows p.store) p),
  )

  -- A batch reports once: where it succeeds, it reports one row for each of its bodies, None
  -- among them included; where an encoding or the INSERT raises, an error with no row.
  pub publish_batch-reports :
      (generated : ℕ → String) (cmd : OutboxPublishCommand B) (p : Producing S)
      → let result = publish_batch inserter encode_message generated cmd p in
        (size : ℕ) × (result.0.metrics
          ≡ p.metrics ++ batch_report_of result.1 (length (batch_bodies cmd)) size ∷ [])
  unfolding publish_batch
  publish_batch-reports generated cmd p =
      batch_encoded-reports (length (batch_bodies cmd)) cmd.args
        (encode_each inserter encode_message generated (or_empty cmd.headers) (batch_bodies cmd) []
          0)
        p
        (λ h.
          encode_each-rows generated (or_empty cmd.headers) (batch_bodies cmd) [] 0 h ∙ zero_add _)

  -- A publish reports once, whatever happens: an error with no row if the encoding or the INSERT
  -- raises, and else a success with one row, or with none if a timer conflict kept the row out.
  pub publish-reports :
      (generated : String) (cmd : OutboxPublishCommand B) (p : Producing S)
      → let result = publish inserter encode_message generated cmd p in
        (size : ℕ) × (result.0.metrics ≡ p.metrics ++ report_of result.1 size ∷ [])
  unfolding publish
  publish-reports generated cmd p =
      encoded-reports cmd.args
        (encode_payload encode_message cmd.body (or_empty cmd.headers) cmd.correlation_id generated)
        p
