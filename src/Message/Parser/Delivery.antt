-- ===== src/Message/Parser/Delivery.antt =====
-- From a published body to the message that a handler receives.
use faststream_outbox.Base.{
  ℕ, ◌≡◌, refl, ap, true, Option, some, List, String, Result, ok, raise, string_eq, or_else, arith,
  ◌>>=◌,
}
use faststream_outbox.Message.Types.{Headers}
use faststream_outbox.Table.{claim, row_to_message}
use faststream_outbox.Client.Insert.{NewRow, fresh_row}
use faststream_outbox.Publish.Envelope.{
  get, encode_payload, encode_headers, Encoded, truthy, first_truthy, correlation_id_header,
  encode_headers-content,
}
use faststream_outbox.Message.Parser.{OutboxMessage, parse_message}

-- The row of an insert, claimed, as the message that its handler receives.
unfoldable pub delivered :
    (ℕ → String) → (now monotonic id token claimed_at : ℕ) → Option ℕ → NewRow → OutboxMessage
unfolding fresh_row claim row_to_message parse_message
delivered str now monotonic id token claimed_at next n =
    parse_message str (row_to_message monotonic (claim claimed_at token (fresh_row now id next n)))

-- What the handler sees of a published body, its headers and its correlation id.
abbrev pub Receives {ℓ} :
    {B : Type ℓ}
    → (B → Result (List ℕ × Option String))
    → B
    → Headers
    → Option String
    → String
    → OutboxMessage
    → Type 0
Receives encode body headers correlation_id generated m =
    (content_type : Option String) × (encode body ≡ ok (m.body, content_type))
    × Encoded content_type headers correlation_id generated m.headers
    × (m.correlation_id ≡ first_truthy correlation_id (get correlation_id_header headers) generated)
    × (truthy content_type ≡ true → m.content_type ≡ content_type)

abbrev paired : List ℕ → Headers → Result (List ℕ × Headers)
paired payload headers = ok (payload, headers)

-- An encoding that succeeded, in its two steps.
headers_step :
    (headers : Headers) (cid : Option String) (generated : String) (payload' : List ℕ)
    (ct : Option String) (e : Result Headers) {payload : List ℕ} {out : Headers}
    → (e >>= paired payload') ≡ ok (payload, out)
    → (payload' ≡ payload) × (e ≡ ok out)
headers_step headers cid generated payload' ct (ok h) k = (ground (arith, k), ground (arith, k))
headers_step headers cid generated payload' ct (raise x) k = absurd (ground (arith, k))

encoded_steps :
    (headers : Headers) (cid : Option String) (generated : String)
    (e : Result (List ℕ × Option String)) {payload : List ℕ} {out : Headers}
    → (◌>>=◌ {B = List ℕ × Headers} e
        (λ (p, ct). encode_headers ct headers cid generated >>= paired p))
      ≡ ok (payload, out)
    → (ct : Option String) × (e ≡ ok (payload, ct))
      × (encode_headers ct headers cid generated ≡ ok out)
encoded_steps headers cid generated (ok (p, ct)) h =
    let (same, accepted) =
      headers_step headers cid generated p ct (encode_headers ct headers cid generated) h in
    (ct, ap (λ q. ok (q, ct)) same, accepted)
encoded_steps headers cid generated (raise x) h = absurd (ground (arith, h))

-- A published body reaches its handler whole: where the body and its headers were encoded, the row
-- that the insert makes, once it is claimed, is parsed into a message with the encoder's bytes, the
-- correlation id that the publish chose, the encoder's content type if it gave one, every other header
-- as the caller gave it, and the queue and the id of the row.
pub parse_message-encode_payload {ℓ} :
    {B : Type ℓ} (encode : B → Result (List ℕ × Option String)) (body : B) (headers : Headers)
    (correlation_id : Option String) (generated : String) (str : ℕ → String)
    (now monotonic id token claimed_at : ℕ) (next : Option ℕ) (queue : String)
    (timer_id : Option String) {payload : List ℕ} {out : Headers}
    → encode_payload encode body headers correlation_id generated ≡ ok (payload, out)
    → let m =
        delivered str now monotonic id token claimed_at next
          (record { queue = queue; payload = payload; headers = some out; timer_id = timer_id }) in
      Receives encode body headers correlation_id generated m
      × (m.reply_to ≡ queue)
      × (m.message_id ≡ str id)
unfolding delivered encode_payload
parse_message-encode_payload encode body headers cid generated str now mono id token at next queue
      timer {payload} {out} h =
    let (ct, encoded, accepted) = encoded_steps headers cid generated (encode body) h in
    let content = encode_headers-content ct headers cid generated accepted in
    ((ct, encoded, content, ap (λ c. or_else c (str id)) (content.0), content.1.0), refl, refl)
