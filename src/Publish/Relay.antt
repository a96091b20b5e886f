-- ===== src/Publish/Relay.antt =====
-- faststream_outbox/subscriber/usecase.py: what a handler's response inherits from its message, and
-- the guard against publishing it twice.
use faststream_outbox.Base.{
  ◌≡◌, refl, Bool, true, false, not, ◌&&◌, Option, none, List, [], ◌∷◌, String, Result, ok, Error,
  raise_if, ◌==◌, string_eq, filter, any, if◌then◌else◌, arith,
}
use faststream_outbox.Message.Types.{Headers}
use faststream_outbox.Publish.Envelope.{
  get, encode_headers, encode_headers-accepts, content_type_header, correlation_id_header,
}

-- A `Response`: whether it is an OutboxResponse, and its headers.
pub record Response : Type 0 where
  pub is_outbox : Bool
  pub headers : Headers

-- `d.pop(k, None)`.
unfoldable pub pop : String → Headers → Headers
pop k h = filter (λ e. not (e.0 == k)) h

abbrev pub is_empty : Headers → Bool
is_empty [] = true
is_empty (x ∷ xs) = false

-- `_maybe_propagate_inbound_headers`; `enabled` is `propagate_inbound_headers`.
unfoldable pub maybe_propagate_inbound_headers : Bool → Headers → Response → Response
unfolding pop
maybe_propagate_inbound_headers enabled inbound r =
    if enabled && is_empty r.headers
    then record r {
      headers =
          if r.is_outbox
          then pop correlation_id_header (pop content_type_header inbound)
          else inbound;
    }
    else r

-- `_reject_outbox_response_with_foreign_publisher`: each of the handler's publishers is the
-- outbox's own fake one, or not.
unfoldable pub reject_outbox_response_with_foreign_publisher :
    Response → List Bool → Result (Unit {0})
reject_outbox_response_with_foreign_publisher r fake =
    raise_if (r.is_outbox && any not fake) Error.config_error

get-pop : (k : String) (h : Headers) → get k (pop k h) ≡ none
unfolding get pop
get-pop k [] = refl
get-pop k ((l, v) ∷ h) = ground (arith, get-pop k h)

get-pop-none : (k j : String) (h : Headers) → get k h ≡ none → get k (pop j h) ≡ none
unfolding get pop
get-pop-none k j [] e = refl
get-pop-none k j ((l, v) ∷ h) e = ground (arith, get-pop-none k j h)

-- An OutboxResponse with no headers of its own never fails to encode over the inbound message's
-- headers: whatever they are, with any content type and any correlation id, encode_headers accepts
-- what it inherits.
pub propagated-encodes :
    (inbound : Headers) (content_type correlation_id : Option String) (generated : String)
    → (out : Headers) × (encode_headers content_type
          (maybe_propagate_inbound_headers true inbound
            (record { is_outbox = true; headers = [] })).headers
          correlation_id
          generated
        ≡ ok out)
unfolding maybe_propagate_inbound_headers
propagated-encodes inbound ct cid generated =
    encode_headers-accepts ct (pop correlation_id_header (pop content_type_header inbound)) cid
      generated
      (get-pop-none content_type_header correlation_id_header (pop content_type_header inbound)
        (get-pop content_type_header inbound))
      (get-pop correlation_id_header (pop content_type_header inbound))
