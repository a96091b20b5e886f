-- ===== src/Message/Parser.antt =====
-- faststream_outbox/parser/parser.py, `OutboxParser.parse_message`, and `OutboxMessage` of
-- faststream_outbox/message.py, which hands its ack, nack and reject on to the row. `str` of an id is
-- Python's, a parameter; `decode_message` of FastStream is left out.
pub mod Delivery
use faststream_outbox.Base.{ℕ, Option, none, some, List, [], String, or_else}
use faststream_outbox.Message.Types.{Headers, OutboxInnerMessage}
use faststream_outbox.Message.{ack, nack, reject}
use faststream_outbox.Publish.Envelope.{get, content_type_header, correlation_id_header}

pub record OutboxMessage : Type 0 where
  pub raw_message : OutboxInnerMessage
  pub body : List ℕ
  pub headers : Headers
  pub content_type : Option String
  pub message_id : String
  pub correlation_id : String
  pub reply_to : String

-- `msg.headers or {}`.
abbrev pub headers_of : Option Headers → Headers
headers_of none = []
headers_of (some h) = h

unfoldable pub parse_message : (ℕ → String) → OutboxInnerMessage → OutboxMessage
unfolding get
parse_message str msg = record {
  raw_message = msg;
  body = msg.payload;
  headers = headers_of msg.headers;
  content_type = get content_type_header (headers_of msg.headers);
  message_id = str msg.id;
  correlation_id = or_else (get correlation_id_header (headers_of msg.headers)) (str msg.id);
  reply_to = msg.queue;
}

-- The methods of OutboxMessage.
unfoldable pub ack_message : ℕ → OutboxMessage → OutboxMessage
unfolding ack
ack_message now m = record m { raw_message = ack now m.raw_message }

unfoldable pub nack_message : ℕ → OutboxMessage → OutboxMessage
unfolding nack
nack_message now m = record m { raw_message = nack now m.raw_message }

unfoldable pub reject_message : ℕ → OutboxMessage → OutboxMessage
unfolding reject
reject_message now m = record m { raw_message = reject now m.raw_message }
