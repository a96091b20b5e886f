-- ===== src/Publish.antt =====
-- Publishing: faststream_outbox/envelope.py, response.py and publisher/producer.py. A command is
-- checked when it is made, its body is encoded, and the row is written on the caller's session.
pub mod Envelope
pub mod Command
pub mod Producer
pub mod Relay
pub mod Response
