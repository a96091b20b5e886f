-- ===== src/Subscriber.antt =====
-- faststream_outbox/subscriber/usecase.py, class OutboxSubscriber: what a worker does with a
-- claimed row. Its client is an interface whose calls may raise, since the connection can fail.
pub mod Draining
pub mod Reconnect
pub mod Settings
pub mod Types
pub mod Truncate
pub mod Flush
pub mod Dispatch
pub mod Processing
pub mod Listening
pub mod Buffering
pub mod Effects
pub mod Closing
pub mod Batch
pub mod Frame
pub mod Worker
