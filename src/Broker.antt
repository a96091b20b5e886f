-- ===== src/Broker.antt =====
-- faststream_outbox/broker.py: what OutboxBroker does over all its subscribers.
pub mod Queues
pub mod Registration
pub mod Foreign
pub mod Shutdown
pub mod Start
pub mod Publishing
