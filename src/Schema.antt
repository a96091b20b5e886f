-- ===== src/Schema.antt =====
-- faststream_outbox/schema_validation.py and autovacuum.py: whether the tables of a database are those
-- that the package needs.
pub mod Text
pub mod Probes
pub mod Drift
pub mod Autovacuum
pub mod Validate
pub mod Sound
