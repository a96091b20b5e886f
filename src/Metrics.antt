-- ===== src/Metrics.antt =====
-- faststream_outbox/metrics: the Prometheus adapter, on the events of the subscriber and the producer.
pub mod Prometheus
pub mod InProcess
pub mod OpenTelemetry
pub mod Lag
