-- ===== src/Metrics.antt =====
-- core/metrics: the collectors of request metrics.
pub mod Embedded
pub mod Exporter
pub mod Sharded
pub mod Collector
