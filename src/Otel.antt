-- ===== src/Otel.antt =====
-- include/cppload/otel and core/otel: the export of spans.
pub mod Tracer
