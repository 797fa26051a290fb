-- ===== src/Metrics.antt =====
-- internal/metrics: the router that hands events to consumers, and the OpenTelemetry consumer with
-- its buffer.
pub mod Router
pub mod Buffer
pub mod Consumer
mod Tests
