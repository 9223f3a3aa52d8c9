-- ===== src/Observability.antt =====
-- src/shared/observability: the alerter.
pub mod Quote
pub mod Alert
mod Tests
