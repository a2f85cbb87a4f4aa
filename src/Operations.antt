-- ===== src/Operations.antt =====
-- api/app/operations: the process-local telemetry.
pub mod Metrics
