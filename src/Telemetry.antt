-- ===== src/Telemetry.antt =====
-- The telemetry crate: crates/forge-index-telemetry/src.
pub mod BuildId
mod Examples
