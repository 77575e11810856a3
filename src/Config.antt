-- ===== src/Config.antt =====
-- The configuration crate: crates/forge-index-config/src.
pub mod Contract
pub mod Types
pub mod Validation
pub mod Schema
pub mod Builder
mod Examples
