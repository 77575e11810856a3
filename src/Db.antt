-- ===== src/Db.antt =====
-- The database crate: crates/forge-index-db/src.
pub mod Error
pub mod Row
pub mod Buffer
pub mod Reorg
pub mod Manager
pub mod Query
mod Examples
mod ManagerExamples
