-- ===== src/Sync.antt =====
-- The sync engine: crates/forge-index-sync/src.
pub mod Error
pub mod ChainState
pub mod Detector
pub mod Planner
pub mod Worker
pub mod Progress
pub mod Coordinator
pub mod Finality
pub mod Factory
pub mod Handler
pub mod Processor
pub mod Subscriber
mod Examples
