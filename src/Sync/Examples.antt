-- ===== src/Sync/Examples.antt =====
-- The theorems about crates/forge-index-sync/src at concrete inputs.
mod Reorg
mod StaleCache
mod Plan
mod Backfill
