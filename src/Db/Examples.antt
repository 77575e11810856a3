-- ===== src/Db/Examples.antt =====
-- The theorems about crates/forge-index-db/src at concrete inputs.
mod Buffered
mod Rollback
