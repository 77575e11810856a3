-- ===== src/Sync/Progress.antt =====
-- Progress of a backfill: crates/forge-index-sync/src/backfill/progress.rs. Rates and times, which the
-- source computes with floating point, are left out.
use forge_index.Base.{ℕ, none, some}
use forge_index.Base.Maps.{Map, get, insert}
use forge_index.Base.Word.{wrapping_add}
use forge_index.Sync.Detector.{chain_key}

pub record ChainProgress : Type 0 where
  pub total_blocks : ℕ
  pub processed_blocks : ℕ
  pub events_processed : ℕ

abbrev pub new : ℕ → ChainProgress
new total_blocks = record {
  total_blocks = total_blocks;
  processed_blocks = 0;
  events_processed = 0;
}

abbrev pub record_range : ℕ → ℕ → ChainProgress → ChainProgress
record_range blocks events p = record p {
  processed_blocks = wrapping_add p.processed_blocks blocks;
  events_processed = wrapping_add p.events_processed events;
}

unfoldable pub init_chain : ℕ → ℕ → Map ℕ ChainProgress → Map ℕ ChainProgress
init_chain chain_id total_blocks m = insert chain_key chain_id (new total_blocks) m

unfoldable pub record_chain : ℕ → ℕ → ℕ → Map ℕ ChainProgress → Map ℕ ChainProgress
record_chain chain_id blocks events m = elim (get chain_key chain_id m) [
  | none ↦ m
  | some p ↦ insert chain_key chain_id (record_range blocks events p) m
]
