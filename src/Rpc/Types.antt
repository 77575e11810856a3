-- ===== src/Rpc/Types.antt =====
-- crates/forge-index-rpc/src/types.rs
use forge_index.Base.{ℕ, Option, List}

pub record LogFilter : Type 0 where
  pub address : List ℕ
  pub topics : List (Option (List ℕ))
  pub from_block : ℕ
  pub to_block : ℕ
