-- ===== src/Core/Types.antt =====
-- Blocks and logs: crates/forge-index-core/src/types. An address is the number that its 20 bytes
-- spell, a hash the number that its 32 bytes spell, and bytes are a list of numbers.
use forge_index.Base.{ℕ, String, Bool, Option, List}

pub record Block : Type 0 where
  pub chain_id : ℕ
  pub number : ℕ
  pub hash : ℕ
  pub parent_hash : ℕ
  pub timestamp : ℕ
  pub gas_limit : ℕ
  pub gas_used : ℕ
  pub base_fee_per_gas : Option ℕ
  pub miner : ℕ

pub record Log : Type 0 where
  pub id : String
  pub chain_id : ℕ
  pub address : ℕ
  pub topics : List ℕ
  pub payload : List ℕ
  pub block_number : ℕ
  pub block_hash : ℕ
  pub transaction_hash : ℕ
  pub log_index : ℕ
  pub transaction_index : ℕ
  pub removed : Bool

pub record Transaction : Type 0 where
  pub chain_id : ℕ
  pub hash : ℕ
  pub block_number : ℕ
  pub block_hash : ℕ
  pub from : ℕ
  pub to : Option ℕ
  pub value : ℕ
  pub gas : ℕ
  pub gas_price : Option ℕ
  pub input : List ℕ
  pub nonce : ℕ
  pub transaction_index : ℕ
