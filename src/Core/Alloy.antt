-- ===== src/Core/Alloy.antt =====
-- What is read from the provider's types: `from_alloy` in crates/forge-index-core/src/types. The
-- provider's records have what the code reads of them.
use forge_index.Base.{ℕ, ◌%◌, ◌^◌, String, false, Option, none, some, List, ltb, if◌then◌else◌}
use forge_index.Core.Types.{Block, Log, Transaction}

pub record AlloyLog : Type 0 where
  pub address : ℕ
  pub topics : List ℕ
  pub payload : List ℕ
  pub block_number : Option ℕ
  pub block_hash : Option ℕ
  pub transaction_hash : Option ℕ
  pub transaction_index : Option ℕ
  pub log_index : Option ℕ

pub record AlloyHeader : Type 0 where
  pub number : ℕ
  pub hash : ℕ
  pub parent_hash : ℕ
  pub timestamp : ℕ
  pub gas_limit : ℕ
  pub gas_used : ℕ
  pub base_fee_per_gas : Option ℕ
  pub beneficiary : ℕ

pub record AlloyTransaction : Type 0 where
  pub hash : ℕ
  pub block_number : Option ℕ
  pub block_hash : Option ℕ
  pub from : ℕ
  pub to : Option ℕ
  pub value : ℕ
  pub gas_limit : ℕ
  pub gas_price : Option ℕ
  pub input : List ℕ
  pub nonce : ℕ
  pub transaction_index : Option ℕ

-- `unwrap_or(0)`, also of a hash
abbrev pub or_zero : Option ℕ → ℕ
or_zero none = 0
or_zero (some n) = n

-- `unwrap_or(0) as u32`
abbrev pub or_zero_u32 : Option ℕ → ℕ
or_zero_u32 o = or_zero o % 2 ^ 32

module _ (log_id : (block_hash log_index : ℕ) → String) where
  unfoldable pub log_from_alloy : (chain_id : ℕ) → AlloyLog → Log
  log_from_alloy chain_id l = record {
    id = log_id (or_zero l.block_hash) (or_zero_u32 l.log_index);
    chain_id = chain_id;
    address = l.address;
    topics = l.topics;
    payload = l.payload;
    block_number = or_zero l.block_number;
    block_hash = or_zero l.block_hash;
    transaction_hash = or_zero l.transaction_hash;
    log_index = or_zero_u32 l.log_index;
    transaction_index = or_zero_u32 l.transaction_index;
    removed = false;
  }

unfoldable pub block_from_alloy : (chain_id : ℕ) → AlloyHeader → Block
block_from_alloy chain_id h = record {
  chain_id = chain_id;
  number = h.number;
  hash = h.hash;
  parent_hash = h.parent_hash;
  timestamp = h.timestamp;
  gas_limit = h.gas_limit;
  gas_used = h.gas_used;
  base_fee_per_gas = h.base_fee_per_gas;
  miner = h.beneficiary;
}

-- none where the conversion of the value panics
unfoldable pub transaction_from_alloy : (chain_id : ℕ) → AlloyTransaction → Option Transaction
transaction_from_alloy chain_id t =
    if ltb t.value (2 ^ 128)
    then some (record {
      chain_id = chain_id;
      hash = t.hash;
      block_number = or_zero t.block_number;
      block_hash = or_zero t.block_hash;
      from = t.from;
      to = t.to;
      value = t.value;
      gas = t.gas_limit;
      gas_price = t.gas_price;
      input = t.input;
      nonce = t.nonce;
      transaction_index = or_zero_u32 t.transaction_index;
    })
    else none
