-- ===== src/Rpc/Store.antt =====
-- The cached blocks, transactions, calls and checkpoints: crates/forge-index-rpc/src/cache/store.rs,
-- with the keys of crates/forge-index-rpc/src/cache/keys.rs and the primary keys of
-- crates/forge-index-rpc/src/cache/migrations.rs. A column of a hash or an address is the number that
-- its text spells. How serde writes and reads a transaction, and the hash of a call's key, are
-- parameters. The column `raw` of a block is never read and left out.
use forge_index.Base.{ℕ, Bool, ◌&&◌, Option, none, some, List, ◌++◌, ◌==◌}
use forge_index.Base.Bytes.{to_be}
use forge_index.Base.Exec.{Exec, ◌>>=◌, pure, fail}
use forge_index.Base.Json.{Json}
use forge_index.Base.Text.{Text, codes, text_eq}
use forge_index.Core.Types.{Block, Transaction}
use forge_index.Rpc.LogCache.{LogTable}
use forge_index.Rpc.Table.{Table, statement, find_row, insert_new, upsert}

pub record BlockRow : Type 0 where
  pub chain_id : ℕ
  pub block_number : ℕ
  pub block_hash : ℕ
  pub parent_hash : ℕ
  pub timestamp : ℕ
  pub miner : ℕ
  pub gas_limit : ℕ
  pub gas_used : ℕ
  pub base_fee : Option ℕ

pub record TransactionRow : Type 0 where
  pub chain_id : ℕ
  pub tx_hash : ℕ
  pub block_number : ℕ
  pub raw : Json

pub record CallRow : Type 0 where
  pub chain_id : ℕ
  pub call_key : Text
  pub result : List ℕ
  pub block_number : ℕ

pub record CheckpointRow : Type 0 where
  pub chain_id : ℕ
  pub contract_address : Text
  pub last_indexed_block : ℕ

pub record RpcCacheStore : Type 0 where
  pub logs : LogTable
  pub blocks : Table BlockRow
  pub transactions : Table TransactionRow
  pub eth_calls : Table CallRow
  pub checkpoints : Table CheckpointRow

module _ {A : Type 0} where
  -- a statement on one of the tables
  abbrev pub on_blocks : Exec (Table BlockRow) Text A → Exec RpcCacheStore Text A
  on_blocks m s = let (r, table) = m s.blocks in (r, record s { blocks = table })

  abbrev pub on_transactions : Exec (Table TransactionRow) Text A → Exec RpcCacheStore Text A
  on_transactions m s = let (r, table) = m s.transactions in (r, record s { transactions = table })

  abbrev pub on_calls : Exec (Table CallRow) Text A → Exec RpcCacheStore Text A
  on_calls m s = let (r, table) = m s.eth_calls in (r, record s { eth_calls = table })

abbrev pub is_block : ℕ → ℕ → BlockRow → Bool
is_block chain_id number row = (row.chain_id == chain_id) && (row.block_number == number)

-- the primary key of the blocks
abbrev pub same_block : BlockRow → BlockRow → Bool
same_block a b = is_block b.chain_id b.block_number a

abbrev pub into_block : BlockRow → Block
into_block row = record {
  chain_id = row.chain_id;
  number = row.block_number;
  hash = row.block_hash;
  parent_hash = row.parent_hash;
  timestamp = row.timestamp;
  gas_limit = row.gas_limit;
  gas_used = row.gas_used;
  base_fee_per_gas = row.base_fee;
  miner = row.miner;
}

abbrev pub block_row : ℕ → Block → BlockRow
block_row chain_id block = record {
  chain_id = chain_id;
  block_number = block.number;
  block_hash = block.hash;
  parent_hash = block.parent_hash;
  timestamp = block.timestamp;
  miner = block.miner;
  gas_limit = block.gas_limit;
  gas_used = block.gas_used;
  base_fee = block.base_fee_per_gas;
}

unfoldable pub get_block : ℕ → ℕ → Exec (Table BlockRow) Text (Option Block)
get_block chain_id number =
    statement (λ rows. (find_row (is_block chain_id number) rows, rows)) >>= λ row.
    pure (elim row [ none ↦ none | some r ↦ some (into_block r) ])

unfoldable pub put_block : ℕ → Block → Exec (Table BlockRow) Text (Unit {0})
put_block chain_id block = statement (insert_new same_block (block_row chain_id block))

abbrev pub is_transaction : ℕ → ℕ → TransactionRow → Bool
is_transaction chain_id hash row = (row.chain_id == chain_id) && (row.tx_hash == hash)

abbrev pub same_transaction : TransactionRow → TransactionRow → Bool
same_transaction a b = is_transaction b.chain_id b.tx_hash a

module _ (json_tx : Json → Option Transaction) where
  -- a row that is no transaction is an error
  abbrev pub read_raw :
      Option TransactionRow → Exec (Table TransactionRow) Text (Option Transaction)
  read_raw none = pure none
  read_raw (some row) = elim (json_tx row.raw) [
    | none ↦ fail (codes "invalid transaction")
    | some tx ↦ pure (some tx)
  ]

  unfoldable pub get_transaction : ℕ → ℕ → Exec (Table TransactionRow) Text (Option Transaction)
  get_transaction chain_id hash =
      statement (λ rows. (find_row (is_transaction chain_id hash) rows, rows)) >>= read_raw

unfoldable pub put_transaction :
    (Transaction → Json) → ℕ → Transaction → Exec (Table TransactionRow) Text (Unit {0})
put_transaction tx_json chain_id tx = statement (
    insert_new same_transaction (record {
      chain_id = chain_id;
      tx_hash = tx.hash;
      block_number = tx.block_number;
      raw = tx_json tx;
    }))

abbrev pub is_call : ℕ → Text → CallRow → Bool
is_call chain_id key row = (row.chain_id == chain_id) && text_eq row.call_key key

abbrev pub same_call : CallRow → CallRow → Bool
same_call a b = is_call b.chain_id b.call_key a

-- `sha256_hex` is the digest of bytes as hexadecimal text
module _ (address_text : ℕ → Text) (sha256_hex : List ℕ → Text) where
  unfoldable pub eth_call_key : (to : ℕ) (payload : List ℕ) (block_number : ℕ) → Text
  eth_call_key to payload block_number =
      sha256_hex (address_text to ++ (payload ++ to_be 8 block_number))

  unfoldable pub get_eth_call :
      (chain_id to : ℕ) (payload : List ℕ) (block : ℕ) → Exec (Table CallRow) Text (Option (List ℕ))
  get_eth_call chain_id to payload block =
      statement (λ rows. (find_row (is_call chain_id (eth_call_key to payload block)) rows, rows))
      >>= λ row. pure (elim row [ none ↦ none | some r ↦ some r.result ])

  unfoldable pub put_eth_call :
      (chain_id to : ℕ) (payload : List ℕ) (block : ℕ) (result : List ℕ)
      → Exec (Table CallRow) Text (Unit {0})
  put_eth_call chain_id to payload block result = statement (
      insert_new same_call (record {
        chain_id = chain_id;
        call_key = eth_call_key to payload block;
        result = result;
        block_number = block;
      }))

abbrev pub is_checkpoint : ℕ → Text → CheckpointRow → Bool
is_checkpoint chain_id contract row =
    (row.chain_id == chain_id) && text_eq row.contract_address contract

abbrev pub same_checkpoint : CheckpointRow → CheckpointRow → Bool
same_checkpoint a b = is_checkpoint b.chain_id b.contract_address a

unfoldable pub get_checkpoint : ℕ → Text → Exec (Table CheckpointRow) Text (Option ℕ)
get_checkpoint chain_id contract_address =
    statement (λ rows. (find_row (is_checkpoint chain_id contract_address) rows, rows)) >>= λ row.
    pure (elim row [ none ↦ none | some r ↦ some r.last_indexed_block ])

unfoldable pub put_checkpoint : ℕ → Text → ℕ → Exec (Table CheckpointRow) Text (Unit {0})
put_checkpoint chain_id contract_address last_block = statement (
    upsert same_checkpoint (record {
      chain_id = chain_id;
      contract_address = contract_address;
      last_indexed_block = last_block;
    }))
