-- ===== src/Rpc/CachedClient.antt =====
-- The client that reads through the cache: crates/forge-index-rpc/src/cached_client.rs. The inner
-- client and what it changes are parameters.
pub mod Lost
pub mod Stale
use forge_index.Base.{ℕ, ◌+◌, Bool, not, Option, none, some, List, [], ◌∷◌, ◌==◌, keep}
use forge_index.Base.Exec.{Result, ok, err, Exec}
use forge_index.Base.Json.{Json}
use forge_index.Base.Text.{Text}
use forge_index.Base.Word.{wrapping_add}
use forge_index.Core.Types.{Log, Block, Transaction}
use forge_index.Rpc.Error.{RpcError}
use forge_index.Rpc.LogCache.{Texts, get_logs, put_logs, u32_max}
use forge_index.Rpc.Store.{
  RpcCacheStore, on_blocks, on_transactions, on_calls, get_block, put_block, get_transaction,
  put_transaction, get_eth_call, put_eth_call,
}
use forge_index.Rpc.Types.{LogFilter}

pub record CachedRpcClient (W : Type 0) : Type 0 where
  pub inner : W
  pub cache : RpcCacheStore
  pub hits : ℕ
  pub misses : ℕ

module _ {W : Type 0} where
  abbrev pub record_hit : CachedRpcClient W → CachedRpcClient W
  record_hit c = record c { hits = wrapping_add c.hits 1 }

  abbrev pub record_miss : CachedRpcClient W → CachedRpcClient W
  record_miss c = record c { misses = wrapping_add c.misses 1 }

-- a read of one value: from the cache, or from the node and into the cache
module _ {W A : Type 0} (load : Exec RpcCacheStore Text (Option A)) (fetch : Exec W RpcError A)
    (save : A → Exec RpcCacheStore Text (Unit {0})) where
  abbrev pub store_value :
      Result RpcError A → CachedRpcClient W → Result RpcError A × CachedRpcClient W
  store_value (err e) c = (err e, c)
  store_value (ok a) c = let (_, cache) = save a c.cache in (ok a, record c { cache = cache })

  abbrev pub fetch_value : Exec (CachedRpcClient W) RpcError A
  fetch_value c =
      let (answer, inner) = fetch c.inner in store_value answer (record c { inner = inner })

  abbrev pub value_from : Result Text (Option A) → Exec (CachedRpcClient W) RpcError A
  value_from (ok (some a)) c = (ok a, record_hit c)
  value_from (ok none) c = fetch_value (record_miss c)
  value_from (err e) c = fetch_value (record_miss c)

  abbrev pub read_through : Exec (CachedRpcClient W) RpcError A
  read_through c =
      let (found, cache) = load c.cache in value_from found (record c { cache = cache })

module _ {W : Type 0} where
  unfoldable pub get_block_by_number :
      (ℕ → Exec W RpcError Block) → (chain_id number : ℕ) → Exec (CachedRpcClient W) RpcError Block
  get_block_by_number fetch chain_id number =
      read_through (on_blocks (get_block chain_id number)) (fetch number)
        (λ block. on_blocks (put_block chain_id block))

  unfoldable pub get_transaction_cached :
      (Transaction → Json)
      → (Json → Option Transaction)
      → (ℕ → Exec W RpcError Transaction)
      → (chain_id hash : ℕ) → Exec (CachedRpcClient W) RpcError Transaction
  get_transaction_cached tx_json json_tx fetch chain_id hash =
      read_through (on_transactions (get_transaction json_tx chain_id hash)) (fetch hash)
        (λ tx. on_transactions (put_transaction tx_json chain_id tx))

  unfoldable pub eth_call :
      (ℕ → Text)
      → (List ℕ → Text)
      → (ℕ → List ℕ → ℕ → Exec W RpcError (List ℕ))
      → (chain_id to : ℕ) (payload : List ℕ) (block : ℕ)
      → Exec (CachedRpcClient W) RpcError (List ℕ)
  eth_call address_text sha256_hex fetch chain_id to payload block =
      read_through (on_calls (get_eth_call address_text sha256_hex chain_id to payload block))
        (fetch to payload block)
        (λ result. on_calls (put_eth_call address_text sha256_hex chain_id to payload block result))

-- the logs without the sentinel
abbrev pub real_logs : List Log → List Log
real_logs = keep (λ l. not (l.log_index == u32_max))

module _ {W : Type 0} (texts : Texts) (fetch : LogFilter → Exec W RpcError (List Log))
    (chain_id : ℕ) where
  -- an answer of the node is stored, whether or not that succeeds
  unfoldable pub store_answer :
      LogFilter
      → Result RpcError (List Log)
      → CachedRpcClient W
      → Result RpcError (List Log) × CachedRpcClient W
  store_answer filter (err e) c = (err e, c)
  store_answer filter (ok logs) c =
      let (_, table) = put_logs texts chain_id filter logs c.cache.logs in
      (ok logs, record c { cache = record c.cache { logs = table } })

  unfoldable pub ask_node : LogFilter → Exec (CachedRpcClient W) RpcError (List Log)
  ask_node filter c =
      let (answer, inner) = fetch filter c.inner in
      store_answer filter answer (record c { inner = inner })

  unfoldable pub answer_from :
      LogFilter → Result Text (Option (List Log)) → Exec (CachedRpcClient W) RpcError (List Log)
  answer_from filter (ok (some logs)) c = (ok (real_logs logs), record_hit c)
  answer_from filter (ok none) c = ask_node filter (record_miss c)
  answer_from filter (err e) c = ask_node filter (record_miss c)

  unfoldable pub get_logs_cached : LogFilter → Exec (CachedRpcClient W) RpcError (List Log)
  get_logs_cached filter c =
      let (found, table) = get_logs texts chain_id filter c.cache.logs in
      answer_from filter found (record c { cache = record c.cache { logs = table } })
