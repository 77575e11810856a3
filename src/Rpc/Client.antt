-- ===== src/Rpc/Client.antt =====
-- The calls of a node: crates/forge-index-rpc/src/client.rs, with the filter and the cache key of
-- types.rs. The provider, its serialisation and the digest are parameters, and so are, through
-- `Layers`, the rate limiter and the deduplication, which modules of their own model.
pub mod Replies
pub mod Keys
pub mod Receipts
use forge_index.Base.{
  ℕ, zero, suc, ◌%◌, ◌^◌, String, Bool, true, false, Option, none, some, List, [], ◌∷◌, ◌++◌, map,
}
use forge_index.Base.Exec.{Result, ok, err, Exec, ◌>>=◌, map_err, pure, fail}
use forge_index.Base.Json.{Json}
use forge_index.Base.Text.{Text, codes, show_nat}
use forge_index.Core.Alloy.{
  AlloyLog, AlloyHeader, AlloyTransaction, or_zero, or_zero_u32, log_from_alloy, block_from_alloy,
  transaction_from_alloy,
}
use forge_index.Core.Types.{Log, Block, Transaction}
use forge_index.Rpc.Error.{RpcError, transport, decode, no_web_socket}
use forge_index.Rpc.Retry.{with_retry}
use forge_index.Rpc.Types.{LogFilter}

-- the provider's filter; no value at a position of the topics stands for any value
pub record AlloyFilter : Type 0 where
  pub from_block : ℕ
  pub to_block : ℕ
  pub address : List ℕ
  pub topics : List (List ℕ)

-- the first positions, as many as the number says
unfoldable pub alloy_topics : ℕ → List (Option (List ℕ)) → List (List ℕ)
alloy_topics zero ts = []
alloy_topics (suc n) [] = [] ∷ alloy_topics n []
alloy_topics (suc n) (none ∷ ts) = [] ∷ alloy_topics n ts
alloy_topics (suc n) (some values ∷ ts) = values ∷ alloy_topics n ts

unfoldable pub to_alloy_filter : LogFilter → AlloyFilter
to_alloy_filter filter = record {
  from_block = filter.from_block;
  to_block = filter.to_block;
  address = filter.address;
  topics = alloy_topics 4 filter.topics;
}

pub record ReceiptLog : Type 0 where
  pub address : ℕ
  pub topics : List ℕ
  pub payload : List ℕ

pub record AlloyReceipt : Type 0 where
  pub transaction_hash : ℕ
  pub block_number : Option ℕ
  pub block_hash : Option ℕ
  pub transaction_index : Option ℕ
  pub from : ℕ
  pub to : Option ℕ
  pub gas_used : ℕ
  pub status : Bool
  pub logs : List ReceiptLog
  pub contract_address : Option ℕ

pub record TransactionReceipt : Type 0 where
  pub transaction_hash : ℕ
  pub block_number : ℕ
  pub block_hash : ℕ
  pub from : ℕ
  pub to : Option ℕ
  pub gas_used : ℕ
  pub status : Bool
  pub logs : List Log
  pub contract_address : Option ℕ

pub record Provider (W : Type 0) : Type 0 where
  pub get_logs : AlloyFilter → Exec W String (List AlloyLog)
  pub get_block_by_number : ℕ → Exec W String (Option AlloyHeader)
  pub get_block_by_hash : ℕ → Exec W String (Option AlloyHeader)
  pub get_transaction_by_hash : ℕ → Exec W String (Option AlloyTransaction)
  pub get_transaction_receipt : ℕ → Exec W String (Option AlloyReceipt)
  pub get_block_number : Exec W String ℕ
  pub call : (to : ℕ) (input : List ℕ) (block : ℕ) → Exec W String (List ℕ)
  pub subscribe_blocks : Exec W String (List AlloyHeader)

-- `serde_json::to_value` and `from_value`
pub record Serde (A : Type 0) : Type 0 where
  pub to_value : A → Result String Json
  pub from_value : Json → Result String A

-- what a call goes through: the wait for a token, a request that others with the key share, and the
-- waits between attempts
pub record Layers (W : Type 0) : Type 0 where
  pub acquire : W → W
  pub dedup : Text → Exec W RpcError Json → Exec W RpcError Json
  pub sleep : ℕ → W → W
  pub delays : List ℕ

-- `unwrap_or_default` of the parameters' JSON text
abbrev pub or_empty : Option Text → Text
or_empty none = []
or_empty (some t) = t

unfoldable pub cache_key : (Text → Text) → String → Option Text → Text
cache_key sha256_hex method params = sha256_hex (codes method ++ or_empty params)

module _ (log_id : (block_hash log_index : ℕ) → String) (chain_id : ℕ) where
  -- the logs of a receipt from the index `i` on
  unfoldable pub receipt_logs : AlloyReceipt → ℕ → List ReceiptLog → List Log
  receipt_logs receipt i [] = []
  receipt_logs receipt i (l ∷ ls) =
      record {
        id = log_id (or_zero receipt.block_hash) i;
        chain_id = chain_id;
        address = l.address;
        topics = l.topics;
        payload = l.payload;
        block_number = or_zero receipt.block_number;
        block_hash = or_zero receipt.block_hash;
        transaction_hash = receipt.transaction_hash;
        log_index = i % 2 ^ 32;
        transaction_index = or_zero_u32 receipt.transaction_index;
        removed = false;
      }
      ∷ receipt_logs receipt (suc i) ls

  unfoldable pub receipt_of : AlloyReceipt → TransactionReceipt
  receipt_of receipt = record {
    transaction_hash = receipt.transaction_hash;
    block_number = or_zero receipt.block_number;
    block_hash = or_zero receipt.block_hash;
    from = receipt.from;
    to = receipt.to;
    gas_used = receipt.gas_used % 2 ^ 64;
    status = receipt.status;
    logs = receipt_logs receipt 0 receipt.logs;
    contract_address = receipt.contract_address;
  }

module _ {W : Type 0} where
  abbrev pub of_result : {A : Type 0} → (String → RpcError) → Result String A → Exec W RpcError A
  of_result f (ok a) = pure a
  of_result f (err message) = fail (f message)

  -- `ok_or_else` with a decoding error
  abbrev pub required : {A : Type 0} → String → String → Option A → Exec W RpcError A
  required method message none = fail (decode method message)
  required method message (some a) = pure a

  -- one attempt of a shared request
  abbrev pub attempt :
      {A : Type 0} → Serde A → (method : String) → Exec W RpcError A → Exec W RpcError Json
  attempt serde method f = f >>= λ a. of_result (decode method) (serde.to_value a)

  -- one attempt to read a block
  abbrev pub block_attempt :
      String → Exec W String (Option AlloyHeader) → Exec W RpcError AlloyHeader
  block_attempt method read =
      map_err transport read >>= λ block. required method "block not found" block

  module _ (layers : Layers W) where
    abbrev pub request : {A : Type 0} → String → Exec W RpcError A → Exec W RpcError A
    request method f w = with_retry layers.sleep method f layers.delays (layers.acquire w)

    unfoldable pub shared_request :
        {A : Type 0} → Serde A → (method : String) → Text → Exec W RpcError A → Exec W RpcError A
    shared_request serde method key f =
        layers.dedup key (request method (attempt serde method f)) >>= λ json.
        of_result (decode method) (serde.from_value json)

    module _ (sha256_hex : Text → Text) (provider : Provider W)
        (log_id : (block_hash log_index : ℕ) → String) (chain_id : ℕ) where
      unfoldable pub get_logs :
          (AlloyFilter → Option Text)
          → Serde (List AlloyLog)
          → LogFilter
          → Exec W RpcError (List Log)
      get_logs filter_json serde filter =
          let alloy_filter = to_alloy_filter filter in
          let key = cache_key sha256_hex "eth_getLogs" (filter_json alloy_filter) in
          shared_request serde "eth_getLogs" key
            (map_err transport (provider.get_logs alloy_filter))
          >>= λ logs. pure (map (log_from_alloy log_id chain_id) logs)

      unfoldable pub get_block_by_number : Serde AlloyHeader → ℕ → Exec W RpcError Block
      get_block_by_number serde n =
          let key = cache_key sha256_hex "eth_getBlockByNumber" (some (show_nat n)) in
          let read = provider.get_block_by_number n in
          shared_request serde "eth_getBlockByNumber" key
            (block_attempt "eth_getBlockByNumber" read)
          >>= λ block. pure (block_from_alloy chain_id block)

      unfoldable pub get_block_by_hash :
          (ℕ → Option Text) → Serde AlloyHeader → ℕ → Exec W RpcError Block
      get_block_by_hash hash_json serde hash =
          let key = cache_key sha256_hex "eth_getBlockByHash" (hash_json hash) in
          let read = provider.get_block_by_hash hash in
          shared_request serde "eth_getBlockByHash" key (block_attempt "eth_getBlockByHash" read)
          >>= λ block. pure (block_from_alloy chain_id block)

      -- none where the conversion of the transaction panics
      unfoldable pub get_transaction :
          (ℕ → Option Text) → Serde AlloyTransaction → ℕ → Exec W RpcError (Option Transaction)
      get_transaction hash_json serde hash =
          let key = cache_key sha256_hex "eth_getTransactionByHash" (hash_json hash) in
          let read = map_err transport (provider.get_transaction_by_hash hash) in
          shared_request serde "eth_getTransactionByHash" key
            (read >>= λ tx. required "eth_getTransactionByHash" "transaction not found" tx)
          >>= λ tx. pure (transaction_from_alloy chain_id tx)

      unfoldable pub get_transaction_receipt : ℕ → Exec W RpcError TransactionReceipt
      get_transaction_receipt hash =
          let read = map_err transport (provider.get_transaction_receipt hash) in
          request "eth_getTransactionReceipt"
            (read >>= λ receipt. required "eth_getTransactionReceipt" "receipt not found" receipt)
          >>= λ receipt. pure (receipt_of log_id chain_id receipt)

      unfoldable pub get_block_number : Exec W RpcError ℕ
      get_block_number = request "eth_blockNumber" (map_err transport provider.get_block_number)

      unfoldable pub eth_call : (to : ℕ) (input : List ℕ) (block : ℕ) → Exec W RpcError (List ℕ)
      eth_call to input block =
          request "eth_call" (map_err transport (provider.call to input block))

      -- the stream is the list of what it brings
      unfoldable pub subscribe_new_heads : (has_ws : Bool) → Exec W RpcError (List Block)
      subscribe_new_heads false = fail (no_web_socket chain_id)
      subscribe_new_heads true = map_err transport provider.subscribe_blocks >>= λ headers.
          pure (map (block_from_alloy chain_id) headers)
