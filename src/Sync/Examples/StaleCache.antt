-- ===== src/Sync/Examples/StaleCache.antt =====
-- A chain whose block 6 was replaced twice, with the second version in the cache:
-- crates/forge-index-sync/src/reorg/detector.rs.
use forge_index.Base.{ℕ, ◌+◌, ◌≤◌, ◌≡◌, refl, none, some, [], ◌∷◌, arith}
use forge_index.Base.Exec.{ok, Exec, pure}
use forge_index.Core.Types.{Block}
use forge_index.Rpc.CachedClient.{CachedRpcClient}
use forge_index.Rpc.Error.{RpcError}
use forge_index.Rpc.Store.{BlockRow, block_row}
use forge_index.Sync.ChainState.{ChainState, get_hash}
use forge_index.Sync.Detector.{reorg, ReorgDetector, state_of, process_block}
use forge_index.Sync.Detector.StaleCache.{ask, process_block_stale}

-- a block of the given hash and parent
abbrev block_of : (number hash parent_hash : ℕ) → Block
block_of number hash parent_hash = record {
  chain_id = 1;
  number = number;
  hash = hash;
  parent_hash = parent_hash;
  timestamp = 0;
  gas_limit = 0;
  gas_used = 0;
  base_fee_per_gas = none;
  miner = 0;
}

-- the node has the third version of block 6
abbrev fetch : ℕ → Exec ℕ RpcError Block
fetch n = pure (block_of n (n + 300) (n + 299))

abbrev cached : BlockRow
cached = block_row 1 (block_of 6 206 205)

abbrev client : CachedRpcClient ℕ
client = record {
  inner = 0;
  cache = record {
    logs = record { rows = []; faults = [] };
    blocks = record { rows = cached ∷ []; faults = [] };
    transactions = record { rows = []; faults = [] };
    eth_calls = record { rows = []; faults = [] };
    checkpoints = record { rows = []; faults = [] };
  };
  hits = 0;
  misses = 1;
}

abbrev store : ChainState
store = record { recent_blocks = (5, 105) ∷ (6, 206) ∷ []; capacity = 128 }

abbrev detector : ReorgDetector (Unit {0})
detector = record { chain_states = (1, store) ∷ []; clients = (1, tt) ∷ [] }

stored : get_hash 6 store ≡ some 206
unfolding get_hash
stored = refl

process_block_stale_example :
    ((process_block
        (ask {Client = Unit {0}} fetch tt 1 (block_of 7 307 306) 6 cached detector client)
        1
        (block_of 7 307 306)
        (detector, client)).0
      ≡ ok (reorg 1 7 7))
    × ((n : ℕ)
        → n ≤ 6
        → get_hash n (
            state_of 1
              (process_block
                (ask fetch tt 1 (block_of 7 307 306) 6 cached detector client)
                1
                (block_of 7 307 306)
                (detector, client)).1.0)
          ≡ get_hash n (state_of 1 detector))
process_block_stale_example =
    process_block_stale fetch tt 1 (block_of 7 307 306) 6 cached detector client refl refl
      (omega arith) stored (λ e. absurd (omega arith)) (refl, refl)
