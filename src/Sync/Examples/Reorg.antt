-- ===== src/Sync/Examples/Reorg.antt =====
-- A chain whose block 6 was replaced: crates/forge-index-sync/src/reorg.
use forge_index.Base.{ℕ, ◌+◌, ◌-◌, ◌≡◌, refl, ◌↔◌, none, [], ◌∷◌, arith, leb, if◌then◌else◌}
use forge_index.Base.Word.{saturating_sub}
use forge_index.Base.Exec.{ok, Exec, pure}
use forge_index.Core.Types.{Block}
use forge_index.Rpc.Error.{RpcError}
use forge_index.Sync.ChainState
use forge_index.Sync.ChainState.{
  ChainState, default_capacity, get_hash, push, prune_above, latest_block, Ascending,
}
use forge_index.Sync.ChainState.Laws.{IsValid}
use forge_index.Sync.Detector.{
  normal, reorg, ReorgDetector, state_of, process_block, find_fork_point, walk_back,
}
use forge_index.Sync.Detector.ForkPoint.{IsForkPoint, Outcome, find_fork_point-Outcome}
use forge_index.Sync.Detector.Decision.{Extends, process_block-normal_iff}
use forge_index.Sync.Detector.Recovery.{process_block-IsForkPoint, process_block_after_reorg}
use forge_index.Sync.Detector.Invariant.{
  AllValid, default-IsValid, with_state-AllValid, process_block-AllValid,
}

-- the network's block at a number; its hash is the number and 100
abbrev network : ℕ → Block
network n = record {
  chain_id = 1;
  number = n;
  hash = n + 100;
  parent_hash = n + 99;
  timestamp = 0;
  gas_limit = 0;
  gas_used = 0;
  base_fee_per_gas = none;
  miner = 0;
}

abbrev served : Unit {0} → ℕ → Exec (Unit {0}) RpcError Block
served client n = pure (network n)

-- block 6 is stored with a hash that the network no longer has
abbrev store : ChainState
store = record { recent_blocks = (5, 105) ∷ (6, 6) ∷ []; capacity = 128 }

abbrev detector : ReorgDetector (Unit {0})
detector = record { chain_states = (1, store) ∷ []; clients = (1, tt) ∷ [] }

store-IsValid : IsValid store
store-IsValid = record { bounded = omega arith; positive = omega arith; ascending = omega arith }

find_fork_point-Outcome_example :
    Outcome store network 1
      (saturating_sub 7 default_capacity)
      (saturating_sub 7 1)
      (find_fork_point served 1 (network 7) detector tt).0
find_fork_point-Outcome_example =
    find_fork_point-Outcome served tt network store 1 (network 7) detector tt (λ n v. refl) refl
      refl

process_block-normal_iff_example :
    ((process_block served 1 (network 7) (detector, tt)).0 ≡ ok normal)
    ↔ Extends (state_of 1 detector) (network 7)
process_block-normal_iff_example = process_block-normal_iff served 1 (network 7) detector tt

reorg_at_6 : (process_block served 1 (network 7) (detector, tt)).0 ≡ ok (reorg 1 6 7)
unfolding process_block find_fork_point walk_back ChainState.get_hash ChainState.is_empty
reorg_at_6 = refl

process_block-IsForkPoint_example :
    IsForkPoint
      (state_of 1 detector)
      network
      (saturating_sub 7 default_capacity)
      (saturating_sub 7 1)
      6
    × ((n : ℕ)
        → get_hash n (state_of 1 (process_block served 1 (network 7) (detector, tt)).1.0)
          ≡ (if leb n (6 - 1) then get_hash n (state_of 1 detector) else none))
process_block-IsForkPoint_example =
    process_block-IsForkPoint served tt network (λ n w. refl) 1 (network 7) detector tt refl
      (omega arith) 1 6 7 reorg_at_6

process_block_after_reorg_example :
    (get_hash 7 (state_of 1 (process_block served 1 (network 7) (detector, tt)).1.0) ≡ none)
    × ((process_block served 1
          (network 8)
          ((process_block served 1 (network 7) (detector, tt)).1.0, tt)).0
        ≡ ok normal)
process_block_after_reorg_example =
    process_block_after_reorg served tt network (λ n w. refl) 1 (network 7) detector tt refl
      (omega arith) 1 6 7 reorg_at_6 (network 8) tt refl

detector-AllValid : AllValid detector
detector-AllValid =
    with_state-AllValid 1 store (record { chain_states = []; clients = (1, tt) ∷ [] })
      (λ c. default-IsValid) store-IsValid

process_block-AllValid_example : AllValid (process_block served 1 (network 7) (detector, tt)).1.0
process_block-AllValid_example =
    process_block-AllValid served 1 (network 7) detector tt detector-AllValid (omega arith)
