-- ===== src/Sync/Detector/Recovery.antt =====
-- A reorg decision of crates/forge-index-sync/src/reorg/detector.rs, and the block that comes next.
use forge_index.Base.{
  ℕ, suc, ◌-◌, ◌≡◌, sym, ap, subst, ◌∙◌, ◌≢◌, inl, inr, none, some, arith, leb, if◌then◌else◌,
}
use forge_index.Base.Word.{saturating_sub}
use forge_index.Base.Maps.{get, get-insert_self}
use forge_index.Base.Exec.{ok, Exec}
use forge_index.Core.Types.{Block}
use forge_index.Rpc.Error.{RpcError}
use forge_index.Sync.ChainState.{default_capacity, get_hash, Ascending}
use forge_index.Sync.ChainState.Prune.{get_hash-prune_above}
use forge_index.Sync.Detector.{normal, reorg, ReorgDetector, chain_key, state_of, process_block}
use forge_index.Sync.Detector.ForkPoint.{IsForkPoint, Outcome, find_fork_point-Outcome}
use forge_index.Sync.Detector.Decision.{entered, process_block-normal_iff, process_block-reorg}

module _ {W Client : Type 0} (get_block_by_number : Client → ℕ → Exec W RpcError Block)
    (client : Client) (network : ℕ → Block)
    (serves : (n : ℕ) (w : W) → (get_block_by_number client n w).0 ≡ ok (network n)) (chain_id : ℕ)
    (block : Block) (d : ReorgDetector Client) (w : W)
    (registered : get chain_key chain_id d.clients ≡ some client)
    (ascending : Ascending (state_of chain_id d).recent_blocks) (c f t : ℕ)
    (decided : (process_block get_block_by_number chain_id block (d, w)).0 ≡ ok (reorg c f t)) where
  after : ReorgDetector Client
  after = (process_block get_block_by_number chain_id block (d, w)).1.0

  fork_point :
      IsForkPoint
        (state_of chain_id d)
        network
        (saturating_sub block.number default_capacity)
        (saturating_sub block.number 1)
        f
  fork_point =
      let found = (process_block-reorg get_block_by_number chain_id block d w c f t decided).2 in
      subst (Outcome _ network chain_id _ _) found (
        find_fork_point-Outcome get_block_by_number client network (state_of chain_id d) chain_id
          block (entered chain_id d) w serves registered
          (get-insert_self chain_key chain_id (state_of chain_id d) d.chain_states))

  rewound :
      (n : ℕ)
      → get_hash n (state_of chain_id after)
        ≡ (if leb n (f - 1) then get_hash n (state_of chain_id d) else none)
  unfolding after
  rewound n =
      ap (get_hash n) (process_block-reorg get_block_by_number chain_id block d w c f t decided).3
      ∙ (get_hash-prune_above (f - 1) n (state_of chain_id d) ascending).0

  not_genesis : block.number ≢ 0
  not_genesis e = cc (
      sym decided
      ∙ (process_block-normal_iff get_block_by_number chain_id block d w).1 (inr (inl e)))

  -- When the client of the chain serves the network's blocks and the stored blocks are in ascending
  -- order, the fork block of a reorg decision starts the run, without gaps, of stored blocks that the
  -- network has replaced and that ends at the new block's parent; where the network still has the
  -- stored parent, it is the number of the new block. The block before it is
  -- not stored or not replaced; a stored block below a gap is not looked at, even if it is replaced, and
  -- stays. Afterwards exactly the hashes of the blocks before the fork block are still stored.
  pub process_block-IsForkPoint :
      IsForkPoint
        (state_of chain_id d)
        network
        (saturating_sub block.number default_capacity)
        (saturating_sub block.number 1)
        f
      × ((n : ℕ)
          → get_hash n
              (state_of chain_id (process_block get_block_by_number chain_id block (d, w)).1.0)
            ≡ (if leb n (f - 1) then get_hash n (state_of chain_id d) else none))
  unfolding after
  process_block-IsForkPoint = (fork_point, rewound)

  -- When the client of the chain serves the network's blocks and the stored blocks are in
  -- ascending order, the block that revealed a reorg is not stored after the decision, and a block
  -- with the following number is then accepted whatever parent it names.
  pub process_block_after_reorg :
      (child : Block) (v : W)
      → child.number ≡ suc block.number
      → (get_hash block.number
            (state_of chain_id (process_block get_block_by_number chain_id block (d, w)).1.0)
          ≡ none)
        × ((process_block get_block_by_number chain_id child
              ((process_block get_block_by_number chain_id block (d, w)).1.0, v)).0
            ≡ ok normal)
  unfolding after
  process_block_after_reorg child v next =
      let gone : get_hash block.number (state_of chain_id after) ≡ none =
        ground (arith, rewound block.number, fork_point.within, fork_point.above, not_genesis) in
      let parent : child.number - 1 ≡ block.number = omega arith in
      (
        gone,
        (process_block-normal_iff get_block_by_number chain_id child after v).1
            (inr (inr (inl (ap (λ n. get_hash n (state_of chain_id after)) parent ∙ gone)))),
      )
