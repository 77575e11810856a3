-- ===== src/Sync/Detector/Decision.antt =====
-- The decisions of `process_block` of crates/forge-index-sync/src/reorg/detector.rs.
use forge_index.Base.{
  ℕ, ◌-◌, ◌≡◌, sym, ap, ◌∙◌, ◌≢◌, ◌↔◌, ◌⊎◌, inl, inr, true, none, some, arith, ◌==◌, if◌then◌else◌,
}
use forge_index.Base.Word.{saturating_sub}
use forge_index.Base.Maps.{get-insert, get-insert_self}
use forge_index.Base.Exec.{Result, ok, err, Exec}
use forge_index.Core.Types.{Block}
use forge_index.Rpc.Error.{RpcError}
use forge_index.Sync.Error.{SyncError}
use forge_index.Sync.ChainState.{ChainState, get_hash, prune_above, is_empty}
use forge_index.Sync.Detector.{
  normal, reorg, ReorgDetector, chain_key, state_of, with_state, accept, rewind, find_fork_point,
  process_block,
}

-- The block continues what is stored, as far as the store can tell.
abbrev pub Extends : ChainState → Block → Type 0
Extends s block =
    (is_empty s ≡ true)
    ⊎ (block.number ≡ 0)
    ⊎ (get_hash (block.number - 1) s ≡ none)
    ⊎ (get_hash (block.number - 1) s ≡ some block.parent_hash)

module _ {Client : Type 0} where
  pub state_of-with_state :
      (c k : ℕ) (s : ChainState) (d : ReorgDetector Client)
      → state_of c (with_state k s d) ≡ (if k == c then s else state_of c d)
  state_of-with_state c k s d = ground (arith, get-insert chain_key k c s d.chain_states)

  pub state_of-with_state_self :
      (c : ℕ) (s : ChainState) (d : ReorgDetector Client) → state_of c (with_state c s d) ≡ s
  state_of-with_state_self c s d = ground (arith, get-insert_self chain_key c s d.chain_states)

module _ {W Client : Type 0} where
  rewind-ne-normal :
      (chain_id : ℕ) (block : Block) (d : ReorgDetector Client) (r : Result SyncError ℕ × W)
      → (rewind chain_id block d r).0 ≢ ok normal
  unfolding rewind
  rewind-ne-normal chain_id block d (ok f, w) = λ e. cc
  rewind-ne-normal chain_id block d (err e, w) = λ e. cc

abbrev pub entered : {Client : Type 0} → ℕ → ReorgDetector Client → ReorgDetector Client
entered chain_id d = with_state chain_id (state_of chain_id d) d

module _ {W Client : Type 0} where
  rewind-reorg :
      (chain_id : ℕ) (block : Block) (e : ReorgDetector Client) (r : Result SyncError ℕ × W)
      (c f t : ℕ)
      → (rewind chain_id block e r).0 ≡ ok (reorg c f t)
      → (c ≡ chain_id)
        × (t ≡ block.number)
        × (r.0 ≡ ok f)
        × (state_of chain_id (rewind chain_id block e r).1.0
            ≡ prune_above (saturating_sub f 1) (state_of chain_id e))
  unfolding rewind
  rewind-reorg chain_id block e (err x, w) c f t h = cc
  rewind-reorg chain_id block e (ok g, w) c f t h =
      let p : (chain_id ≡ c) × (g ≡ f) × (block.number ≡ t) = ground arith in
      (
        sym p.0,
        sym p.2,
        ap ok p.1,
        state_of-with_state_self chain_id _ e
            ∙ ap (λ k. prune_above (saturating_sub k 1) (state_of chain_id e)) p.1,
      )

module _ {W Client : Type 0} (get_block_by_number : Client → ℕ → Exec W RpcError Block) where
  -- the two ways through the code
  pub process_block_cases :
      (chain_id : ℕ) (block : Block) (d : ReorgDetector Client) (w : W)
      → (Extends (state_of chain_id d) block
          × (process_block get_block_by_number chain_id block (d, w)
              ≡ accept chain_id block (entered chain_id d) w))
        ⊎ (process_block get_block_by_number chain_id block (d, w)
            ≡ rewind chain_id block
                (entered chain_id d)
                (find_fork_point get_block_by_number chain_id block (entered chain_id d) w))
  unfolding process_block
  process_block_cases chain_id block d w = ground arith

  -- A block is accepted exactly if nothing is stored for the chain, its number is 0, its parent is not
  -- stored, or its parent is stored with the hash that the block names.
  pub process_block-normal_iff :
      (chain_id : ℕ) (block : Block) (d : ReorgDetector Client) (w : W)
      → ((process_block get_block_by_number chain_id block (d, w)).0 ≡ ok normal)
        ↔ Extends (state_of chain_id d) block
  unfolding process_block
  process_block-normal_iff chain_id block d w =
      let never =
        rewind-ne-normal chain_id block (entered chain_id d)
          (find_fork_point get_block_by_number chain_id block (entered chain_id d) w) in
      (ground (arith, never), ground (arith, never))

  -- A reorg decision names the chain, the new block's number and the fork point that was found, and the
  -- store is pruned to the blocks before that fork point.
  pub process_block-reorg :
      (chain_id : ℕ) (block : Block) (d : ReorgDetector Client) (w : W) (c f t : ℕ)
      → (process_block get_block_by_number chain_id block (d, w)).0 ≡ ok (reorg c f t)
      → (c ≡ chain_id)
        × (t ≡ block.number)
        × ((find_fork_point get_block_by_number chain_id block (entered chain_id d) w).0 ≡ ok f)
        × (state_of chain_id (process_block get_block_by_number chain_id block (d, w)).1.0
            ≡ prune_above (saturating_sub f 1) (state_of chain_id d))
  unfolding accept
  process_block-reorg chain_id block d w c f t h = elim (process_block_cases chain_id block d w) [
    | inl (_, e) ↦ cc (ap (λ r. r.0) e)
    | inr e ↦
        let r = find_fork_point get_block_by_number chain_id block (entered chain_id d) w in
        let k =
          rewind-reorg chain_id block (entered chain_id d) r c f t (sym (ap (λ x. x.0) e) ∙ h) in
        (
          k.0,
          k.1,
          k.2,
          ap (λ x. state_of chain_id x.1.0) e
              ∙ k.3
              ∙ ap (prune_above (saturating_sub f 1)) (state_of-with_state_self chain_id _ d),
        )
  ]
