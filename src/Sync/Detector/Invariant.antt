-- ===== src/Sync/Detector/Invariant.antt =====
-- The stores of every chain stay valid under the operations of
-- crates/forge-index-sync/src/reorg/detector.rs.
use forge_index.Base.{ℕ, ◌≤◌, sym, subst, inl, inr, arith, ◌==◌, Bool-cases, All}
use forge_index.Base.Exec.{Result, ok, err, Exec}
use forge_index.Core.Types.{Block}
use forge_index.Rpc.Error.{RpcError}
use forge_index.Sync.Error.{SyncError}
use forge_index.Sync.ChainState.{ChainState, default}
use forge_index.Sync.ChainState.Laws.{IsValid, push-IsValid}
use forge_index.Sync.ChainState.Prune.{prune_above-IsValid}
use forge_index.Sync.Detector.{
  ReorgDetector, state_of, with_state, accept, rewind, process_block, seed_block, find_fork_point,
}
use forge_index.Sync.Detector
use forge_index.Sync.Detector.Decision.{
  entered, state_of-with_state, state_of-with_state_self, process_block_cases,
}

abbrev pub AllValid : {Client : Type 0} → ReorgDetector Client → Type 0
AllValid d = (c : ℕ) → IsValid (state_of c d)

pub default-IsValid : IsValid default
unfolding default
default-IsValid = record { bounded = omega arith; positive = omega arith; ascending = tt }

new-AllValid : (Client : Type 0) → AllValid (Detector.new Client)
new-AllValid Client c = default-IsValid

module _ {Client : Type 0} where
  pub with_state-AllValid :
      (k : ℕ) (s : ChainState) (d : ReorgDetector Client)
      → AllValid d
      → IsValid s
      → AllValid (with_state k s d)
  with_state-AllValid k s d valid ok_s c = elim (Bool-cases (k == c)) [
    | inl same ↦ rw (state_of-with_state c k s d, same) ok_s
    | inr other ↦ rw (state_of-with_state c k s d, other) (valid c)
  ]

  seed_block-AllValid :
      (chain_id number hash : ℕ) (d : ReorgDetector Client)
      → AllValid d
      → All (λ e. e.0 ≤ number) (state_of chain_id d).recent_blocks
      → AllValid (seed_block chain_id number hash d)
  unfolding seed_block
  seed_block-AllValid chain_id number hash d valid below =
      with_state-AllValid chain_id _ d valid (push-IsValid number hash _ (valid chain_id) below).0

module _ {W Client : Type 0} where
  accept-AllValid :
      (chain_id : ℕ) (block : Block) (d : ReorgDetector Client) (w : W)
      → AllValid d
      → All (λ e. e.0 ≤ block.number) (state_of chain_id d).recent_blocks
      → AllValid (accept chain_id block d w).1.0
  unfolding accept
  accept-AllValid chain_id block d w valid below =
      with_state-AllValid chain_id _ d valid
        (push-IsValid block.number block.hash _ (valid chain_id) below).0

  rewind-AllValid :
      (chain_id : ℕ) (block : Block) (d : ReorgDetector Client) (r : Result SyncError ℕ × W)
      → AllValid d
      → AllValid (rewind chain_id block d r).1.0
  unfolding rewind
  rewind-AllValid chain_id block d (err e, w) valid = valid
  rewind-AllValid chain_id block d (ok f, w) valid =
      with_state-AllValid chain_id _ d valid (prune_above-IsValid _ _ (valid chain_id))

-- Every outcome of `process_block`, errors included, keeps every chain's store within its capacity and
-- in ascending order, if the new block's number is at least every number stored for its chain.
pub process_block-AllValid :
    {W Client : Type 0} (get_block_by_number : Client → ℕ → Exec W RpcError Block) (chain_id : ℕ)
    (block : Block) (d : ReorgDetector Client) (w : W)
    → AllValid d
    → All (λ e. e.0 ≤ block.number) (state_of chain_id d).recent_blocks
    → AllValid (process_block get_block_by_number chain_id block (d, w)).1.0
process_block-AllValid f chain_id block d w valid below =
    let into : AllValid (entered chain_id d) =
      with_state-AllValid chain_id _ d valid (valid chain_id) in
    let same = state_of-with_state_self chain_id (state_of chain_id d) d in
    elim (process_block_cases f chain_id block d w) [
      | inl (_, e) ↦ rw e (
          accept-AllValid chain_id block (entered chain_id d) w into
            (subst (λ s. All (λ e. e.0 ≤ block.number) s.recent_blocks) (sym same) below))
      | inr e ↦ rw e (rewind-AllValid chain_id block (entered chain_id d) _ into)
    ]
