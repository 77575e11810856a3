-- ===== src/Sync/Finality.antt =====
-- When a block counts as final: crates/forge-index-sync/src/realtime/finality.rs.
use forge_index.Base.{ℕ, ◌+◌, ◌-◌, ◌%◌, ◌^◌, ◌≤◌, ◌<◌, ◌≡◌, Bool, false, arith, leb}
use forge_index.Base.Word.{wrapping_add, saturating_sub}

abbrev pub default_confirmed_depth : ℕ
default_confirmed_depth = 32

pub record FinalityTracker : Type 0 where
  pub confirmed_depth : ℕ

unfoldable pub is_finalized : FinalityTracker → ℕ → ℕ → Bool
is_finalized t block_number current_block =
    leb (wrapping_add block_number t.confirmed_depth) current_block

unfoldable pub finalized_block : FinalityTracker → ℕ → ℕ
finalized_block t current_block = saturating_sub current_block t.confirmed_depth

-- From a chain as long as the depth on, the final blocks are those up to `finalized_block`, if the
-- sum of the block and the depth is below 2 ^ 64.
pub is_finalized-finalized_block :
    (t : FinalityTracker) (block_number current_block : ℕ)
    → t.confirmed_depth ≤ current_block
    → block_number + t.confirmed_depth < 2 ^ 64
    → is_finalized t block_number current_block ≡ leb block_number (finalized_block t current_block)
unfolding is_finalized finalized_block
is_finalized-finalized_block t block_number current_block long small =
    same block_number t.confirmed_depth current_block long small
  where
    same : (b d c : ℕ) → d ≤ c → b + d < 2 ^ 64 → leb ((b + d) % 2 ^ 64) c ≡ leb b (c - d)
    same b d c long small = ground arith

-- On a chain shorter than the depth no block is final whose sum with the depth is below 2 ^ 64,
-- and still `finalized_block` gives block 0.
pub finalized_block_short :
    (t : FinalityTracker) (block_number current_block : ℕ)
    → current_block < t.confirmed_depth
    → block_number + t.confirmed_depth < 2 ^ 64
    → (is_finalized t block_number current_block ≡ false) × (finalized_block t current_block ≡ 0)
unfolding is_finalized finalized_block
finalized_block_short t block_number current_block short small =
    (not_yet block_number t.confirmed_depth current_block short small, omega (arith, short))
  where
    not_yet : (b d c : ℕ) → c < d → b + d < 2 ^ 64 → leb ((b + d) % 2 ^ 64) c ≡ false
    not_yet b d c short small = ground arith
