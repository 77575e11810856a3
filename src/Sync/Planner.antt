-- ===== src/Sync/Planner.antt =====
-- The backfill planner: crates/forge-index-sync/src/backfill/planner.rs. The loop takes fuel, one unit
-- for each round; the number of blocks to cover and one more are enough, since a round covers a block.
pub mod Cover
pub mod Resume
use forge_index.Base.{
  ℕ, zero, suc, ◌+◌, ◌-◌, ◌*◌, ◌/◌, ◌%◌, ◌^◌, ◌≤◌, ◌<◌, min, max, String, ◌≡◌, refl, sym, ap, subst,
  ◌∙◌, ◌≢◌, ◌↔◌, ◌⊎◌, inl, inr, Bool, true, false, not, ◌&&◌, ◌||◌, Option, none, some, List, [],
  ◌∷◌, ◌++◌, map, reverse, append_assoc, append-nil, reverse-cons, reverse-append, reverse-reverse,
  arith, str_eq, eq_iff, ltb, leb, ◌==◌, if◌then◌else◌, ltb→lt, ltb→ge, lt→ltb, ge→ltb, leb→le,
  leb→gt, le→leb, gt→leb, ==_iff, ==_refl, Bool-cases, Option-cases, length, get_elem?, take, drop,
  last?, drop_while, keep, length-append, length-reverse, last?-snoc, All, All-append,
}
use forge_index.Base.Word.{wrapping_add, wrapping_sub}
use forge_index.Config.Contract.{ContractConfig}

abbrev pub default_chunk_size : ℕ
default_chunk_size = 2000

pub record BlockRange : Type 0 where
  pub from : ℕ
  pub to : ℕ

unfoldable pub len : BlockRange → ℕ
len r = if leb r.from r.to then wrapping_add (r.to - r.from) 1 else 0

unfoldable pub is_empty : BlockRange → Bool
unfolding len
is_empty r = len r == 0

pub record BackfillPlan : Type 0 where
  pub contract_name : String
  pub chain_id : ℕ
  pub ranges : List BlockRange
  pub total_blocks : ℕ

-- put a range in front of the ranges that come after it
abbrev pub in_front : BlockRange → Option (List BlockRange) → Option (List BlockRange)
in_front r none = none
in_front r (some rest) = some (r ∷ rest)

-- the end of the range that starts at `from`
abbrev pub chunk_end : (current_block chunk_size from : ℕ) → ℕ
chunk_end current_block chunk_size from =
    min (wrapping_sub (wrapping_add from chunk_size) 1) current_block

-- `while from <= current_block`; none means that the fuel ran out
unfoldable pub chunks : (fuel current_block chunk_size from : ℕ) → Option (List BlockRange)
chunks zero current_block chunk_size from = none
chunks (suc fuel) current_block chunk_size from =
    let to = chunk_end current_block chunk_size from in
    let rest = chunks fuel current_block chunk_size (wrapping_add to 1) in
    if leb from current_block then in_front (record { from = from; to = to }) rest else some []

abbrev pub unwrap_or : Option ℕ → ℕ → ℕ
unwrap_or none d = d
unwrap_or (some n) d = n

abbrev pub enough_fuel : (current_block start : ℕ) → ℕ
enough_fuel current_block start = suc (suc current_block - start)

abbrev pub with_ranges :
    ContractConfig → (chain_id total_blocks : ℕ) → Option (List BlockRange) → Option BackfillPlan
with_ranges config chain_id total_blocks none = none
with_ranges config chain_id total_blocks (some ranges) = some (record {
  contract_name = config.name;
  chain_id = chain_id;
  ranges = ranges;
  total_blocks = total_blocks;
})

unfoldable pub plan :
    ContractConfig
    → (chain_id current_block : ℕ) → Option ℕ
    → (chunk_size : ℕ) → Option BackfillPlan
plan config chain_id current_block checkpoint chunk_size =
    let start = unwrap_or checkpoint config.start_block in
    if ltb current_block start
    then with_ranges config chain_id 0 (some [])
    else with_ranges config chain_id (wrapping_add (current_block - start) 1)
        (chunks (enough_fuel current_block start) current_block chunk_size start)
