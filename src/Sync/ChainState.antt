-- ===== src/Sync/ChainState.antt =====
-- The recent block hashes of one chain: crates/forge-index-sync/src/reorg/chain_state.rs.
-- A hash is the number that its 32 bytes spell; the front of the deque is the head of the list.
pub mod Laws
pub mod Prune
use forge_index.Base.{
  ℕ, zero, suc, ◌+◌, ◌-◌, ◌*◌, ◌/◌, ◌%◌, ◌^◌, ◌≤◌, ◌<◌, min, max, String, ◌≡◌, refl, sym, ap, subst,
  ◌∙◌, ◌≢◌, ◌↔◌, ◌⊎◌, inl, inr, Bool, true, false, not, ◌&&◌, ◌||◌, Option, none, some, List, [],
  ◌∷◌, ◌++◌, map, reverse, append_assoc, append-nil, reverse-cons, reverse-append, reverse-reverse,
  arith, str_eq, eq_iff, ltb, leb, ◌==◌, if◌then◌else◌, ltb→lt, ltb→ge, lt→ltb, ge→ltb, leb→le,
  leb→gt, le→leb, gt→leb, ==_iff, ==_refl, Bool-cases, Option-cases, length, get_elem?, take, drop,
  last?, drop_while, keep, length-append, length-reverse, last?-snoc, All, All-append,
}
use forge_index.Base.Trim.{pop_back_while}

abbrev pub default_capacity : ℕ
default_capacity = 128

pub record ChainState : Type 0 where
  pub recent_blocks : List (ℕ × ℕ)
  pub capacity : ℕ

unfoldable pub new : ℕ → ChainState
new capacity = record { recent_blocks = []; capacity = capacity }

unfoldable pub push : ℕ → ℕ → ChainState → ChainState
push number hash s =
    let kept =
      if leb s.capacity (length s.recent_blocks) then drop 1 s.recent_blocks else s.recent_blocks in
    record s { recent_blocks = kept ++ (number, hash) ∷ [] }

-- the first entry with the number
abbrev pub find_hash : ℕ → List (ℕ × ℕ) → Option ℕ
find_hash number [] = none
find_hash number ((n, h) ∷ rest) = if n == number then some h else find_hash number rest

unfoldable pub get_hash : ℕ → ChainState → Option ℕ
get_hash number s = find_hash number s.recent_blocks

unfoldable pub latest_block : ChainState → Option (ℕ × ℕ)
latest_block s = last? s.recent_blocks

unfoldable pub prune_above : ℕ → ChainState → ChainState
prune_above block_number s = record s {
  recent_blocks = pop_back_while (λ e. ltb block_number e.0) s.recent_blocks;
}

unfoldable pub is_empty : ChainState → Bool
is_empty s = elim s.recent_blocks [ [] ↦ true | _ ∷ _ ↦ false ]

-- `Default`
unfoldable pub default : ChainState
unfolding new
default = new default_capacity

-- Block numbers do not fall from the front to the back.
abbrev pub Ascending : List (ℕ × ℕ) → Type 0
Ascending [] = Unit {0}
Ascending ((n, h) ∷ rest) = All (λ e. n ≤ e.0) rest × Ascending rest
