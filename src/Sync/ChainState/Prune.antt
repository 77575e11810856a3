-- ===== src/Sync/ChainState/Prune.antt =====
-- What `prune_above` of crates/forge-index-sync/src/reorg/chain_state.rs leaves.
use forge_index.Base.{
  ℕ, ◌≤◌, ◌<◌, ◌≡◌, refl, sym, ap, subst, ◌∙◌, true, false, none, List, [], ◌∷◌, ◌++◌, arith, ltb,
  leb, if◌then◌else◌, length, keep, All,
}
use forge_index.Base.Trim.{pop_back_while, pop_back_while-append}
use forge_index.Sync.ChainState.Laws.{IsValid}
use forge_index.Sync.ChainState.{ChainState, find_hash, get_hash, prune_above, Ascending}

abbrev pub upto : ℕ → List (ℕ × ℕ) → List (ℕ × ℕ)
upto b = keep (λ e. leb e.0 b)

abbrev above : ℕ → List (ℕ × ℕ) → List (ℕ × ℕ)
above b = keep (λ e. ltb b e.0)

module _ (b : ℕ) where
  upto-All : (xs : List (ℕ × ℕ)) → All (λ e. ltb b e.0 ≡ false) (upto b xs)
  upto-All [] = tt
  upto-All (x ∷ xs) = ground (arith, upto-All xs)

  above-All : (xs : List (ℕ × ℕ)) → All (λ e. ltb b e.0 ≡ true) (above b xs)
  above-All [] = tt
  above-All (x ∷ xs) = ground (arith, above-All xs)

  -- past the first block above `b` every block is above it
  upto_nil :
      (n : ℕ) (xs : List (ℕ × ℕ))
      → b < n
      → All (λ e. n ≤ e.0) xs
      → (upto b xs ≡ []) × (above b xs ≡ xs)
  upto_nil n [] h k = (refl, refl)
  upto_nil n (x ∷ xs) h (kx, kxs) = ground (arith, upto_nil n xs h kxs)

  split_at : (xs : List (ℕ × ℕ)) → Ascending xs → upto b xs ++ above b xs ≡ xs
  split_at [] h = refl
  split_at ((n, v) ∷ xs) (hn, hxs) = ground (arith, split_at xs hxs, upto_nil n xs)

  pop_back_while-eq-upto :
      (xs : List (ℕ × ℕ)) → Ascending xs → pop_back_while (λ e. ltb b e.0) xs ≡ upto b xs
  pop_back_while-eq-upto xs h =
      subst (λ ys. pop_back_while (λ e. ltb b e.0) ys ≡ upto b xs) (split_at xs h)
        (pop_back_while-append _ (upto b xs) (above b xs) (upto-All xs) (above-All xs))

  find_hash-upto :
      (n : ℕ) (xs : List (ℕ × ℕ))
      → find_hash n (upto b xs) ≡ (if leb n b then find_hash n xs else none)
  find_hash-upto n [] = ground arith
  find_hash-upto n ((m, v) ∷ xs) = ground (arith, find_hash-upto n xs)

  upto-Ascending : (xs : List (ℕ × ℕ)) → Ascending xs → Ascending (upto b xs)
  upto-Ascending [] h = tt
  upto-Ascending ((n, v) ∷ xs) (hn, hxs) = ground (arith, upto-Ascending xs hxs, upto-bound xs hn)
    where
      upto-bound : (ys : List (ℕ × ℕ)) → All (λ e. n ≤ e.0) ys → All (λ e. n ≤ e.0) (upto b ys)
      upto-bound [] k = tt
      upto-bound (y ∷ ys) (ky, kys) = ground (arith, upto-bound ys kys)

-- On a store in ascending order `prune_above` keeps the hash of every block up to the given number
-- and forgets every block above it, and the store stays in ascending order.
pub get_hash-prune_above :
    (b n : ℕ) (s : ChainState)
    → Ascending s.recent_blocks
    → (get_hash n (prune_above b s) ≡ (if leb n b then get_hash n s else none))
      × Ascending (prune_above b s).recent_blocks
unfolding get_hash prune_above
get_hash-prune_above b n s h = (
  ap (find_hash n) (pop_back_while-eq-upto b s.recent_blocks h)
      ∙ find_hash-upto b n s.recent_blocks,
  subst Ascending (sym (pop_back_while-eq-upto b s.recent_blocks h))
      (upto-Ascending b s.recent_blocks h),
)

length-upto-le : (b : ℕ) (xs : List (ℕ × ℕ)) → length (upto b xs) ≤ length xs
length-upto-le b [] = omega arith
length-upto-le b (x ∷ xs) = ground (arith, length-upto-le b xs)

pub prune_above-IsValid : (b : ℕ) (s : ChainState) → IsValid s → IsValid (prune_above b s)
unfolding prune_above
prune_above-IsValid b s v = record {
  bounded =
      rw (pop_back_while-eq-upto b s.recent_blocks v.ascending)
        (omega (arith, length-upto-le b s.recent_blocks, v.bounded));
  positive = v.positive;
  ascending =
      subst Ascending (sym (pop_back_while-eq-upto b s.recent_blocks v.ascending))
        (upto-Ascending b s.recent_blocks v.ascending);
}
