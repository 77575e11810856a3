-- ===== src/Sync/ChainState/Laws.antt =====
-- The bound of the store and the order of its blocks, kept by `push`.
use forge_index.Base.{
  ℕ, ◌-◌, ◌≤◌, ◌<◌, ◌≡◌, refl, inl, inr, some, List, [], ◌∷◌, ◌++◌, arith, leb, leb→gt, Bool-cases,
  length, drop, length-append, last?-snoc, All, All-append,
}
use forge_index.Sync.ChainState.{ChainState, push, latest_block, Ascending}

Ascending-snoc :
    (xs : List (ℕ × ℕ)) (n h : ℕ)
    → Ascending xs
    → All (λ e. e.0 ≤ n) xs
    → Ascending (xs ++ (n, h) ∷ [])
Ascending-snoc [] n h a b = (tt, tt)
Ascending-snoc ((m, v) ∷ xs) n h (am, axs) (bm, bxs) =
    (All-append (λ e. m ≤ e.0) xs ((n, h) ∷ []) am (bm, tt), Ascending-snoc xs n h axs bxs)

Ascending-drop : (xs : List (ℕ × ℕ)) → Ascending xs → Ascending (drop 1 xs)
Ascending-drop [] a = a
Ascending-drop (x ∷ xs) a = a.1

All-drop : (P : ℕ × ℕ → Type 0) (xs : List (ℕ × ℕ)) → All P xs → All P (drop 1 xs)
All-drop P [] a = a
All-drop P (x ∷ xs) a = a.1

length-drop_one : (xs : List (ℕ × ℕ)) → length (drop 1 xs) ≡ length xs - 1
length-drop_one [] = omega arith
length-drop_one (x ∷ xs) = omega arith

-- The store has its bounded size and its order.
pub record IsValid (s : ChainState) : Type 0 where
  pub bounded : length s.recent_blocks ≤ s.capacity
  pub positive : 0 < s.capacity
  pub ascending : Ascending s.recent_blocks

-- Pushing a block whose number is at least every stored number keeps the size within the capacity and
-- the blocks in ascending order, makes the block the latest one, and leaves the capacity as it was.
pub push-IsValid :
    (n h : ℕ) (s : ChainState)
    → IsValid s
    → All (λ e. e.0 ≤ n) s.recent_blocks
    → IsValid (push n h s)
      × (latest_block (push n h s) ≡ some (n, h))
      × ((push n h s).capacity ≡ s.capacity)
unfolding push latest_block
push-IsValid n h s v below = elim (Bool-cases (leb s.capacity (length s.recent_blocks))) [
  | inl full ↦ rw full (
    record {
      bounded = omega (
        arith,
        v,
        length-append (drop 1 s.recent_blocks) ((n, h) ∷ []),
        length-drop_one s.recent_blocks,
      );
      positive = v.positive;
      ascending =
          Ascending-snoc (drop 1 s.recent_blocks) n h (Ascending-drop _ v.ascending)
            (All-drop (λ e. e.0 ≤ n) s.recent_blocks below);
    },
    last?-snoc (drop 1 s.recent_blocks) (n, h),
    refl,
  )
  | inr room ↦ rw room (
    record {
      bounded = omega (arith, length-append s.recent_blocks ((n, h) ∷ []), leb→gt _ _ room);
      positive = v.positive;
      ascending = Ascending-snoc s.recent_blocks n h v.ascending below;
    },
    last?-snoc s.recent_blocks (n, h),
    refl,
  )
]
