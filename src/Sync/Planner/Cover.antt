-- ===== src/Sync/Planner/Cover.antt =====
-- The ranges of a plan of crates/forge-index-sync/src/backfill/planner.rs tile the blocks to index.
use forge_index.Base.{
  ℕ, zero, suc, ◌+◌, ◌-◌, ◌≤◌, ◌<◌, ◌≡◌, refl, inl, inr, Option, none, some, List, [], ◌∷◌, arith,
  leb, ge→ltb, leb→le, leb→gt, Bool-cases, All,
}
use forge_index.Base.Word.{wrapping_add, u64_mod}
use forge_index.Config.Contract.{ContractConfig}
use forge_index.Sync.Planner.{
  BlockRange, BackfillPlan, len, chunk_end, chunks, in_front, unwrap_or, enough_fuel, plan,
}

-- The ranges follow one another with no gap and no overlap, from block `a` to block `b`.
abbrev pub Tiles : ℕ → ℕ → List BlockRange → Type 0
Tiles a b [] = a ≡ suc b
Tiles a b (r ∷ rs) = (r.from ≡ a) × (a ≤ r.to) × (r.to ≤ b) × Tiles (suc r.to) b rs

abbrev pub total_len : List BlockRange → ℕ
total_len [] = 0
total_len (r ∷ rs) = len r + total_len rs

-- The loop's result: the ranges tile the blocks and each is at most `chunk_size` long.
abbrev pub Planned : (chunk_size from current_block : ℕ) → Option (List BlockRange) → Type 0
Planned chunk_size from current_block none = ⊥
Planned chunk_size from current_block (some rs) =
    Tiles from current_block rs × All (λ r. len r ≤ chunk_size) rs

module _ (current_block chunk_size : ℕ) (positive : 0 < chunk_size)
    (fits : current_block + chunk_size < u64_mod) where
  next :
      (from : ℕ)
      → from ≤ current_block
      → (from ≤ chunk_end current_block chunk_size from)
        × (chunk_end current_block chunk_size from ≤ current_block)
        × (chunk_end current_block chunk_size from < from + chunk_size)
        × (wrapping_add (chunk_end current_block chunk_size from) 1
            ≡ suc (chunk_end current_block chunk_size from))
  next from h = (omega arith, omega arith, omega arith, omega arith)

  in_front-Planned :
      (from to : ℕ) (rest : Option (List BlockRange))
      → from ≤ to
      → to ≤ current_block
      → to < from + chunk_size
      → Planned chunk_size (suc to) current_block rest
      → Planned chunk_size from current_block (in_front (record { from = from; to = to }) rest)
  unfolding len
  in_front-Planned from to none a b c h = h
  in_front-Planned from to (some rs) a b c (t, l) = ((refl, a, b, t), (ground arith, l))

  pub chunks-Planned :
      (fuel from : ℕ)
      → from ≤ suc current_block
      → suc current_block - from < fuel
      → Planned chunk_size from current_block (chunks fuel current_block chunk_size from)
  unfolding chunks
  chunks-Planned zero from h k = absurd (omega arith)
  chunks-Planned (suc fuel) from h k = elim (Bool-cases (leb from current_block)) [
    | inl more ↦
        let (a, b, c, e) = next from (leb→le _ _ more) in
        rw (more, e)
          (in_front-Planned from _ _ a b c (
            chunks-Planned fuel (suc (chunk_end current_block chunk_size from)) (omega arith)
              (omega arith)))
    | inr done ↦ rw done (omega (arith, leb→gt _ _ done), tt)
  ]

total_len-Tiles :
    (a b : ℕ) (rs : List BlockRange) → b < u64_mod - 1 → Tiles a b rs → total_len rs + a ≡ suc b
unfolding len
total_len-Tiles a b [] h e = omega arith
total_len-Tiles a b (r ∷ rs) h (p, q, l, t) = ground (arith, total_len-Tiles (suc r.to) b rs h t)

-- For a positive chunk size, a start that is at most the current block, and a current block and
-- chunk size whose sum stays within `u64`, planning ends; the ranges tile the blocks from the
-- start to the current block, whatever end block the contract has, none is longer than the chunk size, and `total_blocks` is the number
-- of blocks in them.
pub plan-Tiles :
    (config : ContractConfig) (chain_id current_block : ℕ) (checkpoint : Option ℕ) (chunk_size : ℕ)
    → 0 < chunk_size
    → current_block + chunk_size < u64_mod
    → unwrap_or checkpoint config.start_block ≤ current_block
    → (p : BackfillPlan) × (plan config chain_id current_block checkpoint chunk_size ≡ some p)
      × Tiles (unwrap_or checkpoint config.start_block) current_block p.ranges
      × All (λ r. len r ≤ chunk_size) p.ranges
      × (p.total_blocks ≡ total_len p.ranges)
unfolding plan
plan-Tiles config chain_id current_block checkpoint chunk_size positive fits started =
    let start = unwrap_or checkpoint config.start_block in
    built start started refl
      (chunks (enough_fuel current_block start) current_block chunk_size start)
      (chunks-Planned current_block chunk_size positive fits (enough_fuel current_block start) start
        (omega arith) (omega arith))
      refl
  where
    built :
        (start : ℕ)
        → start ≤ current_block
        → unwrap_or checkpoint config.start_block ≡ start
        → (found : Option (List BlockRange)) → Planned chunk_size start current_block found
        → chunks (enough_fuel current_block start) current_block chunk_size start ≡ found
        → (p : BackfillPlan) × (plan config chain_id current_block checkpoint chunk_size ≡ some p)
          × Tiles start current_block p.ranges
          × All (λ r. len r ≤ chunk_size) p.ranges
          × (p.total_blocks ≡ total_len p.ranges)
    built start low here none h e = absurd h
    built start low here (some rs) h e = (
      record {
        contract_name = config.name;
        chain_id = chain_id;
        ranges = rs;
        total_blocks = wrapping_add (current_block - start) 1;
      },
      rw (here, e, ge→ltb current_block start low),
      h.0,
      h.1,
      omega (arith, total_len-Tiles start current_block rs (omega arith) h.0),
    )
