-- ===== src/Sync/Planner/Resume.antt =====
-- Planning again from a checkpoint, and the chunk size 0:
-- crates/forge-index-sync/src/backfill/planner.rs.
use forge_index.Base.{
  ℕ, zero, suc, ◌+◌, ◌-◌, ◌≤◌, ◌<◌, ◌≡◌, refl, sym, ap, subst, ◌∙◌, ◌⊎◌, inl, inr, Option, none,
  some, List, [], ◌∷◌, ◌++◌, arith, ltb, leb, ltb→lt, ltb→ge, lt→ltb, ge→ltb, leb→le, leb→gt,
  le→leb, gt→leb, Bool-cases,
}
use forge_index.Base.Word.{wrapping_add, u64_mod}
use forge_index.Config.Contract.{ContractConfig}
use forge_index.Sync.Planner.{
  BlockRange, BackfillPlan, chunk_end, chunks, in_front, unwrap_or, with_ranges, enough_fuel, plan,
}

module _ (current_block chunk_size : ℕ) (positive : 0 < chunk_size)
    (fits : current_block + chunk_size < u64_mod) where
  -- any two amounts of fuel that are enough give the same ranges
  chunks_fuel :
      (f g from : ℕ)
      → suc current_block - from < f
      → suc current_block - from < g
      → chunks f current_block chunk_size from ≡ chunks g current_block chunk_size from
  unfolding chunks
  chunks_fuel zero g from h k = absurd (omega arith)
  chunks_fuel (suc f) zero from h k = absurd (omega arith)
  chunks_fuel (suc f) (suc g) from h k = elim (Bool-cases (leb from current_block)) [
    | inl more ↦
        let to = wrapping_add (chunk_end current_block chunk_size from) 1 in
        let le = leb→le _ _ more in rw (more, chunks_fuel f g to (omega arith) (omega arith))
    | inr done ↦ rw done
  ]

  in_front-eq-some :
      (x y : BlockRange) (o : Option (List BlockRange)) (ys : List BlockRange)
      → in_front x o ≡ some (y ∷ ys)
      → (x ≡ y) × (o ≡ some ys)
  in_front-eq-some x y none ys e = cc
  in_front-eq-some x y (some zs) ys e = ground arith

  chunks_cons :
      (f from : ℕ) (x : BlockRange) (ys : List BlockRange)
      → chunks (suc f) current_block chunk_size from ≡ some (x ∷ ys)
      → (from ≤ x.to)
        × (x.to ≤ current_block)
        × (chunks f current_block chunk_size (suc x.to) ≡ some ys)
  unfolding chunks
  chunks_cons f from x ys e = elim (Bool-cases (leb from current_block)) [
    | inl more ↦
        let to = chunk_end current_block chunk_size from in
        let low = leb→le _ _ more in
        let e' : in_front (record { from = from; to = to })
              (chunks f current_block chunk_size (wrapping_add to 1))
            ≡ some (x ∷ ys) =
          rw more at e in
        let (same, rest) = in_front-eq-some _ x _ ys e' in
        let here : to ≡ x.to = ap (λ (b : BlockRange). b.to) same in
        let on : wrapping_add to 1 ≡ suc x.to = omega arith in
        (
          omega arith,
          omega arith,
          subst (λ k. chunks f current_block chunk_size k ≡ some ys) on rest,
        )
    | inr done ↦ cc (rw done at e)
  ]

  -- the ranges behind `r` are those of the loop that starts behind `r`
  chunks_behind :
      (before : List BlockRange) (r : BlockRange) (rest : List BlockRange) (f from : ℕ)
      → suc current_block - from < f
      → chunks f current_block chunk_size from ≡ some (before ++ r ∷ rest)
      → (r.to ≤ current_block)
        × (chunks (enough_fuel current_block (suc r.to)) current_block chunk_size (suc r.to)
            ≡ some rest)
  chunks_behind before r rest zero from h e = absurd (omega arith)
  chunks_behind [] r rest (suc f) from h e =
      let (low, high, later) = chunks_cons f from r rest e in
      (
        high,
        chunks_fuel (enough_fuel current_block (suc r.to)) f (suc r.to) (omega arith) (omega arith)
            ∙ later,
      )
  chunks_behind (x ∷ before) r rest (suc f) from h e =
      let (low, high, later) = chunks_cons f from x (before ++ r ∷ rest) e in
      chunks_behind before r rest f (suc x.to) (omega arith) later

  chunks_done : (f : ℕ) → chunks (suc f) current_block chunk_size (suc current_block) ≡ some []
  unfolding chunks
  chunks_done f = rw (gt→leb (suc current_block) current_block (omega arith))

module _ (current_block chunk_size : ℕ) (positive : 0 < chunk_size)
    (fits : current_block + chunk_size < u64_mod) where
  nothing_left :
      (to : ℕ) (rest : List BlockRange)
      → to ≡ current_block
      → chunks (enough_fuel current_block (suc to)) current_block chunk_size (suc to) ≡ some rest
      → [] ≡ rest
  nothing_left to rest e h =
      let h' =
        subst
          (λ n.
            chunks (enough_fuel current_block (suc n)) current_block chunk_size (suc n) ≡ some rest)
          e h in
      let ended =
        chunks_done current_block chunk_size positive fits
          (suc current_block - suc current_block) in
      let both : some [] ≡ some rest = sym ended ∙ h' in ground arith

with_ranges-eq-some :
    (config : ContractConfig) (chain_id total : ℕ) (o : Option (List BlockRange)) (p : BackfillPlan)
    → with_ranges config chain_id total o ≡ some p
    → o ≡ some p.ranges
with_ranges-eq-some config chain_id total none p e = cc
with_ranges-eq-some config chain_id total (some rs) p e = ground arith

module _ (config : ContractConfig) (chain_id current_block chunk_size : ℕ) where
  -- what a plan's ranges are
  pub ranges-plan :
      (checkpoint : Option ℕ) (p : BackfillPlan)
      → plan config chain_id current_block checkpoint chunk_size ≡ some p
      → (current_block < unwrap_or checkpoint config.start_block) × (p.ranges ≡ [])
        ⊎ (unwrap_or checkpoint config.start_block ≤ current_block)
          × (chunks
                (enough_fuel current_block (unwrap_or checkpoint config.start_block))
                current_block
                chunk_size
                (unwrap_or checkpoint config.start_block)
              ≡ some p.ranges)
  unfolding plan
  ranges-plan checkpoint p e =
      elim (Bool-cases (ltb current_block (unwrap_or checkpoint config.start_block))) [
        | inl late ↦
            let e' : some [] ≡ some p.ranges =
              with_ranges-eq-some config chain_id _ _ p (rw late at e) in
            inl (ltb→lt _ _ late, ground arith)
        | inr early ↦
            inr (ltb→ge _ _ early, with_ranges-eq-some config chain_id _ _ p (rw early at e))
      ]

  plan_late :
      (checkpoint : ℕ)
      → current_block < checkpoint
      → (q : BackfillPlan) × (plan config chain_id current_block (some checkpoint) chunk_size
          ≡ some q)
        × (q.ranges ≡ [])
  unfolding plan
  plan_late checkpoint h = (
    record { contract_name = config.name; chain_id = chain_id; ranges = []; total_blocks = 0 },
    rw (lt→ltb current_block checkpoint h),
    refl,
  )

  plan_early :
      (checkpoint : ℕ) (rs : List BlockRange)
      → checkpoint ≤ current_block
      → chunks (enough_fuel current_block checkpoint) current_block chunk_size checkpoint ≡ some rs
      → (q : BackfillPlan) × (plan config chain_id current_block (some checkpoint) chunk_size
          ≡ some q)
        × (q.ranges ≡ rs)
  unfolding plan
  plan_early checkpoint rs h e = (
    record {
      contract_name = config.name;
      chain_id = chain_id;
      ranges = rs;
      total_blocks = wrapping_add (current_block - checkpoint) 1;
    },
    rw (ge→ltb current_block checkpoint h, e),
    refl,
  )

-- For a positive chunk size and blocks that stay within `u64`: when a plan is cut after any of its
-- ranges, planning again with the checkpoint that is stored for that range, its last block and one,
-- gives exactly the ranges that were left.
pub plan_resume :
    (config : ContractConfig) (chain_id current_block : ℕ) (checkpoint : Option ℕ) (chunk_size : ℕ)
    (p : BackfillPlan) (before : List BlockRange) (r : BlockRange) (rest : List BlockRange)
    → 0 < chunk_size
    → current_block + chunk_size < u64_mod
    → plan config chain_id current_block checkpoint chunk_size ≡ some p
    → p.ranges ≡ before ++ r ∷ rest
    → (q : BackfillPlan) × (plan config chain_id current_block (some (r.to + 1)) chunk_size
        ≡ some q)
      × (q.ranges ≡ rest)
plan_resume config chain_id current_block checkpoint chunk_size p before r rest positive fits
      planned cut =
    elim (ranges-plan config chain_id current_block chunk_size checkpoint p planned) [
      | inl (_, nothing) ↦ absurd (no_range before (sym nothing ∙ cut))
      | inr (early, found) ↦
          let start = unwrap_or checkpoint config.start_block in
          let (high, later) =
            chunks_behind current_block chunk_size positive fits before r rest
              (enough_fuel current_block start) start (omega arith) (found ∙ ap some cut) in
          let on : suc r.to ≡ r.to + 1 = omega arith in
          let next : chunks (enough_fuel current_block (r.to + 1)) current_block chunk_size
                (r.to + 1)
              ≡ some rest =
            subst (λ n. chunks (enough_fuel current_block n) current_block chunk_size n ≡ some rest)
              on later in
          elim (Bool-cases (leb (r.to + 1) current_block)) [
            | inl more ↦
                plan_early config chain_id current_block chunk_size (r.to + 1) rest
                  (leb→le _ _ more) next
            | inr done ↦
                let (q, e, nil) =
                  plan_late config chain_id current_block chunk_size (r.to + 1) (leb→gt _ _ done) in
                (
                  q,
                  e,
                  nil
                      ∙ nothing_left current_block chunk_size positive fits r.to rest
                          (omega (arith, high, leb→gt _ _ done)) later,
                )
          ]
    ]
  where
    no_range : (xs : List BlockRange) → [] ≡ xs ++ r ∷ rest → ⊥
    no_range [] e = cc
    no_range (x ∷ xs) e = cc

-- With the chunk size 0 the planning loop never ends, whatever fuel it is given, from any block after
-- the first up to the current one.
pub chunks_zero_chunk :
    (fuel current_block from : ℕ)
    → 0 < from
    → from ≤ current_block
    → current_block < u64_mod - 1
    → chunks fuel current_block 0 from ≡ none
unfolding chunks
chunks_zero_chunk zero current_block from a b c = refl
chunks_zero_chunk (suc fuel) current_block from a b c =
    let same : wrapping_add (chunk_end current_block 0 from) 1 ≡ from = omega arith in
    rw (le→leb from current_block b, same, chunks_zero_chunk fuel current_block from a b c)
