-- ===== src/Sync/Detector/ForkPoint.antt =====
-- What `find_fork_point` of crates/forge-index-sync/src/reorg/detector.rs finds.
use forge_index.Base.{
  ℕ, zero, suc, ◌+◌, ◌-◌, ◌≤◌, ◌<◌, ◌≡◌, refl, sym, ap, subst, ◌∙◌, ◌≢◌, ◌⊎◌, inl, inr, none, some,
  arith, leb, ◌==◌, leb→le, leb→gt, ==_iff, Bool-cases, Option-cases,
}
use native.Mathlib.Decide.{ℕ_discrete}
use forge_index.Base.Word.{saturating_sub}
use forge_index.Base.Maps.{get}
use forge_index.Base.Exec.{Result, ok, err, Exec}
use forge_index.Core.Types.{Block}
use forge_index.Rpc.Error.{RpcError}
use forge_index.Sync.Error.{SyncError, deep_reorg}
use forge_index.Sync.ChainState.{ChainState, default_capacity, get_hash}
use forge_index.Sync.Detector.{ReorgDetector, chain_key, walk_back, find_fork_point}

-- A stored block whose hash is not the one that the network has now.
abbrev pub Differs : ChainState → (ℕ → Block) → ℕ → Type 0
Differs state network n = (h : ℕ) × (get_hash n state ≡ some h) × (h ≢ (network n).hash)

-- A block that is not stored, or stored with the network's hash.
abbrev pub Agrees : ChainState → (ℕ → Block) → ℕ → Type 0
Agrees state network n = (get_hash n state ≡ none) ⊎ (get_hash n state ≡ some (network n).hash)

-- `fork` is the first block of the run of differing blocks that ends at `current`, within the lookback.
pub record IsForkPoint (state : ChainState) (network : ℕ → Block) (min_block current fork : ℕ)
    : Type 0 where
  pub above : min_block < fork
  pub within : fork ≤ current + 1
  pub agrees : Agrees state network (fork - 1)
  pub differs : (n : ℕ) → fork ≤ n → n ≤ current → Differs state network n

abbrev pub Outcome :
    ChainState → (ℕ → Block) → (chain_id min_block current : ℕ) → Result SyncError ℕ → Type 0
Outcome state network chain_id min_block current (ok fork) =
    IsForkPoint state network min_block current fork
Outcome state network chain_id min_block current (err e) =
    (e ≡ deep_reorg chain_id default_capacity)
    × ((n : ℕ) → min_block ≤ n → n ≤ current → Differs state network n)

module _ {W Client : Type 0} (get_block_by_number : Client → ℕ → Exec W RpcError Block)
    (client : Client) (network : ℕ → Block)
    (serves : (n : ℕ) (w : W) → (get_block_by_number client n w).0 ≡ ok (network n))
    (state : ChainState) (chain_id min_block : ℕ) where
  found :
      (current : ℕ)
      → min_block ≤ current
      → Agrees state network current
      → IsForkPoint state network min_block current (current + 1)
  found current low a = record {
    above = omega arith;
    within = omega arith;
    agrees = subst (Agrees state network) (omega arith) a;
    differs = λ n h k. absurd (omega arith);
  }

  -- one block further down
  extend :
      (current : ℕ) (r : Result SyncError ℕ)
      → Differs state network (suc current)
      → Outcome state network chain_id min_block current r
      → Outcome state network chain_id min_block (suc current) r
  extend current (ok fork) d o = record {
    above = o.above;
    within = omega (arith, o.within);
    agrees = o.agrees;
    differs = λ n h k. elim (ℕ_discrete n (suc current)) [
      | yes e ↦ subst (Differs state network) (sym e) d
      | no ne ↦ o.differs n h (omega arith)
    ];
  }
  extend current (err e) d o = (
    o.0,
    λ n h k. elim (ℕ_discrete n (suc current)) [
      | yes same ↦ subst (Differs state network) (sym same) d
      | no ne ↦ o.1 n h (omega arith)
    ],
  )

  walk_back-Outcome :
      (current : ℕ) (w : W)
      → min_block ≤ suc current
      → Outcome state network chain_id min_block current
          (walk_back get_block_by_number client state chain_id min_block current w).0
  unfolding walk_back
  walk_back-Outcome zero w low = elim (Bool-cases (leb min_block 0)) [
    | inl inside ↦ elim (Option-cases (get_hash 0 state)) [
      | inl missing ↦
          rw (inside, walk_back, serves 0 w, missing) (found 0 (leb→le _ _ inside) (inl missing))
      | inr (h, stored) ↦ elim (Bool-cases (h == (network 0).hash)) [
        | inl same ↦
            rw (inside, walk_back, serves 0 w, stored, same)
              (found 0 (leb→le _ _ inside) (inr (stored ∙ ap some ((==_iff _ _).0 same))))
        | inr other ↦
            rw (inside, walk_back, serves 0 w, stored, other)
              (
                refl,
                λ n p q.
                    subst (Differs state network) (omega arith)
                      (h, stored, λ e. ground (arith, other)),
              )
      ]
    ]
    | inr below ↦ rw (below, walk_back) (refl, λ n p q. absurd (omega (arith, leb→gt _ _ below)))
  ]
  walk_back-Outcome (suc m) w low = elim (Bool-cases (leb min_block (suc m))) [
    | inl inside ↦ elim (Option-cases (get_hash (suc m) state)) [
      | inl missing ↦
          rw (inside, walk_back, serves (suc m) w, missing)
            (found (suc m) (leb→le _ _ inside) (inl missing))
      | inr (h, stored) ↦ elim (Bool-cases (h == (network (suc m)).hash)) [
        | inl same ↦
            rw (inside, walk_back, serves (suc m) w, stored, same)
              (found (suc m) (leb→le _ _ inside) (inr (stored ∙ ap some ((==_iff _ _).0 same))))
        | inr other ↦
            rw (inside, walk_back, serves (suc m) w, stored, other)
              (extend m _ (h, stored, λ e. ground (arith, other))
                (walk_back-Outcome m _ (leb→le _ _ inside)))
      ]
    ]
    | inr below ↦ rw (below, walk_back) (refl, λ n p q. absurd (omega (arith, leb→gt _ _ below)))
  ]

-- With a client that serves the network's blocks, the search ends: either it returns the first block of
-- the run of stored blocks, up to the parent of the new block, whose hashes the network no longer has,
-- or every block of the lookback differs and it reports a deep reorg.
pub find_fork_point-Outcome :
    {W Client : Type 0} (get_block_by_number : Client → ℕ → Exec W RpcError Block) (client : Client)
    (network : ℕ → Block) (state : ChainState) (chain_id : ℕ) (block : Block)
    (d : ReorgDetector Client) (w : W)
    → ((n : ℕ) (v : W) → (get_block_by_number client n v).0 ≡ ok (network n))
    → get chain_key chain_id d.clients ≡ some client
    → get chain_key chain_id d.chain_states ≡ some state
    → Outcome state network chain_id
        (saturating_sub block.number default_capacity)
        (saturating_sub block.number 1)
        (find_fork_point get_block_by_number chain_id block d w).0
unfolding find_fork_point
find_fork_point-Outcome f client network state chain_id block d w serves hc hs =
    rw (hc, find_fork_point, hs)
      (walk_back-Outcome f client network serves state chain_id _ (block.number - 1) w
        (omega arith))
