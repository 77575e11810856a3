-- ===== src/Sync/Examples/Plan.antt =====
-- Plans for blocks 5 to 9: crates/forge-index-sync/src/backfill/planner.rs.
use forge_index.Base.{ℕ, ◌+◌, ◌≤◌, ◌≡◌, refl, false, none, some, [], ◌∷◌, arith, All}
use forge_index.Config.Contract.{ContractConfig, AddressConfig}
use forge_index.Sync.Planner.{BlockRange, BackfillPlan, len, chunks, plan}
use forge_index.Sync.Planner.Cover.{Tiles, total_len, plan-Tiles}
use forge_index.Sync.Planner.Resume.{plan_resume}

abbrev token : ContractConfig
token = record {
  name = "TestToken";
  abi_json = "[]";
  chain_names = "mainnet" ∷ [];
  address = AddressConfig.single 1;
  start_block = 5;
  end_block = none;
  filter = none;
  include_transaction = false;
  include_trace = false;
}

abbrev range : ℕ → ℕ → BlockRange
range a b = record { from = a; to = b }

abbrev planned : BackfillPlan
planned = record {
  contract_name = "TestToken";
  chain_id = 1;
  ranges = range 5 6 ∷ range 7 8 ∷ range 9 9 ∷ [];
  total_blocks = 5;
}

plan_runs : plan token 1 9 none 2 ≡ some planned
unfolding plan chunks
plan_runs = refl

plan-Tiles_example :
    (p : BackfillPlan) × (plan token 1 9 none 2 ≡ some p)
    × Tiles 5 9 p.ranges
    × All (λ r. len r ≤ 2) p.ranges
    × (p.total_blocks ≡ total_len p.ranges)
plan-Tiles_example = plan-Tiles token 1 9 none 2 (omega arith) (omega arith) (omega arith)

plan_resume_example :
    (q : BackfillPlan) × (plan token 1 9 (some (8 + 1)) 2 ≡ some q) × (q.ranges ≡ range 9 9 ∷ [])
plan_resume_example =
    plan_resume token 1 9 none 2 planned (range 5 6 ∷ []) (range 7 8) (range 9 9 ∷ []) (omega arith)
      (omega arith) plan_runs refl
