-- ===== src/Sync/Examples/Backfill.antt =====
-- A backfill of one contract whose node has one log, and one whose node refuses:
-- crates/forge-index-sync/src/backfill.
use forge_index.Base.{
  ℕ, suc, ◌≡◌, refl, true, false, none, some, List, [], ◌∷◌, arith, ◌==◌, if◌then◌else◌,
}
use forge_index.Base.Exec.{ok, err, Exec}
use forge_index.Config.Contract.{ContractConfig, AddressConfig, FactoryConfig}
use forge_index.Core.AbiType.{AbiEvent, AbiParams}
use forge_index.Core.Decoder
use forge_index.Core.Slot.{Library}
use forge_index.Core.Types.{Log}
use forge_index.Rpc.Error.{RpcError, timeout}
use forge_index.Sync.Error.{failure, rpc}
use forge_index.Sync.Planner.{BlockRange, BackfillPlan}
use forge_index.Rpc.Types.{LogFilter}
use forge_index.Sync.Worker.{BackfillWorker, fetch_range}
use forge_index.Sync.Coordinator.{Services, BackfillCoordinator, Running, run_range, fetch_plans}
use forge_index.Sync.Coordinator.Failure.{run_range_error}
use forge_index.Sync.Factory.{FactoryAddressTracker}
use forge_index.Sync.Finality.{FinalityTracker}

abbrev token : ContractConfig
token = record {
  name = "Token";
  abi_json = "[]";
  chain_names = "mainnet" ∷ [];
  address = AddressConfig.single 1;
  start_block = 5;
  end_block = none;
  filter = none;
  include_transaction = false;
  include_trace = false;
}

abbrev made : AbiEvent
made = record { name = "Transfer"; signature = []; selector = 7; inputs = AbiParams.nil }

abbrev worker : BackfillWorker
worker = record {
  decoder = Decoder.new (made ∷ []);
  contract = token;
  chain_id = 1;
  selectors = 7 ∷ [];
  addresses = 1 ∷ [];
}

abbrev log : ℕ → ℕ → Log
log block index = record {
  id = "log";
  chain_id = 1;
  address = 1;
  topics = (if block == 6 then 8 else 7) ∷ [];
  payload = [];
  block_number = block;
  block_hash = block;
  transaction_hash = block;
  log_index = index;
  transaction_index = 0;
  removed = false;
}

abbrev lib : Library
lib = record { decimal = λ n. ""; lossy = λ bs. ""; can_allocate = λ n. true }

-- the logs of block 6 are unknown, and those of the others are transfers
abbrev logs : List Log
logs = log 7 0 ∷ log 6 0 ∷ log 5 1 ∷ []

-- the outside state is the number of saved checkpoints
abbrev answer : LogFilter → Exec ℕ RpcError (List Log)
answer filter n = (ok logs, n)

abbrev range : BlockRange
range = record { from = 5; to = 7 }

abbrev refuse : LogFilter → Exec ℕ RpcError (List Log)
refuse filter n = (err (timeout "eth_getLogs"), n)

abbrev services : Services ℕ
services = record {
  get_checkpoint = λ chain name n. (ok none, n);
  put_checkpoint = λ chain name block n. (ok tt, suc n);
  get_logs = λ w. refuse;
  library = lib;
  execute = λ sql n. (ok tt, n);
  printers = record { float_to_string = λ n. []; hex_encode = λ bs. bs; json_to_string = λ j. [] };
}

abbrev coordinator : BackfillCoordinator ℕ
coordinator = record {
  workers = λ chain name. some worker;
  registry = λ key. none;
  db_handlers = λ key. none;
  chain_contracts = λ chain. some (token ∷ []);
  chain_chunk_sizes = λ chain. some 2;
}

abbrev running : Running ℕ
running = record {
  buffer = record {
    buffers = [];
    max_size = 10000;
    pg_schema = "public";
    table_columns = [];
    pk_columns = [];
    total_flushed = 0;
  };
  progress = [];
  world = 0;
}

abbrev plans : List BackfillPlan
plans = record { contract_name = "Token"; chain_id = 1; ranges = range ∷ []; total_blocks = 3 } ∷ []

none_is_not_some : {A : Type 0} {x : A} {B : Type 0} → none ≡ some x → B
none_is_not_some h = ground (arith, h)

run_range_error_example : (run_range services coordinator 1 plans 0 running).1.world ≡ 0
run_range_error_example =
    run_range_error services coordinator (λ n. n ≡ 0) (λ w filter n h. h) (λ sql n h. h)
      (λ key event handler found. none_is_not_some found)
      (λ key event handler found. none_is_not_some found) 1 0 plans running
      (failure (rpc 1 (timeout "eth_getLogs"))) refl
      (unfold run_range fetch_plans fetch_range in refl)

abbrev factory : FactoryConfig
factory = record {
  factory_address = 1 ∷ [];
  event_signature = "Made(address)";
  address_parameter = "to";
  start_block = 0;
}

abbrev tracker : FactoryAddressTracker
tracker = record { addresses = ((1, "Factory"), 3 ∷ []) ∷ [] }

abbrev depth : FinalityTracker
depth = record { confirmed_depth = 32 }
