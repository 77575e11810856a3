-- ===== src/Config/Examples.antt =====
-- A configuration of one chain, one contract and one table: crates/forge-index-config/src/validation.rs.
use forge_index.Base.{String, ◌≡◌, ◌↔◌, Bool, true, false, none, some, [], ◌∷◌, str_eq}
use forge_index.Config.Contract.{ContractConfig, AddressConfig}
use forge_index.Base.Exec.{ok}
use forge_index.Config.Builder.{ConfigBuilder, build}
use forge_index.Config.Builder.Checked.{IsBuiltFrom, build_iff}
use forge_index.Config.Types.{Config, TableDef, text, postgres, multichain}
use forge_index.Config.Validation.{validate}
use forge_index.Config.Validation.Valid.{Valid, validate_iff}

abbrev token : ContractConfig
token = record {
  name = "Token";
  abi_json = "[]";
  chain_names = "mainnet" ∷ [];
  address = AddressConfig.single 1;
  start_block = 5;
  end_block = none;
  filter = none;
  include_transaction = false;
  include_trace = false;
}

abbrev config : Config
config = record {
  chains =
      record {
        name = "mainnet";
        chain_id = 1;
        rpc_http = "http://localhost";
        rpc_ws = none;
        max_rpc_requests_per_second = none;
        poll_interval_ms = none;
        max_block_range = none;
      }
      ∷ [];
  contracts = token ∷ [];
  accounts = [];
  block_intervals = [];
  schema =
      record {
        name = "users";
        columns =
            record {
              name = "id";
              col_type = text;
              nullable = false;
              primary_key = true;
              references = none;
            }
            ∷ [];
        indexes = [];
      }
      ∷ [];
  database = postgres "postgres://localhost" "public" 10;
  ordering = multichain;
}

abbrev is_list : String → Bool
is_list t = str_eq t "[]"

validate_iff_example : (validate is_list config ≡ []) ↔ Valid is_list config
validate_iff_example = validate_iff is_list config

abbrev builder : ConfigBuilder
builder = record {
  chains = config.chains;
  contracts = config.contracts;
  accounts = [];
  block_intervals = [];
  schema = none;
  database = none;
  ordering = multichain;
}

build_iff_example :
    (build is_list builder ≡ ok config) ↔ (IsBuiltFrom builder config × Valid is_list config)
build_iff_example = build_iff is_list builder config

abbrev users : TableDef
users = record {
  name = "users";
  columns =
      record {
        name = "id";
        col_type = text;
        nullable = false;
        primary_key = true;
        references = some ("people", "id");
      }
      ∷ [];
  indexes = record { columns = "id" ∷ []; unique = true } ∷ [];
}
