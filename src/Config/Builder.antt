-- ===== src/Config/Builder.antt =====
-- The builder of a configuration: crates/forge-index-config/src/builder.rs. A closure that fills in a
-- part is a function on it.
pub mod Checked
use forge_index.Base.{ℕ, String, Bool, true, false, Option, none, some, List, [], ◌∷◌, ◌++◌}
use forge_index.Base.Exec.{Result, ok, err}
use forge_index.Base.Text.{Text, codes, join}
use forge_index.Config.Contract.{ContractConfig, AddressConfig}
use forge_index.Config.Types.{
  ChainConfig, AccountConfig, BlockIntervalConfig, TableDef, DatabaseConfig, EventOrdering, Config,
}
use forge_index.Config.Validation.{validate}

-- An error that holds another library's error holds its text here.
pub data ForgeError : Type 0 where
  rpc : (chain_id : ℕ) (message : Text) → ForgeError
  database abi_decode config schema_locked io : Text → ForgeError
  reorg : (chain_id block_number : ℕ) → ForgeError
  handler : (name source : Text) → ForgeError

pub record ConfigBuilder : Type 0 where
  pub chains : List ChainConfig
  pub contracts : List ContractConfig
  pub accounts : List AccountConfig
  pub block_intervals : List BlockIntervalConfig
  pub schema : Option (List TableDef)
  pub database : Option DatabaseConfig
  pub ordering : EventOrdering

abbrev pub new : ConfigBuilder
new = record {
  chains = [];
  contracts = [];
  accounts = [];
  block_intervals = [];
  schema = none;
  database = none;
  ordering = EventOrdering.multichain;
}

unfoldable pub chain : String → (ChainConfig → ChainConfig) → ConfigBuilder → ConfigBuilder
chain name f b =
    let empty : ChainConfig = record {
      name = name;
      chain_id = 0;
      rpc_http = "";
      rpc_ws = none;
      max_rpc_requests_per_second = none;
      poll_interval_ms = none;
      max_block_range = none;
    } in
    record b { chains = b.chains ++ f empty ∷ [] }

unfoldable pub contract : String → (ContractConfig → ContractConfig) → ConfigBuilder → ConfigBuilder
contract name f b =
    let empty : ContractConfig = record {
      name = name;
      abi_json = "[]";
      chain_names = [];
      address = AddressConfig.multiple [];
      start_block = 0;
      end_block = none;
      filter = none;
      include_transaction = false;
      include_trace = false;
    } in
    record b { contracts = b.contracts ++ f empty ∷ [] }

unfoldable pub account : String → (AccountConfig → AccountConfig) → ConfigBuilder → ConfigBuilder
account name f b =
    let empty : AccountConfig = record {
      name = name;
      chain_names = [];
      address = 0;
      start_block = 0;
      include_transaction = false;
    } in
    record b { accounts = b.accounts ++ f empty ∷ [] }

unfoldable pub block_interval :
    String → (BlockIntervalConfig → BlockIntervalConfig) → ConfigBuilder → ConfigBuilder
block_interval name f b =
    let empty : BlockIntervalConfig = record {
      name = name;
      chain_name = "";
      interval = 1;
      start_block = 0;
      end_block = none;
    } in
    record b { block_intervals = b.block_intervals ++ f empty ∷ [] }

abbrev pub with_schema : List TableDef → ConfigBuilder → ConfigBuilder
with_schema schema b = record b { schema = some schema }

abbrev pub with_database : DatabaseConfig → ConfigBuilder → ConfigBuilder
with_database db b = record b { database = some db }

abbrev pub with_ordering : EventOrdering → ConfigBuilder → ConfigBuilder
with_ordering ordering b = record b { ordering = ordering }

abbrev pub unwrap_schema : Option (List TableDef) → List TableDef
unwrap_schema none = []
unwrap_schema (some schema) = schema

-- `DatabaseConfig::postgres("")` where none was set
abbrev pub unwrap_database : Option DatabaseConfig → DatabaseConfig
unwrap_database none = DatabaseConfig.postgres "" "public" 10
unwrap_database (some db) = db

-- the configuration that is checked
unfoldable pub assemble : ConfigBuilder → Config
assemble b = record {
  chains = b.chains;
  contracts = b.contracts;
  accounts = b.accounts;
  block_intervals = b.block_intervals;
  schema = unwrap_schema b.schema;
  database = unwrap_database b.database;
  ordering = b.ordering;
}

unfoldable pub checked : List Text → Config → Result ForgeError Config
checked [] c = ok c
checked (e ∷ errors) c = err (ForgeError.config (join (codes "; ") (e ∷ errors)))

unfoldable pub build : (String → Bool) → ConfigBuilder → Result ForgeError Config
build is_json b = let c = assemble b in checked (validate is_json c) c
