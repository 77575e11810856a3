-- ===== src/Config/Types.antt =====
-- The configuration: crates/forge-index-config/src/builder.rs, chain.rs, account.rs, block_interval.rs,
-- schema.rs, database.rs.
use forge_index.Base.{ℕ, String, Bool, Option, List}
use forge_index.Config.Contract.{ContractConfig}

pub record ChainConfig : Type 0 where
  pub name : String
  pub chain_id : ℕ
  pub rpc_http : String
  pub rpc_ws : Option String
  pub max_rpc_requests_per_second : Option ℕ
  pub poll_interval_ms : Option ℕ
  pub max_block_range : Option ℕ

pub record AccountConfig : Type 0 where
  pub name : String
  pub chain_names : List String
  pub address : ℕ
  pub start_block : ℕ
  pub include_transaction : Bool

pub record BlockIntervalConfig : Type 0 where
  pub name : String
  pub chain_name : String
  pub interval : ℕ
  pub start_block : ℕ
  pub end_block : Option ℕ

pub data ColumnType : Type 0 where
  text boolean int big_int float hex address hash json bytes timestamp : ColumnType

pub record ColumnDef : Type 0 where
  pub name : String
  pub col_type : ColumnType
  pub nullable : Bool
  pub primary_key : Bool
  pub references : Option (String × String)

pub record IndexDef : Type 0 where
  pub columns : List String
  pub unique : Bool

pub record TableDef : Type 0 where
  pub name : String
  pub columns : List ColumnDef
  pub indexes : List IndexDef

pub data DatabaseConfig : Type 0 where
  postgres : (connection_string schema : String) (pool_max_connections : ℕ) → DatabaseConfig
  pg_lite : (directory : String) → DatabaseConfig

pub data EventOrdering : Type 0 where
  omnichain multichain : EventOrdering

pub record Config : Type 0 where
  pub chains : List ChainConfig
  pub contracts : List ContractConfig
  pub accounts : List AccountConfig
  pub block_intervals : List BlockIntervalConfig
  pub schema : List TableDef
  pub database : DatabaseConfig
  pub ordering : EventOrdering
