-- ===== src/Config/Contract.antt =====
-- crates/forge-index-config/src/contract.rs
use forge_index.Base.{ℕ, String, Bool, Option, List}
use forge_index.Base.Json.{Json}
use forge_index.Base.Maps.{Map}

pub record FactoryConfig : Type 0 where
  pub factory_address : List ℕ
  pub event_signature : String
  pub address_parameter : String
  pub start_block : ℕ

pub record FilterConfig : Type 0 where
  pub event_name : String
  pub args : Map String Json

pub data AddressConfig : Type 0 where
  single : ℕ → AddressConfig
  multiple : List ℕ → AddressConfig
  factory : FactoryConfig → AddressConfig

pub data EndBlock : Type 0 where
  number : ℕ → EndBlock
  latest : EndBlock

pub record ContractConfig : Type 0 where
  pub name : String
  pub abi_json : String
  pub chain_names : List String
  pub address : AddressConfig
  pub start_block : ℕ
  pub end_block : Option EndBlock
  pub filter : Option (List FilterConfig)
  pub include_transaction : Bool
  pub include_trace : Bool
