-- ===== src/Core/Event.antt =====
-- Decoded events: crates/forge-index-core/src/abi/decoder.rs. An integer of at most 128 bits is a
-- number of Base.Int or a natural number, a longer one its decimal text.
use forge_index.Base.{ℕ, List, Bool, String, Option}
use forge_index.Base.Int.{ℤ}
use forge_index.Base.Maps.{Map, get}
use forge_index.Core.Types.{Log}
use forge_index.Base.Maps.{string_key}

mutual
  pub data DecodedParam : Type 0 where
    uint : ℕ → DecodedParam
    uint256 : String → DecodedParam
    int : ℤ → DecodedParam
    int256 : String → DecodedParam
    address : ℕ → DecodedParam
    boolean : Bool → DecodedParam
    bytes : List ℕ → DecodedParam
    fixed_bytes : List ℕ → DecodedParam
    string : String → DecodedParam
    array : DecodedParams → DecodedParam
    tuple : DecodedParams → DecodedParam

  pub data DecodedParams : Type 0 where
    nil : DecodedParams
    cons : DecodedParam → DecodedParams → DecodedParams

pub record DecodedEvent : Type 0 where
  pub name : String
  pub contract_name : String
  pub params : Map String DecodedParam
  pub raw_log : Log

-- `DecodedEvent::get`, without the text of the error
unfoldable pub get_param : String → DecodedEvent → Option DecodedParam
get_param name event = get string_key name event.params
