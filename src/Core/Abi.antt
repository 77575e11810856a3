-- ===== src/Core/Abi.antt =====
-- Errors of the ABI decoder: crates/forge-index-core/src/abi/types.rs.
use forge_index.Base.Text.{Text}

pub data AbiError : Type 0 where
  parse_error unknown_type decode_mismatch : Text → AbiError
  invalid_selector : AbiError
