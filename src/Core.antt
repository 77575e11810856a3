-- ===== src/Core.antt =====
-- The data of the core crate that the other components share: crates/forge-index-core/src.
pub mod Types
pub mod Alloy
pub mod HexText
pub mod Abi
pub mod Event
pub mod AbiType
pub mod Slot
pub mod Decoder
pub mod Encode
pub mod AbiParser
mod Examples
mod ParserExamples
