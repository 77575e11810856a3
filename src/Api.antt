-- ===== src/Api.antt =====
-- The HTTP API crate: crates/forge-index-api/src.
pub mod Error
pub mod Response
pub mod Pagination
pub mod Filters
pub mod Sql
mod Examples
