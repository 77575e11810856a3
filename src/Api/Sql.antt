-- ===== src/Api/Sql.antt =====
-- The SQL endpoint's check of a query: crates/forge-index-api/src/sql/parser.rs.
pub mod Types
pub mod Keywords
pub mod Tables
pub mod Limit
pub mod Validate
pub mod RateLimiter
pub mod Execute
pub mod Handler
mod Examples
