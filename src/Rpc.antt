-- ===== src/Rpc.antt =====
-- The RPC crate: crates/forge-index-rpc/src.
pub mod Error
pub mod Retry
pub mod Types
pub mod RateLimiter
pub mod Dedup
pub mod Table
pub mod LogCache
pub mod Store
pub mod CachedClient
pub mod Client
mod Examples
mod CacheExamples
mod LimiterExamples
mod DedupExamples
mod ClientExamples
