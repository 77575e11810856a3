-- ===== src/Api/Sql/RateLimiter.antt =====
-- The rate limiter of the SQL endpoint: crates/forge-index-api/src/handlers/sql.rs. Its bucket is that
-- of crates/forge-index-rpc/src/rate_limiter.rs, and an address is a number. A call reads the clock
-- once; the second reading, for a bucket that is new and full, changes nothing.
pub mod Isolation
use forge_index.Base.{ℕ, Bool, Option, none, some, List, [], ◌∷◌}
use forge_index.Base.Maps.{Map, nat_key, get, insert}
use forge_index.Rpc.RateLimiter
use forge_index.Rpc.RateLimiter.{TokenBucket, refill, take_token}

pub record SqlRateLimiter : Type 0 where
  pub buckets : Map ℕ TokenBucket
  pub max_rps : ℕ

unfoldable pub new : ℕ → SqlRateLimiter
new max_rps = record { buckets = []; max_rps = max_rps }

-- `TokenBucket::try_acquire`
unfoldable pub bucket_acquire : ℕ → TokenBucket → Bool × TokenBucket
bucket_acquire now b = take_token (refill now b)

-- `entry(ip).or_insert_with(..)`
unfoldable pub bucket_of : (ip now : ℕ) → SqlRateLimiter → TokenBucket
bucket_of ip now l = elim (get nat_key ip l.buckets) [
  | none ↦ RateLimiter.new l.max_rps now
  | some b ↦ b
]

unfoldable pub try_acquire : (ip now : ℕ) → SqlRateLimiter → Bool × SqlRateLimiter
try_acquire ip now l =
    let (granted, bucket) = bucket_acquire now (bucket_of ip now l) in
    (granted, record l { buckets = insert nat_key ip bucket l.buckets })
