-- ===== src/Rpc/RateLimiter.antt =====
-- The token buckets: crates/forge-index-rpc/src/rate_limiter.rs, which the limiter of the SQL endpoint
-- counts in too. Time is in whole nanoseconds and a token is 10 ^ 9 parts, so that a rate per second refills
-- whole parts and every sum is exact; the source has floating point numbers, whose sums are rounded. The
-- wait for a token is not modelled.
pub mod Bounds
use forge_index.Base.{
  ℕ, zero, suc, ◌+◌, ◌-◌, ◌*◌, ◌^◌, min, Bool, true, false, Option, none, some, leb, if◌then◌else◌,
}

abbrev pub token : ℕ
token = 10 ^ 9

pub record TokenBucket : Type 0 where
  pub tokens : ℕ
  pub max_tokens : ℕ
  pub refill_rate : ℕ
  pub last_refill : ℕ

unfoldable pub new : (max_rps now : ℕ) → TokenBucket
new max_rps now = record {
  tokens = max_rps * token;
  max_tokens = max_rps * token;
  refill_rate = max_rps;
  last_refill = now;
}

abbrev pub refill : ℕ → TokenBucket → TokenBucket
refill now b = record b {
  tokens = min (b.tokens + (now - b.last_refill) * b.refill_rate) b.max_tokens;
  last_refill = now;
}

-- take a token from a bucket that was refilled
abbrev pub take_token : TokenBucket → Bool × TokenBucket
take_token b =
    if leb token b.tokens then (true, record b { tokens = b.tokens - token }) else (false, b)

unfoldable pub try_acquire : ℕ → TokenBucket → Bool × TokenBucket
try_acquire now b = take_token (refill now b)
