-- ===== src/Rpc/LimiterExamples.antt =====
-- A token bucket of two requests per second: crates/forge-index-rpc/src/rate_limiter.rs.
use forge_index.Base.{◌≡◌, refl, [], ◌∷◌}
use forge_index.Rpc.RateLimiter.{new, try_acquire}
use forge_index.Rpc.RateLimiter.Bounds.{granted}

two_granted : granted (7 ∷ 7 ∷ 7 ∷ []) (new 2 7) ≡ 2
unfolding new try_acquire
two_granted = refl
