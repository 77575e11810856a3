-- ===== src/Rpc/RateLimiter/Bounds.antt =====
-- How many requests a token bucket lets through: crates/forge-index-rpc/src/rate_limiter.rs.
use forge_index.Base.{
  ℕ, suc, ◌+◌, ◌-◌, ◌*◌, ◌≤◌, Bool, true, false, List, [], ◌∷◌, ◌≡◌, sym, subst, arith,
}
use forge_index.Rpc.RateLimiter.{TokenBucket, token, new, try_acquire}

abbrev pub count_if : Bool → ℕ → ℕ
count_if true n = suc n
count_if false n = n

-- how many requests at the given times are let through
abbrev pub granted : List ℕ → TokenBucket → ℕ
granted [] b = 0
granted (t ∷ ts) b = count_if (try_acquire t b).0 (granted ts (try_acquire t b).1)

abbrev pub last_time : ℕ → List ℕ → ℕ
last_time t [] = t
last_time t (u ∷ ts) = last_time u ts

-- no time is before the one in front of it
abbrev pub InOrder : ℕ → List ℕ → Type 0
InOrder t [] = Unit
InOrder t (u ∷ ts) = (t ≤ u) × InOrder u ts

distribute : (a b r : ℕ) → b ≤ a → (a - b) * r + b * r ≡ a * r
distribute a b r h = grind arith

-- one request: what it takes and what is left are covered by what there was and what came since
pub try_acquire_balance :
    (t : ℕ) (b : TokenBucket)
    → (count_if (try_acquire t b).0 0 * token + (try_acquire t b).1.tokens
        ≤ b.tokens + (t - b.last_refill) * b.refill_rate)
      × ((try_acquire t b).1.last_refill ≡ t)
      × ((try_acquire t b).1.refill_rate ≡ b.refill_rate)
unfolding try_acquire
try_acquire_balance t b = ground arith

count_if-add : (c : Bool) (n : ℕ) → count_if c n ≡ count_if c 0 + n
count_if-add true n = omega arith
count_if-add false n = omega arith

last_time-ge : (t : ℕ) (ts : List ℕ) → InOrder t ts → t ≤ last_time t ts
last_time-ge t [] h = omega arith
last_time-ge t (u ∷ ts) (early, h) = omega (arith, last_time-ge u ts h)

granted_balance :
    (b : TokenBucket) (ts : List ℕ)
    → InOrder b.last_refill ts
    → granted ts b * token + b.last_refill * b.refill_rate
      ≤ b.tokens + last_time b.last_refill ts * b.refill_rate
granted_balance b [] h = omega arith
granted_balance b (t ∷ ts) (early, h) =
    let (spent, at, rate) = try_acquire_balance t b in
    let b1 = (try_acquire t b).1 in
    let rest = granted_balance b1 ts (subst (λ u. InOrder u ts) (sym at) h) in
    let more = distribute t b.last_refill b.refill_rate early in
    let rest' : granted ts b1 * token + t * b.refill_rate
        ≤ b1.tokens + last_time t ts * b.refill_rate =
      subst (λ (r : ℕ). granted ts b1 * token + t * r ≤ b1.tokens + last_time t ts * r) rate
        (subst
          (λ (u : ℕ).
            granted ts b1 * token + u * b1.refill_rate
            ≤ b1.tokens + last_time u ts * b1.refill_rate)
          at rest) in
    omega (arith, count_if-add (try_acquire t b).0 (granted ts b1))

-- A bucket that is new at `start` lets at most as many requests through, by the time of the last one,
-- as its rate allows for one second and for the time since `start`, whenever the requests come.
pub granted_bound :
    (max_rps start : ℕ) (ts : List ℕ)
    → InOrder start ts
    → granted ts (new max_rps start) * token
      ≤ max_rps * token + (last_time start ts - start) * max_rps
unfolding new
granted_bound max_rps start ts h = omega (
  arith,
  granted_balance (new max_rps start) ts h,
  distribute (last_time start ts) start max_rps (last_time-ge start ts h),
)
