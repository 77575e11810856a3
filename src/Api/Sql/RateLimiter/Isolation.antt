-- ===== src/Api/Sql/RateLimiter/Isolation.antt =====
-- That addresses do not share a limit: crates/forge-index-api/src/handlers/sql.rs.
use forge_index.Base.{
  ℕ, ◌+◌, ◌-◌, ◌*◌, ◌≤◌, false, none, some, List, [], ◌∷◌, ◌≡◌, refl, sym, ap, ◌∙◌, inl, inr,
  Bool-cases, arith, ◌==◌, ==_iff, if◌then◌else◌,
}
use forge_index.Base.Maps.{nat_key, get, get-insert, get-insert_self}
use forge_index.Api.Sql.RateLimiter.{SqlRateLimiter, bucket_acquire, bucket_of, new, try_acquire}
use forge_index.Rpc.RateLimiter
use forge_index.Rpc.RateLimiter.{TokenBucket, token}
use forge_index.Rpc.RateLimiter.Bounds.{count_if, granted, last_time, InOrder, granted_bound}

-- a request is the address it comes from and its time
abbrev pub granted_to : ℕ → List (ℕ × ℕ) → SqlRateLimiter → ℕ
granted_to ip [] l = 0
granted_to ip ((from, t) ∷ rs) l =
    let rest = granted_to ip rs (try_acquire from t l).1 in
    if from == ip then count_if (try_acquire from t l).0 rest else rest

-- when the requests of the address come
abbrev pub times_of : ℕ → List (ℕ × ℕ) → List ℕ
times_of ip [] = []
times_of ip ((from, t) ∷ rs) = let rest = times_of ip rs in if from == ip then t ∷ rest else rest

other_bucket :
    (from ip t : ℕ) (l : SqlRateLimiter)
    → (from == ip) ≡ false
    → get nat_key ip (try_acquire from t l).1.buckets ≡ get nat_key ip l.buckets
unfolding try_acquire
other_bucket from ip t l h = rw (get-insert nat_key from ip) (rw h refl)

-- a request meets the bucket of its address
own_step :
    (ip t : ℕ) (l : SqlRateLimiter) (b : TokenBucket)
    → bucket_of ip t l ≡ b
    → ((try_acquire ip t l).0 ≡ (RateLimiter.try_acquire t b).0)
      × (get nat_key ip (try_acquire ip t l).1.buckets ≡ some (RateLimiter.try_acquire t b).1)
unfolding try_acquire bucket_acquire RateLimiter.try_acquire
own_step ip t l b h = (
  ap (λ x. (bucket_acquire t x).0) h,
  get-insert_self nat_key ip _ l.buckets ∙ ap (λ x. some (bucket_acquire t x).1) h,
)

bucket_of_known :
    (ip t : ℕ) (l : SqlRateLimiter) (b : TokenBucket)
    → get nat_key ip l.buckets ≡ some b
    → bucket_of ip t l ≡ b
unfolding bucket_of
bucket_of_known ip t l b h = rw (h, bucket_of) refl

-- where the address has a bucket, its requests meet that bucket alone
granted_known :
    (ip : ℕ) (rs : List (ℕ × ℕ)) (l : SqlRateLimiter) (b : TokenBucket)
    → get nat_key ip l.buckets ≡ some b
    → granted_to ip rs l ≡ granted (times_of ip rs) b
granted_known ip [] l b h = refl
granted_known ip ((from, t) ∷ rs) l b h = elim (Bool-cases (from == ip)) [
  | inl same ↦
      let e = (==_iff from ip).0 same in
      let (result, bucket) =
        own_step from t l b
          (bucket_of_known from t l b (ap (λ k. get nat_key k l.buckets) e ∙ h)) in
      let ih =
        granted_known ip rs (try_acquire from t l).1 _
          (ap (λ k. get nat_key k (try_acquire from t l).1.buckets) (sym e) ∙ bucket) in
      rw same (λ i. count_if (result i) (ih i))
  | inr other ↦
      rw other (granted_known ip rs (try_acquire from t l).1 b (other_bucket from ip t l other ∙ h))
]

-- a bucket of one's own, new at the first request
abbrev pub granted_alone : ℕ → List ℕ → ℕ
granted_alone max_rps [] = 0
granted_alone max_rps (t ∷ ts) = granted (t ∷ ts) (RateLimiter.new max_rps t)

bucket_of-new :
    (ip t : ℕ) (l : SqlRateLimiter)
    → get nat_key ip l.buckets ≡ none
    → bucket_of ip t l ≡ RateLimiter.new l.max_rps t
unfolding bucket_of
bucket_of-new ip t l h = rw (h, bucket_of) refl

same_rate : (from t : ℕ) (l : SqlRateLimiter) → (try_acquire from t l).1.max_rps ≡ l.max_rps
unfolding try_acquire
same_rate from t l = refl

granted_unknown :
    (ip : ℕ) (rs : List (ℕ × ℕ)) (l : SqlRateLimiter)
    → get nat_key ip l.buckets ≡ none
    → granted_to ip rs l ≡ granted_alone l.max_rps (times_of ip rs)
granted_unknown ip [] l h = refl
granted_unknown ip ((from, t) ∷ rs) l h = elim (Bool-cases (from == ip)) [
  | inl same ↦
      let e = (==_iff from ip).0 same in
      let (result, bucket) =
        own_step from t l _ (bucket_of-new from t l (ap (λ k. get nat_key k l.buckets) e ∙ h)) in
      let rest =
        granted_known ip rs (try_acquire from t l).1 _
          (ap (λ k. get nat_key k (try_acquire from t l).1.buckets) (sym e) ∙ bucket) in
      rw same (λ i. count_if (result i) (rest i))
  | inr other ↦ rw other (
      granted_unknown ip rs (try_acquire from t l).1 (other_bucket from ip t l other ∙ h)
      ∙ ap (λ m. granted_alone m (times_of ip rs)) (same_rate from t l))
]

abbrev pub AreOrdered : List ℕ → Type 0
AreOrdered [] = Unit
AreOrdered (t ∷ ts) = InOrder t ts

-- from the first time to the last
abbrev pub span : List ℕ → ℕ
span [] = 0
span (t ∷ ts) = last_time t ts - t

granted_alone_bound :
    (max_rps : ℕ) (ts : List ℕ)
    → AreOrdered ts
    → granted_alone max_rps ts * token ≤ max_rps * token + span ts * max_rps
granted_alone_bound max_rps [] h = omega arith
granted_alone_bound max_rps (t ∷ ts) h = granted_bound max_rps t (t ∷ ts) (omega arith, h)

-- With a limiter that is new, the requests of an address are let through just as if it had a bucket of
-- its own that was new at its first request, whatever requests of other addresses come between them;
-- and if their times are in order, then those let through are at most what the rate allows for one
-- second and for the time from the first to the last of them, the tokens being counted in
-- exact arithmetic.
pub granted_to_bound :
    (max_rps ip : ℕ) (rs : List (ℕ × ℕ))
    → AreOrdered (times_of ip rs)
    → (granted_to ip rs (new max_rps) ≡ granted_alone max_rps (times_of ip rs))
      × (granted_to ip rs (new max_rps) * token ≤ max_rps * token + span (times_of ip rs) * max_rps)
unfolding new
granted_to_bound max_rps ip rs h =
    let alone = granted_unknown ip rs (new max_rps) refl in
    (alone, omega (arith, alone, granted_alone_bound max_rps (times_of ip rs) h))
