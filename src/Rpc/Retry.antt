-- ===== src/Rpc/Retry.antt =====
-- Calls that are tried again: crates/forge-index-rpc/src/retry.rs. The delays come from a library and
-- are a list; sleeping is a parameter.
pub mod Attempts
use forge_index.Base.{
  ℕ, zero, suc, ◌+◌, ◌-◌, ◌*◌, ◌/◌, ◌%◌, ◌^◌, ◌≤◌, ◌<◌, min, max, String, ◌≡◌, refl, sym, ap, subst,
  ◌∙◌, ◌≢◌, ◌↔◌, ◌⊎◌, inl, inr, Bool, true, false, not, ◌&&◌, ◌||◌, Option, none, some, List, [],
  ◌∷◌, ◌++◌, map, reverse, append_assoc, append-nil, reverse-cons, reverse-append, reverse-reverse,
  arith, str_eq, eq_iff, ltb, leb, ◌==◌, if◌then◌else◌, ltb→lt, ltb→ge, lt→ltb, ge→ltb, leb→le,
  leb→gt, le→leb, gt→leb, ==_iff, ==_refl, Bool-cases, Option-cases, length, get_elem?, take, drop,
  last?, drop_while, keep, length-append, length-reverse, last?-snoc, All, All-append,
}
use forge_index.Base.Exec.{Result, ok, err, Exec, pure, fail}
use forge_index.Rpc.Error.{RpcError, is_retryable, max_retries_exceeded}

abbrev pub max_retries : ℕ
max_retries = 4

module _ {W T : Type 0} (sleep : ℕ → W → W) (method : String) (f : Exec W RpcError T) where
  abbrev pub give_up : Exec W RpcError T
  give_up = fail (max_retries_exceeded method (max_retries + 1))

  -- what an attempt leads to: its result, the end of the attempts, or what comes later
  abbrev pub after_attempt : Result RpcError T → Bool → Exec W RpcError T → Exec W RpcError T
  after_attempt (ok v) last later = pure v
  after_attempt (err e) last later =
      if is_retryable e then (if last then give_up else later) else fail e

  -- the loop over the delays, from the index `i` on
  unfoldable pub retry : List ℕ → ℕ → Exec W RpcError T
  retry [] i w = give_up w
  retry (delay ∷ delays) i w =
      let (r, w') = f (sleep delay w) in
      after_attempt r (leb (max_retries + 1) (i + 2)) (retry delays (i + 1)) w'

  -- `delays` are the library's, of which `take` keeps four
  unfoldable pub with_retry : List ℕ → Exec W RpcError T
  unfolding retry
  with_retry delays w =
      let (r, w') = f w in after_attempt r false (retry (take max_retries delays) 0) w'
