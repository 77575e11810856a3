-- ===== src/Rpc/Examples.antt =====
-- A call that times out twice and then answers, and one that always times out:
-- crates/forge-index-rpc/src/retry.rs.
use forge_index.Base.{ℕ, zero, suc, ◌<◌, ◌≡◌, refl, true, List, [], ◌∷◌, arith}
use forge_index.Base.Exec.{Result, ok, err}
use forge_index.Rpc.Error.{RpcError, timeout, is_retryable}
use forge_index.Rpc.Retry.Attempts.{is_transient}

abbrev third : ℕ → Result RpcError ℕ
third zero = err (timeout "eth_call")
third (suc zero) = err (timeout "eth_call")
third (suc (suc n)) = ok 7

abbrev never : ℕ → Result RpcError ℕ
never n = err (timeout "eth_call")

abbrev delays : List ℕ
delays = 1 ∷ 2 ∷ 3 ∷ 4 ∷ 5 ∷ []

early : (j : ℕ) → j < 2 → is_transient (third j) ≡ true
unfolding is_retryable
early zero h = refl
early (suc zero) h = refl
early (suc (suc j)) h = absurd (omega arith)

timed_out : (j : ℕ) → j < 5 → is_transient (never j) ≡ true
unfolding is_retryable
timed_out j h = refl
