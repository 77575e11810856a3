-- ===== src/Rpc/Error.antt =====
-- crates/forge-index-rpc/src/error.rs
use forge_index.Base.{ℕ, String, Bool, true, false}

pub data RpcError : Type 0 where
  transport : String → RpcError
  rate_limit : ℕ → RpcError
  timeout : String → RpcError
  decode : String → String → RpcError
  no_web_socket : ℕ → RpcError
  max_retries_exceeded : String → ℕ → RpcError

unfoldable pub is_retryable : RpcError → Bool
is_retryable (transport _) = true
is_retryable (rate_limit _) = true
is_retryable (timeout _) = true
is_retryable _ = false
