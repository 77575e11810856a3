-- ===== src/Sync/Subscriber.antt =====
-- The stream of new blocks: crates/forge-index-sync/src/realtime/subscriber.rs. The stream is the list of
-- what it brings; the client, the sleep and the text of a failure are parameters.
pub mod Attempts
use forge_index.Base.{ℕ, zero, suc, ◌*◌, ◌-◌, String, List, [], ◌∷◌, map}
use forge_index.Base.Exec.{Result, ok, err, Exec, ◌>>=◌, pure, fail}
use forge_index.Core.Types.{Block}
use forge_index.Rpc.Error.{RpcError}
use forge_index.Sync.Error.{SyncError, subscription_lost}

abbrev pub max_reconnect_attempts : ℕ
max_reconnect_attempts = 3

module _ {W : Type 0} (subscribe_new_heads : Exec W RpcError (List Block))
    (sleep : (seconds : ℕ) → W → W) (failed_after : (attempts : ℕ) → RpcError → String)
    (chain_id : ℕ) where
  -- what follows an attempt: its stream, or what is done after a failure
  abbrev pub or_else :
      Result RpcError (List Block)
      → (RpcError → Exec W SyncError (List Block))
      → Exec W SyncError (List Block)
  or_else (ok stream) later = pure stream
  or_else (err e) later = later e

  -- an attempt, with as many left after it as the number says
  unfoldable pub connect_from : (left delay : ℕ) → Exec W SyncError (List Block)
  connect_from zero delay w =
      let (answer, w1) = subscribe_new_heads w in
      or_else answer
        (λ e. fail (subscription_lost chain_id (failed_after max_reconnect_attempts e))) w1
  connect_from (suc left) delay w =
      let (answer, w1) = subscribe_new_heads w in
      or_else answer (λ e w2. connect_from left (delay * 2) (sleep delay w2)) w1

  unfoldable pub connect : Exec W SyncError (List Block)
  connect = connect_from (max_reconnect_attempts - 1) 1

  -- each element of the stream is a block
  unfoldable pub subscribe : Exec W SyncError (List (Result SyncError Block))
  subscribe = connect >>= λ stream. pure (map (λ block. ok block) stream)
