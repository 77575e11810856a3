-- ===== src/Sync/Error.antt =====
-- The errors of crates/forge-index-sync/src/error.rs, and the panics that end a step of
-- crates/forge-index-sync/src/reorg and crates/forge-index-sync/src/backfill.
use forge_index.Base.{ℕ, String}
use forge_index.Core.Abi.{AbiError}
use forge_index.Rpc.Error.{RpcError}
use forge_index.Db.Error.{DbError}
use forge_index.Base.Text.{Text}

pub data SyncError : Type 0 where
  rpc : ℕ → RpcError → SyncError
  decode : String → AbiError → SyncError
  database : DbError → SyncError
  factory_decode : String → String → SyncError
  handler_panic : Text → Text → SyncError
  chain_not_found : ℕ → SyncError
  deep_reorg : ℕ → ℕ → SyncError
  subscription_lost : ℕ → String → SyncError

-- why a step ends early: an error, or a panic of the database driver or of the ABI decoder
pub data Halt : Type 0 where
  failure : SyncError → Halt
  crash : Halt
