-- ===== src/Rpc/Client/Replies.antt =====
-- What a call makes of the node's replies: crates/forge-index-rpc/src/client.rs.
use forge_index.Base.{ℕ, suc, String, ◌≡◌, Option, none, some, List}
use forge_index.Base.Exec.{Result, ok, err, Exec, map_error}
use forge_index.Base.Json.{Json}
use forge_index.Base.Text.{Text}
use forge_index.Core.Alloy.{AlloyHeader, block_from_alloy}
use forge_index.Core.Types.{Block}
use forge_index.Rpc.Client.{Serde, Layers}
use forge_index.Rpc.Error.{RpcError, transport, decode}
use forge_index.Rpc.Retry.Attempts.{no_sleep}

-- nobody shares the request, and the world is the number of attempts so far
abbrev pub alone : List ℕ → Layers ℕ
alone delays = record { acquire = λ n. n; dedup = λ key f. f; sleep = no_sleep; delays = delays }

-- what a shared request makes of a result
abbrev decoded : {A : Type 0} → Serde A → String → Result RpcError Json → Result RpcError A
decoded serde method (ok json) = map_error (decode method) (serde.from_value json)
decoded serde method (err e) = err e

abbrev encoded : {A : Type 0} → Serde A → String → Result RpcError A → Result RpcError Json
encoded serde method (ok a) = map_error (decode method) (serde.to_value a)
encoded serde method (err e) = err e

-- a node whose replies are `reply 0`, `reply 1`, …; the state counts them
abbrev pub answering : {A : Type 0} → (ℕ → Result String A) → Exec ℕ String A
answering reply n = (reply n, suc n)

-- what is written as JSON is read back
abbrev pub IsLossless : {A : Type 0} → Serde A → Type 0
IsLossless {A} serde =
    (a : A) → (json : Json) × ((serde.to_value a ≡ ok json) × (serde.from_value json ≡ ok a))

module _ (method : String) where
  abbrev block_answer : Result String (Option AlloyHeader) → Result RpcError AlloyHeader
  block_answer (err message) = err (transport message)
  block_answer (ok none) = err (decode method "block not found")
  block_answer (ok (some h)) = ok h

  -- the block of a reply, or the error that there is none
  abbrev pub block_or_missing : (chain_id : ℕ) → Option AlloyHeader → Result RpcError Block
  block_or_missing chain_id none = err (decode method "block not found")
  block_or_missing chain_id (some h) = ok (block_from_alloy chain_id h)
