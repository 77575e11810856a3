-- ===== src/Sync/Detector.antt =====
-- The reorg detector: crates/forge-index-sync/src/reorg/detector.rs. The RPC client of a chain is a
-- parameter: its `get_block_by_number` runs in a world of its own (the network and the RPC cache).
pub mod ForkPoint
pub mod Decision
pub mod Recovery
pub mod Invariant
pub mod StaleCache
use forge_index.Base.{
  ℕ, zero, suc, ◌+◌, ◌-◌, ◌*◌, ◌/◌, ◌%◌, ◌^◌, ◌≤◌, ◌<◌, min, max, String, ◌≡◌, refl, sym, ap, subst,
  ◌∙◌, ◌≢◌, ◌↔◌, ◌⊎◌, inl, inr, Bool, true, false, not, ◌&&◌, ◌||◌, Option, none, some, List, [],
  ◌∷◌, ◌++◌, map, reverse, append_assoc, append-nil, reverse-cons, reverse-append, reverse-reverse,
  arith, str_eq, eq_iff, ltb, leb, ◌==◌, if◌then◌else◌, ltb→lt, ltb→ge, lt→ltb, ge→ltb, leb→le,
  leb→gt, le→leb, gt→leb, ==_iff, ==_refl, Bool-cases, Option-cases, length, get_elem?, take, drop,
  last?, drop_while, keep, length-append, length-reverse, last?-snoc, All, All-append,
}
use forge_index.Base.Word.{saturating_sub}
use forge_index.Base.Maps.{Key, Map, get, insert}
use forge_index.Base.Exec.{Result, ok, err, Exec, pure, fail, map_err, ◌>>=◌}
use forge_index.Core.Types.{Block}
use forge_index.Rpc.Error.{RpcError}
use forge_index.Sync.Error.{SyncError, chain_not_found, deep_reorg}
use forge_index.Sync.Error
use forge_index.Sync.ChainState
use forge_index.Sync.ChainState.{ChainState, default_capacity}

abbrev pub chain_key : Key ℕ
chain_key = record { beq = ◌==◌; beq_iff = ==_iff }

pub data ReorgDecision : Type 0 where
  normal : ReorgDecision
  reorg : (chain_id fork_block new_tip : ℕ) → ReorgDecision

pub record ReorgDetector (Client : Type 0) : Type 0 where
  pub chain_states : Map ℕ ChainState
  pub clients : Map ℕ Client

abbrev pub new : (Client : Type 0) → ReorgDetector Client
new Client = record { chain_states = []; clients = [] }

-- `chain_states.entry(chain_id).or_default()`
abbrev pub state_of : {Client : Type 0} → ℕ → ReorgDetector Client → ChainState
state_of chain_id d = elim (get chain_key chain_id d.chain_states) [
  | none ↦ ChainState.default
  | some s ↦ s
]

abbrev pub with_state :
    {Client : Type 0} → ℕ → ChainState → ReorgDetector Client → ReorgDetector Client
with_state chain_id s d = record d { chain_states = insert chain_key chain_id s d.chain_states }

unfoldable pub register_client :
    {Client : Type 0} → ℕ → Client → ReorgDetector Client → ReorgDetector Client
register_client chain_id client d = record d {
  clients = insert chain_key chain_id client d.clients;
}

unfoldable pub get_state : {Client : Type 0} → ℕ → ReorgDetector Client → Option ChainState
get_state chain_id d = get chain_key chain_id d.chain_states

unfoldable pub seed_block :
    {Client : Type 0} → ℕ → ℕ → ℕ → ReorgDetector Client → ReorgDetector Client
seed_block chain_id number hash d =
    with_state chain_id (ChainState.push number hash (state_of chain_id d)) d

module _ {W Client : Type 0} where
  -- push the block and go on
  pub accept :
      ℕ
      → Block
      → ReorgDetector Client
      → W
      → Result SyncError ReorgDecision × (ReorgDetector Client × W)
  accept chain_id block d w = (
    ok normal,
    (with_state chain_id (ChainState.push block.number block.hash (state_of chain_id d)) d, w),
  )

  -- the state after the fork point has been sought, for each outcome of the search
  pub rewind :
      ℕ
      → Block
      → ReorgDetector Client
      → Result SyncError ℕ × W
      → Result SyncError ReorgDecision × (ReorgDetector Client × W)
  rewind chain_id block d (err e, w) = (err e, (d, w))
  rewind chain_id block d (ok fork_block, w) = (
    ok (reorg chain_id fork_block block.number),
    (
      with_state chain_id
          (ChainState.prune_above (saturating_sub fork_block 1) (state_of chain_id d)) d,
      w,
    ),
  )

module _ {W Client : Type 0} (get_block_by_number : Client → ℕ → Exec W RpcError Block) where
  -- the loop of `find_fork_point`, from the block `current` down to `min_block`
  unfoldable pub walk_back :
      (client : Client) (state : ChainState) (chain_id min_block current : ℕ) → Exec W SyncError ℕ
  walk_back client state chain_id min_block zero = elim (leb min_block 0) [
    | false ↦ fail (deep_reorg chain_id default_capacity)
    | true ↦ do
      rpc_block ← map_err (Error.rpc chain_id) (get_block_by_number client 0)
      elim (ChainState.get_hash 0 state) [
        | some stored_hash ↦
            if stored_hash == rpc_block.hash
            then pure (0 + 1)
            else fail (deep_reorg chain_id default_capacity)
        | none ↦ pure (0 + 1)
      ]
  ]
  walk_back client state chain_id min_block (suc n) = elim (leb min_block (suc n)) [
    | false ↦ fail (deep_reorg chain_id default_capacity)
    | true ↦ do
      rpc_block ← map_err (Error.rpc chain_id) (get_block_by_number client (suc n))
      elim (ChainState.get_hash (suc n) state) [
        | some stored_hash ↦
            let further = walk_back client state chain_id min_block n in
            if stored_hash == rpc_block.hash then pure (suc n + 1) else further
        | none ↦ pure (suc n + 1)
      ]
  ]

  unfoldable pub find_fork_point : ℕ → Block → ReorgDetector Client → Exec W SyncError ℕ
  find_fork_point chain_id new_block d = elim (get chain_key chain_id d.clients) [
    | none ↦ fail (chain_not_found chain_id)
    | some client ↦ elim (get chain_key chain_id d.chain_states) [
      | none ↦ fail (chain_not_found chain_id)
      | some state ↦
          walk_back client state chain_id (saturating_sub new_block.number default_capacity)
            (saturating_sub new_block.number 1)
    ]
  ]

  unfoldable pub process_block : ℕ → Block → Exec (ReorgDetector Client × W) SyncError ReorgDecision
  unfolding accept rewind
  process_block chain_id block (d, w) =
      let state = state_of chain_id d in
      let entered = with_state chain_id state d in
      if ChainState.is_empty state
      then accept chain_id block entered w
      else if block.number == 0
      then accept chain_id block entered w
      else elim (ChainState.get_hash (block.number - 1) state) [
        | some stored_hash ↦
            if stored_hash == block.parent_hash
            then accept chain_id block entered w
            else rewind chain_id block entered (find_fork_point chain_id block entered w)
        | none ↦ accept chain_id block entered w
      ]
