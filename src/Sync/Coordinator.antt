-- ===== src/Sync/Coordinator.antt =====
-- The backfill of one chain: crates/forge-index-sync/src/backfill/coordinator.rs. The network, the
-- database and what the handlers do outside of the write buffer are one state `W` of which nothing is
-- known; the calls into it are parameters. A handler that panics before it returns a future is an
-- error here, and one that fails later is only logged. A decoder that panics ends the backfill. Logging and metrics are
-- left out.
pub mod Failure
use forge_index.Base.{
  ℕ, zero, suc, ◌+◌, ◌-◌, ◌*◌, ◌/◌, ◌%◌, ◌^◌, ◌≤◌, ◌<◌, min, max, String, ◌≡◌, refl, sym, ap, subst,
  ◌∙◌, ◌≢◌, ◌↔◌, ◌⊎◌, inl, inr, Bool, true, false, not, ◌&&◌, ◌||◌, Option, none, some, List, [],
  ◌∷◌, ◌++◌, map, reverse, append_assoc, append-nil, reverse-cons, reverse-append, reverse-reverse,
  arith, str_eq, eq_iff, ltb, leb, ◌==◌, if◌then◌else◌, ltb→lt, ltb→ge, lt→ltb, ge→ltb, leb→le,
  leb→gt, le→leb, gt→leb, ==_iff, ==_refl, Bool-cases, Option-cases, length, get_elem?, take, drop,
  last?, drop_while, keep, length-append, length-reverse, last?-snoc, All, All-append,
}
use forge_index.Base.Exec.{Result, ok, err, Exec, pure, fail, map_err, ◌>>=◌, ◌>>◌}
use forge_index.Base.Maps.{Map}
use forge_index.Base.Sort.{sort_by}
use forge_index.Base.Text.{Text, codes}
use forge_index.Base.Word.{wrapping_add}
use forge_index.Config.Contract.{ContractConfig}
use forge_index.Core.Slot.{Library}
use forge_index.Core.Types.{Log}
use forge_index.Rpc.Error.{RpcError}
use forge_index.Core.Event.{DecodedEvent}
use forge_index.Db.Error.{DbError}
use forge_index.Db.Buffer.{WriteBuffer, flush_all}
use forge_index.Db.Row.{Printers}
use forge_index.Sync.Detector.{chain_key}
use forge_index.Sync.Error.{Halt, failure, database, handler_panic}
use forge_index.Sync.Planner.{BlockRange, BackfillPlan, default_chunk_size, len, plan, unwrap_or}
use forge_index.Sync.Progress.{ChainProgress, init_chain, record_chain}
use forge_index.Rpc.Types.{LogFilter}
use forge_index.Sync.Worker.{BackfillWorker, before, fetch_range}

-- the calls that leave the coordinator
pub record Services (W : Type 0) : Type 0 where
  pub get_checkpoint : ℕ → String → Exec W Text (Option ℕ)
  pub put_checkpoint : ℕ → String → ℕ → Exec W Text (Unit {0})
  pub get_logs : BackfillWorker → LogFilter → Exec W RpcError (List Log)
  pub library : Library
  pub execute : Text → Exec W Text (Unit {0})
  pub printers : Printers

-- Maps that are only read are functions. An error of a handler is the text of a panic, and its result
-- what the future returned.
pub record BackfillCoordinator (W : Type 0) : Type 0 where
  pub workers : ℕ → String → Option BackfillWorker
  pub registry : Text → Option (DecodedEvent → Exec W Text (Result Text (Unit {0})))
  pub db_handlers :
      Text → Option (DecodedEvent → Exec (WriteBuffer × W) Text (Result Text (Unit {0})))
  pub chain_contracts : ℕ → Option (List ContractConfig)
  pub chain_chunk_sizes : ℕ → Option ℕ

pub record Running (W : Type 0) : Type 0 where
  pub buffer : WriteBuffer
  pub progress : Map ℕ ChainProgress
  pub world : W

module _ {W A E : Type 0} where
  -- a step of the outside world, and one that also has the write buffer
  abbrev pub on_world : Exec W E A → Exec (Running W) E A
  on_world m s = let (r, w) = m s.world in (r, record s { world = w })

  abbrev pub on_buffer : Exec (WriteBuffer × W) E A → Exec (Running W) E A
  on_buffer m s = let (r, (b, w)) = m (s.buffer, s.world) in (r, record s { buffer = b; world = w })

  -- `let _ = ...`
  abbrev pub ignore : Exec W E A → Exec W Halt (Unit {0})
  ignore m s = let (r, w) = m s in (ok tt, w)

abbrev pub or_no_contracts : Option (List ContractConfig) → List ContractConfig
or_no_contracts none = []
or_no_contracts (some cs) = cs

-- `.ok().flatten()`
abbrev pub flatten : Result Text (Option ℕ) → Option ℕ
flatten (ok c) = c
flatten (err e) = none

unfoldable pub handler_key : DecodedEvent → Text
handler_key event = codes event.contract_name ++ (codes ":" ++ codes event.name)

unfoldable pub max_ranges : List BackfillPlan → ℕ
max_ranges [] = 0
max_ranges (p ∷ ps) = max (length p.ranges) (max_ranges ps)

-- the sum of the plans' blocks, which wraps in a release build
unfoldable pub total_of : List BackfillPlan → ℕ
total_of [] = 0
total_of (p ∷ ps) = wrapping_add p.total_blocks (total_of ps)

abbrev pub len_or_zero : Option BlockRange → ℕ
len_or_zero none = 0
len_or_zero (some r) = len r

-- the longest range of the round
unfoldable pub blocks_in_range : ℕ → List BackfillPlan → ℕ
blocks_in_range range_idx [] = 0
blocks_in_range range_idx (p ∷ ps) =
    max (len_or_zero (get_elem? p.ranges range_idx)) (blocks_in_range range_idx ps)

abbrev pub add_plan : Option BackfillPlan → Option (List BackfillPlan) → Option (List BackfillPlan)
add_plan none ps = none
add_plan (some p) none = none
add_plan (some p) (some ps) = some (p ∷ ps)

module _ {W : Type 0} (services : Services W) (c : BackfillCoordinator W) where
  -- a plan for each contract; none where the loop of a plan does not end
  unfoldable pub make_plans : ℕ → ℕ → List ContractConfig → W → Option (List BackfillPlan) × W
  make_plans chain_id current_block [] w = (some [], w)
  make_plans chain_id current_block (config ∷ configs) w =
      let (r, w') = services.get_checkpoint chain_id config.name w in
      let (ps, w'') = make_plans chain_id current_block configs w' in
      (
        add_plan
            (plan config chain_id current_block (flatten r)
              (unwrap_or (c.chain_chunk_sizes chain_id) default_chunk_size))
            ps,
        w'',
      )

  -- the events of one plan's range, if it has one and a worker is there
  abbrev pub fetch_with : BlockRange → Option BackfillWorker → Exec W Halt (List DecodedEvent)
  fetch_with range none = pure []
  fetch_with range (some worker) =
      fetch_range services.library worker (services.get_logs worker) range

  abbrev pub fetch_plan : ℕ → String → Option BlockRange → Exec W Halt (List DecodedEvent)
  fetch_plan chain_id contract none = pure []
  fetch_plan chain_id contract (some range) = fetch_with range (c.workers chain_id contract)

  unfoldable pub fetch_plans : ℕ → ℕ → List BackfillPlan → Exec W Halt (List DecodedEvent)
  fetch_plans chain_id range_idx [] = pure []
  fetch_plans chain_id range_idx (p ∷ ps) = do
    events ← fetch_plan chain_id p.contract_name (get_elem? p.ranges range_idx)
    more ← fetch_plans chain_id range_idx ps
    pure (events ++ more)

  -- what a handler returned is only logged; its panic ends the backfill
  abbrev pub settle :
      {S : Type 0} → Text → Exec S Text (Result Text (Unit {0})) → Exec S Halt (Unit {0})
  settle key called = map_err (λ message. failure (handler_panic key message)) called >> pure tt

  abbrev pub call_legacy :
      Text
      → DecodedEvent
      → Option (DecodedEvent → Exec W Text (Result Text (Unit {0})))
      → Exec (Running W) Halt (Unit {0})
  call_legacy key event none = pure tt
  call_legacy key event (some handler) = on_world (settle key (handler event))

  abbrev pub call_handler :
      Text
      → DecodedEvent
      → Option (DecodedEvent → Exec (WriteBuffer × W) Text (Result Text (Unit {0})))
      → Exec (Running W) Halt (Unit {0})
  call_handler key event none = call_legacy key event (c.registry key)
  call_handler key event (some handler) = on_buffer (settle key (handler event))

  unfoldable pub handle_events : List DecodedEvent → Exec (Running W) Halt (Unit {0})
  handle_events [] = pure tt
  handle_events (e ∷ es) =
      call_handler (handler_key e) e (c.db_handlers (handler_key e)) >> handle_events es

  abbrev pub save_checkpoint : ℕ → String → Option BlockRange → Exec W Halt (Unit {0})
  save_checkpoint chain_id contract none = pure tt
  save_checkpoint chain_id contract (some range) =
      ignore (services.put_checkpoint chain_id contract (wrapping_add range.to 1))

  unfoldable pub save_checkpoints : ℕ → ℕ → List BackfillPlan → Exec W Halt (Unit {0})
  save_checkpoints chain_id range_idx [] = pure tt
  save_checkpoints chain_id range_idx (p ∷ ps) =
      save_checkpoint chain_id p.contract_name (get_elem? p.ranges range_idx)
      >> save_checkpoints chain_id range_idx ps

  abbrev pub note_progress : ℕ → ℕ → ℕ → Exec (Running W) Halt (Unit {0})
  note_progress chain_id blocks events s =
      (ok tt, record s { progress = record_chain chain_id blocks events s.progress })

  -- the handlers and the flush of a round
  abbrev pub index_events : List DecodedEvent → Exec (Running W) Halt (Unit {0})
  index_events events =
      handle_events events
      >> (on_buffer
            (map_err (λ e. failure (database e)) (flush_all services.printers services.execute))
          >> pure tt)

  -- one turn of the loop over the ranges
  unfoldable pub run_range : ℕ → List BackfillPlan → ℕ → Exec (Running W) Halt (Unit {0})
  run_range chain_id plans range_idx = do
    all_events ← on_world (fetch_plans chain_id range_idx plans)
    index_events (sort_by before all_events)
    on_world (save_checkpoints chain_id range_idx plans)
    note_progress chain_id (blocks_in_range range_idx plans) (length all_events)

  -- the rounds from `range_idx` on
  unfoldable pub run_ranges : ℕ → List BackfillPlan → ℕ → ℕ → Exec (Running W) Halt (Unit {0})
  unfolding run_range
  run_ranges chain_id plans zero range_idx = pure tt
  run_ranges chain_id plans (suc count) range_idx =
      run_range chain_id plans range_idx >> run_ranges chain_id plans count (suc range_idx)

  abbrev pub run_plans :
      ℕ → Option (List BackfillPlan) × W → Running W → Option (Result Halt (Unit {0}) × Running W)
  run_plans chain_id (none, w) s = none
  run_plans chain_id (some plans, w) s = some (
      run_ranges chain_id plans (max_ranges plans) 0
        (record s { world = w; progress = init_chain chain_id (total_of plans) s.progress }))

  abbrev pub run_contracts :
      ℕ → ℕ → List ContractConfig → Running W → Option (Result Halt (Unit {0}) × Running W)
  run_contracts chain_id current_block [] s = some (ok tt, s)
  run_contracts chain_id current_block (config ∷ configs) s =
      run_plans chain_id (make_plans chain_id current_block (config ∷ configs) s.world) s

  -- none where the loop of a plan does not end
  unfoldable pub run_chain : ℕ → ℕ → Running W → Option (Result Halt (Unit {0}) × Running W)
  run_chain chain_id current_block =
      run_contracts chain_id current_block (or_no_contracts (c.chain_contracts chain_id))
