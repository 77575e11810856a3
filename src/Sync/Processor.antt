-- ===== src/Sync/Processor.antt =====
-- The loop over live blocks: crates/forge-index-sync/src/realtime/processor.rs. The subscriber's stream
-- is the list of what it yields. Legacy handlers have no write buffer. The pruning of shadow tables is
-- only logged in the source.
pub mod Blocks
use forge_index.Base.{
  ℕ, zero, suc, ◌+◌, ◌-◌, ◌*◌, ◌/◌, ◌%◌, ◌^◌, ◌≤◌, ◌<◌, min, max, String, ◌≡◌, refl, sym, ap, subst,
  ◌∙◌, ◌≢◌, ◌↔◌, ◌⊎◌, inl, inr, Bool, true, false, not, ◌&&◌, ◌||◌, Option, none, some, List, [],
  ◌∷◌, ◌++◌, map, reverse, append_assoc, append-nil, reverse-cons, reverse-append, reverse-reverse,
  arith, str_eq, eq_iff, ltb, leb, ◌==◌, if◌then◌else◌, ltb→lt, ltb→ge, lt→ltb, ge→ltb, leb→le,
  leb→gt, le→leb, gt→leb, ==_iff, ==_refl, Bool-cases, Option-cases, length, get_elem?, take, drop,
  last?, drop_while, keep, length-append, length-reverse, last?-snoc, All, All-append,
}
use forge_index.Base.Exec.{Result, ok, err, Exec, pure, fail, map_err, ◌>>=◌, ◌>>◌}
use forge_index.Base.Sort.{sort_by}
use forge_index.Base.Text.{Text}
use forge_index.Base.Word.{wrapping_add}
use forge_index.Core.Event.{DecodedEvent}
use forge_index.Core.Types.{Block}
use forge_index.Db.Buffer.{WriteBuffer, flush_all}
use forge_index.Db.Reorg.{Database}
use forge_index.Rpc.Error.{RpcError}
use forge_index.Sync.Coordinator.{Services, handler_key}
use forge_index.Sync.Detector.{ReorgDecision, normal, reorg, ReorgDetector, process_block}
use forge_index.Sync.Error.{SyncError, Halt, failure, crash, database, handler_panic}
use forge_index.Sync.Handler.{TableKeys, handle_reorg}
use forge_index.Sync.Planner.{BlockRange}
use forge_index.Sync.Worker.{BackfillWorker, fetch_range}

pub record RealtimeProcessor (W : Type 0) : Type 0 where
  pub workers : List BackfillWorker
  pub registry : Text → Option (DecodedEvent → Exec W Text (Result Text (Unit {0})))
  pub tables : List TableKeys
  pub pg_schema : String
  pub chain_id : ℕ

pub record Live (W Client : Type 0) : Type 0 where
  pub detector : ReorgDetector Client
  pub buffer : WriteBuffer
  pub blocks_since_prune : ℕ
  pub world : W

abbrev pub by_log_index : DecodedEvent → DecodedEvent → Bool
by_log_index a b = leb a.raw_log.log_index b.raw_log.log_index

module _ {W Client : Type 0} (services : Services W) (db : Database W)
    (get_block_by_number : Client → ℕ → Exec W RpcError Block) (p : RealtimeProcessor W) where
  abbrev pub on_detector :
      {A : Type 0} → Exec (ReorgDetector Client × W) SyncError A → Exec (Live W Client) Halt A
  on_detector m s =
      let (r, (d, w)) = map_err failure m (s.detector, s.world) in
      (r, record s { detector = d; world = w })

  abbrev pub on_rows : {A : Type 0} → Exec (WriteBuffer × W) Halt A → Exec (Live W Client) Halt A
  on_rows m s = let (r, (b, w)) = m (s.buffer, s.world) in (r, record s { buffer = b; world = w })

  abbrev pub on_outside : {A : Type 0} → Exec W Halt A → Exec (Live W Client) Halt A
  on_outside m s = let (r, w) = m s.world in (r, record s { world = w })

  -- the events of a worker before those of the others; an error is logged, a panic ends the loop
  abbrev pub with_events :
      Result Halt (List DecodedEvent)
      → Exec W Halt (List DecodedEvent)
      → Exec W Halt (List DecodedEvent)
  with_events (ok es) rest = rest >>= λ more. pure (es ++ more)
  with_events (err (failure e)) rest = rest
  with_events (err crash) rest = fail crash

  -- the events of one block
  unfoldable pub fetch_block : BlockRange → List BackfillWorker → Exec W Halt (List DecodedEvent)
  fetch_block range [] w = (ok [], w)
  fetch_block range (worker ∷ ws) w =
      let (r, w') = fetch_range services.library worker (services.get_logs worker) range w in
      with_events r (fetch_block range ws) w'

  abbrev pub call_registered :
      DecodedEvent
      → Option (DecodedEvent → Exec W Text (Result Text (Unit {0})))
      → Exec W Halt (Unit {0})
  call_registered event none = pure tt
  call_registered event (some handler) =
      map_err (λ message. failure (handler_panic (handler_key event) message)) (handler event)
      >> pure tt

  unfoldable pub call_handlers : List DecodedEvent → Exec W Halt (Unit {0})
  call_handlers [] = pure tt
  call_handlers (e ∷ es) = call_registered e (p.registry (handler_key e)) >> call_handlers es

  abbrev pub count_block : Exec (Live W Client) Halt (Unit {0})
  count_block s = (ok tt, record s { blocks_since_prune = wrapping_add s.blocks_since_prune 1 })

  -- a block that extends the chain
  unfoldable pub index_block : Block → Exec (Live W Client) Halt (Unit {0})
  unfolding fetch_block
  index_block block = do
    all_events ←
        on_outside (fetch_block (record { from = block.number; to = block.number }) p.workers)
    on_outside (call_handlers (sort_by by_log_index all_events))
    on_rows (map_err (λ e. failure (database e)) (flush_all services.printers db.execute))
    count_block

  abbrev pub follow : Block → ReorgDecision → Exec (Live W Client) Halt (Unit {0})
  follow block normal = index_block block
  follow block (reorg chain_id fork_block new_tip) =
      on_rows (handle_reorg db services.printers p.pg_schema p.tables chain_id fork_block new_tip)
      >> pure tt

  unfoldable pub process_live : Block → Exec (Live W Client) Halt (Unit {0})
  unfolding index_block
  process_live block =
      on_detector (process_block get_block_by_number p.chain_id block) >>= follow block

  -- the loop over the stream
  unfoldable pub run : List (Result SyncError Block) → Exec (Live W Client) Halt (Unit {0})
  unfolding process_live
  run [] = pure tt
  run (err e ∷ rest) = fail (failure e)
  run (ok block ∷ rest) = process_live block >> run rest
