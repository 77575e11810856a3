-- ===== src/Sync/Processor/Blocks.antt =====
-- Which live blocks crates/forge-index-sync/src/realtime/processor.rs indexes.
use forge_index.Base.{ℕ, ◌≡◌, refl, List, [], ◌∷◌}
use forge_index.Base.Exec.{ok, err, Exec, map_err, ◌>>◌}
use forge_index.Core.Types.{Block}
use forge_index.Db.Buffer.{flush_all}
use forge_index.Db.Reorg.{Database}
use forge_index.Rpc.Error.{RpcError}
use forge_index.Sync.Coordinator.{Services}
use forge_index.Sync.Error.{failure, database}
use forge_index.Sync.Planner.{BlockRange}
use forge_index.Sync.Processor.{
  RealtimeProcessor, Live, fetch_block, call_handlers, count_block, index_block, on_rows,
}
use forge_index.Rpc.Types.{LogFilter}
use forge_index.Sync.Worker.{BackfillWorker, fetch_range}

module _ {W Client : Type 0} (services : Services W) (db : Database W)
    (get_block_by_number : Client → ℕ → Exec W RpcError Block) (p : RealtimeProcessor W) where
  fetch_block_outage :
      (e : RpcError)
      → ((worker : BackfillWorker) (filter : LogFilter) (w : W)
          → services.get_logs worker filter w ≡ (err e, w))
      → (range : BlockRange) (workers : List BackfillWorker) (w : W)
      → fetch_block services db get_block_by_number p range workers w ≡ (ok [], w)
  unfolding fetch_block fetch_range
  fetch_block_outage e outage range [] w = refl
  fetch_block_outage e outage range (worker ∷ ws) w =
      rw (outage worker _ w, fetch_block_outage e outage range ws w) refl

  -- While every request for logs fails and leaves the outside state as it was, indexing a block is
  -- flushing the buffer and then counting the block: no handler is called, and no error is
  -- returned for the logs that are missing.
  pub index_block_outage :
      (e : RpcError)
      → ((worker : BackfillWorker) (filter : LogFilter) (w : W)
          → services.get_logs worker filter w ≡ (err e, w))
      → (block : Block) (s : Live W Client)
      → index_block services db get_block_by_number p block s
        ≡ (on_rows services db get_block_by_number p
                (map_err (λ x. failure (database x)) (flush_all services.printers db.execute))
              >> count_block services db get_block_by_number p)
            s
  unfolding index_block call_handlers
  index_block_outage e outage block s =
      rw
        (fetch_block_outage e outage (record { from = block.number; to = block.number }) p.workers
          s.world)
        refl
