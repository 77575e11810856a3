-- ===== src/Sync/Coordinator/Failure.antt =====
-- What a failed round of crates/forge-index-sync/src/backfill/coordinator.rs leaves behind.
use forge_index.Base.{
  ℕ, String, ◌≡◌, refl, sym, subst, inl, inr, Option, none, some, List, [], ◌∷◌, ◌++◌, map,
  Option-cases, length, get_elem?,
}
use forge_index.Base.Exec.{Result, ok, err, Exec, continue, pure, map_err, ◌>>=◌, ◌>>◌}
use forge_index.Base.Keeps.{Keeps, Keeps-bind, error-bind, ok_is_not_err}
use forge_index.Base.Maps.{Map, get, string_key}
use forge_index.Base.Sort.{sort_by}
use forge_index.Base.Text.{Text}
use forge_index.Core.Event.{DecodedEvent}
use forge_index.Db.Error.{DbError}
use forge_index.Db.Row.{Row}
use forge_index.Db.Buffer.{
  WriteBuffer, with_pending, run_sql, counted, flush_rows, flush_table, flush_tables, flush_all,
  note_count,
}
use forge_index.Db.Buffer.Flush.{run_all, statements, write_rows-run_all}
use forge_index.Sync.Error
use forge_index.Sync.Error.{Halt, failure, database}
use forge_index.Sync.Planner.{BlockRange, BackfillPlan}
use forge_index.Rpc.Types.{LogFilter}
use forge_index.Sync.Worker.{BackfillWorker, before, fetch_range, filter_of, sorted, decode_logs}
use forge_index.Sync.Coordinator.{
  Services, BackfillCoordinator, Running, on_world, on_buffer, handler_key, fetch_with, fetch_plan,
  fetch_plans, call_legacy, call_handler, handle_events, save_checkpoint, save_checkpoints,
  note_progress, index_events, run_range, blocks_in_range,
}

module _ {W : Type 0} (services : Services W) (c : BackfillCoordinator W) (P : W → Type 0)
    (logs_keep : (worker : BackfillWorker) (filter : LogFilter)
      → Keeps P (services.get_logs worker filter))
    (sql_keeps : (sql : Text) → Keeps P (services.execute sql))
    (registry_keeps : (key : Text) (event : DecodedEvent)
        (handler : DecodedEvent → Exec W Text (Result Text (Unit {0})))
      → c.registry key ≡ some handler
      → Keeps P (handler event))
    (handlers_keep : (key : Text) (event : DecodedEvent)
        (handler : DecodedEvent → Exec (WriteBuffer × W) Text (Result Text (Unit {0})))
      → c.db_handlers key ≡ some handler
      → Keeps (λ s. P s.1) (handler event)) where
  fetch_with-Keeps :
      (range : BlockRange) (worker : Option BackfillWorker)
      → Keeps P (fetch_with services c range worker)
  unfolding fetch_range
  fetch_with-Keeps range none s h = h
  fetch_with-Keeps range (some worker) s h =
      Keeps-bind P
        (map_err (λ e. failure (Error.rpc worker.chain_id e))
          (services.get_logs worker (filter_of worker range)))
        (λ logs t. (sorted (decode_logs services.library worker logs), t))
        (λ t k. logs_keep worker (filter_of worker range) t k) (λ logs t k. k) s h

  fetch_plan-Keeps :
      (chain_id : ℕ) (contract : String) (range : Option BlockRange)
      → Keeps P (fetch_plan services c chain_id contract range)
  fetch_plan-Keeps chain_id contract none s h = h
  fetch_plan-Keeps chain_id contract (some range) s h =
      fetch_with-Keeps range (c.workers chain_id contract) s h

  fetch_plans-Keeps :
      (chain_id range_idx : ℕ) (plans : List BackfillPlan)
      → Keeps P (fetch_plans services c chain_id range_idx plans)
  unfolding fetch_plans
  fetch_plans-Keeps chain_id range_idx [] s h = h
  fetch_plans-Keeps chain_id range_idx (p ∷ ps) s h =
      Keeps-bind P (fetch_plan services c chain_id p.contract_name (get_elem? p.ranges range_idx))
        (λ events. fetch_plans services c chain_id range_idx ps >>= λ more. pure (events ++ more))
        (fetch_plan-Keeps chain_id p.contract_name (get_elem? p.ranges range_idx))
        (λ events.
          Keeps-bind P (fetch_plans services c chain_id range_idx ps)
            (λ more. pure (events ++ more)) (fetch_plans-Keeps chain_id range_idx ps)
            (λ more t k. k))
        s h

  run_all-Keeps :
      (table : String) (sqls : List Text)
      → Keeps P (run_all services.printers services.execute table sqls)
  unfolding run_sql
  run_all-Keeps table [] s h = h
  run_all-Keeps table (sql ∷ sqls) s h =
      Keeps-bind P (run_sql services.printers services.execute table sql)
        (λ _. run_all services.printers services.execute table sqls) (λ t k. sql_keeps sql t k)
        (λ _. run_all-Keeps table sqls) s h

  counted-Keeps :
      (count : ℕ) (b : WriteBuffer) (r : Result DbError (Unit {0})) (w : W)
      → P w
      → P (counted services.printers services.execute count b (r, w)).1.1
  counted-Keeps count b (ok u) w h = h
  counted-Keeps count b (err e) w h = h

  flush_rows-Keeps :
      (table : String) (rows : List Row) (b : WriteBuffer) (w : W)
      → P w
      → P (flush_rows services.printers services.execute table rows b w).1.1
  unfolding flush_rows
  flush_rows-Keeps table [] b w h = h
  flush_rows-Keeps table (r ∷ rs) b w h =
      subst (λ m. P (counted services.printers services.execute (length (r ∷ rs)) b (m w)).1.1)
        (sym (write_rows-run_all services.printers services.execute b table (r ∷ rs)))
        (counted-Keeps (length (r ∷ rs)) b _ _
          (run_all-Keeps table (statements services.printers b table (r ∷ rs)) w h))

  flush_table-Keeps :
      (table : String) → Keeps (λ s. P s.1) (flush_table services.printers services.execute table)
  unfolding flush_table
  flush_table-Keeps table (b, w) h = elim (Option-cases (get string_key table b.buffers)) [
    | inl missing ↦ rw (missing, flush_table) h
    | inr (rows, found) ↦
        rw (found, flush_table) (flush_rows-Keeps table rows (with_pending table [] b) w h)
  ]

  flush_tables-Keeps :
      (tables : List String) (stats : Map String ℕ)
      → Keeps (λ s. P s.1) (flush_tables services.printers services.execute tables stats)
  unfolding flush_tables
  flush_tables-Keeps [] stats s h = h
  flush_tables-Keeps (t ∷ ts) stats s h =
      Keeps-bind (λ s. P s.1) (flush_table services.printers services.execute t)
        (λ count.
          flush_tables services.printers services.execute ts
            (note_count services.printers services.execute t count stats))
        (flush_table-Keeps t)
        (λ count.
          flush_tables-Keeps ts (note_count services.printers services.execute t count stats))
        s h

  flush_all-Keeps : Keeps (λ s. P s.1) (flush_all services.printers services.execute)
  unfolding flush_all
  flush_all-Keeps (b, w) h = flush_tables-Keeps (map (λ e. e.0) b.buffers) [] (b, w) h

  InWorld : Running W → Type 0
  InWorld s = P s.world

  call_legacy-Keeps :
      (key : Text) (event : DecodedEvent)
      (handler : Option (DecodedEvent → Exec W Text (Result Text (Unit {0}))))
      → c.registry key ≡ handler
      → Keeps (λ s. P s.world) (call_legacy services c key event handler)
  call_legacy-Keeps key event none eq s h = h
  call_legacy-Keeps key event (some handler) eq s h =
      Keeps-bind P (map_err _ (handler event)) (λ _. pure tt)
        (λ t k. registry_keeps key event handler eq t k) (λ _ t k. k) s.world h

  call_handler-Keeps :
      (key : Text) (event : DecodedEvent)
      (handler : Option (DecodedEvent → Exec (WriteBuffer × W) Text (Result Text (Unit {0}))))
      → c.db_handlers key ≡ handler
      → Keeps (λ s. P s.world) (call_handler services c key event handler)
  call_handler-Keeps key event none eq s h = call_legacy-Keeps key event (c.registry key) refl s h
  call_handler-Keeps key event (some handler) eq s h =
      Keeps-bind (λ t. P t.1) (map_err _ (handler event)) (λ _. pure tt)
        (λ t k. handlers_keep key event handler eq t k) (λ _ t k. k) (s.buffer, s.world) h

  handle_events-Keeps :
      (events : List DecodedEvent) → Keeps (λ s. P s.world) (handle_events services c events)
  unfolding handle_events
  handle_events-Keeps [] s h = h
  handle_events-Keeps (e ∷ es) s h =
      Keeps-bind (λ s. P s.world)
        (call_handler services c (handler_key e) e (c.db_handlers (handler_key e)))
        (λ _. handle_events services c es)
        (call_handler-Keeps (handler_key e) e (c.db_handlers (handler_key e)) refl)
        (λ _. handle_events-Keeps es) s h

  index_events-Keeps :
      (events : List DecodedEvent) → Keeps (λ s. P s.world) (index_events services c events)
  index_events-Keeps events =
      Keeps-bind (λ s. P s.world) (handle_events services c events)
        (λ _.
          on_buffer
            (map_err (λ e. failure (database e)) (flush_all services.printers services.execute))
          >> pure tt)
        (handle_events-Keeps events)
        (λ _.
          Keeps-bind (λ s. P s.world)
            (on_buffer
              (map_err (λ e. failure (database e)) (flush_all services.printers services.execute)))
            (λ _. pure tt) (λ s h. flush_all-Keeps (s.buffer, s.world) h) (λ _ s h. h))

  save_checkpoints_ok :
      (chain_id range_idx : ℕ) (plans : List BackfillPlan) (w : W)
      → (save_checkpoints services c chain_id range_idx plans w).0 ≡ ok tt
  unfolding save_checkpoints
  save_checkpoints_ok chain_id range_idx [] w = refl
  save_checkpoints_ok chain_id range_idx (p ∷ ps) w =
      after_save (get_elem? p.ranges range_idx) (λ t. save_checkpoints_ok chain_id range_idx ps t)
    where
      after_save :
          (range : Option BlockRange)
          → ((t : W) → (save_checkpoints services c chain_id range_idx ps t).0 ≡ ok tt)
          → ((save_checkpoint services c chain_id p.contract_name range
                >> save_checkpoints services c chain_id range_idx ps)
              w).0
            ≡ ok tt
      after_save none rest = rest w
      after_save (some range) rest = rest _

  -- what comes after the flush does not fail
  finish_ok :
      (chain_id range_idx events : ℕ) (plans : List BackfillPlan) (s : Running W)
      → ((on_world (save_checkpoints services c chain_id range_idx plans)
            >> note_progress services c chain_id (blocks_in_range range_idx plans) events)
          s).0
        ≡ ok tt
  finish_ok chain_id range_idx events plans s =
      after (save_checkpoints_ok chain_id range_idx plans s.world)
    where
      after :
          (save_checkpoints services c chain_id range_idx plans s.world).0 ≡ ok tt
          → ((on_world (save_checkpoints services c chain_id range_idx plans)
                >> note_progress services c chain_id (blocks_in_range range_idx plans) events)
              s).0
            ≡ ok tt
      after saved = rw (saved, continue) refl

  -- A property of the outside state that fetching logs, running SQL and calling handlers keep
  -- still holds after a round of the backfill that returns an error or panics, if it held before, even
  -- where saving a checkpoint would break it.
  pub run_range_error :
      (chain_id range_idx : ℕ) (plans : List BackfillPlan) (s : Running W) (e : Halt)
      → P s.world
      → (run_range services c chain_id plans range_idx s).0 ≡ err e
      → P (run_range services c chain_id plans range_idx s).1.world
  unfolding run_range
  run_range_error chain_id range_idx plans s e h =
      error-bind (λ t. P t.world) (on_world (fetch_plans services c chain_id range_idx plans))
        (λ events.
          index_events services c (sort_by before events)
          >> (on_world (save_checkpoints services c chain_id range_idx plans)
              >> note_progress services c chain_id (blocks_in_range range_idx plans)
                  (length events)))
        e (λ t k. fetch_plans-Keeps chain_id range_idx plans t.world k)
        (λ events t k.
          error-bind (λ t. P t.world) (index_events services c (sort_by before events))
            (λ _.
              on_world (save_checkpoints services c chain_id range_idx plans)
              >> note_progress services c chain_id (blocks_in_range range_idx plans)
                  (length events))
            e (index_events-Keeps (sort_by before events))
            (λ _ u _ failed.
              ok_is_not_err _ _ _ (finish_ok chain_id range_idx (length events) plans u) failed)
            t k)
        s h
