-- ===== src/Sync/Handler.antt =====
-- The rollback of a reorg: crates/forge-index-sync/src/reorg/handler.rs.
use forge_index.Base.{ℕ, String, List, [], ◌∷◌}
use forge_index.Base.Exec.{Exec, pure, map_err, ◌>>=◌, ◌>>◌}
use forge_index.Base.Word.{wrapping_add}
use forge_index.Db.Buffer.{WriteBuffer, flush_all}
use forge_index.Db.Reorg.{Database, Stop, failed, panicked, rollback_from_block}
use forge_index.Db.Row.{Printers}
use forge_index.Sync.Error.{Halt, failure, crash, database}

-- a table to roll back: its name, its key and its columns
pub record TableKeys : Type 0 where
  pub table_name : String
  pub pk_col : String
  pub columns : List String

abbrev pub halt_of : Stop → Halt
halt_of (failed e) = failure (database e)
halt_of panicked = crash

module _ {W : Type 0} (db : Database W) (printers : Printers) (pg_schema : String) where
  abbrev pub on_database : {A : Type 0} → Exec W Halt A → Exec (WriteBuffer × W) Halt A
  on_database m (b, w) = let (r, w') = m w in (r, (b, w'))

  unfoldable pub rollback_tables : ℕ → List TableKeys → Exec W Halt ℕ
  rollback_tables fork_block [] = pure 0
  rollback_tables fork_block (t ∷ ts) = do
    affected ←
        map_err halt_of
          (rollback_from_block db pg_schema t.table_name fork_block t.pk_col t.columns)
    total ← rollback_tables fork_block ts
    pure (wrapping_add affected total)

  -- the new tip is only logged
  unfoldable pub handle_reorg :
      List TableKeys → (chain_id fork_block new_tip : ℕ) → Exec (WriteBuffer × W) Halt ℕ
  unfolding rollback_tables
  handle_reorg tables chain_id fork_block new_tip =
      map_err (λ e. failure (database e)) (flush_all printers db.execute)
      >> on_database (rollback_tables fork_block tables)
