-- ===== src/Db/Examples/Rollback.antt =====
-- A shadow row of one table: crates/forge-index-db/src/reorg.rs.
use forge_index.Base.{◌≡◌, refl, some, [], ◌∷◌, ◌++◌}
use forge_index.Base.Exec.{ok}
use forge_index.Base.Quote.{apostrophe, read_literal}
use forge_index.Base.Text.{Text, codes}
use forge_index.Db.Buffer.Sql.{ident}
use forge_index.Db.Reorg.{ShadowRow, undo}
use forge_index.Db.Reorg.Replay.{undo_insert_open}

abbrev inserted : ShadowRow
inserted = record {
  operation = codes "DELETE";
  block_number = 5;
  fields = ("name", codes "O" ++ apostrophe ∷ codes "Hara") ∷ [];
}

undo_insert_open_example :
    (literal : Text) × ((undo "public" "users" "name" [] inserted
        ≡ ok (
            some (
              codes "DELETE FROM "
              ++ ((ident "public" ++ (codes "." ++ ident "users"))
                  ++ (codes " WHERE " ++ (ident "name" ++ (codes " = " ++ literal)))))))
      × (read_literal literal ≡ some (codes "O", codes "Hara" ++ codes "'")))
undo_insert_open_example =
    undo_insert_open "public" "users" "name" [] (codes "O") (codes "Hara") inserted refl refl
      (refl, tt) refl
