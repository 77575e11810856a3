-- ===== src/Db/Examples/Buffered.antt =====
-- A buffer of two rows for one table, and a database that refuses every statement after the first:
-- crates/forge-index-db/src/buffer.rs.
use forge_index.Base.{
  ℕ, suc, ◌≡◌, refl, inl, Bool, false, none, some, [], ◌∷◌, ◌++◌, arith, ltb, ◌==◌, if◌then◌else◌,
  take,
}
use forge_index.Base.Exec.{ok, err, Exec}
use forge_index.Base.Int.{pos}
use forge_index.Base.Text.{Text, codes}
use forge_index.Base.Maps.{insert, string_key}
use forge_index.Base.Quote.{read_literal}
use forge_index.Db.Error.{DbError}
use forge_index.Db.Row.{Row, ColumnValue, text, int, Printers, to_sql_literal}
use forge_index.Db.Row.Literal.{read_literal-to_sql_literal}
use forge_index.Db.Buffer.{WriteBuffer, pending, flush_table}
use forge_index.Db.Buffer.Flush.{statements, run_all, flush_table_cases}
use forge_index.Db.Buffer.Pending.{insert_rows, insert_rows-take}

abbrev printers : Printers
printers = record {
  float_to_string = λ n. [];
  hex_encode = λ bs. bs;
  json_to_string = λ j. codes "{}";
}

abbrev user : ℕ → Row
user n = record {
  columns = ("id", int (pos n)) ∷ ("name", text (codes "O'Hara")) ∷ [];
  operation = none;
}

abbrev buffer : WriteBuffer
buffer = record {
  buffers = ("users", user 1 ∷ user 2 ∷ []) ∷ [];
  max_size = 3;
  pg_schema = "public";
  table_columns = ("users", "id" ∷ "name" ∷ []) ∷ [];
  pk_columns = ("users", "id") ∷ [];
  total_flushed = 0;
}

abbrev full : WriteBuffer
full = record buffer { max_size = 2 }

-- the number of the statements that were run; the second is refused
abbrev once : Text → Exec ℕ Text (Unit {0})
once sql n = if ltb n 1 then (ok tt, suc n) else (err (codes "refused"), n)

abbrev same_int : ColumnValue → ColumnValue → Bool
same_int (int (pos a)) (int (pos b)) = a == b
same_int _ _ = false

flush_table_cases_example :
    (run_all printers once "users" (statements printers buffer "users" (user 1 ∷ user 2 ∷ [])) 0
        ≡ (ok tt, 1)
      → flush_table printers once "users" (buffer, 0) ≡ (
        ok 2,
        (
          record buffer {
            buffers = insert string_key "users" [] buffer.buffers;
            total_flushed = 2;
          },
          1,
        ),
      ))
    × ((e : DbError)
        → run_all printers once "users"
            (statements printers buffer "users" (user 1 ∷ user 2 ∷ []))
            0
          ≡ (err e, 1)
        → flush_table printers once "users" (buffer, 0)
          ≡ (err e, (record buffer { buffers = insert string_key "users" [] buffer.buffers }, 1)))
flush_table_cases_example =
    flush_table_cases printers once "users" buffer 0 1 (user 1) (user 2 ∷ []) refl

insert_rows-take_example :
    pending "users" (insert_rows "users" (user 3 ∷ user 4 ∷ []) buffer)
    ≡ take 3 (pending "users" buffer ++ user 3 ∷ user 4 ∷ [])
insert_rows-take_example =
    insert_rows-take "users" (user 3 ∷ user 4 ∷ []) buffer (unfold pending in omega arith)

read_literal-to_sql_literal_example :
    read_literal (to_sql_literal printers (text (codes "O'Hara")) ++ codes ", 7)")
    ≡ some (codes "O'Hara", codes ", 7)")
read_literal-to_sql_literal_example =
    read_literal-to_sql_literal printers (text (codes "O'Hara")) (codes "O'Hara") (codes ", 7)")
      (inl refl) refl
