-- ===== src/Db/Buffer/Flush.antt =====
-- What a flush of crates/forge-index-db/src/buffer.rs writes and what it leaves behind.
use forge_index.Base.{
  ◌+◌, ◌%◌, ◌^◌, String, ◌≡◌, refl, sym, ap, ◌∙◌, Option, none, some, List, [], ◌∷◌, ◌++◌, length,
}
use forge_index.Base.Maps.{get, insert}
use forge_index.Base.Exec.{ok, err, Exec, pure, continue-pure, ◌>>◌, continue-continue}
use forge_index.Base.Text.{Text}
use mathlib.Core.Path.{fun_ext}
use forge_index.Db.Error.{DbError}
use forge_index.Db.Row.{Row, Printers}
use forge_index.Base.Maps.{string_key}
use forge_index.Db.Buffer.Sql.{insert_sql, update_sql, delete_sql}
use forge_index.Db.Buffer.{
  WriteBuffer, insertion, update, removal, rows_of, with_pending, run_sql, flush_inserts,
  flush_updates, flush_deletes, when_columns, when_key, run_some, run_then, write_rows, counted,
  flush_rows, flush_table,
}

abbrev pub optional : Option Text → List Text → List Text
optional none ss = ss
optional (some s) ss = s ∷ ss

-- The statements of a flush, as a list.
module _ (printers : Printers) where
  abbrev pub insert_statements : String → String → List Row → Option (List String) → List Text
  insert_statements pg_schema table rows none = []
  insert_statements pg_schema table [] (some cols) = []
  insert_statements pg_schema table (r ∷ rs) (some cols) =
      insert_sql printers pg_schema table cols (r ∷ rs) ∷ []

  abbrev pub update_each : String → String → List String → String → List Row → List Text
  update_each pg_schema table cols pk [] = []
  update_each pg_schema table cols pk (r ∷ rs) =
      optional (update_sql printers pg_schema table cols pk r)
        (update_each pg_schema table cols pk rs)

  abbrev pub update_statements :
      String → String → List Row → Option (List String) → Option String → List Text
  update_statements pg_schema table rows none pk = []
  update_statements pg_schema table rows (some cols) none = []
  update_statements pg_schema table rows (some cols) (some pk) =
      update_each pg_schema table cols pk rows

  abbrev pub delete_statements : String → String → List Row → Option String → List Text
  delete_statements pg_schema table rows none = []
  delete_statements pg_schema table rows (some pk) =
      optional (delete_sql printers pg_schema table pk rows) []

  abbrev pub statements : WriteBuffer → String → List Row → List Text
  statements b table rows =
      insert_statements b.pg_schema table (rows_of insertion rows)
        (get string_key table b.table_columns)
      ++ (update_statements b.pg_schema table (rows_of update rows)
            (get string_key table b.table_columns) (get string_key table b.pk_columns)
          ++ delete_statements b.pg_schema table (rows_of removal rows)
              (get string_key table b.pk_columns))

module _ {D : Type 0} (printers : Printers) (execute : Text → Exec D Text (Unit {0})) where
  -- run statements in order, up to the first that fails
  abbrev pub run_all : String → List Text → Exec D DbError (Unit {0})
  run_all table [] = pure tt
  run_all table (s ∷ ss) = run_sql printers execute table s >> run_all table ss

  run_all-append :
      (table : String) (xs ys : List Text)
      → run_all table (xs ++ ys) ≡ (run_all table xs >> run_all table ys)
  run_all-append table [] ys = refl
  run_all-append table (x ∷ xs) ys =
      ap (λ f. run_sql printers execute table x >> f) (run_all-append table xs ys)
      ∙ fun_ext λ d. sym (
          continue-continue (run_sql printers execute table x d).0 (λ _. run_all table xs)
            (λ _. run_all table ys) (run_sql printers execute table x d).1)

  run_all-single :
      (table : String) (s : Text) → run_all table (s ∷ []) ≡ run_sql printers execute table s
  run_all-single table s = fun_ext λ d.
      continue-pure (run_sql printers execute table s d).0 (run_sql printers execute table s d).1

  run_some-run_all :
      (table : String) (s : Option Text)
      → run_some printers execute table s ≡ run_all table (optional s [])
  run_some-run_all table none = refl
  run_some-run_all table (some s) = sym (run_all-single table s)

  run_then-run_all :
      (table : String) (s : Option Text) (ss : List Text)
      → run_then printers execute table s (run_all table ss) ≡ run_all table (optional s ss)
  run_then-run_all table none ss = refl
  run_then-run_all table (some s) ss = refl

  flush_inserts-run_all :
      (b : WriteBuffer) (table : String) (cols : Option (List String)) (rows : List Row)
      → when_columns printers execute
          (λ cs. flush_inserts printers execute b.pg_schema table cs rows)
          cols
        ≡ run_all table (insert_statements printers b.pg_schema table rows cols)
  unfolding flush_inserts
  flush_inserts-run_all b table none rows = refl
  flush_inserts-run_all b table (some cols) [] = refl
  flush_inserts-run_all b table (some cols) (r ∷ rs) = sym (run_all-single table _)

  flush_updates-update_each :
      (pg_schema table : String) (cols : List String) (pk : String) (rows : List Row)
      → flush_updates printers execute pg_schema table cols pk rows
        ≡ run_all table (update_each printers pg_schema table cols pk rows)
  unfolding flush_updates
  flush_updates-update_each pg_schema table cols pk [] = refl
  flush_updates-update_each pg_schema table cols pk (r ∷ rs) =
      ap (run_then printers execute table (update_sql printers pg_schema table cols pk r))
        (flush_updates-update_each pg_schema table cols pk rs)
      ∙ run_then-run_all table _ _

  flush_updates-run_all :
      (b : WriteBuffer) (table : String) (cols : Option (List String)) (pk : Option String)
      (rows : List Row)
      → when_columns printers execute
          (λ cs.
            when_key printers execute
              (λ k. flush_updates printers execute b.pg_schema table cs k rows)
              pk)
          cols
        ≡ run_all table (update_statements printers b.pg_schema table rows cols pk)
  flush_updates-run_all b table none pk rows = refl
  flush_updates-run_all b table (some cols) none rows = refl
  flush_updates-run_all b table (some cols) (some pk) rows =
      flush_updates-update_each b.pg_schema table cols pk rows

  flush_deletes-run_all :
      (b : WriteBuffer) (table : String) (pk : Option String) (rows : List Row)
      → when_key printers execute (λ k. flush_deletes printers execute b.pg_schema table k rows) pk
        ≡ run_all table (delete_statements printers b.pg_schema table rows pk)
  unfolding flush_deletes
  flush_deletes-run_all b table none rows = refl
  flush_deletes-run_all b table (some pk) rows = run_some-run_all table _

  three_parts :
      (table : String) (xs ys zs : List Text) (f g h : Exec D DbError (Unit {0}))
      → f ≡ run_all table xs
      → g ≡ run_all table ys
      → h ≡ run_all table zs
      → (f >> (g >> h)) ≡ run_all table (xs ++ (ys ++ zs))
  three_parts table xs ys zs f g h f_eq g_eq h_eq =
      (λ i. f_eq i >> (g_eq i >> h_eq i))
      ∙ (ap (λ k. run_all table xs >> k) (sym (run_all-append table ys zs))
          ∙ sym (run_all-append table xs (ys ++ zs)))

  -- a flush runs one list of statements
  pub write_rows-run_all :
      (b : WriteBuffer) (table : String) (rows : List Row)
      → write_rows printers execute b table rows ≡ run_all table (statements printers b table rows)
  unfolding write_rows
  write_rows-run_all b table rows =
      three_parts table _ _ _ _ _ _
        (flush_inserts-run_all b table (get string_key table b.table_columns)
          (rows_of insertion rows))
        (flush_updates-run_all b table (get string_key table b.table_columns)
          (get string_key table b.pk_columns) (rows_of update rows))
        (flush_deletes-run_all b table (get string_key table b.pk_columns) (rows_of removal rows))

  -- With rows waiting for the table, `flush_table` runs the statements that the buffer makes of them, in
  -- order, up to the first that fails, and empties the table's buffer whether they succeed or fail. On success it returns the number
  -- of the rows and adds it to the total, modulo 2 ^ 64; on a failure it returns the error, and the rows
  -- are in neither the buffer nor the total.
  pub flush_table_cases :
      (table : String) (b : WriteBuffer) (d d' : D) (r : Row) (rs : List Row)
      → get string_key table b.buffers ≡ some (r ∷ rs)
      → (run_all table (statements printers b table (r ∷ rs)) d ≡ (ok tt, d')
          → flush_table printers execute table (b, d) ≡ (
            ok (length (r ∷ rs)),
            (
              record b {
                buffers = insert string_key table [] b.buffers;
                total_flushed = (b.total_flushed + length (r ∷ rs)) % 2 ^ 64;
              },
              d',
            ),
          ))
        × ((e : DbError)
            → run_all table (statements printers b table (r ∷ rs)) d ≡ (err e, d')
            → flush_table printers execute table (b, d)
              ≡ (err e, (record b { buffers = insert string_key table [] b.buffers }, d')))
  unfolding flush_table flush_rows
  flush_table_cases table b d d' r rs eq =
      let done = counted printers execute (length (r ∷ rs)) (with_pending table [] b) in
      let ran =
        ap done (ap (λ f. f d) (write_rows-run_all (with_pending table [] b) table (r ∷ rs))) in
      (λ h. rw (eq, flush_table) (ran ∙ ap done h), λ e h. rw (eq, flush_table) (ran ∙ ap done h))
