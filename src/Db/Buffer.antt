-- ===== src/Db/Buffer.antt =====
-- The write buffer: crates/forge-index-db/src/buffer.rs. The database is a parameter that runs one
-- SQL text. A `DashMap` is iterated in the order in which its tables were first used.
pub mod Sql
pub mod Flush
pub mod Pending
pub mod Order
pub mod Read
use forge_index.Base.{
  ℕ, zero, suc, ◌+◌, ◌-◌, ◌*◌, ◌/◌, ◌%◌, ◌^◌, ◌≤◌, ◌<◌, min, max, String, ◌≡◌, refl, sym, ap, subst,
  ◌∙◌, ◌≢◌, ◌↔◌, ◌⊎◌, inl, inr, Bool, true, false, not, ◌&&◌, ◌||◌, Option, none, some, List, [],
  ◌∷◌, ◌++◌, map, reverse, append_assoc, append-nil, reverse-cons, reverse-append, reverse-reverse,
  arith, str_eq, eq_iff, ltb, leb, ◌==◌, if◌then◌else◌, ltb→lt, ltb→ge, lt→ltb, ge→ltb, leb→le,
  leb→gt, le→leb, gt→leb, ==_iff, ==_refl, Bool-cases, Option-cases, length, get_elem?, take, drop,
  last?, drop_while, keep, length-append, length-reverse, last?-snoc, All, All-append,
}
use forge_index.Base.Maps.{Map, get, insert}
use forge_index.Base.Word.{wrapping_add}
use forge_index.Base.Exec.{Result, ok, err, Exec, pure, map_err, ◌>>=◌, ◌>>◌}
use forge_index.Base.Text.{Text}
use forge_index.Db.Error.{DbError, buffer_full}
use forge_index.Db.Error
use forge_index.Db.Row
use forge_index.Db.Row.{Row, ColumnValue, Printers, get_column, insert_column}
use forge_index.Base.Maps.{string_key}
use Sql.{insert_sql, update_sql, delete_sql}

pub record WriteBuffer : Type 0 where
  pub buffers : Map String (List Row)
  pub max_size : ℕ
  pub pg_schema : String
  pub table_columns : Map String (List String)
  pub pk_columns : Map String String
  pub total_flushed : ℕ

-- the rows that wait for a table
abbrev pub rows_or : Option (List Row) → List Row
rows_or none = []
rows_or (some rows) = rows

unfoldable pub pending : String → WriteBuffer → List Row
pending table b = rows_or (get string_key table b.buffers)

abbrev pub with_pending : String → List Row → WriteBuffer → WriteBuffer
with_pending table rows b = record b { buffers = insert string_key table rows b.buffers }

-- `entry(table).or_default()` makes the entry, also where the insert is refused
unfoldable pub insert_row : String → Row → WriteBuffer → Result DbError (Unit {0}) × WriteBuffer
insert_row table row b =
    let entry = rows_or (get string_key table b.buffers) in
    if leb b.max_size (length entry)
    then (err (buffer_full table), with_pending table entry b)
    else (ok tt, with_pending table (entry ++ row ∷ []) b)

unfoldable pub update_row :
    String → Row → ColumnValue → WriteBuffer → Result DbError (Unit {0}) × WriteBuffer
update_row table row pk_value b =
    let entry = rows_or (get string_key table b.buffers) in
    (ok tt, with_pending table (entry ++ record row { operation = some "UPDATE" } ∷ []) b)

unfoldable pub deletion : String → ColumnValue → Row
deletion pk_col pk_value = record (insert_column pk_col pk_value Row.new) {
  operation = some "DELETE";
}

unfoldable pub delete_row :
    String → String → ColumnValue → WriteBuffer → Result DbError (Unit {0}) × WriteBuffer
delete_row table pk_col pk_value b =
    let entry = rows_or (get string_key table b.buffers) in
    (ok tt, with_pending table (entry ++ deletion pk_col pk_value ∷ []) b)

-- `find` on the reversed rows
unfoldable pub newest : (Row → Bool) → List Row → Option Row
newest test [] = none
newest test (r ∷ rs) =
    let later = newest test rs in
    elim later [ some found ↦ some found | none ↦ if test r then some r else none ]

-- `operation.is_none()`
abbrev pub is_insertion : Option String → Bool
is_insertion none = true
is_insertion (some op) = false

-- `PartialEq` of the values in the column
abbrev pub holds : (ColumnValue → ColumnValue → Bool) → ColumnValue → Option ColumnValue → Bool
holds value_eq pk_value none = false
holds value_eq pk_value (some v) = value_eq v pk_value

abbrev pub is_match : (ColumnValue → ColumnValue → Bool) → String → ColumnValue → Row → Bool
is_match value_eq pk_col pk_value r =
    is_insertion r.operation && holds value_eq pk_value (get_column pk_col r)

unfoldable pub read_one :
    (ColumnValue → ColumnValue → Bool) → String → String → ColumnValue → WriteBuffer → Option Row
unfolding newest
read_one value_eq table pk_col pk_value b =
    newest (is_match value_eq pk_col pk_value) (pending table b)

pub data Kind : Type 0 where
  insertion update removal : Kind

-- the `match` on the operation of a row
abbrev pub kind_of : Option String → Kind
kind_of none = insertion
kind_of (some op) =
    if str_eq op "UPDATE" then update else if str_eq op "DELETE" then removal else insertion

abbrev pub same_kind : Kind → Kind → Bool
same_kind insertion insertion = true
same_kind update update = true
same_kind removal removal = true
same_kind _ _ = false

-- the rows of one kind, in the order in which they came
abbrev pub rows_of : Kind → List Row → List Row
rows_of k = keep (λ r. same_kind (kind_of r.operation) k)

module _ {D : Type 0} (printers : Printers) (execute : Text → Exec D Text (Unit {0})) where
  -- run one statement, with the table in the error
  unfoldable pub run_sql : String → Text → Exec D DbError (Unit {0})
  run_sql table sql = map_err (Error.flush table) (execute sql)

  -- run a statement where there is one
  abbrev pub run_some : String → Option Text → Exec D DbError (Unit {0})
  run_some table none = pure tt
  run_some table (some sql) = run_sql table sql

  abbrev pub run_then : String → Option Text → Exec D DbError (Unit {0}) → Exec D DbError (Unit {0})
  run_then table none later = later
  run_then table (some sql) later = run_sql table sql >> later

  unfoldable pub flush_inserts :
      String → String → List String → List Row → Exec D DbError (Unit {0})
  flush_inserts pg_schema table columns [] = pure tt
  flush_inserts pg_schema table columns (r ∷ rs) =
      run_sql table (insert_sql printers pg_schema table columns (r ∷ rs))

  unfoldable pub flush_updates :
      String → String → List String → String → List Row → Exec D DbError (Unit {0})
  flush_updates pg_schema table columns pk_col [] = pure tt
  flush_updates pg_schema table columns pk_col (r ∷ rs) =
      run_then table (update_sql printers pg_schema table columns pk_col r)
        (flush_updates pg_schema table columns pk_col rs)

  unfoldable pub flush_deletes : String → String → String → List Row → Exec D DbError (Unit {0})
  flush_deletes pg_schema table pk_col rows =
      run_some table (delete_sql printers pg_schema table pk_col rows)

  abbrev pub when_columns :
      (List String → Exec D DbError (Unit {0})) → Option (List String) → Exec D DbError (Unit {0})
  when_columns f none = pure tt
  when_columns f (some cols) = f cols

  abbrev pub when_key :
      (String → Exec D DbError (Unit {0})) → Option String → Exec D DbError (Unit {0})
  when_key f none = pure tt
  when_key f (some pk) = f pk

  -- the statements of one flush: the inserts, then the updates, then the deletes
  unfoldable pub write_rows : WriteBuffer → String → List Row → Exec D DbError (Unit {0})
  unfolding flush_inserts flush_updates flush_deletes
  write_rows b table rows = do
    let columns = get string_key table b.table_columns
    let pk_col = get string_key table b.pk_columns
    when_columns (λ cols. flush_inserts b.pg_schema table cols (rows_of insertion rows)) columns
    when_columns
        (λ cols.
          when_key (λ pk. flush_updates b.pg_schema table cols pk (rows_of update rows)) pk_col)
        columns
    when_key (λ pk. flush_deletes b.pg_schema table pk (rows_of removal rows)) pk_col

  abbrev pub counted :
      ℕ → WriteBuffer → Result DbError (Unit {0}) × D → Result DbError ℕ × (WriteBuffer × D)
  counted count b (ok _, d) =
      (ok count, (record b { total_flushed = wrapping_add b.total_flushed count }, d))
  counted count b (err e, d) = (err e, (b, d))

  -- the rows have been taken out of the buffer `b`
  unfoldable pub flush_rows :
      String → List Row → WriteBuffer → D → Result DbError ℕ × (WriteBuffer × D)
  flush_rows table [] b d = (ok 0, (b, d))
  flush_rows table (r ∷ rs) b d = counted (length (r ∷ rs)) b (write_rows b table (r ∷ rs) d)

  unfoldable pub flush_table : String → Exec (WriteBuffer × D) DbError ℕ
  unfolding flush_rows
  flush_table table (b, d) = elim (get string_key table b.buffers) [
    | none ↦ (ok 0, (b, d))
    | some rows ↦ flush_rows table rows (with_pending table [] b) d
  ]

  abbrev pub note_count : String → ℕ → Map String ℕ → Map String ℕ
  note_count table count stats = if ltb 0 count then insert string_key table count stats else stats

  -- the tables' names are read once, before the first flush
  unfoldable pub flush_tables :
      List String → Map String ℕ → Exec (WriteBuffer × D) DbError (Map String ℕ)
  flush_tables [] stats = pure stats
  flush_tables (t ∷ ts) stats = do count ← flush_table t; flush_tables ts (note_count t count stats)

  unfoldable pub flush_all : Exec (WriteBuffer × D) DbError (Map String ℕ)
  unfolding flush_tables
  flush_all (b, d) = flush_tables (map (λ e. e.0) b.buffers) [] (b, d)
