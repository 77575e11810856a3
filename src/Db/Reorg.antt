-- ===== src/Db/Reorg.antt =====
-- Shadow tables and their rollback: crates/forge-index-db/src/reorg.rs. The database is a parameter. A
-- shadow row is what the driver returns: its columns as text, where they are text, its operation and
-- its block. Reading a key that is missing or no text panics in the driver.
pub mod Replay
use forge_index.Base.{
  ℕ, zero, suc, ◌+◌, ◌-◌, ◌*◌, ◌/◌, ◌%◌, ◌^◌, ◌≤◌, ◌<◌, min, max, String, ◌≡◌, refl, sym, ap, subst,
  ◌∙◌, ◌≢◌, ◌↔◌, ◌⊎◌, inl, inr, Bool, true, false, not, ◌&&◌, ◌||◌, Option, none, some, List, [],
  ◌∷◌, ◌++◌, map, reverse, append_assoc, append-nil, reverse-cons, reverse-append, reverse-reverse,
  arith, str_eq, eq_iff, ltb, leb, ◌==◌, if◌then◌else◌, ltb→lt, ltb→ge, lt→ltb, ge→ltb, leb→le,
  leb→gt, le→leb, gt→leb, ==_iff, ==_refl, Bool-cases, Option-cases, length, get_elem?, take, drop,
  last?, drop_while, keep, length-append, length-reverse, last?-snoc, All, All-append,
}
use Prim.Native.String.{◌++◌ as str_append}
use forge_index.Base.Exec.{Result, ok, err, Exec, pure, fail, map_err, ◌>>=◌, ◌>>◌}
use forge_index.Base.Maps.{Map, get, string_key}
use forge_index.Base.Quote.{quoted}
use forge_index.Base.Text.{Text, codes, join, show_nat, text_eq}
use forge_index.Db.Error.{DbError, flush, query}
use forge_index.Db.Row.{Row, Printers, get_column}
use forge_index.Db.Buffer.Sql.{ident, literal_or_null}

pub data Operation : Type 0 where
  insertion update removal : Operation

unfoldable pub inverse : Operation → Text
inverse insertion = codes "DELETE"
inverse update = codes "UPDATE"
inverse removal = codes "INSERT"

pub record ShadowRow : Type 0 where
  pub operation : Text
  pub block_number : ℕ
  pub fields : Map String Text

-- why a rollback ends early
pub data Stop : Type 0 where
  failed : DbError → Stop
  panicked : Stop

abbrev pub shadow_table : String → String
shadow_table table = str_append "_reorg_" table

abbrev pub shadow_name : String → Text
shadow_name table = ident (shadow_table table)

abbrev pub in_schema : String → Text → Text
in_schema pg_schema name = ident pg_schema ++ (codes "." ++ name)

-- the SQL of one recorded row
unfoldable pub record_sql : Printers → String → String → Operation → ℕ → List String → Row → Text
record_sql p pg_schema table operation block_number columns r =
    codes "INSERT INTO "
    ++ (in_schema pg_schema (shadow_name table)
        ++ (codes " ("
            ++ (join (codes ", ")
                  (map ident columns ++ codes "\"_operation\"" ∷ codes "\"_block_number\"" ∷ [])
                ++ (codes ") VALUES ("
                    ++ (join (codes ", ") (
                          map (λ c. literal_or_null p (get_column c r)) columns
                          ++ (codes "'" ++ (inverse operation ++ codes "'"))
                            ∷ show_nat block_number
                            ∷ [])
                        ++ codes ")")))))

-- a field as a literal, or NULL where the driver has no text for it
abbrev pub field_literal : Option Text → Text
field_literal none = codes "NULL"
field_literal (some v) = quoted v

-- `'{}'` around the key, as it is
abbrev pub key_literal : Text → Text
key_literal pk = codes "'" ++ (pk ++ codes "'")

abbrev pub undo_insert : String → String → String → Text → Text
undo_insert pg_schema table pk_col pk =
    codes "DELETE FROM "
    ++ (in_schema pg_schema (ident table)
        ++ (codes " WHERE " ++ (ident pk_col ++ (codes " = " ++ key_literal pk))))

abbrev pub undo_delete : String → String → List String → ShadowRow → Text
undo_delete pg_schema table columns r =
    codes "INSERT INTO "
    ++ (in_schema pg_schema (ident table)
        ++ (codes " ("
            ++ (join (codes ", ") (map ident columns)
                ++ (codes ") VALUES ("
                    ++ (join (codes ", ")
                          (map (λ c. field_literal (get string_key c r.fields)) columns)
                        ++ codes ") ON CONFLICT DO NOTHING")))))

unfoldable pub set_fields : String → List String → ShadowRow → List Text
set_fields pk_col [] r = []
set_fields pk_col (c ∷ cs) r =
    let rest = set_fields pk_col cs r in
    if str_eq c pk_col
    then rest
    else (ident c ++ (codes " = " ++ field_literal (get string_key c r.fields))) ∷ rest

abbrev pub undo_update : String → String → String → Text → List Text → Option Text
undo_update pg_schema table pk_col pk [] = none
undo_update pg_schema table pk_col pk (s ∷ ss) = some (
    codes "UPDATE "
    ++ (in_schema pg_schema (ident table)
        ++ (codes " SET "
            ++ (join (codes ", ") (s ∷ ss)
                ++ (codes " WHERE " ++ (ident pk_col ++ (codes " = " ++ key_literal pk)))))))

-- what undoes one shadow row: a panic, or a statement if there is one
unfoldable pub undo : String → String → String → List String → ShadowRow → Result Stop (Option Text)
unfolding text_eq set_fields
undo pg_schema table pk_col columns r =
    if text_eq r.operation (codes "DELETE")
    then with_key (get string_key pk_col r.fields)
        (λ pk. some (undo_insert pg_schema table pk_col pk))
    else if text_eq r.operation (codes "INSERT")
    then ok (some (undo_delete pg_schema table columns r))
    else if text_eq r.operation (codes "UPDATE")
    then with_key (get string_key pk_col r.fields)
        (λ pk. undo_update pg_schema table pk_col pk (set_fields pk_col columns r))
    else ok none
  where
    with_key : Option Text → (Text → Option Text) → Result Stop (Option Text)
    with_key none f = err panicked
    with_key (some pk) f = ok (f pk)

unfoldable pub select_sql : String → String → List String → Text
select_sql pg_schema table columns =
    codes "SELECT "
    ++ (join (codes ", ") (map ident columns)
        ++ (codes ", \"_operation\", \"_block_number\" FROM "
            ++ (in_schema pg_schema (shadow_name table)
                ++ codes " WHERE \"_block_number\" >= $1 ORDER BY \"_block_number\" DESC")))

abbrev pub cleanup_sql : String → String → Text
cleanup_sql pg_schema table =
    codes "DELETE FROM "
    ++ (in_schema pg_schema (shadow_name table) ++ codes " WHERE \"_block_number\" >= $1")

abbrev pub clear_sql : String → String → Text
clear_sql pg_schema table =
    codes "DELETE FROM "
    ++ (in_schema pg_schema (shadow_name table) ++ codes " WHERE \"_block_number\" < $1")

-- the database: a statement, a statement with a bound number, and a query with one
pub record Database (W : Type 0) : Type 0 where
  pub execute : Text → Exec W Text (Unit {0})
  pub execute_bound : Text → ℕ → Exec W Text (Unit {0})
  pub fetch_all : Text → ℕ → Exec W Text (List ShadowRow)

module _ {W : Type 0} (db : Database W) (pg_schema : String) where
  unfoldable pub record_flush :
      Printers → String → List Row → Operation → ℕ → List String → Exec W DbError (Unit {0})
  record_flush p table [] operation block_number columns = pure tt
  record_flush p table (r ∷ rs) operation block_number columns =
      map_err (flush (shadow_table table))
        (db.execute (record_sql p pg_schema table operation block_number columns r))
      >> record_flush p table rs operation block_number columns

  abbrev pub run_undo : String → Result Stop (Option Text) → Exec W Stop (Unit {0})
  run_undo table (err stop) = fail stop
  run_undo table (ok none) = pure tt
  run_undo table (ok (some sql)) = map_err (λ e. failed (flush table e)) (db.execute sql)

  -- the loop over the shadow rows
  unfoldable pub replay : String → String → List String → List ShadowRow → Exec W Stop (Unit {0})
  replay table pk_col columns [] = pure tt
  replay table pk_col columns (r ∷ rs) =
      run_undo table (undo pg_schema table pk_col columns r) >> replay table pk_col columns rs

  unfoldable pub rollback_from_block : String → ℕ → String → List String → Exec W Stop ℕ
  unfolding replay
  rollback_from_block table block_number pk_col columns = do
    rows ←
        map_err (λ e. failed (query (shadow_table table) e))
          (db.fetch_all (select_sql pg_schema table columns) block_number)
    replay table pk_col columns rows
    map_err (λ e. failed (flush (shadow_table table) e))
        (db.execute_bound (cleanup_sql pg_schema table) block_number)
    pure (length rows)

  unfoldable pub clear_before_block : String → ℕ → Exec W DbError (Unit {0})
  clear_before_block table block_number =
      map_err (flush (shadow_table table))
        (db.execute_bound (clear_sql pg_schema table) block_number)
