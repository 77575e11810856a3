-- ===== src/Api/Sql/Execute.antt =====
-- Running a query: crates/forge-index-api/src/sql/executor.rs and crates/forge-index-api/src/sql/result.rs.
-- The driver's transaction is a record of operations on a state of its own. A cell is what the
-- driver reads from it as each type, with a number as its text; none is a value that is missing or cannot
-- be read so.
use forge_index.Base.{
  ℕ, Bool, false, ◌||◌, Option, none, some, List, [], ◌∷◌, ◌++◌, map, length, if◌then◌else◌,
}
use forge_index.Base.Exec.{ok, Exec, ◌>>=◌, ◌>>◌, map_err}
use forge_index.Base.Json.{Json, Fields, null, boolean, number, string, object, end, field}
use forge_index.Base.Search.{contains}
use forge_index.Base.Text.{Text, codes, show_nat, text_eq}
use forge_index.Api.Sql.Types.{SqlError, ValidatedSql}

pub record SqlResult : Type 0 where
  pub columns : List Text
  pub rows : List Json
  pub row_count : ℕ
  pub execution_time_ms : ℕ

pub record Cell : Type 0 where
  pub as_bool : Option Bool
  pub as_i16 : Option Text
  pub as_i32 : Option Text
  pub as_i64 : Option Text
  -- a number, if it is finite
  pub as_f32 : Option (Option Text)
  pub as_f64 : Option (Option Text)
  pub as_decimal : Option Text
  pub as_json : Option Json
  -- in hexadecimal
  pub as_bytes : Option Text
  pub as_string : Option Text

pub record PgColumn : Type 0 where
  pub name : Text
  pub type_name : Text
  pub cell : Cell

abbrev pub PgRow : Type 0
PgRow = List PgColumn

pub record Driver (W : Type 0) : Type 0 where
  pub begin : Exec W Text (Unit {0})
  pub execute : Text → Exec W Text (Unit {0})
  pub fetch_all : Text → Exec W Text (List PgRow)
  pub rollback : W → W
  -- the milliseconds since the query was taken up
  pub elapsed : W → ℕ

abbrev pub default_timeout_ms : ℕ
default_timeout_ms = 5000

abbrev pub one_of : Text → List Text → Bool
one_of name [] = false
one_of name (n ∷ ns) = let rest = one_of name ns in text_eq name n || rest

abbrev pub or_null : {A : Type 0} → (A → Json) → Option A → Json
or_null f none = null
or_null f (some a) = f a

abbrev pub finite : Option (Option Text) → Option Text
finite none = none
finite (some n) = n

-- the value of a column, by the name of its type
unfoldable pub cell_json : Text → Cell → Json
cell_json type_name c =
    if one_of type_name (codes "BOOL" ∷ [])
    then or_null boolean c.as_bool
    else if one_of type_name (codes "INT2" ∷ codes "SMALLINT" ∷ [])
    then or_null number c.as_i16
    else if one_of type_name (codes "INT4" ∷ codes "INT" ∷ codes "INTEGER" ∷ [])
    then or_null number c.as_i32
    else if one_of type_name (codes "INT8" ∷ codes "BIGINT" ∷ [])
    then or_null number c.as_i64
    else if one_of type_name (codes "FLOAT4" ∷ codes "REAL" ∷ [])
    then or_null number (finite c.as_f32)
    else if one_of type_name (codes "FLOAT8" ∷ codes "DOUBLE PRECISION" ∷ [])
    then or_null number (finite c.as_f64)
    else if one_of type_name (codes "NUMERIC" ∷ [])
    then or_null string c.as_decimal
    else if one_of type_name (codes "JSONB" ∷ codes "JSON" ∷ [])
    then or_null (λ v. v) c.as_json
    else if one_of type_name (codes "BYTEA" ∷ [])
    then or_null (λ hex. string (codes "0x" ++ hex)) c.as_bytes
    else or_null string c.as_string

-- `Map::insert`: a name that is there gets the new value
unfoldable pub insert_field : Text → Json → Fields → Fields
insert_field name v end = field name v end
insert_field name v (field n w fs) =
    let rest = insert_field name v fs in if text_eq n name then field n v fs else field n w rest

-- the loop over the columns, with the names of the first row's columns
unfoldable pub row_fields : PgRow → List Text → Fields → Fields
row_fields row [] fs = fs
row_fields [] (name ∷ names) fs = fs
row_fields (column ∷ row) (name ∷ names) fs =
    row_fields row names (insert_field name (cell_json column.type_name column.cell) fs)

unfoldable pub row_to_json : List Text → PgRow → Json
row_to_json columns row = object (row_fields row columns end)

-- what the rows of a query give
abbrev pub result_of : ℕ → List PgRow → SqlResult
result_of elapsed [] = record {
  columns = [];
  rows = [];
  row_count = 0;
  execution_time_ms = elapsed;
}
result_of elapsed (row ∷ rows) =
    let columns = map (λ c. c.name) row in
    let json_rows = map (row_to_json columns) (row ∷ rows) in
    record {
      columns = columns;
      rows = json_rows;
      row_count = length json_rows;
      execution_time_ms = elapsed;
    }

abbrev pub is_timeout : Text → Bool
is_timeout e =
    contains (codes "statement timeout") e
    || contains (codes "canceling statement due to statement timeout") e

abbrev pub query_error : Text → SqlError
query_error e = if is_timeout e then SqlError.timeout else SqlError.database e

abbrev pub timeout_of : Option ℕ → ℕ
timeout_of none = default_timeout_ms
timeout_of (some ms) = ms

module _ {W : Type 0} (driver : Driver W) where
  -- `tx.rollback()`, then the result
  abbrev pub finish : List PgRow → Exec W SqlError SqlResult
  finish rows w = let w' = driver.rollback w in (ok (result_of (driver.elapsed w') rows), w')

  unfoldable pub execute_sql : ValidatedSql → Option ℕ → Exec W SqlError SqlResult
  execute_sql sql timeout_ms =
      map_err SqlError.database driver.begin
      >> map_err SqlError.database (
          driver.execute (
            codes "SET LOCAL statement_timeout = '"
            ++ (show_nat (timeout_of timeout_ms) ++ codes "ms'")))
      >> (map_err query_error (driver.fetch_all sql.sanitised) >>= finish)
