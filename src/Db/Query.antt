-- ===== src/Db/Query.antt =====
-- Reading rows: crates/forge-index-db/src/query.rs. The database, which runs a SQL text and gives a JSON
-- value for each row, and the reading of a value are parameters.
use forge_index.Base.{String, Option, none, some, List, [], ◌∷◌, ◌++◌, map}
use forge_index.Base.Exec.{Result, ok, err, Exec, ◌>>=◌, map_err, pure}
use forge_index.Base.Int.{ℤ, pos, show_int}
use forge_index.Base.Json.{Json}
use forge_index.Base.Text.{Text, codes, join}
use forge_index.Config.Schema.{in_double_quotes}
use forge_index.Db.Error.{DbError, query, serialization}
use forge_index.Db.Row.{ColumnValue, Printers, to_sql_literal}

pub data Dir : Type 0 where
  asc desc : Dir

pub record QueryBuilder : Type 0 where
  pub pg_schema : Text
  pub table : String
  pub conditions : List Text
  pub order_by : List (String × Dir)
  pub limit : Option ℤ
  pub offset : Option ℤ

unfoldable pub new : Text → String → QueryBuilder
new pg_schema table = record {
  pg_schema = pg_schema;
  table = table;
  conditions = [];
  order_by = [];
  limit = none;
  offset = none;
}

unfoldable pub with_condition :
    Printers → String → String → ColumnValue → QueryBuilder → QueryBuilder
with_condition printers col op val b =
    let condition =
      in_double_quotes (codes col)
      ++ (codes " " ++ (codes op ++ (codes " " ++ to_sql_literal printers val))) in
    record b { conditions = b.conditions ++ condition ∷ [] }

unfoldable pub ordered_by : String → Dir → QueryBuilder → QueryBuilder
ordered_by col dir b = record b { order_by = b.order_by ++ (col, dir) ∷ [] }

unfoldable pub with_limit : ℤ → QueryBuilder → QueryBuilder
with_limit n b = record b { limit = some n }

unfoldable pub with_offset : ℤ → QueryBuilder → QueryBuilder
with_offset n b = record b { offset = some n }

abbrev pub dir_sql : Dir → Text
dir_sql asc = codes "ASC"
dir_sql desc = codes "DESC"

abbrev pub order_part : String × Dir → Text
order_part (col, dir) = in_double_quotes (codes col) ++ (codes " " ++ dir_sql dir)

-- a clause with its parts, where there are any
abbrev pub clause : Text → Text → List Text → Text
clause word separator [] = []
clause word separator (p ∷ ps) = word ++ join separator (p ∷ ps)

abbrev pub number_clause : Text → Option ℤ → Text
number_clause word none = []
number_clause word (some n) = word ++ show_int n

unfoldable pub build_sql : QueryBuilder → Text
build_sql b =
    codes "SELECT row_to_json(t.*) as doc FROM "
    ++ (in_double_quotes b.pg_schema
        ++ (codes "."
            ++ (in_double_quotes (codes b.table)
                ++ (codes " t"
                    ++ (clause (codes " WHERE ") (codes " AND ") b.conditions
                        ++ (clause (codes " ORDER BY ") (codes ", ") (map order_part b.order_by)
                            ++ (number_clause (codes " LIMIT ") b.limit
                                ++ number_clause (codes " OFFSET ") b.offset)))))))

module _ {W T : Type 0} (from_value : Json → Result Text T) where
  abbrev pub read_value : Json → Exec W DbError T
  read_value json w = elim (from_value json) [
    | ok val ↦ (ok val, w)
    | err e ↦ (err (serialization e), w)
  ]

  abbrev pub read_row : Option Json → Exec W DbError (Option T)
  read_row none = pure none
  read_row (some json) = read_value json >>= λ val. pure (some val)

  unfoldable pub first :
      (fetch_optional : Text → Exec W Text (Option Json)) → QueryBuilder → Exec W DbError (Option T)
  first fetch_optional b =
      map_err (query b.table) (fetch_optional (build_sql (with_limit (pos 1) b))) >>= read_row

  -- up to the first value that cannot be read
  abbrev pub read_rows : List Json → Exec W DbError (List T)
  read_rows [] = pure []
  read_rows (json ∷ rows) =
      read_value json >>= λ val. (read_rows rows >>= λ results. pure (val ∷ results))

  unfoldable pub all :
      (fetch_all : Text → Exec W Text (List Json)) → QueryBuilder → Exec W DbError (List T)
  all fetch_all b = map_err (query b.table) (fetch_all (build_sql b)) >>= read_rows
