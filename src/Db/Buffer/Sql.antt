-- ===== src/Db/Buffer/Sql.antt =====
-- The SQL texts of crates/forge-index-db/src/buffer.rs.
use forge_index.Base.{String, Option, none, some, List, [], ◌∷◌, ◌++◌, map, str_eq, if◌then◌else◌}
use forge_index.Base.Text.{Text, codes, join}
use forge_index.Db.Row.{Row, ColumnValue, Printers, get_column, to_sql_literal}

-- `format!("\"{}\"", name)`
abbrev pub ident : String → Text
ident name = codes "\"" ++ (codes name ++ codes "\"")

abbrev pub table_name : String → String → Text
table_name pg_schema table = ident pg_schema ++ (codes "." ++ ident table)

-- the literal of a column, or NULL
abbrev pub literal_or_null : Printers → Option ColumnValue → Text
literal_or_null p none = codes "NULL"
literal_or_null p (some v) = to_sql_literal p v

abbrev pub value_row : Printers → List String → Row → Text
value_row p columns r =
    codes "("
    ++ (join (codes ", ") (map (λ c. literal_or_null p (get_column c r)) columns) ++ codes ")")

unfoldable pub insert_sql : Printers → String → String → List String → List Row → Text
insert_sql p pg_schema table columns rows =
    codes "INSERT INTO "
    ++ (table_name pg_schema table
        ++ (codes " ("
            ++ (join (codes ", ") (map ident columns)
                ++ (codes ") VALUES "
                    ++ (join (codes ", ") (map (value_row p columns) rows)
                        ++ codes " ON CONFLICT DO NOTHING")))))

-- `"col" = value` for every column of the row but the key
unfoldable pub sets : Printers → String → List String → Row → List Text
sets p pk_col [] r = []
sets p pk_col (c ∷ cs) r =
    let rest = sets p pk_col cs r in
    if str_eq c pk_col then rest else elim (get_column c r) [
      | none ↦ rest
      | some v ↦ (ident c ++ (codes " = " ++ to_sql_literal p v)) ∷ rest
    ]

abbrev pub update_with : Printers → String → String → String → Row → List Text → Option Text
update_with p pg_schema table pk_col r [] = none
update_with p pg_schema table pk_col r (s ∷ ss) = some (
    codes "UPDATE "
    ++ (table_name pg_schema table
        ++ (codes " SET "
            ++ (join (codes ", ") (s ∷ ss)
                ++ (codes " WHERE "
                    ++ (ident pk_col
                        ++ (codes " = " ++ literal_or_null p (get_column pk_col r))))))))

-- none where there is nothing to set
unfoldable pub update_sql : Printers → String → String → List String → String → Row → Option Text
unfolding sets
update_sql p pg_schema table columns pk_col r =
    update_with p pg_schema table pk_col r (sets p pk_col columns r)

-- the keys of the rows that have one
unfoldable pub key_literals : Printers → String → List Row → List Text
key_literals p pk_col [] = []
key_literals p pk_col (r ∷ rs) =
    let rest = key_literals p pk_col rs in
    elim (get_column pk_col r) [ none ↦ rest | some v ↦ to_sql_literal p v ∷ rest ]

abbrev pub delete_keys : String → String → String → List Text → Option Text
delete_keys pg_schema table pk_col [] = none
delete_keys pg_schema table pk_col (k ∷ ks) = some (
    codes "DELETE FROM "
    ++ (table_name pg_schema table
        ++ (codes " WHERE "
            ++ (ident pk_col ++ (codes " IN (" ++ (join (codes ", ") (k ∷ ks) ++ codes ")"))))))

unfoldable pub delete_sql : Printers → String → String → String → List Row → Option Text
unfolding key_literals
delete_sql p pg_schema table pk_col rows =
    delete_keys pg_schema table pk_col (key_literals p pk_col rows)
