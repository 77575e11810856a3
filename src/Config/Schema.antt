-- ===== src/Config/Schema.antt =====
-- Tables, their builder and their SQL: crates/forge-index-config/src/schema.rs. A builder of a schema
-- is, as a schema, the list of its tables.
pub mod Replay
use forge_index.Base.{
  ℕ, String, Bool, true, false, not, ◌&&◌, Option, none, some, List, [], ◌∷◌, ◌++◌, map,
  if◌then◌else◌,
}
use forge_index.Base.Text.{Text, codes, join}
use forge_index.Config.Types.{ColumnType, ColumnDef, IndexDef, TableDef}

pub record TableBuilder : Type 0 where
  pub name : String
  pub columns : List ColumnDef
  pub indexes : List IndexDef

-- `last_mut`
abbrev pub update_last : {A : Type 0} → (A → A) → List A → List A
update_last f [] = []
update_last f (x ∷ []) = f x ∷ []
update_last f (x ∷ y ∷ xs) = x ∷ update_last f (y ∷ xs)

abbrev pub on_last : (ColumnDef → ColumnDef) → TableBuilder → TableBuilder
on_last f b = record b { columns = update_last f b.columns }

unfoldable pub new_table : String → TableBuilder
new_table name = record { name = name; columns = []; indexes = [] }

unfoldable pub column : String → ColumnType → TableBuilder → TableBuilder
column name col_type b = record b {
  columns =
      b.columns
      ++ record {
        name = name;
        col_type = col_type;
        nullable = false;
        primary_key = false;
        references = none;
      }
        ∷ [];
}

unfoldable pub primary_key : TableBuilder → TableBuilder
primary_key = on_last (λ c. record c { primary_key = true })

unfoldable pub not_null : TableBuilder → TableBuilder
not_null = on_last (λ c. record c { nullable = false })

unfoldable pub nullable : TableBuilder → TableBuilder
nullable = on_last (λ c. record c { nullable = true })

unfoldable pub references : String → String → TableBuilder → TableBuilder
references table column = on_last (λ c. record c { references = some (table, column) })

unfoldable pub index : List String → TableBuilder → TableBuilder
index columns b = record b {
  indexes = b.indexes ++ record { columns = columns; unique = false } ∷ [];
}

unfoldable pub unique_index : List String → TableBuilder → TableBuilder
unique_index columns b = record b {
  indexes = b.indexes ++ record { columns = columns; unique = true } ∷ [];
}

unfoldable pub build_table : TableBuilder → TableDef
build_table b = record { name = b.name; columns = b.columns; indexes = b.indexes }

-- `SchemaBuilder::table`
unfoldable pub table : String → (TableBuilder → TableBuilder) → List TableDef → List TableDef
table name f tables = tables ++ build_table (f (new_table name)) ∷ []

abbrev pub to_sql_type : ColumnType → Text
to_sql_type ColumnType.text = codes "TEXT"
to_sql_type ColumnType.boolean = codes "BOOLEAN"
to_sql_type ColumnType.int = codes "INTEGER"
to_sql_type ColumnType.big_int = codes "NUMERIC"
to_sql_type ColumnType.float = codes "DOUBLE PRECISION"
to_sql_type ColumnType.hex = codes "TEXT"
to_sql_type ColumnType.address = codes "TEXT"
to_sql_type ColumnType.hash = codes "TEXT"
to_sql_type ColumnType.json = codes "JSONB"
to_sql_type ColumnType.bytes = codes "TEXT"
to_sql_type ColumnType.timestamp = codes "BIGINT"

-- a name between double quotes, as `format!` puts it there
unfoldable pub in_double_quotes : Text → Text
in_double_quotes name = codes "\"" ++ (name ++ codes "\"")

-- the definition of a column
unfoldable pub column_sql : Bool → ColumnDef → Text
column_sql is_reorg col = join (codes " ") (
    in_double_quotes (codes col.name)
    ∷ to_sql_type col.col_type
    ∷ ((if not col.nullable then codes "NOT NULL" ∷ [] else [])
        ++ (if col.primary_key && not is_reorg then codes "PRIMARY KEY" ∷ [] else [])))

unfoldable pub foreign_key : Text → ColumnDef → List Text
foreign_key pg_schema col = elim col.references [
  | none ↦ []
  | some (ref_table, ref_col) ↦
      (codes "FOREIGN KEY ("
        ++ (in_double_quotes (codes col.name)
            ++ (codes ") REFERENCES "
                ++ (in_double_quotes pg_schema
                    ++ (codes "."
                        ++ (in_double_quotes (codes ref_table)
                            ++ (codes "(" ++ (in_double_quotes (codes ref_col) ++ codes ")"))))))))
      ∷ []
]

abbrev pub foreign_keys : Text → List ColumnDef → List Text
foreign_keys pg_schema [] = []
foreign_keys pg_schema (col ∷ cols) = foreign_key pg_schema col ++ foreign_keys pg_schema cols

-- the name of a table or of its shadow
unfoldable pub stored_name : TableDef → Bool → Text
stored_name table is_reorg =
    if is_reorg then codes "_reorg_" ++ codes table.name else codes table.name

-- what stands between the parentheses
unfoldable pub column_defs : Text → TableDef → Bool → List Text
column_defs pg_schema table is_reorg =
    map (column_sql is_reorg) table.columns
    ++ (if is_reorg
        then codes "\"_operation\" TEXT NOT NULL" ∷ codes "\"_block_number\" BIGINT NOT NULL" ∷ []
        else foreign_keys pg_schema table.columns)

unfoldable pub table_create_sql : Text → TableDef → Bool → Text
table_create_sql pg_schema table is_reorg =
    codes "CREATE TABLE IF NOT EXISTS "
    ++ (in_double_quotes pg_schema
        ++ (codes "."
            ++ (in_double_quotes (stored_name table is_reorg)
                ++ (codes " ("
                    ++ (join (codes ", ") (column_defs pg_schema table is_reorg) ++ codes ");")))))

unfoldable pub index_create_sql : Text → Text → IndexDef → Text
index_create_sql pg_schema table_name idx =
    codes "CREATE "
    ++ ((if idx.unique then codes "UNIQUE " else [])
        ++ (codes "INDEX IF NOT EXISTS "
            ++ (in_double_quotes (
                  codes "idx_"
                  ++ (table_name ++ (codes "_" ++ join (codes "_") (map codes idx.columns))))
                ++ (codes " ON "
                    ++ (in_double_quotes pg_schema
                        ++ (codes "."
                            ++ (in_double_quotes table_name
                                ++ (codes " ("
                                    ++ (join (codes ", ")
                                          (map (λ c. in_double_quotes (codes c)) idx.columns)
                                        ++ codes ");")))))))))

unfoldable pub to_create_sql : Text → List TableDef → List Text
to_create_sql pg_schema [] = []
to_create_sql pg_schema (t ∷ tables) =
    table_create_sql pg_schema t false
    ∷ (map (index_create_sql pg_schema (codes t.name)) t.indexes
        ++ table_create_sql pg_schema t true ∷ to_create_sql pg_schema tables)
