-- ===== src/Db/Manager.antt =====
-- Setting up the database: crates/forge-index-db/src/manager.rs. The driver, the digest and the schema's
-- JSON are parameters. The lock key is the 64 bits of the `i64`.
pub mod Checked
use forge_index.Base.{ℕ, String, Bool, Option, List, [], ◌∷◌, ◌++◌, take, if◌then◌else◌}
use forge_index.Base.Bytes.{from_be}
use forge_index.Base.Exec.{Result, ok, err, Exec, ◌>>=◌, ◌>>◌, map_err, pure, fail}
use forge_index.Base.Search.{contains}
use forge_index.Base.Text.{Text, codes, text_eq}
use forge_index.Config.Schema.{in_double_quotes, to_create_sql}
use forge_index.Config.Types.{TableDef, DatabaseConfig, postgres, pg_lite}
use forge_index.Db.Error.{DbError, pool_creation, migration, query}

pub data BuildIdStatus : Type 0 where
  same : BuildIdStatus
  changed : (old new : Text) → BuildIdStatus
  not_found : BuildIdStatus

pub record DatabaseManager : Type 0 where
  pub lock_key : ℕ
  pub pg_schema : Text

-- the driver's errors, as far as they are told apart
pub data SqlError : Type 0 where
  row_not_found : SqlError
  database : (message : Text) → SqlError
  other : (message : Text) → SqlError

-- what is bound to a statement
pub data Bind : Type 0 where
  text : Text → Bind
  big_int : ℕ → Bind

pub record Driver (W : Type 0) : Type 0 where
  pub connect : (connection_string : String) (max_connections : ℕ) → Exec W SqlError (Unit {0})
  pub execute : Text → List Bind → Exec W SqlError (Unit {0})
  pub fetch_one : Text → Exec W SqlError Text
  pub show : SqlError → Text

unfoldable pub schema_lock_key : (sha256 : Text → List ℕ) → Text → ℕ
schema_lock_key sha256 schema = from_be (take 8 (sha256 (codes "forge-index-lock:" ++ schema)))

-- `Schema::build_id`
unfoldable pub build_id :
    (sha256_hex : Text → Text) (schema_json : List TableDef → Text) → List TableDef → Text
build_id sha256_hex schema_json schema = sha256_hex (schema_json schema)

abbrev pub create_schema_sql : Text → Text
create_schema_sql pg_schema = codes "CREATE SCHEMA IF NOT EXISTS " ++ in_double_quotes pg_schema

abbrev pub meta_table : Text → Text
meta_table pg_schema = in_double_quotes pg_schema ++ codes ".\"_forge_meta\""

abbrev pub meta_sql : Text → Text
meta_sql pg_schema =
    codes "CREATE TABLE IF NOT EXISTS "
    ++ (meta_table pg_schema
        ++ codes
            " (\n                key TEXT PRIMARY KEY,\n                value TEXT NOT NULL\n            )")

abbrev pub upsert_sql : Text → Text
upsert_sql pg_schema =
    codes "INSERT INTO "
    ++ (meta_table pg_schema
        ++ codes
            " (key, value) VALUES ('build_id', $1)\n               ON CONFLICT (key) DO UPDATE SET value = $1")

abbrev pub select_sql : Text → Text
select_sql pg_schema =
    codes "SELECT value FROM " ++ (meta_table pg_schema ++ codes " WHERE key = 'build_id'")

module _ {W : Type 0} (driver : Driver W) where
  unfoldable pub new : (sha256 : Text → List ℕ) → DatabaseConfig → Exec W DbError DatabaseManager
  new sha256 (postgres connection_string schema pool_max_connections) =
      map_err (λ e. pool_creation (driver.show e))
        (driver.connect connection_string pool_max_connections)
      >> pure
          (record { lock_key = schema_lock_key sha256 (codes schema); pg_schema = codes schema })
  new sha256 (pg_lite directory) = fail (pool_creation (codes "PGlite is not yet supported"))

  abbrev pub migrate : Text → List Bind → Exec W DbError (Unit {0})
  migrate sql binds = map_err (λ e. migration (driver.show e)) (driver.execute sql binds)

  -- the statements in order, up to the first that fails
  unfoldable pub run_statements : List Text → Exec W DbError (Unit {0})
  run_statements [] = pure tt
  run_statements (stmt ∷ stmts) =
      map_err (λ e. migration (stmt ++ (codes ": " ++ driver.show e))) (driver.execute stmt [])
      >> run_statements stmts

  unfoldable pub release_lock : DatabaseManager → Exec W DbError (Unit {0})
  release_lock manager =
      migrate (codes "SELECT pg_advisory_unlock($1)") (big_int manager.lock_key ∷ [])

  module _ (sha256_hex : Text → Text) (schema_json : List TableDef → Text) (schema : List TableDef)
      (pg_schema : Text) where
    unfoldable pub setup : Exec W DbError (Unit {0})
    setup =
        migrate (create_schema_sql pg_schema) []
        >> run_statements (to_create_sql pg_schema schema)
        >> migrate (meta_sql pg_schema) []
        >> migrate (upsert_sql pg_schema) (text (build_id sha256_hex schema_json schema) ∷ [])

    -- what the stored id says
    abbrev pub status_of_stored :
        (new_id : Text) → Result SqlError Text → Result DbError BuildIdStatus
    status_of_stored new_id (ok old_id) =
        if text_eq old_id new_id then ok same else ok (changed old_id new_id)
    status_of_stored new_id (err row_not_found) = ok not_found
    status_of_stored new_id (err (database message)) =
        if contains (codes "does not exist") message
        then ok not_found
        else err (query "_forge_meta" (driver.show (database message)))
    status_of_stored new_id (err (other message)) =
        err (query "_forge_meta" (driver.show (other message)))

    unfoldable pub check_build_id : Exec W DbError BuildIdStatus
    check_build_id w =
        let (stored, w') = driver.fetch_one (select_sql pg_schema) w in
        (status_of_stored (build_id sha256_hex schema_json schema) stored, w')
