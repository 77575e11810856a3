-- ===== src/Api/Sql/Types.antt =====
-- The data of the check of a query, and its bounds: crates/forge-index-api/src/sql/mod.rs and crates/forge-index-api/src/sql/parser.rs. The changes
-- to upper and to lower case are Unicode's and parameters.
use forge_index.Base.{ℕ, Bool, true, false, Option, none, some, List, [], ◌∷◌, map}
use forge_index.Base.Exec.{Result, ok, err}
use forge_index.Base.Text.{Text, codes}

-- `to_uppercase` and `to_lowercase`
pub record Casing : Type 0 where
  pub to_uppercase : Text → Text
  pub to_lowercase : Text → Text

pub data SqlError : Type 0 where
  invalid_statement forbidden_keyword : Text → SqlError
  too_long : (len max : ℕ) → SqlError
  timeout : SqlError
  database : Text → SqlError

-- an error that the check returns, or a panic where a slice does not start at a character
pub data Refusal : Type 0 where
  refused : SqlError → Refusal
  panicked : Refusal

abbrev pub is_empty : Text → Bool
is_empty [] = true
is_empty (c ∷ text) = false

abbrev pub or_panic : {A : Type 0} → Option A → Result Refusal A
or_panic none = err Refusal.panicked
or_panic (some a) = ok a

abbrev pub max_query_length : ℕ
max_query_length = 10000

abbrev pub max_limit : ℕ
max_limit = 1000

abbrev pub banned_keywords : List Text
banned_keywords = map codes (
    "INSERT" ∷ "UPDATE" ∷ "DELETE" ∷ "DROP" ∷ "CREATE" ∷ "ALTER" ∷ "TRUNCATE" ∷ "GRANT" ∷ "REVOKE"
    ∷ "COPY" ∷ "EXECUTE" ∷ [])

abbrev pub banned_schemas : List Text
banned_schemas = map codes ("pg_catalog" ∷ "information_schema" ∷ [])

pub record ValidatedSql : Type 0 where
  pub original : Text
  pub sanitised : Text
  pub table_names : List Text
