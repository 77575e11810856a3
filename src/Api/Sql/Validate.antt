-- ===== src/Api/Sql/Validate.antt =====
-- The check of a query before it runs: `validate_sql` in crates/forge-index-api/src/sql/parser.rs.
pub mod Accepted
pub mod Refused
use forge_index.Base.{Bool, not, ◌||◌, List, [], ◌∷◌, ◌++◌, ltb, ◌==◌, if◌then◌else◌}
use forge_index.Base.Exec.{Result, ok, err}
use forge_index.Base.Fallible.{◌>>=◌, ◌>>◌}
use forge_index.Base.Search.{contains, trim, split_whitespace, byte_len}
use forge_index.Base.Text.{Text, codes, text_eq}
use forge_index.Base.Trim.{pop_back_while}
use forge_index.Api.Sql.Types.{
  Casing, SqlError, Refusal, ValidatedSql, is_empty, max_query_length, banned_keywords,
  banned_schemas,
}
use forge_index.Api.Sql.Keywords.{contains_keyword}
use forge_index.Api.Sql.Limit.{enforce_limit}
use forge_index.Api.Sql.Tables.{extract_table_names, add_prefixes}

-- steps 6 and 7
unfoldable pub check_keywords : Text → List Text → Result Refusal Unit
check_keywords upper [] = ok tt
check_keywords upper (keyword ∷ keywords) =
    let rest = check_keywords upper keywords in
    if contains_keyword upper keyword
    then err (Refusal.refused (SqlError.forbidden_keyword keyword))
    else rest

unfoldable pub check_schemas : Text → List Text → Result Refusal Unit
check_schemas lower [] = ok tt
check_schemas lower (schema ∷ schemas) =
    let rest = check_schemas lower schemas in
    if contains schema lower
    then err (
        Refusal.refused
          (SqlError.forbidden_keyword (codes "Access to " ++ (schema ++ codes " is not allowed"))))
    else rest

-- goes on unless the test holds
abbrev pub refuse_if : Bool → SqlError → Result Refusal Unit
refuse_if test e = if test then err (Refusal.refused e) else ok tt

abbrev pub without_semicolons : Text → Text
without_semicolons sql = trim (pop_back_while (λ c. c == b';') sql)

module _ (casing : Casing) where
  abbrev pub first_word : Text → Text
  first_word sql = elim (split_whitespace sql) [
    | [] ↦ casing.to_uppercase []
    | word ∷ words ↦ casing.to_uppercase word
  ]

  -- steps 1 to 7 on the trimmed text
  unfoldable pub check_text : Text → Result Refusal Unit
  check_text sql =
      refuse_if (ltb max_query_length (byte_len sql))
        (SqlError.too_long (byte_len sql) max_query_length)
      >> refuse_if (is_empty sql) (SqlError.invalid_statement (codes "Empty query"))
      >> refuse_if (not (text_eq (first_word sql) (codes "SELECT")))
          (SqlError.invalid_statement (codes "Only SELECT statements are allowed"))
      >> refuse_if (contains (codes ";") (without_semicolons sql))
          (SqlError.invalid_statement (codes "Multiple statements are not allowed"))
      >> refuse_if (contains (codes "$$") sql || contains (codes "$tag$") sql)
          (SqlError.invalid_statement (codes "Dollar-sign quoting is not allowed"))
      >> check_keywords (casing.to_uppercase sql) banned_keywords
      >> check_schemas (casing.to_lowercase sql) banned_schemas

  unfoldable pub validate_sql : Text → Text → Result Refusal ValidatedSql
  validate_sql input pg_schema =
      let sql = trim input in
      let trimmed = without_semicolons sql in
      let table_names = extract_table_names casing trimmed in
      check_text sql
      >> enforce_limit casing (add_prefixes pg_schema table_names trimmed)
      >>= λ sanitised.
          ok (record { original = sql; sanitised = sanitised; table_names = table_names })
