-- ===== src/Api/Filters/Literals.antt =====
-- Strings in a filter of crates/forge-index-api/src/graphql/filters.rs stay inside their literals.
use forge_index.Base.{
  ◌≡◌, refl, ap, ◌∙◌, Option, none, some, List, [], ◌∷◌, ◌++◌, arith, if◌then◌else◌,
}
use forge_index.Base.Json.{Json, string}
use forge_index.Base.Quote.{quoted, Separate, apostrophe, read_literal, read_literal-quoted}
use forge_index.Base.Text.{Text, codes, text_eq}
use forge_index.Api.Filters.{value_to_sql_literal, build_condition, compare_with}

-- the operators that compare a field with one value, and what SQL calls them
abbrev pub comparisons : List (Text × Text)
comparisons =
    (codes "eq", codes "=")
    ∷ (codes "gt", codes ">")
    ∷ (codes "gte", codes ">=")
    ∷ (codes "lt", codes "<")
    ∷ (codes "lte", codes "<=")
    ∷ []

abbrev pub sql_operator : Text → List (Text × Text) → Option Text
sql_operator op [] = none
sql_operator op ((name, sql) ∷ rest) = if text_eq op name then some sql else sql_operator op rest

comparison_lem :
    (name op sql_op : Text) (value : Json)
    → sql_operator op comparisons ≡ some sql_op
    → build_condition name op value ≡ compare_with name sql_op (value_to_sql_literal value)
unfolding build_condition
comparison_lem name op sql_op value h = ground arith

-- A comparison with a string value is the quoted field name, SQL's operator and a literal that SQL
-- reads as exactly that string, whatever characters it holds and whatever follows the condition, if
-- that does not begin with an apostrophe.
pub build_condition_string :
    (name op sql_op s rest : Text)
    → sql_operator op comparisons ≡ some sql_op
    → Separate apostrophe rest
    → (literal : Text) × (build_condition name op (string s)
        ≡ some (codes "\"" ++ (name ++ (codes "\" " ++ (sql_op ++ (codes " " ++ literal))))))
      × (read_literal (literal ++ rest) ≡ some (s, rest))
build_condition_string name op sql_op s rest h sep = (
  quoted s,
  comparison_lem name op sql_op (string s) h ∙ ap (compare_with name sql_op) (string_literal s),
  read_literal-quoted s rest sep,
)
  where
    string_literal : (t : Text) → value_to_sql_literal (string t) ≡ some (quoted t)
    string_literal t = unfold value_to_sql_literal in refl
