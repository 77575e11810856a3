-- ===== src/Api/Sql/Tables.antt =====
-- The tables of a query and their schema: crates/forge-index-api/src/sql/parser.rs.
use forge_index.Base.{
  Bool, true, false, not, ◌&&◌, ◌||◌, Option, none, some, List, [], ◌∷◌, ◌++◌, map, ◌==◌,
  if◌then◌else◌,
}
use forge_index.Base.Search.{
  contains, starts_with, ends_with, replace, trim_matches, split_whitespace, after_last,
}
use forge_index.Base.Text.{Text, codes, text_eq}
use forge_index.Api.Sql.Types.{Casing, is_empty}

-- `raw` after FROM or JOIN, without parentheses, commas and quotes
abbrev pub bare_name : Text → Text
bare_name token =
    trim_matches (λ c. c == b'"')
      (trim_matches (λ c. (c == b'(') || (c == b')') || (c == b',')) token)

abbrev pub is_listed : Text → List Text → Bool
is_listed name [] = false
is_listed name (t ∷ ts) = let rest = is_listed name ts in if text_eq t name then true else rest

abbrev pub or_else : Option Text → Text → Text
or_else none d = d
or_else (some t) d = t

module _ (casing : Casing) where
  -- whether the token is taken as the start of a table's name
  abbrev pub is_table : Text → Bool
  is_table raw =
      not (is_empty raw)
      && not (text_eq raw (codes "("))
      && not (starts_with (codes "SELECT") (casing.to_uppercase raw))
      && not (starts_with (codes "(") raw)

  abbrev pub takes_table : Text → Bool
  takes_table token =
      let upper = casing.to_uppercase token in
      text_eq upper (codes "FROM") || ends_with (codes "JOIN") upper

  -- the loop of `extract_table_names`, with the tables so far
  unfoldable pub tables_from : List Text → List Text → List Text
  tables_from [] tables = tables
  tables_from (token ∷ []) tables = tables
  tables_from (token ∷ next ∷ tokens) tables =
      let raw = bare_name next in
      let name = or_else (after_last b'.' raw) raw in
      let added =
        if is_table raw && not (is_listed name tables) then tables ++ name ∷ [] else tables in
      tables_from (next ∷ tokens) (if takes_table token then added else tables)

  unfoldable pub extract_table_names : Text → List Text
  extract_table_names sql = tables_from (split_whitespace sql) []

-- one round of the loop of `add_schema_prefix`
unfoldable pub prefix_after : Text → Text → Text → Text → Text
prefix_after table pg_schema kw result =
    let qualified = pg_schema ++ (codes ".\"" ++ (table ++ codes "\"")) in
    let pattern = kw ++ (codes " " ++ table) in
    let already_qualified = kw ++ (codes " " ++ (pg_schema ++ codes ".")) in
    let already_quoted = kw ++ (codes " \"" ++ table) in
    let target = kw ++ (codes " " ++ qualified) in
    let first =
      if contains pattern result && not (contains already_qualified result)
      then replace pattern target result
      else result in
    if contains already_quoted first && not (contains already_qualified first)
    then replace (kw ++ (codes " \"" ++ (table ++ codes "\""))) target first
    else first

abbrev prefix_keywords : Text → Text → List Text → Text → Text
prefix_keywords table pg_schema [] result = result
prefix_keywords table pg_schema (kw ∷ kws) result =
    prefix_keywords table pg_schema kws (prefix_after table pg_schema kw result)

unfoldable pub add_schema_prefix : Text → Text → Text → Text
unfolding prefix_after
add_schema_prefix sql table pg_schema =
    prefix_keywords table pg_schema
      (map codes ("FROM" ∷ "JOIN" ∷ "from" ∷ "join" ∷ "From" ∷ "Join" ∷ [])) sql

-- the loop over the tables in `validate_sql`
unfoldable pub add_prefixes : Text → List Text → Text → Text
add_prefixes pg_schema [] sql = sql
add_prefixes pg_schema (table ∷ tables) sql =
    add_prefixes pg_schema tables (add_schema_prefix sql table pg_schema)
