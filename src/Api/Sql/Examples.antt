-- ===== src/Api/Sql/Examples.antt =====
-- Queries to the SQL endpoint, with ASCII's upper case for letters and nothing else:
-- crates/forge-index-api/src/sql/parser.rs.
use forge_index.Base.{
  ℕ, ◌≡◌, ◌↔◌, refl, true, ◌&&◌, ◌+◌, ◌-◌, none, [], ◌∷◌, map, arith, leb, if◌then◌else◌,
}
use forge_index.Base.Exec.{ok}
use forge_index.Base.Search.{replace, split_whitespace}
use forge_index.Base.Text.{Text, codes, show_nat, text_eq}
use forge_index.Api.Sql.Keywords.{
  contains_keyword, contains_from, find_keyword_pos, keyword_pos_from,
}
use forge_index.Api.Sql.Keywords.Exact.{Standalone, contains_keyword_iff}
use forge_index.Api.Sql.Limit.{enforce_limit}
use forge_index.Api.Sql.Tables.{
  extract_table_names, tables_from, add_prefixes, add_schema_prefix, prefix_after,
}
use forge_index.Api.Sql.Types.{Casing, ValidatedSql}
use forge_index.Api.Sql.Validate.{validate_sql, check_text, check_keywords, check_schemas}

abbrev upper : ℕ → ℕ
upper c = if leb b'a' c && leb c b'z' then c - 32 else c

abbrev lower : ℕ → ℕ
lower c = if leb b'A' c && leb c b'Z' then c + 32 else c

abbrev ascii : Casing
ascii = record { to_uppercase = map upper; to_lowercase = map lower }

abbrev query : Text
query = codes " select id from t; "

abbrev accepted : ValidatedSql
accepted = record {
  original = codes "select id from t;";
  sanitised = codes "select id from app.\"t\" LIMIT 1000";
  table_names = codes "t" ∷ [];
}

validated : validate_sql ascii query (codes "app") ≡ ok accepted
unfolding validate_sql check_text check_keywords check_schemas contains_keyword contains_from
    extract_table_names tables_from add_prefixes add_schema_prefix prefix_after replace
    split_whitespace enforce_limit find_keyword_pos keyword_pos_from show_nat text_eq
validated = refl

contains_keyword_iff_example :
    (contains_keyword (codes "SELECT UPDATED, DROP") (codes "DROP") ≡ true)
    ↔ Standalone none (codes "DROP") (codes "SELECT UPDATED, DROP")
contains_keyword_iff_example =
    contains_keyword_iff b'D' (codes "ROP") (refl, (refl, (refl, (refl, tt))))
      (codes "SELECT UPDATED, DROP")

unlimited : ¬ Standalone none (codes "LIMIT") (map upper (codes "select 1"))
unfolding contains_keyword contains_from
unlimited s =
    let seen =
      (contains_keyword_iff b'L' (codes "IMIT") (refl, (refl, (refl, (refl, (refl, tt)))))
          (codes "SELECT 1")).1
        s in
    ground (arith, seen)
