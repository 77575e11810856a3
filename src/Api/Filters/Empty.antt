-- ===== src/Api/Filters/Empty.antt =====
-- Filters without a condition: crates/forge-index-api/src/graphql/filters.rs.
use forge_index.Base.{◌≡◌, []}
use forge_index.Base.Json.{array, object, Items, end, field}
use forge_index.Base.Text.{Text, codes, text_eq}
use forge_index.Api.Filters.{literals, filters_to_sql}

-- A filter whose only condition is `in` or `notIn` on a list without a literal, such as the empty
-- list, gives the empty clause and no parameters.
pub filters_to_sql_no_literals :
    (name pg_schema table : Text) (xs : Items)
    → literals xs ≡ []
    → (filters_to_sql
          (object (field name (object (field (codes "in") (array xs) end)) end))
          pg_schema
          table
        ≡ ([], []))
      × (filters_to_sql
            (object (field name (object (field (codes "notIn") (array xs) end)) end))
            pg_schema
            table
          ≡ ([], []))
unfolding filters_to_sql text_eq
filters_to_sql_no_literals name pg_schema table xs h = (rw h, rw h)
