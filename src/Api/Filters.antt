-- ===== src/Api/Filters.antt =====
-- WHERE clauses from GraphQL filters: crates/forge-index-api/src/graphql/filters.rs. The fields of a
-- JSON object are taken in the order in which the JSON library iterates over them.
pub mod Literals
pub mod Empty
use forge_index.Base.{
  ℕ, zero, suc, ◌+◌, ◌-◌, ◌*◌, ◌/◌, ◌%◌, ◌^◌, ◌≤◌, ◌<◌, min, max, String, ◌≡◌, refl, sym, ap, subst,
  ◌∙◌, ◌≢◌, ◌↔◌, ◌⊎◌, inl, inr, Bool, true, false, not, ◌&&◌, ◌||◌, Option, none, some, List, [],
  ◌∷◌, ◌++◌, map, reverse, append_assoc, append-nil, reverse-cons, reverse-append, reverse-reverse,
  arith, str_eq, eq_iff, ltb, leb, ◌==◌, if◌then◌else◌, ltb→lt, ltb→ge, lt→ltb, ge→ltb, leb→le,
  leb→gt, le→leb, gt→leb, ==_iff, ==_refl, Bool-cases, Option-cases, length, get_elem?, take, drop,
  last?, drop_while, keep, length-append, length-reverse, last?-snoc, All, All-append,
}
use forge_index.Base.Json.{
  Json, Items, Fields, null, boolean, number, string, array, object, nil, cons, end, field,
}
use forge_index.Base.Quote.{quoted, double, apostrophe}
use forge_index.Base.Text.{Text, codes, join, text_eq, show_bool}

unfoldable pub value_to_sql_literal : Json → Option Text
value_to_sql_literal (string s) = some (quoted s)
value_to_sql_literal (number n) = some n
value_to_sql_literal (boolean b) = some (show_bool b)
value_to_sql_literal null = some (codes "NULL")
value_to_sql_literal _ = none

-- `arr.iter().filter_map(value_to_sql_literal).collect()`
unfoldable pub literals : Items → List Text
unfolding value_to_sql_literal
literals nil = []
literals (cons v vs) =
    let rest = literals vs in elim (value_to_sql_literal v) [ none ↦ rest | some l ↦ l ∷ rest ]

-- `"field" op value`
abbrev pub compare_with : Text → Text → Option Text → Option Text
compare_with name op none = none
compare_with name op (some v) =
    some (codes "\"" ++ (name ++ (codes "\" " ++ (op ++ (codes " " ++ v)))))

-- `"field" IN (values)`, or no condition if there is no value
abbrev pub member_of : Text → Text → List Text → Option Text
member_of name op [] = none
member_of name op (v ∷ vs) = some (
    codes "\""
    ++ (name ++ (codes "\" " ++ (op ++ (codes " (" ++ (join (codes ", ") (v ∷ vs) ++ codes ")"))))))

abbrev pub items_of : Json → Option Items
items_of (array xs) = some xs
items_of _ = none

abbrev pub in_items : Text → Text → Option Items → Option Text
in_items name op none = none
in_items name op (some xs) = member_of name op (literals xs)

-- `value.as_str().unwrap_or("")`
abbrev pub as_str : Json → Text
as_str (string s) = s
as_str _ = []

unfoldable pub build_condition : Text → Text → Json → Option Text
unfolding literals double
build_condition name op value =
    if text_eq op (codes "eq")
    then compare_with name (codes "=") (value_to_sql_literal value)
    else if text_eq op (codes "gt")
    then compare_with name (codes ">") (value_to_sql_literal value)
    else if text_eq op (codes "gte")
    then compare_with name (codes ">=") (value_to_sql_literal value)
    else if text_eq op (codes "lt")
    then compare_with name (codes "<") (value_to_sql_literal value)
    else if text_eq op (codes "lte")
    then compare_with name (codes "<=") (value_to_sql_literal value)
    else if text_eq op (codes "contains")
    then some (
        codes "\""
        ++ (name ++ (codes "\" ILIKE '%" ++ (double apostrophe (as_str value) ++ codes "%'"))))
    else if text_eq op (codes "in")
    then in_items name (codes "IN") (items_of value)
    else if text_eq op (codes "notIn")
    then in_items name (codes "NOT IN") (items_of value)
    else none

abbrev pub with_condition : Option Text → List Text → List Text
with_condition none cs = cs
with_condition (some c) cs = c ∷ cs

-- the loop over the operators of one field
unfoldable pub op_conditions : Text → Fields → List Text
unfolding build_condition
op_conditions name end = []
op_conditions name (field op value rest) =
    with_condition (build_condition name op value) (op_conditions name rest)

abbrev pub fields_of : Json → Fields
fields_of (object fs) = fs
fields_of _ = end

-- the loop over the fields of the filter
unfoldable pub conditions : Fields → List Text
unfolding op_conditions
conditions end = []
conditions (field name filter_obj rest) =
    op_conditions name (fields_of filter_obj) ++ conditions rest

-- the clause, and the bound parameters, of which there are none
unfoldable pub filters_to_sql : Json → Text → Text → Text × List Text
unfolding conditions
filters_to_sql filter pg_schema table = (join (codes " AND ") (conditions (fields_of filter)), [])

and_runs :
    (filters_to_sql
      (object (
        field
          (codes "name")
          (object (field (codes "eq") (string (codes "O'Hara")) end))
          (field (codes "age") (object (field (codes "gte") (number (codes "18")) end)) end)))
      (codes "public")
      (codes "users")).0
    ≡ codes "\"name\" = 'O''Hara' AND \"age\" >= 18"
unfolding filters_to_sql quoted text_eq
and_runs = refl
