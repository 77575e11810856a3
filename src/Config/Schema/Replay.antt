-- ===== src/Config/Schema/Replay.antt =====
-- Every table can be built: crates/forge-index-config/src/schema.rs.
use forge_index.Base.{
  String, Bool, true, false, Option, none, some, List, [], ◌∷◌, ◌++◌, append_assoc, append-nil, ◌≡◌,
  refl, sym, ap, ◌∙◌, if◌then◌else◌,
}
use forge_index.Config.Schema.{
  TableBuilder, update_last, on_last, new_table, column, primary_key, not_null, nullable,
  references, index, unique_index, build_table, table,
}
use forge_index.Config.Types.{ColumnDef, IndexDef, TableDef}

abbrev pub set_key : Bool → TableBuilder → TableBuilder
set_key true b = primary_key b
set_key false b = b

abbrev pub set_null : Bool → TableBuilder → TableBuilder
set_null true b = nullable b
set_null false b = not_null b

abbrev pub set_references : Option (String × String) → TableBuilder → TableBuilder
set_references none b = b
set_references (some (t, c)) b = references t c b

-- the calls that add a column as it is
abbrev pub add_column : ColumnDef → TableBuilder → TableBuilder
add_column c b =
    set_references c.references
      (set_null c.nullable (set_key c.primary_key (column c.name c.col_type b)))

abbrev pub add_columns : List ColumnDef → TableBuilder → TableBuilder
add_columns [] b = b
add_columns (c ∷ cs) b = add_columns cs (add_column c b)

abbrev pub add_index : IndexDef → TableBuilder → TableBuilder
add_index i b = if i.unique then unique_index i.columns b else index i.columns b

abbrev pub add_indexes : List IndexDef → TableBuilder → TableBuilder
add_indexes [] b = b
add_indexes (i ∷ is) b = add_indexes is (add_index i b)

update_last-snoc :
    {A : Type 0} (f : A → A) (xs : List A) (x : A) → update_last f (xs ++ x ∷ []) ≡ xs ++ f x ∷ []
update_last-snoc f [] x = refl
update_last-snoc f (y ∷ []) x = refl
update_last-snoc f (y ∷ z ∷ xs) x = ap (λ ys. y ∷ ys) (update_last-snoc f (z ∷ xs) x)

with_column : TableBuilder → ColumnDef → TableBuilder
with_column b c = record b { columns = b.columns ++ c ∷ [] }

on_last-with_column :
    (f : ColumnDef → ColumnDef) (b : TableBuilder) (c : ColumnDef)
    → on_last f (with_column b c) ≡ with_column b (f c)
unfolding with_column
on_last-with_column f b c = ap (λ cs. record b { columns = cs }) (update_last-snoc f b.columns c)

set_key-with_column :
    (p : Bool) (b : TableBuilder) (c : ColumnDef)
    → c.primary_key ≡ false
    → set_key p (with_column b c) ≡ with_column b (record c { primary_key = p })
unfolding primary_key
set_key-with_column true b c e = on_last-with_column _ b c
set_key-with_column false b c e = ap (λ p. with_column b (record c { primary_key = p })) e

set_null-with_column :
    (n : Bool) (b : TableBuilder) (c : ColumnDef)
    → set_null n (with_column b c) ≡ with_column b (record c { nullable = n })
unfolding nullable not_null
set_null-with_column true b c = on_last-with_column _ b c
set_null-with_column false b c = on_last-with_column _ b c

set_references-with_column :
    (r : Option (String × String)) (b : TableBuilder) (c : ColumnDef)
    → c.references ≡ none
    → set_references r (with_column b c) ≡ with_column b (record c { references = r })
unfolding references
set_references-with_column none b c e = ap (λ r. with_column b (record c { references = r })) e
set_references-with_column (some (t, k)) b c e = on_last-with_column _ b c

add_column_whole : (c : ColumnDef) (b : TableBuilder) → add_column c b ≡ with_column b c
unfolding column with_column
add_column_whole c b =
    let plain : ColumnDef = record {
      name = c.name;
      col_type = c.col_type;
      nullable = false;
      primary_key = false;
      references = none;
    } in
    let keyed : ColumnDef = record plain { primary_key = c.primary_key } in
    let marked : ColumnDef = record keyed { nullable = c.nullable } in
    ap (λ x. set_references c.references (set_null c.nullable x))
      (set_key-with_column c.primary_key b plain refl)
    ∙ (ap (set_references c.references) (set_null-with_column c.nullable b keyed)
        ∙ set_references-with_column c.references b marked refl)

add_columns_whole :
    (cs : List ColumnDef) (b : TableBuilder)
    → add_columns cs b ≡ record b { columns = b.columns ++ cs }
unfolding with_column
add_columns_whole [] b = ap (λ xs. record b { columns = xs }) (sym (append-nil b.columns))
add_columns_whole (c ∷ cs) b =
    ap (add_columns cs) (add_column_whole c b)
    ∙ (add_columns_whole cs (with_column b c)
        ∙ ap (λ xs. record b { columns = xs }) (append_assoc b.columns (c ∷ []) cs))

add_index_whole :
    (i : IndexDef) (b : TableBuilder) → add_index i b ≡ record b { indexes = b.indexes ++ i ∷ [] }
unfolding index unique_index
add_index_whole i b = go i.columns i.unique
  where
    go :
        (columns : List String) (unique : Bool)
        → add_index (record { columns = columns; unique = unique }) b
          ≡ record b { indexes = b.indexes ++ record { columns = columns; unique = unique } ∷ [] }
    go columns true = refl
    go columns false = refl

add_indexes_whole :
    (is : List IndexDef) (b : TableBuilder)
    → add_indexes is b ≡ record b { indexes = b.indexes ++ is }
add_indexes_whole [] b = ap (λ xs. record b { indexes = xs }) (sym (append-nil b.indexes))
add_indexes_whole (i ∷ is) b =
    ap (add_indexes is) (add_index_whole i b)
    ∙ (add_indexes_whole is (record b { indexes = b.indexes ++ i ∷ [] })
        ∙ ap (λ xs. record b { indexes = xs }) (append_assoc b.indexes (i ∷ []) is))

-- Every table is built: adding to a schema the table of the same name, with a call for each column, its
-- key, its nullability and its reference, and a call for each index, adds exactly that table.
pub table-replay :
    (t : TableDef) (tables : List TableDef)
    → table t.name (λ b. add_indexes t.indexes (add_columns t.columns b)) tables ≡ tables ++ t ∷ []
unfolding table new_table build_table
table-replay t tables =
    ap (λ b. tables ++ build_table b ∷ [])
      (ap (add_indexes t.indexes) (add_columns_whole t.columns (new_table t.name))
        ∙ add_indexes_whole t.indexes (record (new_table t.name) { columns = t.columns }))
