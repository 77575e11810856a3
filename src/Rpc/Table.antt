-- ===== src/Rpc/Table.antt =====
-- The tables of the RPC cache: crates/forge-index-rpc/src/cache/store.rs. A table is the list of its
-- rows and the list of the statements on it that fail, of which none does at the list's end.
use forge_index.Base.{Bool, true, false, Option, none, some, List, [], ◌∷◌, ◌++◌, if◌then◌else◌}
use forge_index.Base.Exec.{ok, err, Exec}
use forge_index.Base.Text.{Text, codes}

pub record Table (Row : Type 0) : Type 0 where
  pub rows : List Row
  pub faults : List Bool

module _ {Row : Type 0} where
  -- one statement: what it returns and the rows it leaves
  abbrev pub statement : {A : Type 0} → (List Row → A × List Row) → Exec (Table Row) Text A
  statement run t =
      let (a, rows) = run t.rows in
      elim t.faults [
        | [] ↦ (ok a, record t { rows = rows })
        | true ∷ faults ↦ (err (codes "database error"), record t { faults = faults })
        | false ∷ faults ↦ (ok a, record { rows = rows; faults = faults })
      ]

  -- `fetch_optional`: the first row that passes the test
  abbrev pub find_row : (Row → Bool) → List Row → Option Row
  find_row test [] = none
  find_row test (r ∷ rows) = let rest = find_row test rows in if test r then some r else rest

  module _ (same_key : Row → Row → Bool) where
    abbrev pub has_key : Row → List Row → Bool
    has_key row [] = false
    has_key row (r ∷ rows) = let rest = has_key row rows in if same_key r row then true else rest

    -- `ON CONFLICT DO NOTHING`
    abbrev pub insert_new : Row → List Row → Unit {0} × List Row
    insert_new row rows = (tt, if has_key row rows then rows else rows ++ row ∷ [])

    -- `ON CONFLICT (key) DO UPDATE`
    abbrev pub replace_row : Row → List Row → List Row
    replace_row row [] = []
    replace_row row (r ∷ rows) =
        let rest = replace_row row rows in if same_key r row then row ∷ rest else r ∷ rest

    abbrev pub upsert : Row → List Row → Unit {0} × List Row
    upsert row rows = (tt, if has_key row rows then replace_row row rows else rows ++ row ∷ [])
