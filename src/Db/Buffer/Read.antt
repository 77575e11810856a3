-- ===== src/Db/Buffer/Read.antt =====
-- What `read_one` of crates/forge-index-db/src/buffer.rs finds.
use forge_index.Base.{
  String, ◌≡◌, refl, sym, ap, ◌∙◌, inl, inr, Bool, true, some, List, [], ◌∷◌, ◌++◌, arith, leb,
  if◌then◌else◌, leb→le, leb→gt, Bool-cases, length,
}
use forge_index.Base.Exec.{ok, err}
use forge_index.Db.Row.{Row, ColumnValue}
use forge_index.Db.Buffer.{
  WriteBuffer, pending, insert_row, update_row, delete_row, deletion, newest, is_match, read_one,
}
use forge_index.Db.Buffer.Pending.{pending-with_pending, insert_row_room, insert_row_full}

newest-snoc :
    (test : Row → Bool) (rows : List Row) (r : Row)
    → newest test (rows ++ r ∷ []) ≡ (if test r then some r else newest test rows)
unfolding newest
newest-snoc test [] r = refl
newest-snoc test (x ∷ rows) r = ground (arith, newest-snoc test rows r)

not_accepted : {E A X : Type 0} (e : E) (a : A) → err e ≡ ok a → X
not_accepted e a h = ground (arith, h)

-- A row that was inserted with the key is what `read_one` returns next, whatever waits before it.
pub read_one-insert_row :
    (value_eq : ColumnValue → ColumnValue → Bool) (table pk_col : String) (pk_value : ColumnValue)
    (r : Row) (b : WriteBuffer)
    → (insert_row table r b).0 ≡ ok tt
    → is_match value_eq pk_col pk_value r ≡ true
    → read_one value_eq table pk_col pk_value (insert_row table r b).1 ≡ some r
unfolding read_one
read_one-insert_row value_eq table pk_col pk_value r b accepted matched =
    elim (Bool-cases (leb b.max_size (length (pending table b)))) [
      | inl full ↦
          not_accepted _ _
            (sym (ap (λ p. p.0) (insert_row_full table r b (leb→le _ _ full))) ∙ accepted)
      | inr room ↦
          let test = is_match value_eq pk_col pk_value in
          ap (λ p. newest test (pending table p.1)) (insert_row_room table r b (leb→gt _ _ room))
          ∙ (ap (newest test) (pending-with_pending table (pending table b ++ r ∷ []) b)
              ∙ (newest-snoc test (pending table b) r
                  ∙ ap (λ t. if t then some r else newest test (pending table b)) matched))
    ]

-- `read_one` does not see the updates and deletes that wait: it returns after one of them what it
-- returned before, also where it has the key that is read.
pub read_one_stale :
    (value_eq : ColumnValue → ColumnValue → Bool) (table pk_col pk : String)
    (pk_value v : ColumnValue) (r : Row) (b : WriteBuffer)
    → (read_one value_eq table pk_col pk_value (update_row table r v b).1
        ≡ read_one value_eq table pk_col pk_value b)
      × (read_one value_eq table pk_col pk_value (delete_row table pk v b).1
          ≡ read_one value_eq table pk_col pk_value b)
unfolding read_one update_row delete_row deletion pending
read_one_stale value_eq table pk_col pk pk_value v r b =
    let test = is_match value_eq pk_col pk_value in
    (
      ap (newest test) (
            pending-with_pending table
              (pending table b ++ record r { operation = some "UPDATE" } ∷ []) b)
          ∙ newest-snoc test (pending table b) (record r { operation = some "UPDATE" }),
      ap (newest test) (pending-with_pending table (pending table b ++ deletion pk v ∷ []) b)
          ∙ newest-snoc test (pending table b) (deletion pk v),
    )
