-- ===== src/Db/Buffer/Order.antt =====
-- The order in which a flush of crates/forge-index-db/src/buffer.rs writes the rows of one table.
use forge_index.Base.{String, ◌≡◌, refl, Bool, false, ◌&&◌, List, [], ◌∷◌, ◌++◌, arith, keep}
use forge_index.Db.Row.{Row, Printers}
use forge_index.Base.Maps.{string_key}
use forge_index.Base.Maps.{get}
use forge_index.Db.Buffer.{
  WriteBuffer, Kind, insertion, update, removal, kind_of, same_kind, rows_of,
}
use forge_index.Db.Buffer.Flush.{
  statements, insert_statements, update_statements, delete_statements,
}

keep-swap :
    (p : Row → Bool) (xs ys : List Row) (r s : Row)
    → (p r && p s) ≡ false
    → keep p (xs ++ r ∷ s ∷ ys) ≡ keep p (xs ++ s ∷ r ∷ ys)
keep-swap p [] ys r s h = ground arith
keep-swap p (x ∷ xs) ys r s h = ground (arith, keep-swap p xs ys r s h)

one_kind : (a b k : Kind) → same_kind a b ≡ false → (same_kind a k && same_kind b k) ≡ false
one_kind insertion insertion k h = ground (arith, h)
one_kind insertion update insertion h = refl
one_kind insertion update update h = refl
one_kind insertion update removal h = refl
one_kind insertion removal insertion h = refl
one_kind insertion removal update h = refl
one_kind insertion removal removal h = refl
one_kind update update k h = ground (arith, h)
one_kind update insertion insertion h = refl
one_kind update insertion update h = refl
one_kind update insertion removal h = refl
one_kind update removal insertion h = refl
one_kind update removal update h = refl
one_kind update removal removal h = refl
one_kind removal removal k h = ground (arith, h)
one_kind removal insertion insertion h = refl
one_kind removal insertion update h = refl
one_kind removal insertion removal h = refl
one_kind removal update insertion h = refl
one_kind removal update update h = refl
one_kind removal update removal h = refl

rows_of-swap :
    (k : Kind) (xs ys : List Row) (r s : Row)
    → same_kind (kind_of r.operation) (kind_of s.operation) ≡ false
    → rows_of k (xs ++ r ∷ s ∷ ys) ≡ rows_of k (xs ++ s ∷ r ∷ ys)
rows_of-swap k xs ys r s h =
    keep-swap (λ x. same_kind (kind_of x.operation) k) xs ys r s
      (one_kind (kind_of r.operation) (kind_of s.operation) k h)

-- A flush forgets the order between rows of different kinds: two neighbours, one inserted, updated
-- or deleted and the other not the same, may be exchanged and the statements stay what they were.
-- So deleting a key and inserting it again gives the statements of inserting it and then deleting
-- it.
pub statements-swap :
    (printers : Printers) (b : WriteBuffer) (table : String) (xs ys : List Row) (r s : Row)
    → same_kind (kind_of r.operation) (kind_of s.operation) ≡ false
    → statements printers b table (xs ++ r ∷ s ∷ ys)
      ≡ statements printers b table (xs ++ s ∷ r ∷ ys)
statements-swap printers b table xs ys r s h =
    let cols = get string_key table b.table_columns in
    let pk = get string_key table b.pk_columns in
    λ i.
      insert_statements printers b.pg_schema table (rows_of-swap insertion xs ys r s h i) cols
      ++ (update_statements printers b.pg_schema table (rows_of-swap update xs ys r s h i) cols pk
          ++ delete_statements printers b.pg_schema table (rows_of-swap removal xs ys r s h i) pk)
