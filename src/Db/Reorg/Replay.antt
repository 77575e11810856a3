-- ===== src/Db/Reorg/Replay.antt =====
-- What undoes a recorded row: crates/forge-index-db/src/reorg.rs.
use forge_index.Base.{
  String, ◌≡◌, refl, sym, ap, ◌∙◌, false, Option, some, List, [], ◌∷◌, ◌++◌, append_assoc, ◌==◌,
  All,
}
use forge_index.Base.Exec.{ok}
use forge_index.Base.Maps.{get, string_key}
use forge_index.Base.Quote.{
  apostrophe, Separate, read_literal, read_quoted, double, read_quoted-double,
}
use forge_index.Base.Text.{Text, codes, text_eq}
use forge_index.Db.Buffer.Sql.{ident}
use forge_index.Db.Reorg.{
  Operation, insertion, update, removal, inverse, ShadowRow, undo_insert, undo_delete, undo_update,
  set_fields, undo, key_literal,
}

-- the statement that takes back an operation
abbrev pub taken_back :
    String → String → String → List String → Text → ShadowRow → Operation → Option Text
taken_back pg_schema table pk_col columns pk r insertion =
    some (undo_insert pg_schema table pk_col pk)
taken_back pg_schema table pk_col columns pk r update =
    undo_update pg_schema table pk_col pk (set_fields pk_col columns r)
taken_back pg_schema table pk_col columns pk r removal =
    some (undo_delete pg_schema table columns r)

-- A row that was recorded for an operation, if the driver finds its key, is undone by deleting the row of
-- an insert, setting the columns of an update, and inserting the row of a delete.
pub undo-inverse :
    (pg_schema table pk_col : String) (columns : List String) (op : Operation) (pk : Text)
    (r : ShadowRow)
    → r.operation ≡ inverse op
    → get string_key pk_col r.fields ≡ some pk
    → undo pg_schema table pk_col columns r ≡ ok (taken_back pg_schema table pk_col columns pk r op)
unfolding undo inverse text_eq
undo-inverse pg_schema table pk_col columns insertion pk r recorded found =
    rw (recorded, undo, found) refl
undo-inverse pg_schema table pk_col columns update pk r recorded found =
    rw (recorded, undo, found) refl
undo-inverse pg_schema table pk_col columns removal pk r recorded found = rw (recorded, undo) refl

inverse_insertion : inverse insertion ≡ codes "DELETE"
unfolding inverse
inverse_insertion = refl

double-plain : (p : Text) → All (λ c. (c == apostrophe) ≡ false) p → double apostrophe p ≡ p
unfolding double
double-plain [] h = refl
double-plain (c ∷ p) (hc, h) = rw (hc, double) (ap (λ t. c ∷ t) (double-plain p h))

open_literal :
    (p q : Text)
    → All (λ c. (c == apostrophe) ≡ false) p
    → Separate apostrophe (q ++ codes "'")
    → read_literal (key_literal (p ++ apostrophe ∷ q)) ≡ some (p, q ++ codes "'")
unfolding read_literal
open_literal p q plain sep =
    ap (read_quoted apostrophe) (append_assoc p (apostrophe ∷ q) (codes "'"))
    ∙ (ap (λ x. read_quoted apostrophe (x ++ apostrophe ∷ (q ++ codes "'")))
          (sym (double-plain p plain))
        ∙ read_quoted-double apostrophe p (q ++ codes "'") sep)

-- A recorded insert whose key holds an apostrophe is undone by a DELETE that has the key as it is between
-- apostrophes: SQL reads only the part before the apostrophe as the literal, and the rest of the key,
-- with the closing apostrophe, as SQL, if the next character is no apostrophe.
pub undo_insert_open :
    (pg_schema table pk_col : String) (columns : List String) (p q : Text) (r : ShadowRow)
    → r.operation ≡ codes "DELETE"
    → get string_key pk_col r.fields ≡ some (p ++ apostrophe ∷ q)
    → All (λ c. (c == apostrophe) ≡ false) p
    → Separate apostrophe (q ++ codes "'")
    → (literal : Text) × ((undo pg_schema table pk_col columns r
          ≡ ok (
              some (
                codes "DELETE FROM "
                ++ ((ident pg_schema ++ (codes "." ++ ident table))
                    ++ (codes " WHERE " ++ (ident pk_col ++ (codes " = " ++ literal)))))))
        × (read_literal literal ≡ some (p, q ++ codes "'")))
undo_insert_open pg_schema table pk_col columns p q r recorded found plain sep = (
  key_literal (p ++ apostrophe ∷ q),
  (
    undo-inverse pg_schema table pk_col columns insertion (p ++ apostrophe ∷ q) r
        (recorded ∙ sym inverse_insertion) found,
    open_literal p q plain sep,
  ),
)
