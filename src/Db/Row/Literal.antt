-- ===== src/Db/Row/Literal.antt =====
-- What SQL reads where `to_sql_literal` of crates/forge-index-db/src/row.rs was put.
use forge_index.Base.{◌≡◌, ◌⊎◌, inl, inr, some, ◌++◌}
use forge_index.Base.Json.{Json}
use forge_index.Base.Quote.{Separate, apostrophe, read_literal, read_literal-quoted}
use forge_index.Base.Text.{Text}
use forge_index.Db.Row.{ColumnValue, text, json, Printers, to_sql_literal}

-- A text value and a JSON value are read by SQL as exactly their text, whatever characters it holds and
-- whatever follows the literal, if that does not begin with an apostrophe.
pub read_literal-to_sql_literal :
    (p : Printers) (v : ColumnValue) (s rest : Text)
    → (v ≡ text s) ⊎ ((j : Json) × (v ≡ json j) × (p.json_to_string j ≡ s))
    → Separate apostrophe rest
    → read_literal (to_sql_literal p v ++ rest) ≡ some (s, rest)
unfolding to_sql_literal
read_literal-to_sql_literal p v s rest (inl e) sep = rw e (read_literal-quoted s rest sep)
read_literal-to_sql_literal p v s rest (inr (j, e, printed)) sep =
    rw (e, printed) (read_literal-quoted s rest sep)
