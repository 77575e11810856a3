-- ===== src/Db/Row.antt =====
-- Rows and column values: crates/forge-index-db/src/row.rs. An `f64` is its bit pattern. Printing
-- floats, hexadecimal and JSON is library code, and a parameter.
pub mod Literal
use forge_index.Base.{
  ℕ, zero, suc, ◌+◌, ◌-◌, ◌*◌, ◌/◌, ◌%◌, ◌^◌, ◌≤◌, ◌<◌, min, max, String, ◌≡◌, refl, sym, ap, subst,
  ◌∙◌, ◌≢◌, ◌↔◌, ◌⊎◌, inl, inr, Bool, true, false, not, ◌&&◌, ◌||◌, Option, none, some, List, [],
  ◌∷◌, ◌++◌, map, reverse, append_assoc, append-nil, reverse-cons, reverse-append, reverse-reverse,
  arith, str_eq, eq_iff, ltb, leb, ◌==◌, if◌then◌else◌, ltb→lt, ltb→ge, lt→ltb, ge→ltb, leb→le,
  leb→gt, le→leb, gt→leb, ==_iff, ==_refl, Bool-cases, Option-cases, length, get_elem?, take, drop,
  last?, drop_while, keep, length-append, length-reverse, last?-snoc, All, All-append,
}
use forge_index.Base.Maps.{string_key, Key, Map, get, insert}
use forge_index.Base.Json.{Json}
use forge_index.Base.Int.{ℤ, show_int}
use forge_index.Base.Quote.{quoted, apostrophe}
use forge_index.Base.Text.{Text, codes, show_bool}

pub data ColumnValue : Type 0 where
  text : Text → ColumnValue
  boolean : Bool → ColumnValue
  int : ℤ → ColumnValue
  big_int : ℤ → ColumnValue
  float : ℕ → ColumnValue
  bytes : List ℕ → ColumnValue
  json : Json → ColumnValue
  null : ColumnValue
  big_numeric : Text → ColumnValue

pub record Row : Type 0 where
  pub columns : Map String ColumnValue
  pub operation : Option String

abbrev pub new : Row
new = record { columns = []; operation = none }

unfoldable pub insert_column : String → ColumnValue → Row → Row
insert_column col val r = record r { columns = insert string_key col val r.columns }

unfoldable pub get_column : String → Row → Option ColumnValue
get_column col r = get string_key col r.columns

-- the printers of the libraries
pub record Printers : Type 0 where
  pub float_to_string : ℕ → Text
  pub hex_encode : List ℕ → Text
  pub json_to_string : Json → Text

unfoldable pub to_sql_literal : Printers → ColumnValue → Text
to_sql_literal p (text s) = quoted s
to_sql_literal p (boolean b) = show_bool b
to_sql_literal p (int i) = show_int i
to_sql_literal p (big_int i) = show_int i
to_sql_literal p (float f) = p.float_to_string f
to_sql_literal p (bytes b) = codes "'\\x" ++ (p.hex_encode b ++ codes "'")
to_sql_literal p (json v) = quoted (p.json_to_string v)
to_sql_literal p null = codes "NULL"
to_sql_literal p (big_numeric s) = s
