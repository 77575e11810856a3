-- ===== src/Api/Pagination/Cursor.antt =====
-- Cursors in crates/forge-index-api/src/graphql/pagination.rs. The JSON library's printer and parser
-- and the check of UTF-8 are parameters.
use forge_index.Base.{
  ℕ, ◌≡◌, ap, ◌⊎◌, inl, inr, Bool, true, false, Option, none, some, List, [], Bool-cases,
  Option-cases, All,
}
use forge_index.Base.Json.{Json}
use forge_index.Base.Text.{Text, codes}
use forge_index.Base.Exec.{Result, ok, err}
use forge_index.Api.Error.{ApiError, bad_request}
use forge_index.Api.Pagination.{base64_encode, decode_bytes}
use forge_index.Api.Pagination.Base64.{decode_bytes-base64_encode, IsByte}

pub record CursorData : Type 0 where
  pub pk_value : Text
  pub order_col : Text
  pub order_val : Json

abbrev pub or_default : Option Text → Text
or_default none = []
or_default (some t) = t

abbrev pub if_valid : Bool → List ℕ → Option Text
if_valid true bytes = some bytes
if_valid false bytes = none

module _ (to_string : CursorData → Option Text) (from_str : Text → Option CursorData)
    (is_utf8 : List ℕ → Bool) where
  unfoldable pub encode_cursor : Text → Text → Json → Text
  encode_cursor pk_value order_col order_val = base64_encode (
      or_default
        (to_string (record { pk_value = pk_value; order_col = order_col; order_val = order_val })))

  -- `base64_decode`: the bytes, if they are UTF-8
  unfoldable pub base64_decode : Text → Option Text
  base64_decode input = if_valid (is_utf8 (decode_bytes input)) (decode_bytes input)

  abbrev pub parse_cursor : Option CursorData → Result ApiError CursorData
  parse_cursor none = err (bad_request (codes "Invalid cursor format"))
  parse_cursor (some c) = ok c

  unfoldable pub decode_cursor : Text → Result ApiError CursorData
  unfolding base64_decode
  decode_cursor cursor = elim (base64_decode cursor) [
    | none ↦ err (bad_request (codes "Invalid cursor encoding"))
    | some json ↦ parse_cursor (from_str json)
  ]

  -- A cursor that was encoded is decoded to the same data, if the JSON printer prints the data as UTF-8
  -- bytes that the parser reads back.
  pub decode_cursor-encode_cursor :
      (c : CursorData) (json : Text)
      → to_string c ≡ some json
      → from_str json ≡ some c
      → All IsByte json
      → is_utf8 json ≡ true
      → decode_cursor (encode_cursor c.pk_value c.order_col c.order_val) ≡ ok c
  unfolding decode_cursor encode_cursor
  decode_cursor-encode_cursor c json printed parsed bytes utf8 =
      rw (printed, decode_cursor, decode_bytes-base64_encode json bytes, utf8)
        (ap parse_cursor parsed)

  -- A text whose decoded bytes are no UTF-8 and a text whose bytes are no cursor are refused, each with
  -- its message; no other text is refused.
  pub decode_cursor_errors :
      (cursor : Text)
      → (is_utf8 (decode_bytes cursor) ≡ false)
          × (decode_cursor cursor ≡ err (bad_request (codes "Invalid cursor encoding")))
        ⊎ (is_utf8 (decode_bytes cursor) ≡ true)
          × (from_str (decode_bytes cursor) ≡ none)
          × (decode_cursor cursor ≡ err (bad_request (codes "Invalid cursor format")))
        ⊎ ((c : CursorData) × (from_str (decode_bytes cursor) ≡ some c)
            × (decode_cursor cursor ≡ ok c))
  unfolding decode_cursor
  decode_cursor_errors cursor = elim (Bool-cases (is_utf8 (decode_bytes cursor))) [
    | inr bad ↦ inl (bad, rw (bad, decode_cursor))
    | inl good ↦ elim (Option-cases (from_str (decode_bytes cursor))) [
      | inl missing ↦ inr (inl (good, missing, rw (good, decode_cursor, missing)))
      | inr (c, found) ↦ inr (inr (c, found, rw (good, decode_cursor, found)))
    ]
  ]
