-- ===== src/Api/Examples.antt =====
-- The theorems about crates/forge-index-api/src at concrete inputs.
use forge_index.Base.{ℕ, ◌≡◌, Bool, true, ◌&&◌, Option, some, List, [], ◌∷◌, arith, ltb}
use forge_index.Base.Json.{string}
use forge_index.Base.Text.{Text, codes}
use forge_index.Api.Pagination.{base64_encode, decode_bytes}
use forge_index.Api.Pagination.Base64.{decode_bytes-base64_encode}
use forge_index.Api.Pagination.Cursor.{CursorData}

abbrev cursor : CursorData
cursor = record { pk_value = codes "7"; order_col = codes "name"; order_val = string (codes "a") }

-- a printer that knows one cursor, and its parser
abbrev print_cursor : CursorData → Option Text
print_cursor c = some (codes "{7}")

abbrev parse : Text → Option CursorData
parse t = some cursor

abbrev is_ascii : List ℕ → Bool
is_ascii [] = true
is_ascii (b ∷ bs) = ltb b 128 && is_ascii bs

decode_bytes-base64_encode_example : decode_bytes (base64_encode (104 ∷ 255 ∷ [])) ≡ 104 ∷ 255 ∷ []
decode_bytes-base64_encode_example =
    decode_bytes-base64_encode (104 ∷ 255 ∷ []) (omega arith, (omega arith, tt))
