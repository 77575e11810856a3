-- ===== src/Core/AbiParser/TypeText.antt =====
-- The types that a text names: `parse_type_string` in crates/forge-index-core/src/abi/parser.rs. The
-- recursion runs on fuel, one more than the characters of the text, and each round takes two at least.
pub mod RoundTrip
use forge_index.Base.{
  ℕ, zero, suc, Bool, true, false, Option, none, some, List, [], ◌∷◌, ◌==◌, if◌then◌else◌, length,
  reverse,
}
use forge_index.Base.Decimal.{parse_u64}
use forge_index.Base.Exec.{Result, ok, err}
use forge_index.Base.Search.{strip_prefix, ends_with}
use forge_index.Base.Text.{Text, codes, text_eq}
use forge_index.Core.Abi.{AbiError}
use forge_index.Core.AbiType.{
  AbiType, uint, int, fixed_bytes, address, boolean, bytes, string, array, fixed_array,
}

abbrev pub reversed : Option Text → Option Text
reversed none = none
reversed (some text) = some (reverse text)

abbrev pub strip_suffix : Text → Text → Option Text
strip_suffix p text = reversed (strip_prefix (reverse p) (reverse text))

abbrev pub put_front : ℕ → Option (Text × Text) → Option (Text × Text) → Option (Text × Text)
put_front c none here = here
put_front c (some (before, after)) here = some (c ∷ before, after)

-- `rfind`: the text before the last place of the character, and the text behind it
abbrev pub rsplit : ℕ → Text → Option (Text × Text)
rsplit c [] = none
rsplit c (d ∷ text) = put_front d (rsplit c text) (if d == c then some ([], text) else none)

-- the text without its last character
abbrev pub init : Text → Text
init [] = []
init (c ∷ []) = []
init (c ∷ d ∷ text) = c ∷ init (d ∷ text)

abbrev pub bits_or_256 : Option ℕ → ℕ
bits_or_256 none = 256
bits_or_256 (some bits) = bits

abbrev pub sized_bytes : Text → Option ℕ → Result AbiError AbiType
sized_bytes s none = err (AbiError.unknown_type s)
sized_bytes s (some n) = ok (fixed_bytes n)

-- a type that starts with `uint`, `int` or `bytes`, or none
abbrev pub prefixed : Text → Option Text → Option Text → Option Text → Result AbiError AbiType
prefixed s (some bits) i b = ok (uint (bits_or_256 (parse_u64 bits)))
prefixed s none (some bits) b = ok (int (bits_or_256 (parse_u64 bits)))
prefixed s none none (some n) = sized_bytes s (parse_u64 n)
prefixed s none none none = err (AbiError.unknown_type s)

-- the type of a text without brackets
unfoldable pub elementary : Text → Result AbiError AbiType
elementary s =
    if text_eq s (codes "address")
    then ok address
    else if text_eq s (codes "bool")
    then ok boolean
    else if text_eq s (codes "string")
    then ok string
    else if text_eq s (codes "bytes")
    then ok bytes
    else prefixed s (strip_prefix (codes "uint") s) (strip_prefix (codes "int") s)
        (strip_prefix (codes "bytes") s)

-- the size in the last brackets and the text before them, if the text ends so
abbrev pub sized : Option (Text × Text) → Option (Text × ℕ)
sized none = none
sized (some (inner, rest)) = elim (parse_u64 (init rest)) [ none ↦ none | some n ↦ some (inner, n) ]

abbrev pub fixed_size : Text → Option (Text × ℕ)
fixed_size s = if ends_with (codes "]") s then sized (rsplit b'[' s) else none

abbrev pub wrap :
    (AbiType → AbiType) → Option (Result AbiError AbiType) → Option (Result AbiError AbiType)
wrap f none = none
wrap f (some (err e)) = some (err e)
wrap f (some (ok t)) = some (ok (f t))

-- what the text's end says: an array, an array of a size, or no array
abbrev pub by_end :
    (Text → Option (Result AbiError AbiType))
    → Text
    → Option Text
    → Option (Text × ℕ)
    → Option (Result AbiError AbiType)
by_end parse s (some inner) size = wrap array (parse inner)
by_end parse s none (some (inner, n)) = wrap (λ t. fixed_array t n) (parse inner)
by_end parse s none none = some (elementary s)

-- none where the fuel runs out
unfoldable pub parse_type : ℕ → Text → Option (Result AbiError AbiType)
parse_type zero s = none
parse_type (suc fuel) s = by_end (parse_type fuel) s (strip_suffix (codes "[]") s) (fixed_size s)

abbrev pub or_unknown : Text → Option (Result AbiError AbiType) → Result AbiError AbiType
or_unknown s none = err (AbiError.unknown_type s)
or_unknown s (some r) = r

unfoldable pub parse_type_string : Text → Result AbiError AbiType
parse_type_string s = or_unknown s (parse_type (suc (length s)) s)
