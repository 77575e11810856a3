-- ===== src/Core/HexText.antt =====
-- Hashes and addresses as text: crates/forge-index-core/src/types/hash.rs and address.rs. A hash is the
-- number that its 32 bytes spell, an address the number that its 20 bytes spell. The hexadecimal codec
-- and the digest are parameters; the digest's text is longer than an address's.
pub mod RoundTrip
use forge_index.Base.{
  ℕ, ◌+◌, ◌-◌, ◌*◌, ◌<◌, Bool, true, false, ◌&&◌, ◌||◌, Option, none, some, List, [], ◌∷◌, ◌++◌,
  ltb, leb, ◌==◌, if◌then◌else◌,
}
use forge_index.Base.Bytes.{to_be, from_be}
use forge_index.Base.Search.{strip_prefix, byte_len}
use forge_index.Base.Text.{Text, codes}

pub record HexLibrary : Type 0 where
  pub hex_encode : List ℕ → Text
  pub hex_decode : Text → Option (List ℕ)
  pub keccak256 : Text → List ℕ

abbrev pub is_lower : ℕ → Bool
is_lower c = leb b'a' c && leb c b'z'

-- a hexadecimal digit of 8 or more
abbrev pub is_high : ℕ → Bool
is_high d = (d == b'8') || (d == b'9') || (leb b'a' d && leb d b'f') || (leb b'A' d && leb d b'F')

abbrev pub upper_if : Bool → ℕ → ℕ
upper_if high c = if is_lower c && high then c - 32 else c

-- the letters of a text in upper case where the digest's digit is high
unfoldable pub checksum_case : (hash_hex lower : Text) → Text
checksum_case hash_hex [] = []
checksum_case [] (c ∷ s) = c ∷ checksum_case [] s
checksum_case (d ∷ hash_hex) (c ∷ s) = upper_if (is_high d) c ∷ checksum_case hash_hex s

abbrev pub strip_0x : Text → Text
strip_0x s = elim (strip_prefix (codes "0x") s) [ none ↦ s | some t ↦ t ]

abbrev pub number_of : Option (List ℕ) → Option ℕ
number_of none = none
number_of (some bs) = some (from_be bs)

module _ (lib : HexLibrary) where
  unfoldable pub hash_text : ℕ → Text
  hash_text h = codes "0x" ++ lib.hex_encode (to_be 32 h)

  unfoldable pub address_text : ℕ → Text
  address_text a =
      let lower = lib.hex_encode (to_be 20 a) in
      codes "0x" ++ checksum_case (lib.hex_encode (lib.keccak256 lower)) lower

  -- `from_hex`, for a text of so many digits
  unfoldable pub from_hex : ℕ → Text → Option ℕ
  from_hex size s =
      if byte_len (strip_0x s) == size then number_of (lib.hex_decode (strip_0x s)) else none
