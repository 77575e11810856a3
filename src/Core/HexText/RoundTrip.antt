-- ===== src/Core/HexText/RoundTrip.antt =====
-- Hashes and addresses are read back from their texts: crates/forge-index-core/src/types.
use forge_index.Base.{
  ℕ, zero, suc, ◌+◌, ◌*◌, ◌/◌, ◌%◌, ◌^◌, ◌<◌, ◌≡◌, refl, ap, ◌∙◌, Bool, none, some, List, [], ◌∷◌,
  ◌++◌, length, All, arith, ==_iff, if◌then◌else◌,
}
use forge_index.Base.Bytes.{be_before, to_be, from_be-to_be, length-be_before}
use forge_index.Base.Search.{byte_len, utf8_len}
use forge_index.Base.Text.{Text, codes}
use forge_index.Core.HexText.{
  HexLibrary, is_high, upper_if, checksum_case, strip_0x, number_of, hash_text, address_text,
  from_hex,
}

-- what the codec does: two digits a byte, which are read back whatever the case of their letters
pub record IsHex (lib : HexLibrary) : Type 0 where
  pub size : (bs : List ℕ) → All (λ b. b < 256) bs → byte_len (lib.hex_encode bs) ≡ 2 * length bs
  pub decoded : (bs : List ℕ) → All (λ b. b < 256) bs → lib.hex_decode (lib.hex_encode bs) ≡ some bs
  pub caseless : (hash_hex s : Text) → lib.hex_decode (checksum_case hash_hex s) ≡ lib.hex_decode s

All-be_before :
    (k v : ℕ) (rest : List ℕ) → All (λ b. b < 256) rest → All (λ b. b < 256) (be_before k v rest)
All-be_before zero v rest h = h
All-be_before (suc k) v rest h = All-be_before k (v / 256) (v % 256 ∷ rest) (omega arith, h)

All-to_be : (k v : ℕ) → All (λ b. b < 256) (to_be k v)
unfolding to_be
All-to_be k v = All-be_before k v [] tt

length-to_be : (k v : ℕ) → length (to_be k v) ≡ k
unfolding to_be
length-to_be k v = length-be_before k v [] ∙ omega arith

utf8_len-upper_if : (high : Bool) (c : ℕ) → utf8_len (upper_if high c) ≡ utf8_len c
utf8_len-upper_if high c = ground arith

byte_len-checksum_case : (hash_hex s : Text) → byte_len (checksum_case hash_hex s) ≡ byte_len s
unfolding checksum_case
byte_len-checksum_case hash_hex [] = refl
byte_len-checksum_case [] (c ∷ s) = ap (λ n. utf8_len c + n) (byte_len-checksum_case [] s)
byte_len-checksum_case (d ∷ hash_hex) (c ∷ s) =
    ap (λ n. n + byte_len (checksum_case hash_hex s)) (utf8_len-upper_if (is_high d) c)
    ∙ ap (λ n. utf8_len c + n) (byte_len-checksum_case hash_hex s)

strip_0x-prefixed : (t : Text) → strip_0x (codes "0x" ++ t) ≡ t
strip_0x-prefixed t = refl

module _ (lib : HexLibrary) (hex : IsHex lib) where
  -- a text after its prefix that has the size and decodes to the bytes of a number
  from_hex_digits :
      (size k v : ℕ) (t : Text)
      → byte_len t ≡ size
      → lib.hex_decode t ≡ some (to_be k v)
      → v < 256 ^ k
      → from_hex lib size (codes "0x" ++ t) ≡ some v
  unfolding from_hex
  from_hex_digits size k v t fits read small =
      ap (λ b. if b then number_of (lib.hex_decode t) else none) ((==_iff (byte_len t) size).1 fits)
      ∙ (ap number_of read ∙ ap some (from_be-to_be k v small))

  pub from_hex-hash_text : (h : ℕ) → h < 256 ^ 32 → from_hex lib 64 (hash_text lib h) ≡ some h
  unfolding hash_text
  from_hex-hash_text h small =
      let all = All-to_be 32 h in
      from_hex_digits 64 32 h (lib.hex_encode (to_be 32 h))
        (hex.size (to_be 32 h) all ∙ ap (λ n. 2 * n) (length-to_be 32 h))
        (hex.decoded (to_be 32 h) all) small

  pub from_hex-address_text : (a : ℕ) → a < 256 ^ 20 → from_hex lib 40 (address_text lib a) ≡ some a
  unfolding address_text
  from_hex-address_text a small =
      let all = All-to_be 20 a in
      let lower = lib.hex_encode (to_be 20 a) in
      let hash_hex = lib.hex_encode (lib.keccak256 lower) in
      from_hex_digits 40 20 a (checksum_case hash_hex lower)
        (byte_len-checksum_case hash_hex lower
          ∙ (hex.size (to_be 20 a) all ∙ ap (λ n. 2 * n) (length-to_be 20 a)))
        (hex.caseless hash_hex lower ∙ hex.decoded (to_be 20 a) all) small
