-- ===== src/Core/Encode.antt =====
-- The words of the contract ABI as its specification lays them out, for the values that
-- crates/forge-index-core/src/abi/decoder.rs reads from one 32-byte slot, and for byte strings.
pub mod Arguments
use forge_index.Base.{
  ℕ, zero, suc, ◌+◌, ◌-◌, ◌^◌, ◌≤◌, ◌<◌, String, Bool, true, false, List, [], ◌∷◌, ◌++◌, length,
  All, ◌≢◌, if◌then◌else◌, leb, min,
}
use forge_index.Base.Bytes.{to_be, replicate}
use forge_index.Base.Bytes.Digits.{IsByte}
use forge_index.Base.Int.{ℤ, pos, negsuc}
use forge_index.Core.AbiType.{AbiType, AbiParams}
use forge_index.Core.Event.{DecodedParam}
use forge_index.Core.Slot.{Library}

-- a value of one word; an integer carries its width
pub data Word : Type 0 where
  uint : ℕ → ℕ → Word
  int : ℕ → ℤ → Word
  address : ℕ → Word
  boolean : Bool → Word
  fixed_bytes : List ℕ → Word

unfoldable pub word_type : Word → AbiType
word_type (uint bits v) = AbiType.uint bits
word_type (int bits z) = AbiType.int bits
word_type (address a) = AbiType.address
word_type (boolean b) = AbiType.boolean
word_type (fixed_bytes bs) = AbiType.fixed_bytes (length bs)

-- two's complement in 256 bits
abbrev pub twos_complement : ℤ → ℕ
twos_complement (pos n) = n
twos_complement (negsuc n) = 2 ^ 256 - 1 - n

-- the 32 bytes of a word
unfoldable pub word_bytes : Word → List ℕ
word_bytes (uint bits v) = to_be 32 v
word_bytes (int bits z) = to_be 32 (twos_complement z)
word_bytes (address a) = to_be 32 a
word_bytes (boolean b) = to_be 32 (if b then 1 else 0)
word_bytes (fixed_bytes bs) = bs ++ replicate (32 - length bs) 0

-- a signed number in so many bits; the least negative half of `int128` is left out
abbrev pub FitsInt : ℕ → ℤ → Type 0
FitsInt zero z = ⊥
FitsInt (suc k) (pos n) = (k < 256) × (n < 2 ^ k)
FitsInt (suc k) (negsuc n) = (k < 256) × (n < 2 ^ k) × (k ≢ 127)

abbrev pub Fits : Word → Type 0
Fits (uint bits v) = (bits ≤ 256) × (v < 2 ^ bits)
Fits (int bits z) = FitsInt bits z
Fits (address a) = a < 2 ^ 160
Fits (boolean b) = Unit
Fits (fixed_bytes bs) = (length bs ≤ 32) × All IsByte bs

-- what the word decodes to: a number up to 128 bits, and its decimal text above
module _ (lib : Library) where
  abbrev pub signed_text : ℤ → String
  signed_text (pos n) = lib.decimal n
  signed_text (negsuc n) = String.◌∷◌ "-" (lib.decimal (suc n))

  unfoldable pub word_value : Word → DecodedParam
  word_value (uint bits v) =
      if leb bits 128 then DecodedParam.uint v else DecodedParam.uint256 (lib.decimal v)
  word_value (int bits z) =
      if leb bits 128 then DecodedParam.int z else DecodedParam.int256 (signed_text z)
  word_value (address a) = DecodedParam.address a
  word_value (boolean b) = DecodedParam.boolean b
  word_value (fixed_bytes bs) = DecodedParam.fixed_bytes bs
