-- ===== src/Core/Slot.antt =====
-- One 32-byte slot of a log's data: crates/forge-index-core/src/abi/decoder.rs, as a release build
-- runs it, where sums of offsets wrap around. A Rust panic is a fault of its own.
pub mod Words
pub mod Signed
pub mod Values
use forge_index.Base.{
  ℕ, zero, suc, ◌+◌, ◌-◌, ◌*◌, ◌/◌, ◌%◌, ◌^◌, String, Bool, true, false, not, List, [], ◌∷◌, ◌++◌,
  Option, none, some, if◌then◌else◌, ltb, leb, ◌==◌, length, get_elem?, take, drop, min,
}
use forge_index.Base.Bytes.{from_be, slice}
use forge_index.Base.Exec.{Result, ok, err}
use forge_index.Base.Int.{ℤ, pos, negsuc}
use forge_index.Base.Text.{Text, codes, show_nat}
use forge_index.Base.Word.{wrapping_add, wrapping_mul, wrapping_sub}
use forge_index.Core.Abi.{AbiError}
use forge_index.Core.Event.{DecodedParam}

-- an error that the decoder returns, or a panic
pub data Fault : Type 0 where
  failed : AbiError → Fault
  panicked : Fault

-- What the decoder takes from outside: the decimal text of a 256-bit number, the lossy reading of
-- UTF-8, and whether a vector of so many parameters can be allocated.
pub record Library : Type 0 where
  pub decimal : ℕ → String
  pub lossy : List ℕ → String
  pub can_allocate : ℕ → Bool

abbrev pub or_panic : {A : Type 0} → Option A → Result Fault A
or_panic none = err Fault.panicked
or_panic (some a) = ok a

unfoldable pub mismatch : {A : Type 0} → Text → Result Fault A
mismatch text = err (Fault.failed (AbiError.decode_mismatch text))

unfoldable pub read_slot : List ℕ → ℕ → Result Fault (List ℕ)
read_slot payload offset =
    if ltb (length payload) (wrapping_add offset 32)
    then mismatch (
        codes "data too short: need 32 bytes at offset "
        ++ (show_nat offset ++ (codes ", have " ++ show_nat (length payload))))
    else or_panic (slice payload offset (wrapping_add offset 32))

abbrev pub all_zero : List ℕ → Bool
all_zero [] = true
all_zero (b ∷ bs) = if b == 0 then all_zero bs else false

unfoldable pub u256_to_usize : List ℕ → Result Fault ℕ
u256_to_usize slot =
    if all_zero (take 24 slot)
    then ok (from_be (drop 24 slot))
    else mismatch (codes "offset too large")

unfoldable pub padded_len : ℕ → ℕ
padded_len len = wrapping_mul ((len + 31) / 32) 32

unfoldable pub byte_at : List ℕ → ℕ → ℕ
byte_at slot i = elim (get_elem? slot i) [ none ↦ 0 | some b ↦ b ]

-- the low 16 bytes
unfoldable pub low_u128 : List ℕ → ℕ
low_u128 slot = from_be (drop 16 slot)

-- `as i128`
unfoldable pub to_i128 : ℕ → ℤ
to_i128 n = if ltb n (2 ^ 127) then pos n else negsuc (2 ^ 128 - 1 - n)

-- `raw | (!0u128 << bits)`; a shift by 128 or more is taken modulo 128
unfoldable pub or_mask : ℕ → ℕ → ℕ
or_mask raw bits = raw % 2 ^ (bits % 128) + (2 ^ 128 - 2 ^ (bits % 128))

-- `raw & (1u128 << (bits - 1)) != 0`
unfoldable pub has_sign_bit : ℕ → ℕ → Bool
has_sign_bit raw bits = raw / 2 ^ (wrapping_sub bits 1 % 128) % 2 == 1

-- `(raw | mask) as i128` under the sign bit, `raw as i128` without it
unfoldable pub sign_extend : ℕ → ℕ → ℤ
sign_extend raw bits = if has_sign_bit raw bits then to_i128 (or_mask raw bits) else to_i128 raw

module _ (lib : Library) where
  unfoldable pub decode_uint : List ℕ → ℕ → DecodedParam
  decode_uint slot bits =
      if leb bits 128
      then DecodedParam.uint (low_u128 slot)
      else DecodedParam.uint256 (lib.decimal (from_be slot))

  -- `!u + 1` wraps around 256 bits
  unfoldable pub twos_complement_256_str : List ℕ → String
  twos_complement_256_str slot = lib.decimal ((2 ^ 256 - 1 - from_be slot + 1) % 2 ^ 256)

  unfoldable pub decode_int : List ℕ → ℕ → DecodedParam
  decode_int slot bits =
      if leb bits 128
      then DecodedParam.int (sign_extend (low_u128 slot) bits)
      else if byte_at slot 0 / 128 % 2 == 1
      then DecodedParam.int256 (String.◌∷◌ "-" (twos_complement_256_str slot))
      else DecodedParam.int256 (lib.decimal (from_be slot))

unfoldable pub address_of : List ℕ → DecodedParam
address_of slot = DecodedParam.address (from_be (drop 12 slot))

unfoldable pub bool_of : List ℕ → DecodedParam
bool_of slot = DecodedParam.boolean (not (byte_at slot 31 == 0))

unfoldable pub fixed_bytes_of : ℕ → List ℕ → DecodedParam
fixed_bytes_of n slot = DecodedParam.fixed_bytes (take (min n 32) slot)
