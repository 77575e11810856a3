-- ===== src/Core/Slot/Words.antt =====
-- A 32-byte word read back as a number, an offset, a signed number, an address, a flag or bytes:
-- crates/forge-index-core/src/abi/decoder.rs.
use forge_index.Base.{ℕ, ◌+◌, ◌*◌, ◌^◌, ◌<◌, true, [], ◌≡◌, ap, ◌∙◌}
use forge_index.Base.Bytes.{
  from_be, to_be, be_before, without_bytes, without_bytes_zero, from_be-to_be,
}
use forge_index.Base.Bytes.Digits.{be_before_above}
use forge_index.Base.Exec.{ok}
use forge_index.Core.Slot.{all_zero, u256_to_usize, low_u128}

-- the low half of a word is what stands below 128 bits
pub low_u128_above : (q r : ℕ) → r < 2 ^ 128 → low_u128 (to_be 32 (q * 2 ^ 128 + r)) ≡ r
unfolding low_u128 to_be
low_u128_above q r h = ap from_be (be_before_above 16 q r []) ∙ from_be-to_be 16 r h

pub low_u128-to_be : (v : ℕ) → v < 2 ^ 128 → low_u128 (to_be 32 v) ≡ v
unfolding low_u128 to_be
low_u128-to_be v h = from_be-to_be 16 v h

pub u256_to_usize-to_be : (v : ℕ) → v < 2 ^ 64 → u256_to_usize (to_be 32 v) ≡ ok v
unfolding u256_to_usize to_be
u256_to_usize-to_be v h =
    let none_above : all_zero (be_before 24 (without_bytes 8 v) []) ≡ true =
      ap (λ w. all_zero (be_before 24 w [])) (without_bytes_zero 8 v h) in
    rw (none_above) (ap ok (from_be-to_be 8 v h))
