-- ===== src/Core/Slot/Values.antt =====
-- Every word decodes to the value it encodes: crates/forge-index-core/src/abi/decoder.rs.
use forge_index.Base.{
  ℕ, zero, suc, ◌+◌, ◌-◌, ◌*◌, ◌/◌, ◌%◌, ◌^◌, ◌<◌, ◌≤◌, String, true, false, [], ◌++◌, ◌≡◌, refl,
  ap, ◌∙◌, arith, if◌then◌else◌, ◌==◌, leb, leb→le, Bool-cases, inl, inr, min, length, take,
}
use forge_index.Base.Bytes.{from_be, to_be, from_be-to_be, take_front, replicate}
use forge_index.Base.Bytes.Digits.{be_before_front, without_bytes_eq}
use forge_index.Base.Int.{ℤ, pos, negsuc}
use forge_index.Core.Decoder.{decode_indexed_param}
use forge_index.Core.Encode.{
  Word, word_type, word_bytes, word_value, Fits, FitsInt, twos_complement, signed_text,
}
use forge_index.Core.Event.{DecodedParam}
use forge_index.Core.Slot.{
  Library, decode_uint, decode_int, low_u128, byte_at, sign_extend, twos_complement_256_str,
  address_of, bool_of, fixed_bytes_of,
}
use forge_index.Core.Slot.Signed.{sign_extend_pos, sign_extend_negsuc, power_bound}
use forge_index.Core.Slot.Words.{low_u128_above, low_u128-to_be}

abbrev top_bit : ℕ → ℕ
top_bit v = byte_at (to_be 32 v) 0 / 128 % 2

first_byte : (v : ℕ) → byte_at (to_be 32 v) 0 ≡ v / 256 ^ 31 % 256
unfolding byte_at to_be
first_byte v =
    ap (λ slot. byte_at slot 0) (be_before_front 31 v [])
    ∙ ap (λ n. n % 256) (without_bytes_eq 31 v)

top_bit_clear : (v : ℕ) → v < 2 ^ 255 → (top_bit v == 1) ≡ false
top_bit_clear v h =
    let bit : v / 256 ^ 31 % 256 / 128 % 2 ≡ 0 = omega arith in
    ap (λ n. n / 128 % 2 == 1) (first_byte v) ∙ ap (λ n. n == 1) bit

top_bit_set : (v : ℕ) → 2 ^ 255 ≤ v → v < 2 ^ 256 → (top_bit v == 1) ≡ true
top_bit_set v h k =
    let bit : v / 256 ^ 31 % 256 / 128 % 2 ≡ 1 = omega arith in
    ap (λ n. n / 128 % 2 == 1) (first_byte v) ∙ ap (λ n. n == 1) bit

module _ (lib : Library) where
  uint_value :
      (bits v : ℕ)
      → bits ≤ 256
      → v < 2 ^ bits
      → decode_uint lib (to_be 32 v) bits ≡ word_value lib (Word.uint bits v)
  unfolding decode_uint word_value
  uint_value bits v hb h = elim (Bool-cases (leb bits 128)) [
    | inl narrow ↦
        let bound = power_bound bits 128 (leb→le bits 128 narrow) in
        rw (narrow) (ap DecodedParam.uint (low_u128-to_be v (omega arith)))
    | inr wide ↦
        let bound = power_bound bits 256 hb in
        rw (wide)
          (ap (λ n. DecodedParam.uint256 (lib.decimal n)) (from_be-to_be 32 v (omega arith)))
  ]

  narrow_int :
      (k : ℕ) (z : ℤ)
      → k < 128
      → FitsInt (suc k) z
      → sign_extend (low_u128 (to_be 32 (twos_complement z))) (suc k) ≡ z
  narrow_int k (pos n) hk (_, h) =
      ap (λ raw. sign_extend raw (suc k))
        (low_u128-to_be n (omega (arith, power_bound k 128 (omega arith))))
      ∙ sign_extend_pos k n hk h
  narrow_int k (negsuc n) hk (_, h, apart) =
      let split : 2 ^ 256 - 1 - n ≡ (2 ^ 128 - 1) * 2 ^ 128 + (2 ^ 128 - 1 - n) =
        omega (arith, power_bound k 128 (omega arith)) in
      ap (λ v. sign_extend (low_u128 (to_be 32 v)) (suc k)) split
      ∙ (ap (λ raw. sign_extend raw (suc k))
            (low_u128_above (2 ^ 128 - 1) (2 ^ 128 - 1 - n) (omega arith))
          ∙ sign_extend_negsuc k n (omega arith) h)

  wide_int :
      (k : ℕ) (z : ℤ)
      → FitsInt (suc k) z
      → (if top_bit (twos_complement z) == 1
          then DecodedParam.int256
              (String.◌∷◌ "-" (twos_complement_256_str lib (to_be 32 (twos_complement z))))
          else DecodedParam.int256 (lib.decimal (from_be (to_be 32 (twos_complement z)))))
        ≡ DecodedParam.int256 (signed_text lib z)
  unfolding twos_complement_256_str
  wide_int k (pos n) (hk, h) =
      let bound = power_bound k 255 (omega arith) in
      rw (top_bit_clear n (omega arith))
        (ap (λ m. DecodedParam.int256 (lib.decimal m)) (from_be-to_be 32 n (omega arith)))
  wide_int k (negsuc n) (hk, h, _) =
      let bound = power_bound k 255 (omega arith) in
      let v = 2 ^ 256 - 1 - n in
      let back : (2 ^ 256 - 1 - v + 1) % 2 ^ 256 ≡ suc n = omega arith in
      rw (top_bit_set v (omega arith) (omega arith)) (
        ap
          (λ m.
            DecodedParam.int256 (String.◌∷◌ "-" (lib.decimal ((2 ^ 256 - 1 - m + 1) % 2 ^ 256))))
          (from_be-to_be 32 v (omega arith))
        ∙ ap (λ m. DecodedParam.int256 (String.◌∷◌ "-" (lib.decimal m))) back)

  int_value :
      (bits : ℕ) (z : ℤ)
      → FitsInt bits z
      → decode_int lib (to_be 32 (twos_complement z)) bits ≡ word_value lib (Word.int bits z)
  unfolding decode_int word_value
  int_value zero z h = elim h [ ]
  int_value (suc k) z h = elim (Bool-cases (leb (suc k) 128)) [
    | inl narrow ↦ rw (narrow) (ap DecodedParam.int (narrow_int k z (leb→le (suc k) 128 narrow) h))
    | inr wide ↦ rw (wide) (wide_int k z h)
  ]

  -- A word that fits its type, in a topic or in the data, decodes to the value it encodes.
  pub indexed_word :
      (w : Word) → Fits w → decode_indexed_param lib (word_type w) (word_bytes w) ≡ word_value lib w
  unfolding decode_indexed_param word_value word_type word_bytes address_of bool_of fixed_bytes_of
      byte_at to_be from_be
  indexed_word (Word.uint bits v) (hb, h) = uint_value bits v hb h
  indexed_word (Word.int bits z) h = int_value bits z h
  indexed_word (Word.address a) h = ap DecodedParam.address (from_be-to_be 20 a h)
  indexed_word (Word.boolean true) h = refl
  indexed_word (Word.boolean false) h = refl
  indexed_word (Word.fixed_bytes bs) (h, _) =
      let shorter : min (length bs) 32 ≡ length bs = omega arith in
      ap (λ n. DecodedParam.fixed_bytes (take n (bs ++ replicate (32 - length bs) 0))) shorter
      ∙ ap DecodedParam.fixed_bytes (take_front bs (replicate (32 - length bs) 0))
