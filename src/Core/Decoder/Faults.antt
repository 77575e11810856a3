-- ===== src/Core/Decoder/Faults.antt =====
-- Where the decoder fails: crates/forge-index-core/src/abi/decoder.rs.
use forge_index.Base.{
  ℕ, ◌+◌, ◌-◌, ◌*◌, ◌^◌, ◌<◌, ◌≤◌, List, [], ◌++◌, some, none, ◌≡◌, refl, sym, ap, ◌∙◌, arith,
  length, length-append, true, if◌then◌else◌, ltb, lt→ltb, min, ◌%◌, ◌/◌, ◌==◌, take, drop,
}
use forge_index.Base.Bytes.{to_be, slice, length-to_be}
use forge_index.Base.Exec.{err}
use forge_index.Base.Int.{negsuc}
use forge_index.Base.Word.{wrapping_add}
use forge_index.Core.AbiType.{AbiType}
use forge_index.Core.Decoder.{decode_param_from_data, decode_dynamic_bytes, read_bytes}
use forge_index.Core.Decoder.Reads.{read_offset_middle}
use forge_index.Core.Event.{DecodedParam}
use forge_index.Core.Slot.{
  Fault, Library, decode_int, low_u128, or_mask, has_sign_bit, sign_extend, to_i128,
}
use forge_index.Core.Slot.Words.{low_u128_above}

-- A negative `int128`, with its sign extended to 256 bits as the contract ABI writes it, is always
-- decoded as -1.
pub int128_negative_lost :
    (lib : Library) (n : ℕ)
    → n < 2 ^ 127
    → decode_int lib (to_be 32 (2 ^ 256 - 1 - n)) 128 ≡ DecodedParam.int (negsuc 0)
unfolding decode_int sign_extend has_sign_bit or_mask to_i128
int128_negative_lost lib n h =
    let split : 2 ^ 256 - 1 - n ≡ (2 ^ 128 - 1) * 2 ^ 128 + (2 ^ 128 - 1 - n) = omega arith in
    let raw : low_u128 (to_be 32 (2 ^ 256 - 1 - n)) ≡ 2 ^ 128 - 1 - n =
      ap (λ v. low_u128 (to_be 32 v)) split
      ∙ low_u128_above (2 ^ 128 - 1) (2 ^ 128 - 1 - n) (omega arith) in
    let quotient : (2 ^ 128 - 1 - n) / 2 ^ 127 % 2 ≡ 1 = omega arith in
    let bit : has_sign_bit (2 ^ 128 - 1 - n) 128 ≡ true = ap (λ q. q == 1) quotient in
    let masked : or_mask (2 ^ 128 - 1 - n) 128 ≡ 2 ^ 128 - 1 = omega arith in
    ap (λ r. DecodedParam.int (sign_extend r 128)) raw
    ∙ rw (bit) (ap (λ m. DecodedParam.int (to_i128 m)) masked)

-- A byte string whose length word is so large that the end of its bytes wraps around 64 bits makes
-- the decoder panic: the data are the offset 32, a length of at least 2^64 - 64 and any bytes.
pub huge_length_panics :
    (lib : Library) (len : ℕ) (rest : List ℕ)
    → 2 ^ 64 - 64 ≤ len
    → len < 2 ^ 64
    → 64 + length rest < 2 ^ 64
    → decode_param_from_data lib AbiType.bytes (to_be 32 32 ++ (to_be 32 len ++ rest)) 0
      ≡ err Fault.panicked
unfolding decode_param_from_data decode_dynamic_bytes read_bytes slice
huge_length_panics lib len rest low high bound =
    let payload = to_be 32 32 ++ (to_be 32 len ++ rest) in
    let size : length payload < 2 ^ 64 = omega (
      arith,
      length-append (to_be 32 32) (to_be 32 len ++ rest),
      length-append (to_be 32 len) rest,
      length-to_be 32 32,
      length-to_be 32 len,
    ) in
    let stop = min (wrapping_add 64 len) (length payload) in
    let outside : slice payload 64 stop ≡ none =
      ap
        (λ b.
          if b
          then none
          else if ltb (length payload) stop
          then none
          else some (take (stop - 64) (drop 64 payload)))
        (lt→ltb stop 64 (omega arith)) in
    rw
      (
        read_offset_middle payload [] (to_be 32 len ++ rest) 0 32 refl refl (omega arith) size,
        read_offset_middle payload (to_be 32 32) rest 32 len refl (sym (length-to_be 32 32)) high
            size,
        outside,
      )
      refl
