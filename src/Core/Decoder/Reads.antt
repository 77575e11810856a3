-- ===== src/Core/Decoder/Reads.antt =====
-- What the decoder reads from data that is known around an offset:
-- crates/forge-index-core/src/abi/decoder.rs.
use forge_index.Base.{
  ℕ, ◌^◌, ◌<◌, List, ◌++◌, append_assoc, some, ◌≡◌, refl, sym, ap, ◌∙◌, arith, ge→ltb, length,
  length-append, min,
}
use forge_index.Base.Bytes.{to_be, slice, slice_middle, length-to_be}
use forge_index.Base.Exec.{ok}
use forge_index.Base.Fallible.{◌>>=◌}
use forge_index.Base.Word.{wrapping_add, wrapping_add-eq}
use forge_index.Core.Decoder.{read_offset, read_bytes}
use forge_index.Core.Slot.{or_panic, read_slot, u256_to_usize, padded_len}
use forge_index.Core.Slot.Words.{u256_to_usize-to_be}

pub read_slot_middle :
    (payload before slot after : List ℕ) (offset : ℕ)
    → payload ≡ before ++ (slot ++ after)
    → offset ≡ length before
    → length slot ≡ 32
    → length payload < 2 ^ 64
    → read_slot payload offset ≡ ok slot
unfolding read_slot
read_slot_middle payload before slot after offset layout place size bound =
    let all = ap length layout in
    let front = length-append before (slot ++ after) in
    let back = length-append slot after in
    let end = wrapping_add-eq offset 32 (omega arith) in
    let inside = ge→ltb (length payload) (wrapping_add offset 32) (omega arith) in
    rw (inside) (
      ap (λ p. or_panic (slice p offset (wrapping_add offset 32))) layout
      ∙ ap or_panic
          (slice_middle before slot after offset (wrapping_add offset 32) place (omega arith)))

pub read_offset_middle :
    (payload before after : List ℕ) (offset v : ℕ)
    → payload ≡ before ++ (to_be 32 v ++ after)
    → offset ≡ length before
    → v < 2 ^ 64
    → length payload < 2 ^ 64
    → read_offset payload offset ≡ ok v
unfolding read_offset
read_offset_middle payload before after offset v layout place h bound =
    ap (λ r. r >>= u256_to_usize)
      (read_slot_middle payload before (to_be 32 v) after offset layout place (length-to_be 32 v)
        bound)
    ∙ u256_to_usize-to_be v h

pub read_bytes_middle :
    (payload before bs after : List ℕ) (offset : ℕ)
    → payload ≡ before ++ (to_be 32 (length bs) ++ (bs ++ after))
    → offset ≡ length before
    → length payload < 2 ^ 64
    → read_bytes payload offset ≡ ok (bs, wrapping_add 32 (padded_len (length bs)))
unfolding read_bytes
read_bytes_middle payload before bs after offset layout place bound =
    let word = to_be 32 (length bs) in
    let all = ap length layout in
    let front = length-append before (word ++ (bs ++ after)) in
    let middle = length-append word (bs ++ after) in
    let back = length-append bs after in
    let width = length-to_be 32 (length bs) in
    let start = wrapping_add-eq offset 32 (omega arith) in
    let end = wrapping_add-eq (wrapping_add offset 32) (length bs) (omega arith) in
    let stop = min (wrapping_add (wrapping_add offset 32) (length bs)) (length payload) in
    let regrouped : payload ≡ (before ++ word) ++ (bs ++ after) =
      layout ∙ sym (append_assoc before word (bs ++ after)) in
    let found : slice payload (wrapping_add offset 32) stop ≡ some bs =
      ap (λ p. slice p (wrapping_add offset 32) stop) regrouped
      ∙ slice_middle (before ++ word) bs after (wrapping_add offset 32) stop
          (omega (arith, length-append before word)) (omega arith) in
    rw
      (
        read_offset_middle payload before (bs ++ after) offset (length bs) layout place
            (omega arith) bound,
        found,
      )
      refl
