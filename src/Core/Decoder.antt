-- ===== src/Core/Decoder.antt =====
-- The log decoder: crates/forge-index-core/src/abi/decoder.rs. A topic is the number its 32 bytes
-- spell, `usize` has 64 bits.
pub mod Reads
pub mod RoundTrip
pub mod Events
pub mod Faults
pub mod Totality
use forge_index.Base.{
  ℕ, zero, suc, ◌+◌, String, Bool, true, false, List, [], ◌∷◌, ◌++◌, Option, none, some,
  if◌then◌else◌, length, get_elem?, min,
}
use forge_index.Base.Bytes.{to_be, slice}
use forge_index.Base.Exec.{Result, ok, err}
use forge_index.Base.Fallible.{◌>>=◌, ◌>>◌}
use forge_index.Base.Maps.{Map, get, insert, string_key, nat_key}
use forge_index.Base.Text.{codes}
use forge_index.Base.Word.{wrapping_add, wrapping_mul, wrapping_sub}
use forge_index.Core.Abi.{AbiError}
use forge_index.Core.AbiType.{AbiType, AbiParams, AbiEvent, is_dynamic, any_dynamic, count}
use forge_index.Core.Event.{DecodedParam, DecodedParams, DecodedEvent}
use forge_index.Core.Slot.{
  Fault, Library, or_panic, mismatch, read_slot, u256_to_usize, padded_len, decode_uint, decode_int,
  address_of, bool_of, fixed_bytes_of,
}
use forge_index.Core.Types.{Log}

-- `for _ in 0..n`: the items, and the position after them
abbrev pub decode_items :
    (ℕ → Result Fault (DecodedParam × ℕ)) → (n position : ℕ) → Result Fault (DecodedParams × ℕ)
decode_items decode zero position = ok (DecodedParams.nil, position)
decode_items decode (suc n) position = decode position >>= λ (item, consumed).
    decode_items decode n (wrapping_add position consumed) >>= λ (items, end).
    ok (DecodedParams.cons item items, end)

-- the offset in a head
unfoldable pub read_offset : List ℕ → ℕ → Result Fault ℕ
read_offset payload head = read_slot payload head >>= u256_to_usize

-- the bytes whose length stands at an absolute offset
unfoldable pub read_bytes : List ℕ → ℕ → Result Fault (List ℕ × ℕ)
read_bytes payload offset = read_offset payload offset >>= λ len.
    or_panic (
      slice payload (wrapping_add offset 32)
        (min (wrapping_add (wrapping_add offset 32) len) (length payload)))
    >>= λ value. ok (value, wrapping_add 32 (padded_len len))

unfoldable pub decode_dynamic_bytes : List ℕ → ℕ → Result Fault (List ℕ × ℕ)
decode_dynamic_bytes payload head = read_offset payload head >>= read_bytes payload

module _ (lib : Library) where
  -- `Vec::with_capacity`
  unfoldable pub with_capacity : ℕ → Result Fault Unit
  with_capacity n = if lib.can_allocate n then ok tt else err Fault.panicked

  unfoldable pub decode_indexed_param : AbiType → List ℕ → DecodedParam
  decode_indexed_param AbiType.address topic = address_of topic
  decode_indexed_param AbiType.boolean topic = bool_of topic
  decode_indexed_param (AbiType.uint bits) topic = decode_uint lib topic bits
  decode_indexed_param (AbiType.int bits) topic = decode_int lib topic bits
  decode_indexed_param (AbiType.fixed_bytes n) topic = fixed_bytes_of n topic
  decode_indexed_param t topic = DecodedParam.fixed_bytes topic

  -- `count` items from `start`, and the bytes they take from `base`
  unfoldable pub items_from :
      (ℕ → Result Fault (DecodedParam × ℕ)) → (n start base : ℕ) → Result Fault (DecodedParams × ℕ)
  items_from decode n start base =
      with_capacity n >> decode_items decode n start >>= λ (items, end).
      ok (items, wrapping_sub end base)

  -- an array at an absolute offset: its length, then its items
  unfoldable pub array_at :
      (ℕ → Result Fault (DecodedParam × ℕ)) → List ℕ → ℕ → Result Fault (DecodedParams × ℕ)
  array_at decode payload offset =
      read_offset payload offset >>= λ len. items_from decode len (wrapping_add offset 32) offset

  unfoldable pub decode_dynamic_array :
      (ℕ → Result Fault (DecodedParam × ℕ)) → List ℕ → ℕ → Result Fault (DecodedParams × ℕ)
  decode_dynamic_array decode payload head = read_offset payload head >>= array_at decode payload

  unfoldable pub decode_fixed_array_dynamic :
      (ℕ → Result Fault (DecodedParam × ℕ)) → ℕ → List ℕ → ℕ → Result Fault (DecodedParams × ℕ)
  decode_fixed_array_dynamic decode len payload head =
      read_offset payload head >>= λ offset. items_from decode len offset offset

  -- `items` is the loop, from a base and a position, and `n` the number of parameters
  unfoldable pub decode_tuple_at :
      ((base position : ℕ) → Result Fault (DecodedParams × ℕ))
      → (n base : ℕ) → Result Fault (DecodedParams × ℕ)
  decode_tuple_at items n base =
      with_capacity n >> items base base >>= λ (values, end). ok (values, wrapping_sub end base)

  unfoldable mutual
    pub decode_param_from_data : AbiType → List ℕ → ℕ → Result Fault (DecodedParam × ℕ)
    decode_param_from_data (AbiType.uint bits) payload offset =
        read_slot payload offset >>= λ slot. ok (decode_uint lib slot bits, 32)
    decode_param_from_data (AbiType.int bits) payload offset =
        read_slot payload offset >>= λ slot. ok (decode_int lib slot bits, 32)
    decode_param_from_data AbiType.address payload offset =
        read_slot payload offset >>= λ slot. ok (address_of slot, 32)
    decode_param_from_data AbiType.boolean payload offset =
        read_slot payload offset >>= λ slot. ok (bool_of slot, 32)
    decode_param_from_data (AbiType.fixed_bytes n) payload offset =
        read_slot payload offset >>= λ slot. ok (fixed_bytes_of n slot, 32)
    decode_param_from_data AbiType.bytes payload offset =
        decode_dynamic_bytes payload offset >>= λ (value, _). ok (DecodedParam.bytes value, 32)
    decode_param_from_data AbiType.string payload offset =
        decode_dynamic_bytes payload offset >>= λ (value, _).
        ok (DecodedParam.string (lib.lossy value), 32)
    decode_param_from_data (AbiType.array inner) payload offset =
        decode_dynamic_array (decode_param_from_data inner payload) payload offset >>= λ (value, _).
        ok (DecodedParam.array value, 32)
    decode_param_from_data (AbiType.fixed_array inner len) payload offset =
        let decode = decode_param_from_data inner payload in
        if is_dynamic inner
        then (decode_fixed_array_dynamic decode len payload offset >>= λ (value, _).
            ok (DecodedParam.array value, 32))
        else items_from decode len offset offset >>= λ (items, _).
            ok (DecodedParam.array items, wrapping_mul 32 len)
    decode_param_from_data (AbiType.tuple params) payload offset =
        let tuple_at = decode_tuple_at (tuple_items params payload) (count params) in
        if any_dynamic params
        then (read_offset payload offset >>= λ base.
            tuple_at base >>= λ (items, _). ok (DecodedParam.tuple items, 32))
        else tuple_at offset >>= λ (items, total). ok (DecodedParam.tuple items, total)

    -- the loop of `decode_tuple_at`
    tuple_items : AbiParams → List ℕ → (base position : ℕ) → Result Fault (DecodedParams × ℕ)
    tuple_items AbiParams.nil payload base position = ok (DecodedParams.nil, position)
    tuple_items (AbiParams.cons name t indexed params) payload base position =
        let decode = decode_param_from_data t payload in
        let decode_at_abs = decode_param_from_data_at_abs t decode payload in
        let rest = tuple_items params payload base in
        (if is_dynamic t
          then (read_offset payload position >>= λ offset.
              decode_at_abs (wrapping_add base offset) >>= λ (value, _). ok (value, 32))
          else decode position)
        >>= λ (value, consumed). rest (wrapping_add position consumed) >>= λ (values, end).
            ok (DecodedParams.cons value values, end)

    -- `decode` is `decode_param_from_data` at the same type, which every other type is left to
    pub decode_param_from_data_at_abs :
        AbiType
        → (ℕ → Result Fault (DecodedParam × ℕ))
        → List ℕ
        → ℕ
        → Result Fault (DecodedParam × ℕ)
    decode_param_from_data_at_abs AbiType.bytes decode payload offset =
        read_bytes payload offset >>= λ (value, consumed). ok (DecodedParam.bytes value, consumed)
    decode_param_from_data_at_abs AbiType.string decode payload offset =
        read_bytes payload offset >>= λ (value, consumed).
        ok (DecodedParam.string (lib.lossy value), consumed)
    decode_param_from_data_at_abs (AbiType.array inner) decode payload offset =
        array_at (decode_param_from_data inner payload) payload offset >>= λ (items, consumed).
        ok (DecodedParam.array items, consumed)
    decode_param_from_data_at_abs t decode payload offset = decode offset

  -- the loop of `LogDecoder::decode`, from a topic, a data offset and the parameters so far
  unfoldable pub decode_inputs :
      Log
      → AbiParams
      → (topic_idx data_offset : ℕ) → Map String DecodedParam
      → Result Fault (Map String DecodedParam)
  decode_inputs log AbiParams.nil topic_idx data_offset params = ok params
  decode_inputs log (AbiParams.cons name t true inputs) topic_idx data_offset params =
      elim (get_elem? log.topics topic_idx) [
        | none ↦ mismatch (codes "missing topic for indexed param '" ++ (codes name ++ codes "'"))
        | some topic ↦
            let value = decode_indexed_param t (to_be 32 topic) in
            decode_inputs log inputs (suc topic_idx) data_offset
              (insert string_key name value params)
      ]
  decode_inputs log (AbiParams.cons name t false inputs) topic_idx data_offset params =
      decode_param_from_data t log.payload data_offset >>= λ (value, consumed).
      decode_inputs log inputs topic_idx (wrapping_add data_offset consumed)
        (insert string_key name value params)

  -- `LogDecoder::decode`, with the events of the decoder by their selectors
  unfoldable pub decode : Map ℕ AbiEvent → Log → String → Result Fault DecodedEvent
  decode events log contract_name = elim log.topics [
    | [] ↦ err (Fault.failed AbiError.invalid_selector)
    | selector ∷ topics ↦ elim (get nat_key selector events) [
      | none ↦ err (Fault.failed AbiError.invalid_selector)
      | some event ↦ decode_inputs log event.inputs 1 0 [] >>= λ params. ok (record {
        name = event.name;
        contract_name = contract_name;
        params = params;
        raw_log = log;
      })
    ]
  ]

-- the loop of `LogDecoder::new`
unfoldable pub add_events : List AbiEvent → Map ℕ AbiEvent → Map ℕ AbiEvent
add_events [] events = events
add_events (event ∷ rest) events = add_events rest (insert nat_key event.selector event events)

unfoldable pub new : List AbiEvent → Map ℕ AbiEvent
new abi = add_events abi []
