-- ===== src/Core/Decoder/Totality.antt =====
-- Events whose arguments are all single words: `LogDecoder::decode` in
-- crates/forge-index-core/src/abi/decoder.rs never panics on their logs.
use forge_index.Base.{
  ℕ, suc, ◌+◌, ◌-◌, ◌^◌, ◌<◌, ◌≤◌, String, List, [], ◌∷◌, ◌++◌, none, ◌≡◌, refl, ap, subst, ◌∙◌,
  arith, length, get_elem?, get_elem?_inside, get_elem?_outside, true, false, ◌⊎◌, inl, inr, ltb,
  lt→ltb, ge→ltb, Bool-cases, ltb→lt, ltb→ge, take, drop,
}
use forge_index.Base.Bytes.{to_be, slice}
use forge_index.Base.Exec.{Result, ok, err}
use forge_index.Base.Fallible.{◌>>=◌}
use forge_index.Base.Maps.{Map, insert, string_key}
use forge_index.Base.Text.{Text, codes, show_nat}
use forge_index.Base.Word.{wrapping_add, wrapping_add-eq}
use forge_index.Core.Abi.{AbiError}
use forge_index.Core.AbiType.{AbiType, AbiParams, AbiEvent}
use forge_index.Core.Decoder.{
  decode, decode_indexed_param, decode_param_from_data, decode_inputs, new,
}
use forge_index.Core.Decoder.Events.{Unshadowed, event_of, decode_known, add_events_finds}
use forge_index.Core.Decoder.RoundTrip.{inputs_done, data_step, topic_step}
use forge_index.Core.Event.{DecodedParam}
use forge_index.Core.Slot.{Fault, Library, read_slot, mismatch}
use forge_index.Core.Types.{Log}

abbrev pub IsWord : AbiType → Type 0
IsWord (AbiType.uint bits) = Unit
IsWord (AbiType.int bits) = Unit
IsWord AbiType.address = Unit
IsWord AbiType.boolean = Unit
IsWord (AbiType.fixed_bytes n) = Unit
IsWord t = ⊥

abbrev pub AllWords : AbiParams → Type 0
AllWords AbiParams.nil = Unit
AllWords (AbiParams.cons name t indexed rest) = IsWord t × AllWords rest

-- how many topics and how many bytes of data the parameters take
abbrev pub topics_needed : AbiParams → ℕ
topics_needed AbiParams.nil = 0
topics_needed (AbiParams.cons name t true rest) = suc (topics_needed rest)
topics_needed (AbiParams.cons name t false rest) = topics_needed rest

abbrev pub bytes_needed : AbiParams → ℕ
bytes_needed AbiParams.nil = 0
bytes_needed (AbiParams.cons name t true rest) = bytes_needed rest
bytes_needed (AbiParams.cons name t false rest) = 32 + bytes_needed rest

-- success with enough topics and data, an error without
abbrev pub Decided :
    {A : Type 0} → (topics topics_wanted bytes bytes_wanted : ℕ) → Result Fault A → Type 0
Decided {A} topics topics_wanted bytes bytes_wanted r =
    (topics_wanted ≤ topics) × (bytes_wanted ≤ bytes) × ((a : A) × (r ≡ ok a))
    ⊎ (((topics < topics_wanted) ⊎ (bytes < bytes_wanted)) × ((e : _) × (r ≡ err (Fault.failed e))))

read_slot_inside :
    (payload : List ℕ) (offset : ℕ)
    → offset + 32 < 2 ^ 64
    → offset + 32 ≤ length payload
    → (slot : List ℕ) × (read_slot payload offset ≡ ok slot)
unfolding read_slot slice
read_slot_inside payload offset h inside =
    let end = wrapping_add-eq offset 32 h in
    (
      take (wrapping_add offset 32 - offset) (drop offset payload),
      rw
          (
            ge→ltb (length payload) (wrapping_add offset 32) (omega arith),
            ge→ltb (wrapping_add offset 32) offset (omega arith),
          )
          refl,
    )

short_data : List ℕ → ℕ → Text
short_data payload offset =
    codes "data too short: need 32 bytes at offset "
    ++ (show_nat offset ++ (codes ", have " ++ show_nat (length payload)))

read_slot_outside :
    (payload : List ℕ) (offset : ℕ)
    → offset + 32 < 2 ^ 64
    → length payload < offset + 32
    → read_slot payload offset ≡ mismatch (short_data payload offset)
unfolding read_slot short_data
read_slot_outside payload offset h outside =
    let end = wrapping_add-eq offset 32 h in
    rw (lt→ltb (length payload) (wrapping_add offset 32) (omega arith)) refl

along :
    {A : Type 0} (topics bytes topics_wanted topics_wanted' bytes_wanted bytes_wanted' : ℕ)
    (r r' : Result Fault A)
    → topics_wanted ≡ topics_wanted'
    → bytes_wanted ≡ bytes_wanted'
    → r' ≡ r
    → Decided topics topics_wanted bytes bytes_wanted r
    → Decided topics topics_wanted' bytes bytes_wanted' r'
along topics bytes tw tw' bw bw' r r' e f g (inl (ht, hb, (a, p))) =
    inl (omega arith, omega arith, (a, g ∙ p))
along topics bytes tw tw' bw bw' r r' e f g (inr (inl h, (a, p))) =
    inr (inl (omega arith), (a, g ∙ p))
along topics bytes tw tw' bw bw' r r' e f g (inr (inr h, (a, p))) =
    inr (inr (omega arith), (a, g ∙ p))

module _ (lib : Library) where
  word_read :
      (t : AbiType) (payload : List ℕ) (offset : ℕ)
      → IsWord t
      → decode_param_from_data lib t payload offset
        ≡ (read_slot payload offset >>= λ slot. ok (decode_indexed_param lib t slot, 32))
  unfolding decode_param_from_data decode_indexed_param
  word_read (AbiType.uint bits) payload offset h = refl
  word_read (AbiType.int bits) payload offset h = refl
  word_read AbiType.address payload offset h = refl
  word_read AbiType.boolean payload offset h = refl
  word_read (AbiType.fixed_bytes n) payload offset h = refl
  word_read AbiType.bytes payload offset h = elim h [ ]
  word_read AbiType.string payload offset h = elim h [ ]
  word_read (AbiType.array t) payload offset h = elim h [ ]
  word_read (AbiType.fixed_array t n) payload offset h = elim h [ ]
  word_read (AbiType.tuple ps) payload offset h = elim h [ ]

  topic_missing :
      (name : String) (t : AbiType) (rest : AbiParams) (log : Log) (topic_idx offset : ℕ)
      (params : Map String DecodedParam)
      → get_elem? log.topics topic_idx ≡ none
      → decode_inputs lib log (AbiParams.cons name t true rest) topic_idx offset params
        ≡ err (
            Fault.failed (
              AbiError.decode_mismatch
                (codes "missing topic for indexed param '" ++ (codes name ++ codes "'"))))
  unfolding decode_inputs mismatch
  topic_missing name t rest log topic_idx offset params absent = rw (absent, decode_inputs) refl

  data_missing :
      (name : String) (t : AbiType) (rest : AbiParams) (log : Log) (topic_idx offset : ℕ)
      (params : Map String DecodedParam) {text : Text}
      → decode_param_from_data lib t log.payload offset
        ≡ (mismatch text >>= λ slot. ok (decode_indexed_param lib t slot, 32))
      → decode_inputs lib log (AbiParams.cons name t false rest) topic_idx offset params
        ≡ err (Fault.failed (AbiError.decode_mismatch text))
  unfolding decode_inputs mismatch
  data_missing name t rest log topic_idx offset params read =
      ap
        (λ r. r >>= λ (v, consumed).
          decode_inputs lib log rest topic_idx (wrapping_add offset consumed)
            (insert string_key name v params))
        read

  decode_inputs-Decided :
      (log : Log) (ps : AbiParams) (topic_idx offset : ℕ) (params : Map String DecodedParam)
      → AllWords ps
      → topic_idx ≤ length log.topics
      → offset ≤ length log.payload
      → offset + bytes_needed ps < 2 ^ 64
      → Decided
          (length log.topics)
          (topic_idx + topics_needed ps)
          (length log.payload)
          (offset + bytes_needed ps)
          (decode_inputs lib log ps topic_idx offset params)
  decode_inputs-Decided log AbiParams.nil topic_idx offset params _ ht hp h =
      inl (omega arith, omega arith, (params, inputs_done lib log topic_idx offset params))
  decode_inputs-Decided log (AbiParams.cons name t true rest) topic_idx offset params (word, words)
        ht hp h =
      elim (Bool-cases (ltb topic_idx (length log.topics))) [
        | inl inside ↦
            let (topic, found) =
              get_elem?_inside log.topics topic_idx (ltb→lt topic_idx (length log.topics) inside) in
            let value = decode_indexed_param lib t (to_be 32 topic) in
            along (length log.topics) (length log.payload) (suc topic_idx + topics_needed rest)
              (topic_idx + suc (topics_needed rest)) (offset + bytes_needed rest)
              (offset + bytes_needed rest)
              (decode_inputs lib log rest (suc topic_idx) offset
                (insert string_key name value params))
              (decode_inputs lib log (AbiParams.cons name t true rest) topic_idx offset params)
              (omega arith) refl
              (topic_step lib name t rest log topic_idx offset topic params value found refl)
              (decode_inputs-Decided log rest (suc topic_idx) offset
                (insert string_key name value params) words
                (omega (arith, ltb→lt topic_idx (length log.topics) inside)) hp h)
        | inr outside ↦
            let beyond = ltb→ge topic_idx (length log.topics) outside in
            inr (
              inl (omega arith),
              (
                _,
                topic_missing name t rest log topic_idx offset params
                    (get_elem?_outside log.topics topic_idx beyond),
              ),
            )
      ]
  decode_inputs-Decided log (AbiParams.cons name t false rest) topic_idx offset params (word, words)
        ht hp h =
      elim (Bool-cases (ltb (length log.payload) (offset + 32))) [
        | inl outside ↦
            let short = ltb→lt (length log.payload) (offset + 32) outside in
            inr (
              inr (omega arith),
              (
                _,
                data_missing name t rest log topic_idx offset params (
                    word_read t log.payload offset word
                    ∙ ap (λ r. r >>= λ slot. ok (decode_indexed_param lib t slot, 32))
                        (read_slot_outside log.payload offset (omega arith) short)),
              ),
            )
        | inr inside ↦
            let enough = ltb→ge (length log.payload) (offset + 32) inside in
            let (slot, read) = read_slot_inside log.payload offset (omega arith) enough in
            let value = decode_indexed_param lib t slot in
            let next = wrapping_add-eq offset 32 (omega arith) in
            along (length log.topics) (length log.payload) (topic_idx + topics_needed rest)
              (topic_idx + topics_needed rest) (wrapping_add offset 32 + bytes_needed rest)
              (offset + (32 + bytes_needed rest))
              (decode_inputs lib log rest topic_idx (wrapping_add offset 32)
                (insert string_key name value params))
              (decode_inputs lib log (AbiParams.cons name t false rest) topic_idx offset params)
              refl (omega arith)
              (data_step lib name t rest log topic_idx offset params value (
                word_read t log.payload offset word
                ∙ ap (λ r. r >>= λ slot. ok (decode_indexed_param lib t slot, 32)) read))
              (decode_inputs-Decided log rest topic_idx (wrapping_add offset 32)
                (insert string_key name value params) words ht (omega arith) (omega arith))
      ]

after_inputs :
    {A B : Type 0} (f : A → B) (topics bytes topics_wanted bytes_wanted : ℕ) (r : Result Fault A)
    (r' : Result Fault B)
    → r' ≡ (r >>= λ a. ok (f a))
    → Decided (suc topics) (suc topics_wanted) bytes bytes_wanted r
    → Decided topics topics_wanted bytes bytes_wanted r'
after_inputs f topics bytes tw bw r r' e (inl (ht, hb, (a, p))) =
    inl (omega arith, hb, (f a, e ∙ ap (λ x. x >>= λ a. ok (f a)) p))
after_inputs f topics bytes tw bw r r' e (inr (inl h, (a, p))) =
    inr (inl (omega arith), (a, e ∙ ap (λ x. x >>= λ a. ok (f a)) p))
after_inputs f topics bytes tw bw r r' e (inr (inr h, (a, p))) =
    inr (inr h, (a, e ∙ ap (λ x. x >>= λ a. ok (f a)) p))

-- Decoding the log of an event whose arguments are all words ends without a panic, for any other
-- topics and any data: with a topic for every indexed argument and 32 bytes for every other one it
-- gives an event, and with fewer it gives an error. The event is the last of its selector in the ABI
-- and the bytes it takes are less than 2^64.
pub decode-Decided :
    (lib : Library) (event : AbiEvent) (before after : List AbiEvent) (log : Log)
    (contract_name : String) (topics : List ℕ)
    → Unshadowed event after
    → AllWords event.inputs
    → log.topics ≡ event.selector ∷ topics
    → bytes_needed event.inputs < 2 ^ 64
    → Decided
        (length topics)
        (topics_needed event.inputs)
        (length log.payload)
        (bytes_needed event.inputs)
        (decode lib (new (before ++ event ∷ after)) log contract_name)
unfolding new
decode-Decided lib event before after log contract_name topics apart words layout bound =
    let found = add_events_finds event before after [] apart in
    let size = ap length layout in
    after_inputs (event_of event log contract_name) (length topics) (length log.payload)
      (topics_needed event.inputs) (bytes_needed event.inputs)
      (decode_inputs lib log event.inputs 1 0 [])
      (decode lib (new (before ++ event ∷ after)) log contract_name)
      (decode_known lib event (new (before ++ event ∷ after)) log contract_name topics layout found)
      (subst
        (λ n.
          Decided n (suc (topics_needed event.inputs)) (length log.payload)
            (bytes_needed event.inputs) (decode_inputs lib log event.inputs 1 0 []))
        size
        (along (length log.topics) (length log.payload) (1 + topics_needed event.inputs)
          (suc (topics_needed event.inputs)) (0 + bytes_needed event.inputs)
          (bytes_needed event.inputs) (decode_inputs lib log event.inputs 1 0 [])
          (decode_inputs lib log event.inputs 1 0 []) (omega arith) (omega arith) refl
          (decode_inputs-Decided lib log event.inputs 1 0 [] words (omega arith) (omega arith)
            (omega arith))))
