-- ===== src/Core/Decoder/RoundTrip.antt =====
-- Decoding the log of an encoded event: crates/forge-index-core/src/abi/decoder.rs.
use forge_index.Base.{
  ℕ, zero, suc, ◌+◌, ◌-◌, ◌/◌, ◌%◌, ◌^◌, ◌<◌, String, true, false, List, [], ◌∷◌, ◌++◌,
  append_assoc, some, ◌≡◌, refl, sym, ap, ◌∙◌, arith, length, length-append, get_elem?, All,
  All-append,
}
use forge_index.Base.Bytes.{from_be, to_be, be_before, length-to_be, replicate}
use forge_index.Base.Bytes.Digits.{IsByte, to_be-from_be}
use forge_index.Base.Exec.{ok}
use forge_index.Base.Fallible.{◌>>=◌}
use forge_index.Base.Maps.{Map, insert, string_key}
use forge_index.Base.Word.{wrapping_add, wrapping_add-eq}
use forge_index.Core.AbiType.{AbiType, AbiParams}
use forge_index.Core.Decoder.{
  decode_indexed_param, decode_param_from_data, decode_dynamic_bytes, decode_inputs,
}
use forge_index.Core.Decoder.Reads.{read_slot_middle, read_offset_middle, read_bytes_middle}
use forge_index.Core.Encode.{Word, word_type, word_bytes, word_value, Fits}
use forge_index.Core.Encode.Arguments.{
  Value, Argument, Arguments, value_type, inputs, topic_words, padding, tail, head, heads, tails,
  head_size, IsHashed, IsValue, AreArguments, expected_value, expected, expected_params,
}
use forge_index.Core.Event.{DecodedParam}
use forge_index.Core.Slot.{Library, read_slot, padded_len}
use forge_index.Core.Slot.Values.{indexed_word}
use forge_index.Core.Types.{Log}

be_before_bytes : (k v : ℕ) (rest : List ℕ) → All IsByte rest → All IsByte (be_before k v rest)
be_before_bytes zero v rest h = h
be_before_bytes (suc k) v rest h = be_before_bytes k (v / 256) (v % 256 ∷ rest) (omega arith, h)

replicate_bytes : (n : ℕ) → All IsByte (replicate n 0)
replicate_bytes zero = tt
replicate_bytes (suc n) = (omega arith, replicate_bytes n)

length-replicate : (n b : ℕ) → length (replicate n b) ≡ n
length-replicate zero b = refl
length-replicate (suc n) b = ap suc (length-replicate n b)

word_bytes_size : (w : Word) → Fits w → length (word_bytes w) ≡ 32
unfolding word_bytes
word_bytes_size (Word.uint bits v) h = length-to_be 32 v
word_bytes_size (Word.int bits z) h = length-to_be 32 _
word_bytes_size (Word.address a) h = length-to_be 32 a
word_bytes_size (Word.boolean b) h = length-to_be 32 _
word_bytes_size (Word.fixed_bytes bs) (h, _) =
    omega
      (arith, length-append bs (replicate (32 - length bs) 0), length-replicate (32 - length bs) 0)

word_bytes-All : (w : Word) → Fits w → All IsByte (word_bytes w)
unfolding word_bytes to_be
word_bytes-All (Word.uint bits v) h = be_before_bytes 32 v [] tt
word_bytes-All (Word.int bits z) h = be_before_bytes 32 _ [] tt
word_bytes-All (Word.address a) h = be_before_bytes 32 a [] tt
word_bytes-All (Word.boolean b) h = be_before_bytes 32 _ [] tt
word_bytes-All (Word.fixed_bytes bs) (h, all) =
    All-append IsByte bs (replicate (32 - length bs) 0) all (replicate_bytes (32 - length bs))

-- a topic holds the bytes of its word
topic_bytes : (w : Word) → Fits w → to_be 32 (from_be (word_bytes w)) ≡ word_bytes w
topic_bytes w h =
    ap (λ n. to_be n (from_be (word_bytes w))) (sym (word_bytes_size w h))
    ∙ to_be-from_be (word_bytes w) (word_bytes-All w h)

length-head : (offset : ℕ) (v : Value) → IsValue v → length (head offset v) ≡ 32
unfolding head
length-head offset (Value.word w) h = word_bytes_size w h
length-head offset (Value.bytes bs) h = length-to_be 32 offset
length-head offset (Value.string bs) h = length-to_be 32 offset

length-heads :
    (args : Arguments) (offset : ℕ)
    → AreArguments args
    → length (heads offset args) ≡ head_size args
unfolding heads head_size
length-heads [] offset _ = refl
length-heads ((name, Argument.plain v) ∷ args) offset (h, hs) = omega (
  arith,
  length-append (head offset v) (heads (offset + length (tail v)) args),
  length-head offset v h,
  length-heads args (offset + length (tail v)) hs,
)
length-heads ((name, Argument.indexed w) ∷ args) offset (h, hs) = length-heads args offset hs
length-heads ((name, Argument.hashed t n) ∷ args) offset (h, hs) = length-heads args offset hs

group_tail : (a b c d e : List ℕ) → a ++ (b ++ (c ++ (d ++ e))) ≡ (a ++ (b ++ (c ++ d))) ++ e
group_tail a b c d e = simp append_assoc refl

group_head :
    (a b c d e f : List ℕ) → a ++ (b ++ (c ++ (d ++ (e ++ f)))) ≡ (a ++ b) ++ (c ++ ((d ++ e) ++ f))
group_head a b c d e f = simp append_assoc refl

next_topic :
    (log : Log) (done : List ℕ) (topic : ℕ) (rest : List ℕ) (topic_idx : ℕ)
    → log.topics ≡ done ++ topic ∷ rest
    → topic_idx ≡ length done
    → get_elem? log.topics topic_idx ≡ some topic
next_topic log done topic rest topic_idx layout place =
    ap (λ ts. get_elem? ts topic_idx) layout
    ∙ (ap (get_elem? (done ++ topic ∷ rest)) place ∙ at_front done)
  where
    at_front : (xs : List ℕ) → get_elem? (xs ++ topic ∷ rest) (length xs) ≡ some topic
    at_front [] = refl
    at_front (x ∷ xs) = at_front xs

module _ (lib : Library) where
  hashed_topic :
      (t : AbiType) (slot : List ℕ)
      → IsHashed t
      → decode_indexed_param lib t slot ≡ DecodedParam.fixed_bytes slot
  unfolding decode_indexed_param
  hashed_topic (AbiType.uint bits) slot h = elim h [ ]
  hashed_topic (AbiType.int bits) slot h = elim h [ ]
  hashed_topic (AbiType.fixed_bytes n) slot h = elim h [ ]
  hashed_topic AbiType.address slot h = elim h [ ]
  hashed_topic AbiType.boolean slot h = elim h [ ]
  hashed_topic AbiType.bytes slot h = refl
  hashed_topic AbiType.string slot h = refl
  hashed_topic (AbiType.array t) slot h = refl
  hashed_topic (AbiType.fixed_array t n) slot h = refl
  hashed_topic (AbiType.tuple ps) slot h = refl

  -- a word in the data is read as one slot and decoded as in a topic
  word_in_data :
      (w : Word) (payload : List ℕ) (offset : ℕ)
      → decode_param_from_data lib (word_type w) payload offset ≡ (
          read_slot payload offset >>= λ slot. ok (decode_indexed_param lib (word_type w) slot, 32))
  unfolding decode_param_from_data word_type decode_indexed_param
  word_in_data (Word.uint bits v) payload offset = refl
  word_in_data (Word.int bits z) payload offset = refl
  word_in_data (Word.address a) payload offset = refl
  word_in_data (Word.boolean b) payload offset = refl
  word_in_data (Word.fixed_bytes bs) payload offset = refl

  bytes_in_data :
      (bs payload before after before_tail after_tail : List ℕ) (offset tail_offset : ℕ)
      → payload ≡ before ++ (to_be 32 tail_offset ++ after)
      → payload ≡ before_tail ++ (tail (Value.bytes bs) ++ after_tail)
      → offset ≡ length before
      → tail_offset ≡ length before_tail
      → length payload < 2 ^ 64
      → decode_dynamic_bytes payload offset ≡ ok (bs, wrapping_add 32 (padded_len (length bs)))
  unfolding decode_dynamic_bytes tail
  bytes_in_data bs payload before after before_tail after_tail offset tail_offset at_head at_tail p
        q bound =
      let inside : tail_offset < 2 ^ 64 = omega (
        arith,
        ap length at_tail,
        length-append before_tail (tail (Value.bytes bs) ++ after_tail),
      ) in
      let word = to_be 32 (length bs) in
      let fill = padding (length bs) in
      let regrouped : payload ≡ before_tail ++ (word ++ (bs ++ (fill ++ after_tail))) =
        at_tail
        ∙ ap (λ ys. before_tail ++ ys)
            (append_assoc word (bs ++ fill) after_tail
              ∙ ap (λ ys. word ++ ys) (append_assoc bs fill after_tail)) in
      rw (read_offset_middle payload before after offset tail_offset at_head p inside bound) (
        read_bytes_middle payload before_tail bs (fill ++ after_tail) tail_offset regrouped q bound)

  -- a value whose head stands at `offset` and whose tail stands where the head says
  value_in_data :
      (v : Value) (payload before after before_tail after_tail : List ℕ) (offset tail_offset : ℕ)
      → IsValue v
      → payload ≡ before ++ (head tail_offset v ++ after)
      → payload ≡ before_tail ++ (tail v ++ after_tail)
      → offset ≡ length before
      → tail_offset ≡ length before_tail
      → length payload < 2 ^ 64
      → decode_param_from_data lib (value_type v) payload offset ≡ ok (expected_value lib v, 32)
  unfolding value_type expected_value head tail decode_param_from_data
  value_in_data (Value.word w) payload before after before_tail after_tail offset tail_offset h
        at_head at_tail p q bound =
      word_in_data w payload offset
      ∙ (ap (λ r. r >>= λ slot. ok (decode_indexed_param lib (word_type w) slot, 32))
            (read_slot_middle payload before (word_bytes w) after offset at_head p
              (word_bytes_size w h) bound)
          ∙ ap (λ value. ok (value, 32)) (indexed_word lib w h))
  value_in_data (Value.bytes bs) payload before after before_tail after_tail offset tail_offset h
        at_head at_tail p q bound =
      ap (λ r. r >>= λ (value, _). ok (DecodedParam.bytes value, 32))
        (bytes_in_data bs payload before after before_tail after_tail offset tail_offset at_head
          at_tail p q bound)
  value_in_data (Value.string bs) payload before after before_tail after_tail offset tail_offset h
        at_head at_tail p q bound =
      ap (λ r. r >>= λ (value, _). ok (DecodedParam.string (lib.lossy value), 32))
        (bytes_in_data bs payload before after before_tail after_tail offset tail_offset at_head
          at_tail p q bound)

  pub inputs_done :
      (log : Log) (topic_idx offset : ℕ) (params : Map String DecodedParam)
      → decode_inputs lib log AbiParams.nil topic_idx offset params ≡ ok params
  unfolding decode_inputs
  inputs_done log topic_idx offset params = refl

  -- a parameter in the data, once its value is known
  pub data_step :
      (name : String) (t : AbiType) (rest : AbiParams) (log : Log) (topic_idx offset : ℕ)
      (params : Map String DecodedParam) (value : DecodedParam)
      → decode_param_from_data lib t log.payload offset ≡ ok (value, 32)
      → decode_inputs lib log (AbiParams.cons name t false rest) topic_idx offset params
        ≡ decode_inputs lib log rest topic_idx
            (wrapping_add offset 32)
            (insert string_key name value params)
  unfolding decode_inputs
  data_step name t rest log topic_idx offset params value read =
      ap
        (λ r. r >>= λ (v, consumed).
          decode_inputs lib log rest topic_idx (wrapping_add offset consumed)
            (insert string_key name v params))
        read

  -- a parameter in a topic, once its value is known
  pub topic_step :
      (name : String) (t : AbiType) (rest : AbiParams) (log : Log) (topic_idx offset topic : ℕ)
      (params : Map String DecodedParam) (value : DecodedParam)
      → get_elem? log.topics topic_idx ≡ some topic
      → decode_indexed_param lib t (to_be 32 topic) ≡ value
      → decode_inputs lib log (AbiParams.cons name t true rest) topic_idx offset params
        ≡ decode_inputs lib log rest (suc topic_idx) offset (insert string_key name value params)
  unfolding decode_inputs
  topic_step name t rest log topic_idx offset topic params value found read =
      rw (found, decode_inputs)
        (ap
          (λ v. decode_inputs lib log rest (suc topic_idx) offset (insert string_key name v params))
          read)

  pub decode_inputs_all :
      (args : Arguments) (log : Log) (before middle done : List ℕ)
      (topic_idx offset tail_offset : ℕ) (params : Map String DecodedParam)
      → AreArguments args
      → log.payload ≡ before ++ (heads tail_offset args ++ (middle ++ tails args))
      → offset ≡ length before
      → tail_offset ≡ length before + (head_size args + length middle)
      → log.topics ≡ done ++ topic_words args
      → topic_idx ≡ length done
      → length log.payload < 2 ^ 64
      → decode_inputs lib log (inputs args) topic_idx offset params
        ≡ ok (expected_params lib args params)
  unfolding inputs heads tails head_size topic_words expected_params expected
  decode_inputs_all [] log before middle done topic_idx offset tail_offset params hs layout p q
        topics at bound =
      inputs_done log topic_idx offset params
  decode_inputs_all ((name, Argument.plain v) ∷ args) log before middle done topic_idx offset
        tail_offset params (h, hs) layout p q topics at bound =
      let h1 = head tail_offset v in
      let hs' = heads (tail_offset + length (tail v)) args in
      let ts = tails args in
      let at_head : log.payload ≡ before ++ (h1 ++ (hs' ++ (middle ++ (tail v ++ ts)))) =
        layout ∙ ap (λ ys. before ++ ys) (append_assoc h1 hs' (middle ++ (tail v ++ ts))) in
      let at_tail : log.payload ≡ (before ++ (h1 ++ (hs' ++ middle))) ++ (tail v ++ ts) =
        at_head ∙ group_tail before h1 hs' middle (tail v ++ ts) in
      let next : log.payload ≡ (before ++ h1) ++ (hs' ++ ((middle ++ tail v) ++ ts)) =
        at_head ∙ group_head before h1 hs' middle (tail v) ts in
      let all = ap length at_head in
      let size = length-append before (h1 ++ (hs' ++ (middle ++ (tail v ++ ts)))) in
      let size1 = length-append h1 (hs' ++ (middle ++ (tail v ++ ts))) in
      let width = length-head tail_offset v h in
      let front = length-append before h1 in
      let forward = wrapping_add-eq offset 32 (omega arith) in
      data_step name (value_type v) (inputs args) log topic_idx offset params (expected_value lib v)
        (value_in_data v log.payload before (hs' ++ (middle ++ (tail v ++ ts)))
          (before ++ (h1 ++ (hs' ++ middle))) ts offset tail_offset h at_head at_tail p
          (omega (
            arith,
            length-append before (h1 ++ (hs' ++ middle)),
            length-append h1 (hs' ++ middle),
            length-append hs' middle,
            length-heads args (tail_offset + length (tail v)) hs,
          ))
          bound)
      ∙ decode_inputs_all args log (before ++ h1) (middle ++ tail v) done topic_idx
          (wrapping_add offset 32) (tail_offset + length (tail v))
          (insert string_key name (expected_value lib v) params) hs next (omega arith)
          (omega (arith, length-append middle (tail v))) topics at bound
  decode_inputs_all ((name, Argument.indexed w) ∷ args) log before middle done topic_idx offset
        tail_offset params (h, hs) layout p q topics at bound =
      let topic = from_be (word_bytes w) in
      topic_step name (word_type w) (inputs args) log topic_idx offset topic params
        (word_value lib w) (next_topic log done topic (topic_words args) topic_idx topics at)
        (ap (decode_indexed_param lib (word_type w)) (topic_bytes w h) ∙ indexed_word lib w h)
      ∙ decode_inputs_all args log before middle (done ++ topic ∷ []) (suc topic_idx) offset
          tail_offset (insert string_key name (word_value lib w) params) hs layout p q
          (topics ∙ sym (append_assoc done (topic ∷ []) (topic_words args)))
          (omega (arith, length-append done (topic ∷ []))) bound
  decode_inputs_all ((name, Argument.hashed t n) ∷ args) log before middle done topic_idx offset
        tail_offset params (h, hs) layout p q topics at bound =
      topic_step name t (inputs args) log topic_idx offset n params
        (DecodedParam.fixed_bytes (to_be 32 n))
        (next_topic log done n (topic_words args) topic_idx topics at)
        (hashed_topic t (to_be 32 n) h)
      ∙ decode_inputs_all args log before middle (done ++ n ∷ []) (suc topic_idx) offset tail_offset
          (insert string_key name (DecodedParam.fixed_bytes (to_be 32 n)) params) hs layout p q
          (topics ∙ sym (append_assoc done (n ∷ []) (topic_words args)))
          (omega (arith, length-append done (n ∷ []))) bound
