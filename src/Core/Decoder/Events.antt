-- ===== src/Core/Decoder/Events.antt =====
-- The decoder of a parsed ABI on the log of one of its events: `LogDecoder::new` and
-- `LogDecoder::decode` in crates/forge-index-core/src/abi/decoder.rs.
use forge_index.Base.{
  ℕ, ◌^◌, ◌<◌, String, List, [], ◌∷◌, ◌++◌, some, none, ◌≡◌, ◌≢◌, refl, ap, ◌∙◌, arith, length, All,
}
use forge_index.Base.Exec.{Result, ok, err}
use forge_index.Core.Abi.{AbiError}
use forge_index.Base.Fallible.{◌>>=◌}
use forge_index.Base.Maps.{Map, get, insert, get-insert, get-insert_self, nat_key}
use forge_index.Core.AbiType.{AbiEvent}
use forge_index.Core.Decoder.{decode, decode_inputs, new, add_events}
use forge_index.Core.Decoder.RoundTrip.{decode_inputs_all}
use forge_index.Core.Encode.Arguments.{
  Arguments, AreArguments, inputs, topic_words, data_bytes, head_size, expected_params,
}
use forge_index.Core.Event.{DecodedEvent, DecodedParam}
use forge_index.Core.Slot.{Fault, Library}
use forge_index.Core.Types.{Log}

-- no later event takes the selector
abbrev pub Unshadowed : AbiEvent → List AbiEvent → Type 0
Unshadowed event = All (λ e. e.selector ≢ event.selector)

add_events_apart :
    (event : AbiEvent) (rest : List AbiEvent) (events : Map ℕ AbiEvent)
    → Unshadowed event rest
    → get nat_key event.selector events ≡ some event
    → get nat_key event.selector (add_events rest events) ≡ some event
unfolding add_events
add_events_apart event [] events h known = known
add_events_apart event (e ∷ rest) events (apart, h) known =
    add_events_apart event rest (insert nat_key e.selector e events) h
      (get-insert nat_key e.selector event.selector e events ∙ ground (arith, known))

pub add_events_finds :
    (event : AbiEvent) (before after : List AbiEvent) (events : Map ℕ AbiEvent)
    → Unshadowed event after
    → get nat_key event.selector (add_events (before ++ event ∷ after) events) ≡ some event
unfolding add_events
add_events_finds event [] after events h =
    add_events_apart event after (insert nat_key event.selector event events) h
      (get-insert_self nat_key event.selector event events)
add_events_finds event (e ∷ before) after events h =
    add_events_finds event before after (insert nat_key e.selector e events) h

abbrev pub event_of : AbiEvent → Log → String → Map String DecodedParam → DecodedEvent
event_of event log contract_name params = record {
  name = event.name;
  contract_name = contract_name;
  params = params;
  raw_log = log;
}

pub decode_known :
    (lib : Library) (event : AbiEvent) (events : Map ℕ AbiEvent) (log : Log)
    (contract_name : String) (topics : List ℕ)
    → log.topics ≡ event.selector ∷ topics
    → get nat_key event.selector events ≡ some event
    → decode lib events log contract_name ≡ (
        decode_inputs lib log event.inputs 1 0 [] >>= λ params.
        ok (event_of event log contract_name params))
unfolding decode
decode_known lib event events log contract_name topics layout found =
    let finish = decode_inputs lib log in
    let last : AbiEvent → Result Fault DecodedEvent =
      λ e. finish e.inputs 1 0 [] >>= λ params. ok (event_of e log contract_name params) in
    let unknown = err (Fault.failed AbiError.invalid_selector) in
    ap
      (λ ts. elim ts [
        | [] ↦ unknown
        | selector ∷ _ ↦ elim (get nat_key selector events) [ none ↦ unknown | some e ↦ last e ]
      ])
      layout
    ∙ ap (λ o. elim o [ none ↦ unknown | some e ↦ last e ]) found

-- Decoding undoes encoding: the decoder made from an ABI that has an event, and no later event of the
-- same selector, decodes the log of that event (its selector and indexed arguments in the topics,
-- the other arguments in the data, laid out by the contract ABI, of less than 2^64 bytes) to the
-- event's name and the map that results from entering, in order, every argument's value under its
-- name: of arguments with one name (those without a name have the empty one) the last stays. The
-- arguments are words that
-- fit their types (negative numbers of `int128` excepted), byte strings and texts in the data, and
-- hashes of dynamic values in topics.
pub decode-encoded :
    (lib : Library) (event : AbiEvent) (before after : List AbiEvent) (args : Arguments) (log : Log)
    (contract_name : String)
    → Unshadowed event after
    → event.inputs ≡ inputs args
    → AreArguments args
    → log.topics ≡ event.selector ∷ topic_words args
    → log.payload ≡ data_bytes args
    → length log.payload < 2 ^ 64
    → decode lib (new (before ++ event ∷ after)) log contract_name
      ≡ ok (event_of event log contract_name (expected_params lib args []))
unfolding decode new data_bytes
decode-encoded lib event before after args log contract_name apart typed valid topics layout bound =
    let found = add_events_finds event before after [] apart in
    let params : decode_inputs lib log event.inputs 1 0 [] ≡ ok (expected_params lib args []) =
      ap (λ ps. decode_inputs lib log ps 1 0 []) typed
      ∙ decode_inputs_all lib args log [] [] (event.selector ∷ []) 1 0 (head_size args) [] valid
          layout refl (omega arith) topics refl bound in
    decode_known lib event (new (before ++ event ∷ after)) log contract_name (topic_words args)
      topics found
    ∙ ap (λ r. r >>= λ ps. ok (event_of event log contract_name ps)) params
