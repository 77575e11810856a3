-- ===== src/Core/Examples.antt =====
-- The log of a transfer with an indexed sender, a negative amount, a note and the hash of a tag, and
-- logs that the decoder gets wrong: crates/forge-index-core/src/abi/decoder.rs.
use forge_index.Base.{◌≡◌, ◌-◌, ◌^◌, ◌++◌, refl, [], ◌∷◌, true, false, arith, length}
use forge_index.Base.Bytes.{to_be}
use forge_index.Base.Exec.{ok, err}
use forge_index.Base.Int.{negsuc}
use forge_index.Core.AbiType.{AbiType, AbiParams, AbiEvent}
use forge_index.Core.Decoder.{decode, new, decode_param_from_data}
use forge_index.Core.Decoder.Events.{event_of, decode-encoded}
use forge_index.Core.Decoder.Totality.{Decided, decode-Decided}
use forge_index.Core.Decoder.Faults.{huge_length_panics}
use forge_index.Core.Encode.{Word, word_type, word_bytes, word_value}
use forge_index.Core.Encode.Arguments.{
  Value, Argument, Arguments, value_type, inputs, topic_words, padding, tail, head, heads, tails,
  head_size, data_bytes, expected_value, expected, expected_params,
}
use forge_index.Core.Event.{DecodedParam}
use forge_index.Core.Slot.{Fault, Library}
use forge_index.Core.Types.{Log}

abbrev lib : Library
lib = record { decimal = λ n. "0"; lossy = λ bs. "hi"; can_allocate = λ n. true }

abbrev transfer_args : Arguments
transfer_args =
    ("from", Argument.indexed (Word.address 7))
    ∷ ("amount", Argument.plain (Value.word (Word.int 64 (negsuc 4))))
    ∷ ("note", Argument.plain (Value.string (104 ∷ 105 ∷ [])))
    ∷ ("tag", Argument.hashed AbiType.string 99)
    ∷ []

abbrev transfer : AbiEvent
transfer = record {
  name = "Transfer";
  signature = [];
  selector = 1234;
  inputs = AbiParams.cons "from" AbiType.address true (
      AbiParams.cons "amount" (AbiType.int 64) false (
        AbiParams.cons "note" AbiType.string false
          (AbiParams.cons "tag" AbiType.string true AbiParams.nil)));
}

abbrev transfer_log : Log
transfer_log = record {
  id = "log";
  chain_id = 1;
  address = 5;
  topics = 1234 ∷ topic_words transfer_args;
  payload = data_bytes transfer_args;
  block_number = 1;
  block_hash = 2;
  transaction_hash = 3;
  log_index = 0;
  transaction_index = 0;
  removed = false;
}

transfer_inputs : transfer.inputs ≡ inputs transfer_args
unfolding inputs value_type word_type
transfer_inputs = refl

transfer_size : length (data_bytes transfer_args) ≡ 128
unfolding data_bytes heads tails head tail head_size word_bytes padding to_be
transfer_size = refl

decode-encoded_example :
    decode lib (new (transfer ∷ [])) transfer_log "Token"
    ≡ ok (
        event_of transfer transfer_log "Token" (
          ("from", DecodedParam.address 7)
          ∷ ("amount", DecodedParam.int (negsuc 4))
          ∷ ("note", DecodedParam.string "hi")
          ∷ ("tag", DecodedParam.fixed_bytes (to_be 32 99))
          ∷ []))
unfolding expected_params expected expected_value word_value
decode-encoded_example =
    decode-encoded lib transfer [] [] transfer_args transfer_log "Token" tt transfer_inputs
      (omega arith, ((omega arith, omega arith, omega arith), (tt, (tt, tt)))) refl refl
      (omega (arith, transfer_size))

huge_length_panics_example :
    decode_param_from_data lib AbiType.bytes (to_be 32 32 ++ (to_be 32 (2 ^ 64 - 1) ++ (1 ∷ []))) 0
    ≡ err Fault.panicked
huge_length_panics_example =
    huge_length_panics lib (2 ^ 64 - 1) (1 ∷ []) (omega arith) (omega arith) (omega arith)

abbrev deposit : AbiEvent
deposit = record {
  name = "Deposit";
  signature = [];
  selector = 1234;
  inputs =
      AbiParams.cons "who" AbiType.address true
        (AbiParams.cons "amount" (AbiType.uint 256) false AbiParams.nil);
}

-- its data are cut off
abbrev short_log : Log
short_log = record {
  id = "log";
  chain_id = 1;
  address = 5;
  topics = 1234 ∷ 7 ∷ [];
  payload = 1 ∷ [];
  block_number = 1;
  block_hash = 2;
  transaction_hash = 3;
  log_index = 0;
  transaction_index = 0;
  removed = false;
}

decode-Decided_example : Decided 1 1 1 32 (decode lib (new (deposit ∷ [])) short_log "Token")
decode-Decided_example =
    decode-Decided lib deposit [] [] short_log "Token" (7 ∷ []) tt (tt, (tt, tt)) refl (omega arith)
