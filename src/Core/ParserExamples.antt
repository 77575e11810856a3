-- ===== src/Core/ParserExamples.antt =====
-- The ABI of one event: crates/forge-index-core/src/abi/parser.rs.
use forge_index.Base.{
  ℕ, String, ◌≡◌, refl, true, false, [], ◌∷◌, ◌++◌, arith, length, if◌then◌else◌,
}
use forge_index.Base.Decimal.{parse_u64}
use forge_index.Base.Exec.{Result, ok, err}
use forge_index.Base.Json.{Items}
use forge_index.Base.Text.{Text, codes, show_nat, text_eq}
use forge_index.Core.Abi.{AbiError}
use forge_index.Core.AbiParser.{parse_abi, type_of_text}
use forge_index.Core.AbiParser.Document.{events_json, IsWritten, IsKnown, parse_abi-events_json}
use forge_index.Core.AbiParser.TupleArrays.{tuple_array_refused}
use forge_index.Core.AbiParser.TypeText.{elementary, parse_type, parse_type_string}
use forge_index.Core.AbiType.{
  AbiParams, AbiEvent, uint, address, array, fixed_array, tuple, nil, cons, signature_string,
}

abbrev to_string : Text → String
to_string text = if text_eq text (codes "Sent") then "Sent" else "to"

abbrev selector : Text → ℕ
selector text = length text

abbrev inputs : AbiParams
inputs =
    cons "to" address true
      (cons "to" (array (tuple (cons "to" (fixed_array (uint 256) 3) false nil))) false nil)

abbrev sent : AbiEvent
sent = record {
  name = "Sent";
  signature = signature_string "Sent" inputs;
  selector = selector (signature_string "Sent" inputs);
  inputs = inputs;
}

sent-IsWritten : IsWritten to_string selector sent
unfolding IsKnown text_eq
sent-IsWritten = (refl, (refl, tt, (refl, (refl, (omega arith, omega arith), tt), tt)), refl, refl)

abbrev from_str : Text → Result Text Items
from_str text = ok (events_json (sent ∷ []))

parse_abi-events_json_example :
    parse_abi to_string from_str selector (codes "[..]")
    ≡ ok (record { events = sent ∷ []; functions = [] })
parse_abi-events_json_example =
    parse_abi-events_json to_string from_str selector (codes "[..]") (sent ∷ []) refl
      (sent-IsWritten, tt)

tuple_array_refused_example :
    type_of_text (codes "tuple[" ++ (show_nat 3 ++ codes "]")) (ok nil)
    ≡ err (AbiError.unknown_type (codes "tuple"))
tuple_array_refused_example = tuple_array_refused 3 (ok nil) (omega arith)

nested : parse_type_string (codes "uint8[2][]") ≡ ok (array (fixed_array (uint 8) 2))
unfolding parse_type_string parse_type elementary text_eq parse_u64
nested = refl
