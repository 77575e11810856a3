-- ===== src/Core/AbiParser.antt =====
-- The ABI's JSON: crates/forge-index-core/src/abi/parser.rs. The JSON parser, the hash of a signature and
-- the making of a string from its characters are parameters.
pub mod TypeText
pub mod Document
pub mod TupleArrays
use forge_index.Base.{
  ℕ, String, Bool, true, false, Option, none, some, List, [], ◌∷◌, ◌++◌, if◌then◌else◌,
}
use forge_index.Base.Exec.{Result, ok, err}
use forge_index.Base.Fallible.{◌>>=◌}
use forge_index.Base.Json.{
  Json, Items, Fields, null, boolean, number, string, array, object, nil, cons, end, field,
}
use forge_index.Base.Text.{Text, codes, text_eq}
use forge_index.Core.Abi.{AbiError}
use forge_index.Core.AbiParser.TypeText.{parse_type_string}
use forge_index.Core.AbiType
use forge_index.Core.AbiType.{AbiType, AbiParams, AbiEvent, tuple, signature_string}

pub record AbiFunction : Type 0 where
  pub name : String
  pub inputs : AbiParams
  pub outputs : AbiParams
  pub state_mutability : Text

pub record ParsedAbi : Type 0 where
  pub events : List AbiEvent
  pub functions : List AbiFunction

-- `Value::get`
abbrev pub get_field : Text → Fields → Option Json
get_field key end = none
get_field key (field k v fs) = let rest = get_field key fs in if text_eq k key then some v else rest

abbrev pub fields_of : Json → Fields
fields_of (object fs) = fs
fields_of null = end
fields_of (boolean b) = end
fields_of (number n) = end
fields_of (string s) = end
fields_of (array items) = end

abbrev pub as_str : Option Json → Option Text
as_str (some (string s)) = some s
as_str (some _) = none
as_str none = none

abbrev pub as_bool_or_false : Option Json → Bool
as_bool_or_false (some (boolean b)) = b
as_bool_or_false (some _) = false
as_bool_or_false none = false

abbrev pub str_or : Text → Option Text → Text
str_or d none = d
str_or d (some s) = s

abbrev pub str_or_error : Text → Option Text → Result AbiError Text
str_or_error message none = err (AbiError.parse_error message)
str_or_error message (some s) = ok s

-- the type of a parameter with the given text, where `components` is the outcome of its components
abbrev pub type_of_text : Text → Result AbiError AbiParams → Result AbiError AbiType
type_of_text type_str components =
    if text_eq type_str (codes "tuple")
    then (components >>= λ ps. ok (tuple ps))
    else if text_eq type_str (codes "tuple[]")
    then (components >>= λ ps. ok (AbiType.array (tuple ps)))
    else parse_type_string type_str

module _ (to_string : Text → String) where
  abbrev pub param_of :
      Fields → Result AbiError AbiParams → Result AbiError (String × AbiType × Bool)
  param_of fs components =
      str_or_error (codes "param missing type") (as_str (get_field (codes "type") fs))
      >>= λ type_str. type_of_text type_str components >>= λ t. ok (
        to_string (str_or [] (as_str (get_field (codes "name") fs))),
        t,
        as_bool_or_false (get_field (codes "indexed") fs),
      )

  unfoldable mutual
    pub parse_params : Items → Result AbiError AbiParams
    parse_params nil = ok AbiType.nil
    parse_params (cons item items) = parse_param item >>= λ (name, t, indexed).
        parse_params items >>= λ ps. ok (AbiType.cons name t indexed ps)

    pub parse_param : Json → Result AbiError (String × AbiType × Bool)
    parse_param (object fs) = param_of fs (parse_components fs)
    parse_param _ = err (AbiError.parse_error (codes "param missing type"))

    -- the parameters under the key `components`, which are read where the type is a tuple
    pub parse_components : Fields → Result AbiError AbiParams
    parse_components end = ok AbiType.nil
    parse_components (field k v fs) =
        let rest = parse_components fs in
        let here = parse_array v in if text_eq k (codes "components") then here else rest

    pub parse_array : Json → Result AbiError AbiParams
    parse_array (array items) = parse_params items
    parse_array _ = ok AbiType.nil

  abbrev pub params_at : Text → Fields → Result AbiError AbiParams
  params_at key fs = elim (get_field key fs) [ none ↦ ok AbiType.nil | some v ↦ parse_array v ]

  unfoldable pub parse_event : (Text → ℕ) → Json → Result AbiError AbiEvent
  parse_event compute_selector item =
      let fs = fields_of item in
      str_or_error (codes "event missing name") (as_str (get_field (codes "name") fs)) >>= λ name.
      params_at (codes "inputs") fs >>= λ inputs.
      (let signature = signature_string (to_string name) inputs in
        ok (record {
          name = to_string name;
          signature = signature;
          selector = compute_selector signature;
          inputs = inputs;
        }))

  unfoldable pub parse_function : Json → Result AbiError AbiFunction
  parse_function item =
      let fs = fields_of item in
      str_or_error (codes "function missing name") (as_str (get_field (codes "name") fs))
      >>= λ name. params_at (codes "inputs") fs >>= λ inputs.
          params_at (codes "outputs") fs >>= λ outputs. ok (record {
            name = to_string name;
            inputs = inputs;
            outputs = outputs;
            state_mutability =
                str_or (codes "nonpayable") (as_str (get_field (codes "stateMutability") fs));
          })

  -- the loop over the items
  unfoldable pub parse_items : (Text → ℕ) → Items → ParsedAbi → Result AbiError ParsedAbi
  parse_items compute_selector nil abi = ok abi
  parse_items compute_selector (cons item items) abi =
      let kind = str_or [] (as_str (get_field (codes "type") (fields_of item))) in
      let skipped = parse_items compute_selector items abi in
      if text_eq kind (codes "event")
      then (parse_event compute_selector item >>= λ e.
          parse_items compute_selector items (record abi { events = abi.events ++ e ∷ [] }))
      else if text_eq kind (codes "function")
      then (parse_function item >>= λ f.
          parse_items compute_selector items (record abi { functions = abi.functions ++ f ∷ [] }))
      else skipped

  unfoldable pub parse_abi :
      (Text → Result Text Items) → (Text → ℕ) → Text → Result AbiError ParsedAbi
  parse_abi from_str compute_selector json = elim (from_str json) [
    | err e ↦ err (AbiError.parse_error e)
    | ok items ↦ parse_items compute_selector items (record { events = []; functions = [] })
  ]
