-- ===== src/Core/AbiParser/Document.antt =====
-- ABI documents that are written and parsed: crates/forge-index-core/src/abi/parser.rs. The source has no
-- writer; this one follows the JSON that the Solidity compiler prescribes, for the types that the parser
-- knows.
use forge_index.Base.{
  ℕ, String, false, List, [], ◌∷◌, ◌++◌, ◌≡◌, refl, sym, ap, ◌∙◌, ◌==◌, if◌then◌else◌, append_assoc,
  append-nil, All,
}
use forge_index.Base.Exec.{Result, ok}
use forge_index.Base.Fallible.{◌>>=◌}
use forge_index.Base.Json.{
  Json, Items, Fields, boolean, string, array, object, nil, cons, end, field,
}
use forge_index.Base.Text.{Text, codes, show_nat, text_eq}
use forge_index.Core.Abi.{AbiError}
use forge_index.Core.AbiParser.{
  ParsedAbi, type_of_text, parse_params, parse_components, parse_array, parse_event, parse_items,
  parse_abi,
}
use forge_index.Core.AbiParser.TypeText.{parse_type_string}
use forge_index.Core.AbiParser.TypeText.RoundTrip.{IsPlain, parse_type_string-to_sol_string}
use forge_index.Core.AbiType
use forge_index.Core.AbiType.{
  AbiType, AbiParams, AbiEvent, uint, int, fixed_bytes, address, bytes, fixed_array, tuple,
  to_sol_string, signature_string,
}

-- the text of a type, without a tuple's components
unfoldable pub type_text : AbiType → Text
type_text (tuple ps) = codes "tuple"
type_text (AbiType.array (tuple ps)) = codes "tuple[]"
type_text t = to_sol_string t

unfoldable mutual
  pub components_of : AbiType → Fields
  components_of (tuple ps) = field (codes "components") (array (params_json ps)) end
  components_of (AbiType.array (tuple ps)) = field (codes "components") (array (params_json ps)) end
  components_of _ = end

  pub params_json : AbiParams → Items
  params_json AbiType.nil = nil
  params_json (AbiType.cons name t indexed ps) =
      cons
        (object (
          field (codes "name") (string (codes name)) (
            field (codes "type") (string (type_text t))
              (field (codes "indexed") (boolean indexed) (components_of t)))))
        (params_json ps)

unfoldable pub event_json : AbiEvent → Json
event_json e = object (
    field (codes "type") (string (codes "event")) (
      field (codes "name") (string (codes e.name))
        (field (codes "inputs") (array (params_json e.inputs)) end)))

abbrev pub events_json : List AbiEvent → Items
events_json [] = nil
events_json (e ∷ es) = cons (event_json e) (events_json es)

-- the text of a plain type does not begin as `tuple` does
first_char :
    (t : AbiType)
    → IsPlain t
    → (c : ℕ) × (rest : Text) × (to_sol_string t ≡ c ∷ rest) × ((c == b't') ≡ false)
unfolding to_sol_string
first_char (uint bits) h = (_, _, refl, refl)
first_char (int bits) h = (_, _, refl, refl)
first_char (fixed_bytes n) h = (_, _, refl, refl)
first_char address h = (_, _, refl, refl)
first_char AbiType.boolean h = (_, _, refl, refl)
first_char bytes h = (_, _, refl, refl)
first_char AbiType.string h = (_, _, refl, refl)
first_char (AbiType.array t) h =
    let (c, rest, same, apart) = first_char t h in
    (c, rest ++ codes "[]", ap (λ u. u ++ codes "[]") same, apart)
first_char (fixed_array t n) (h, fits) =
    let (c, rest, same, apart) = first_char t h in
    (
      c,
      rest ++ (codes "[" ++ (show_nat n ++ codes "]")),
      ap (λ u. u ++ (codes "[" ++ (show_nat n ++ codes "]"))) same,
      apart,
    )
first_char (tuple ps) h = elim h [ ]

-- such a text is no tuple's
plain_text :
    (t : AbiType) (components : Result AbiError AbiParams)
    → IsPlain t
    → type_of_text (to_sol_string t) components ≡ ok t
unfolding text_eq
plain_text t components h =
    let (c, rest, same, apart) = first_char t h in
    (λ i. type_of_text (same i) components)
    ∙ (λ i.
        if if apart i then text_eq rest (codes "uple") else false
        then (components >>= λ ps. ok (tuple ps))
        else if if apart i then text_eq rest (codes "uple[]") else false
        then (components >>= λ ps. ok (AbiType.array (tuple ps)))
        else parse_type_string (c ∷ rest))
    ∙ ap parse_type_string (sym same)
    ∙ parse_type_string-to_sol_string t h

module _ (to_string : Text → String) where
  -- tuples stand alone or in one array, other types are plain, and every name is read back
  unfoldable mutual
    pub IsKnown : AbiType → Type 0
    IsKnown (tuple ps) = AreKnown ps
    IsKnown (AbiType.array (tuple ps)) = AreKnown ps
    IsKnown t = IsPlain t

    pub AreKnown : AbiParams → Type 0
    AreKnown AbiType.nil = Unit
    AreKnown (AbiType.cons name t indexed ps) =
        (to_string (codes name) ≡ name) × IsKnown t × AreKnown ps

  mutual
    unfolding IsKnown parse_params type_text components_of text_eq

    -- the type of a parameter
    parse_param_type :
        (t : AbiType)
        → IsKnown t
        → type_of_text (type_text t) (parse_components to_string (components_of t)) ≡ ok t
    parse_param_type (tuple ps) h = ap (λ r. r >>= λ qs. ok (tuple qs)) (parse_params_back ps h)
    parse_param_type (AbiType.array (tuple ps)) h =
        ap (λ r. r >>= λ qs. ok (AbiType.array (tuple qs))) (parse_params_back ps h)
    parse_param_type t h = plain_text t (ok AbiType.nil) h

    parse_params_back :
        (ps : AbiParams) → AreKnown ps → parse_params to_string (params_json ps) ≡ ok ps
    parse_params_back AbiType.nil h = refl
    parse_params_back (AbiType.cons name t indexed ps) (named, h, hs) =
        (λ i. (parse_param_type t h i >>= λ u. ok (named i, u, indexed)) >>= λ (n, u, b).
        parse_params to_string (params_json ps) >>= λ qs. ok (AbiType.cons n u b qs))
        ∙ ap (λ r. r >>= λ qs. ok (AbiType.cons name t indexed qs)) (parse_params_back ps hs)

  parse_array_back :
      (ps : AbiParams) → AreKnown ps → parse_array to_string (array (params_json ps)) ≡ ok ps
  unfolding parse_params
  parse_array_back ps h = parse_params_back ps h

  -- an event that is what its name and its inputs make it, with inputs that the parser knows
  abbrev pub IsWritten : (Text → ℕ) → AbiEvent → Type 0
  IsWritten compute_selector e =
      (to_string (codes e.name) ≡ e.name)
      × AreKnown e.inputs
      × (e.signature ≡ signature_string e.name e.inputs)
      × (e.selector ≡ compute_selector (signature_string e.name e.inputs))

  parse_event-event_json :
      (compute_selector : Text → ℕ) (e : AbiEvent)
      → IsWritten compute_selector e
      → parse_event to_string compute_selector (event_json e) ≡ ok e
  unfolding parse_event event_json text_eq
  parse_event-event_json compute_selector e (named, known, signed, selected) =
      let made : Text → String → AbiParams → AbiEvent = λ signature name inputs. record {
        name = name;
        signature = signature;
        selector = compute_selector signature;
        inputs = inputs;
      } in
      ap
        (λ r. r >>= λ inputs. ok (
          made (signature_string (to_string (codes e.name)) inputs) (to_string (codes e.name))
            inputs))
        (parse_array_back e.inputs known)
      ∙ ap (λ n. ok (made (signature_string n e.inputs) n e.inputs)) named
      ∙ (λ i. ok (record e { signature = sym signed i; selector = sym selected i }))

  parse_items-events_json :
      (compute_selector : Text → ℕ) (es : List AbiEvent) (abi : ParsedAbi)
      → All (IsWritten compute_selector) es
      → parse_items to_string compute_selector (events_json es) abi
        ≡ ok (record abi { events = abi.events ++ es })
  unfolding parse_items event_json text_eq
  parse_items-events_json compute_selector [] abi h =
      ap (λ es. ok (record abi { events = es })) (sym (append-nil abi.events))
  parse_items-events_json compute_selector (e ∷ es) abi (h, hs) =
      let longer : ParsedAbi = record abi { events = abi.events ++ e ∷ [] } in
      ap
        (λ r. r >>= λ x.
          parse_items to_string compute_selector (events_json es)
            (record abi { events = abi.events ++ x ∷ [] }))
        (parse_event-event_json compute_selector e h)
      ∙ parse_items-events_json compute_selector es longer hs
      ∙ ap (λ xs. ok (record abi { events = xs })) (append_assoc abi.events (e ∷ []) es)

  -- Parsing gives back the events that a document was written from, in their order and with their
  -- signatures and selectors, if the document's text is read as its JSON, names are read back as they
  -- were, and every type is made of numbers, bytes, texts, addresses, Booleans and arrays of them with
  -- sizes below 2 ^ 64, or is a tuple or a dynamic array of a tuple, whose parts are such types again.
  pub parse_abi-events_json :
      (from_str : Text → Result Text Items) (compute_selector : Text → ℕ) (json : Text)
      (es : List AbiEvent)
      → from_str json ≡ ok (events_json es)
      → All (IsWritten compute_selector) es
      → parse_abi to_string from_str compute_selector json
        ≡ ok (record { events = es; functions = [] })
  unfolding parse_abi
  parse_abi-events_json from_str compute_selector json es read h =
      rw (read, parse_abi)
        (parse_items-events_json compute_selector es (record { events = []; functions = [] }) h)
