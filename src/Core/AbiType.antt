-- ===== src/Core/AbiType.antt =====
-- Solidity types and events: crates/forge-index-core/src/abi/types.rs. The parameters of a tuple are
-- a list of their own, since a parameter holds a type; the parameters of an event are such a list.
-- A hash is the number its bytes spell.
use forge_index.Base.{ℕ, suc, String, Bool, true, false, List, [], ◌∷◌, ◌++◌, if◌then◌else◌}
use forge_index.Base.Text.{Text, codes, join, show_nat}

mutual
  pub data AbiType : Type 0 where
    uint int fixed_bytes : ℕ → AbiType
    address boolean bytes string : AbiType
    array : AbiType → AbiType
    fixed_array : AbiType → ℕ → AbiType
    tuple : AbiParams → AbiType

  -- a parameter's name, type and whether it is indexed, then the parameters after it
  pub data AbiParams : Type 0 where
    nil : AbiParams
    cons : String → AbiType → Bool → AbiParams → AbiParams

abbrev pub count : AbiParams → ℕ
count nil = 0
count (cons name t indexed ps) = suc (count ps)

unfoldable mutual
  pub is_dynamic : AbiType → Bool
  is_dynamic (uint bits) = false
  is_dynamic (int bits) = false
  is_dynamic address = false
  is_dynamic boolean = false
  is_dynamic (fixed_bytes n) = false
  is_dynamic bytes = true
  is_dynamic string = true
  is_dynamic (array inner) = true
  is_dynamic (fixed_array inner n) = is_dynamic inner
  is_dynamic (tuple ps) = any_dynamic ps

  pub any_dynamic : AbiParams → Bool
  any_dynamic nil = false
  any_dynamic (cons name t indexed ps) =
      let rest = any_dynamic ps in if is_dynamic t then true else rest

unfoldable mutual
  pub to_sol_string : AbiType → Text
  to_sol_string (uint bits) = codes "uint" ++ show_nat bits
  to_sol_string (int bits) = codes "int" ++ show_nat bits
  to_sol_string address = codes "address"
  to_sol_string boolean = codes "bool"
  to_sol_string (fixed_bytes n) = codes "bytes" ++ show_nat n
  to_sol_string bytes = codes "bytes"
  to_sol_string string = codes "string"
  to_sol_string (array inner) = to_sol_string inner ++ codes "[]"
  to_sol_string (fixed_array inner n) =
      to_sol_string inner ++ (codes "[" ++ (show_nat n ++ codes "]"))
  to_sol_string (tuple ps) = codes "(" ++ (join (codes ",") (sol_strings ps) ++ codes ")")

  pub sol_strings : AbiParams → List Text
  sol_strings nil = []
  sol_strings (cons name t indexed ps) = to_sol_string t ∷ sol_strings ps

pub record AbiEvent : Type 0 where
  pub name : String
  pub signature : Text
  pub selector : ℕ
  pub inputs : AbiParams

-- `AbiEvent::signature_string`
unfoldable pub signature_string : String → AbiParams → Text
signature_string name inputs =
    codes name ++ (codes "(" ++ (join (codes ",") (sol_strings inputs) ++ codes ")"))
