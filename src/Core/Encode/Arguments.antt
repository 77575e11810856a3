-- ===== src/Core/Encode/Arguments.antt =====
-- A whole event as the contract ABI lays it out: the indexed arguments in the topics, the others in
-- the data, where a byte string has its offset among the heads and its bytes among the tails; what
-- crates/forge-index-core/src/abi/decoder.rs should make of it.
use forge_index.Base.{ℕ, ◌+◌, ◌-◌, ◌%◌, String, true, false, List, [], ◌∷◌, ◌++◌, length}
use forge_index.Base.Bytes.{from_be, to_be, replicate}
use forge_index.Base.Maps.{Map, insert, string_key}
use forge_index.Core.AbiType.{AbiType, AbiParams}
use forge_index.Core.Encode.{Word, word_type, word_bytes, word_value, Fits}
use forge_index.Core.Event.{DecodedParam}
use forge_index.Core.Slot.{Library}

-- a value in the data
pub data Value : Type 0 where
  word : Word → Value
  bytes : List ℕ → Value
  string : List ℕ → Value

-- an argument: in the data, in a topic, or hashed into a topic
pub data Argument : Type 0 where
  plain : Value → Argument
  indexed : Word → Argument
  hashed : AbiType → ℕ → Argument

abbrev pub Arguments : Type 0
Arguments = List (String × Argument)

unfoldable pub value_type : Value → AbiType
value_type (word w) = word_type w
value_type (bytes bs) = AbiType.bytes
value_type (string bs) = AbiType.string

unfoldable pub inputs : Arguments → AbiParams
inputs [] = AbiParams.nil
inputs ((name, plain v) ∷ args) = AbiParams.cons name (value_type v) false (inputs args)
inputs ((name, indexed w) ∷ args) = AbiParams.cons name (word_type w) true (inputs args)
inputs ((name, hashed t h) ∷ args) = AbiParams.cons name t true (inputs args)

-- the topics after the selector
unfoldable pub topic_words : Arguments → List ℕ
topic_words [] = []
topic_words ((name, plain v) ∷ args) = topic_words args
topic_words ((name, indexed w) ∷ args) = from_be (word_bytes w) ∷ topic_words args
topic_words ((name, hashed t h) ∷ args) = h ∷ topic_words args

unfoldable pub padding : ℕ → List ℕ
padding n = replicate ((32 - n % 32) % 32) 0

unfoldable pub tail : Value → List ℕ
tail (word w) = []
tail (bytes bs) = to_be 32 (length bs) ++ (bs ++ padding (length bs))
tail (string bs) = to_be 32 (length bs) ++ (bs ++ padding (length bs))

-- the head of a value whose tail is at `offset`
unfoldable pub head : ℕ → Value → List ℕ
head offset (word w) = word_bytes w
head offset (bytes bs) = to_be 32 offset
head offset (string bs) = to_be 32 offset

unfoldable pub heads : ℕ → Arguments → List ℕ
heads offset [] = []
heads offset ((name, plain v) ∷ args) = head offset v ++ heads (offset + length (tail v)) args
heads offset ((name, indexed w) ∷ args) = heads offset args
heads offset ((name, hashed t h) ∷ args) = heads offset args

unfoldable pub tails : Arguments → List ℕ
tails [] = []
tails ((name, plain v) ∷ args) = tail v ++ tails args
tails ((name, indexed w) ∷ args) = tails args
tails ((name, hashed t h) ∷ args) = tails args

unfoldable pub head_size : Arguments → ℕ
head_size [] = 0
head_size ((name, plain v) ∷ args) = 32 + head_size args
head_size ((name, indexed w) ∷ args) = head_size args
head_size ((name, hashed t h) ∷ args) = head_size args

-- the data of the log
unfoldable pub data_bytes : Arguments → List ℕ
data_bytes args = heads (head_size args) args ++ tails args

-- types that a topic holds only the hash of
abbrev pub IsHashed : AbiType → Type 0
IsHashed (AbiType.uint bits) = ⊥
IsHashed (AbiType.int bits) = ⊥
IsHashed AbiType.address = ⊥
IsHashed AbiType.boolean = ⊥
IsHashed (AbiType.fixed_bytes n) = ⊥
IsHashed t = Unit

abbrev pub IsValue : Value → Type 0
IsValue (word w) = Fits w
IsValue (bytes bs) = Unit
IsValue (string bs) = Unit

abbrev pub IsArgument : Argument → Type 0
IsArgument (plain v) = IsValue v
IsArgument (indexed w) = Fits w
IsArgument (hashed t h) = IsHashed t

abbrev pub AreArguments : Arguments → Type 0
AreArguments [] = Unit
AreArguments ((name, a) ∷ args) = IsArgument a × AreArguments args

module _ (lib : Library) where
  unfoldable pub expected_value : Value → DecodedParam
  expected_value (word w) = word_value lib w
  expected_value (bytes bs) = DecodedParam.bytes bs
  expected_value (string bs) = DecodedParam.string (lib.lossy bs)

  unfoldable pub expected : Argument → DecodedParam
  expected (plain v) = expected_value v
  expected (indexed w) = word_value lib w
  expected (hashed t h) = DecodedParam.fixed_bytes (to_be 32 h)

  -- the parameters by name, in order, after those of `params`
  unfoldable pub expected_params : Arguments → Map String DecodedParam → Map String DecodedParam
  expected_params [] params = params
  expected_params ((name, a) ∷ args) params =
      expected_params args (insert string_key name (expected a) params)
