-- ===== src/Core/AbiParser/TupleArrays.antt =====
-- Arrays of tuples that the parser does not know: crates/forge-index-core/src/abi/parser.rs.
use forge_index.Base.{ℕ, ◌<◌, false, [], ◌∷◌, ◌++◌, ◌≡◌, ◌≢◌, refl, ap, if◌then◌else◌, length, All}
use forge_index.Base.Decimal.RoundTrip.{IsDigit, show_nat-All, show_nat-ne-nil}
use forge_index.Base.Exec.{Result, err}
use forge_index.Base.Text.{Text, codes, text_eq, show_nat}
use forge_index.Base.Word.{u64_mod}
use forge_index.Core.Abi.{AbiError}
use forge_index.Core.AbiParser.{type_of_text}
use forge_index.Core.AbiParser.TypeText.RoundTrip.{digit_apart, brackets, brackets_size}
use forge_index.Core.AbiParser.TypeText.{
  elementary, by_end, parse_type, or_unknown, parse_type_string,
}
use forge_index.Core.AbiType.{AbiParams}

-- the digits of a size are no closing bracket
size_apart : (n : ℕ) (rest : Text) → text_eq (show_nat n ++ rest) (codes "]") ≡ false
unfolding text_eq
size_apart n rest = starts (show_nat n) (show_nat-ne-nil n) (show_nat-All n)
  where
    starts :
        (text : Text) → text ≢ [] → All IsDigit text → text_eq (text ++ rest) (codes "]") ≡ false
    starts [] some_text h = absurd (some_text refl)
    starts (c ∷ text) some_text (h, hs) =
        ap (λ b. if b then text_eq (text ++ rest) [] else false) (digit_apart c b']' refl h).0

parse_tuple_array :
    (n : ℕ)
    → n < u64_mod
    → parse_type_string (codes "tuple[" ++ (show_nat n ++ codes "]"))
      ≡ err (AbiError.unknown_type (codes "tuple"))
unfolding parse_type_string parse_type elementary text_eq
parse_tuple_array n fits =
    let word = codes "tuple" in
    let text = codes "tuple[" ++ (show_nat n ++ codes "]") in
    ap (or_unknown text) (λ i.
      by_end (parse_type (length text)) text (brackets n word i) (brackets_size n word fits i))

-- A parameter whose type is an array of tuples of a fixed size is refused, whatever its components are:
-- the error names the type `tuple`.
pub tuple_array_refused :
    (n : ℕ) (components : Result AbiError AbiParams)
    → n < u64_mod
    → type_of_text (codes "tuple[" ++ (show_nat n ++ codes "]")) components
      ≡ err (AbiError.unknown_type (codes "tuple"))
unfolding text_eq
tuple_array_refused n components fits = rw (size_apart n (codes "]")) (parse_tuple_array n fits)
