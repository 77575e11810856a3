-- ===== src/Api/Sql/Limit.antt =====
-- The limit of a query: `enforce_limit` in crates/forge-index-api/src/sql/parser.rs.
pub mod Missing
use forge_index.Base.{
  ℕ, zero, suc, ◌+◌, ◌-◌, not, Option, none, some, List, [], ◌∷◌, ◌++◌, ltb, if◌then◌else◌,
  drop_while,
}
use forge_index.Base.Decimal.{is_digit, parse_u64}
use forge_index.Base.Exec.{Result, ok}
use forge_index.Base.Fallible.{◌>>=◌}
use forge_index.Base.Search.{trim_matches, is_space, split_whitespace, utf8_len, byte_len}
use forge_index.Base.Text.{Text, codes, show_nat}
use forge_index.Api.Sql.Types.{Casing, Refusal, or_panic, max_limit}
use forge_index.Api.Sql.Keywords.{find_keyword_pos}

-- the text before and from a position in bytes; none where slicing panics
unfoldable pub split_bytes : Text → ℕ → Option (Text × Text)
split_bytes text zero = some ([], text)
split_bytes [] (suc n) = none
split_bytes (c ∷ text) (suc n) =
    let rest = split_bytes text (suc n - utf8_len c) in
    if ltb (suc n) (utf8_len c)
    then none
    else elim rest [ none ↦ none | some (a, b) ↦ some (c ∷ a, b) ]

-- the number that starts the text `after_limit`, replaced if it is too large; `tail` is the text from
-- LIMIT's end on
unfoldable pub clamp : Text → Text → Text → Text → Result Refusal Text
clamp sql tail after_limit num_str =
    elim (parse_u64 (trim_matches (λ c. not (is_digit c)) num_str)) [
      | none ↦ ok sql
      | some n ↦
          let num_start = byte_len sql - byte_len tail + (byte_len tail - byte_len after_limit) in
          let clamped = or_panic (split_bytes sql num_start) >>= λ (front, _).
          or_panic (split_bytes sql (num_start + byte_len num_str)) >>= λ (_, back).
          ok (front ++ (show_nat max_limit ++ back)) in
          if ltb max_limit n then clamped else ok sql
    ]

unfoldable pub clamp_first : Text → Text → Text → List Text → Result Refusal Text
clamp_first sql tail after_limit [] = ok sql
clamp_first sql tail after_limit (num_str ∷ words) = clamp sql tail after_limit num_str

module _ (casing : Casing) where
  unfoldable pub enforce_limit : Text → Result Refusal Text
  enforce_limit sql = elim (find_keyword_pos (casing.to_uppercase sql) (codes "LIMIT")) [
    | none ↦ ok (sql ++ (codes " LIMIT " ++ show_nat max_limit))
    | some limit_pos ↦ or_panic (split_bytes sql (limit_pos + 5)) >>= λ (_, tail).
        let after_limit = drop_while is_space tail in
        clamp_first sql tail after_limit (split_whitespace after_limit)
  ]
