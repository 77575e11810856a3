-- ===== src/Base/Decimal.antt =====
-- Reading a decimal number: `str::parse` for an unsigned 64-bit integer.
pub mod RoundTrip
use forge_index.Base.Tests.{leb, ltb, ◌==◌, if◌then◌else◌}
use forge_index.Base.Text.{Text}
use forge_index.Base.Word.{u64_mod}
use Prim.Native.Nat.{ℕ, ◌+◌, ◌-◌, ◌*◌}
use mathlib.Core.Bool.{Bool, ◌&&◌}
use mathlib.Core.List.{[], ◌∷◌}
use mathlib.Core.Option.{Option, none, some}

abbrev pub is_digit : ℕ → Bool
is_digit c = leb b'0' c && leb c b'9'

-- the digits so far spell `n`
unfoldable pub digits_from : ℕ → Text → Option ℕ
digits_from n [] = some n
digits_from n (c ∷ text) =
    let rest = digits_from (n * 10 + (c - b'0')) text in if is_digit c then rest else none

abbrev pub in_range : Option ℕ → Option ℕ
in_range none = none
in_range (some n) = if ltb n u64_mod then some n else none

-- a plus sign may stand in front
unfoldable pub parse_u64 : Text → Option ℕ
unfolding digits_from
parse_u64 [] = none
parse_u64 (c ∷ []) = in_range (digits_from 0 (c ∷ []))
parse_u64 (c ∷ d ∷ text) =
    if c == b'+'
    then in_range (digits_from 0 (d ∷ text))
    else in_range (digits_from 0 (c ∷ d ∷ text))
