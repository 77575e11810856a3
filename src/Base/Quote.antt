-- ===== src/Base/Quote.antt =====
-- SQL string literals: `s.replace('\'', "''")` between two quotes, and how SQL reads a quoted text.
use forge_index.Base.Tests.{◌==◌, if◌then◌else◌, Bool-cases, ==_iff}
use forge_index.Base.Text.{Text}
use Prim.Native.Nat.{ℕ}
use mathlib.Core.Bool.{false}
use mathlib.Core.List.{[], ◌∷◌, ◌++◌, append_assoc}
use mathlib.Core.Logic.{inl, inr}
use mathlib.Core.Option.{Option, none, some}
use mathlib.Core.Path.{◌≡◌, sym, ap, ◌∙◌}
use native.Mathlib.Omega.{arith}

-- double every occurrence of the quote `q`
unfoldable pub double : ℕ → Text → Text
double q [] = []
double q (c ∷ s) = let rest = double q s in if c == q then q ∷ q ∷ rest else c ∷ rest

abbrev pub apostrophe : ℕ
apostrophe = b'\''

abbrev pub double_quote : ℕ
double_quote = b'"'

-- `format!("'{}'", s.replace('\'', "''"))`
unfoldable pub quoted : Text → Text
quoted s = apostrophe ∷ (double apostrophe s ++ apostrophe ∷ [])

abbrev pub and_then : ℕ → Option (Text × Text) → Option (Text × Text)
and_then c none = none
and_then c (some (s, rest)) = some (c ∷ s, rest)

-- What SQL reads behind an opening quote `q`: the text up to the quote that closes it, where two quotes
-- stand for one, and what follows.
unfoldable pub read_quoted : ℕ → Text → Option (Text × Text)
read_quoted q [] = none
read_quoted q (c ∷ []) = if c == q then some ([], []) else none
read_quoted q (c ∷ d ∷ s) =
    let plain = read_quoted q (d ∷ s) in
    let doubled = read_quoted q s in
    if c == q then (if d == q then and_then q doubled else some ([], d ∷ s)) else and_then c plain

-- What follows the literal does not begin with a quote.
abbrev pub Separate : ℕ → Text → Type 0
Separate q [] = Unit {0}
Separate q (c ∷ s) = (c == q) ≡ false

read_plain :
    (q c : ℕ) (xs rest : Text)
    → (c == q) ≡ false
    → read_quoted q (c ∷ (xs ++ q ∷ rest)) ≡ and_then c (read_quoted q (xs ++ q ∷ rest))
unfolding read_quoted
read_plain q c [] rest h = rw (h, read_quoted)
read_plain q c (x ∷ xs) rest h = rw (h, read_quoted)

read_twice : (q : ℕ) (s : Text) → read_quoted q (q ∷ q ∷ s) ≡ and_then q (read_quoted q s)
unfolding read_quoted
read_twice q s = ground arith

closing : (q : ℕ) (rest : Text) → Separate q rest → read_quoted q (q ∷ rest) ≡ some ([], rest)
unfolding read_quoted
closing q [] h = ground arith
closing q (c ∷ s) h = ground arith

pub read_quoted-double :
    (q : ℕ) (s rest : Text)
    → Separate q rest
    → read_quoted q (double q s ++ q ∷ rest) ≡ some (s, rest)
unfolding double
read_quoted-double q [] rest h = closing q rest h
read_quoted-double q (c ∷ s) rest h =
    let later = read_quoted-double q s rest h in
    elim (Bool-cases (c == q)) [
      | inl same ↦
          rw (same, read_twice q (double q s ++ q ∷ rest), later)
            (ap (λ x. some (x ∷ s, rest)) (sym ((==_iff c q).0 same)))
      | inr other ↦ rw (other, read_plain q c (double q s) rest other, later)
    ]

-- What SQL reads where a string literal stands.
unfoldable pub read_literal : Text → Option (Text × Text)
read_literal [] = none
read_literal (c ∷ s) = if c == apostrophe then read_quoted apostrophe s else none

-- Whatever text is quoted, SQL reads the literal as that text, and what follows it stays outside.
pub read_literal-quoted :
    (s rest : Text) → Separate apostrophe rest → read_literal (quoted s ++ rest) ≡ some (s, rest)
unfolding quoted read_literal
read_literal-quoted s rest h =
    ap (read_quoted apostrophe) (append_assoc (double apostrophe s) (apostrophe ∷ []) rest)
    ∙ read_quoted-double apostrophe s rest h
