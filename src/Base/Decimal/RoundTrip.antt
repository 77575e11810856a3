-- ===== src/Base/Decimal/RoundTrip.antt =====
-- Numbers that are printed and read.
use forge_index.Base.Decimal.{is_digit, digits_from, parse_u64}
use forge_index.Base.Lists.{All, All-append, length, length-append}
use forge_index.Base.Tests.{ltb, ◌==◌, Bool-cases, ltb→lt, ltb→ge, lt→ltb}
use forge_index.Base.Text.{Text, digits, show_nat}
use forge_index.Base.Word.{u64_mod}
use Prim.Native.Nat.{ℕ, zero, suc, ◌+◌, ◌-◌, ◌*◌, ◌/◌, ◌%◌, ◌<◌}
use mathlib.Core.Bool.{true, false}
use mathlib.Core.List.{[], ◌∷◌, ◌++◌, append_assoc, append-nil}
use mathlib.Core.Logic.{inl, inr, ◌≢◌}
use mathlib.Core.Option.{some}
use mathlib.Core.Path.{◌≡◌, refl, sym, ap, ◌∙◌}
use native.Mathlib.Omega.{arith}

abbrev pub IsDigit : ℕ → Type 0
IsDigit c = is_digit c ≡ true

shown-IsDigit : (n : ℕ) → n < 10 → IsDigit (b'0' + n)
shown-IsDigit n h = ground arith

read_digit :
    (a n : ℕ) (rest : Text)
    → n < 10
    → digits_from a ((b'0' + n) ∷ rest) ≡ digits_from (a * 10 + n) rest
unfolding digits_from
read_digit a n rest h =
    let same : a * 10 + (b'0' + n - b'0') ≡ a * 10 + n = omega arith in
    rw (shown-IsDigit n h) (ap (λ k. digits_from k rest) same)

-- the digits of `n` in front of `rest` are read as `n`
digits_from-digits :
    (fuel n : ℕ) (rest : Text)
    → n < fuel
    → digits_from 0 (digits fuel n ++ rest) ≡ digits_from n rest
digits_from-digits zero n rest h = absurd (omega arith)
digits_from-digits (suc fuel) n rest h = elim (Bool-cases (ltb n 10)) [
  | inl small ↦
      rw small
        (read_digit 0 n rest (ltb→lt n 10 small) ∙ ap (λ (k : ℕ). digits_from k rest) (omega arith))
  | inr big ↦
      let ge = ltb→ge n 10 big in
      rw big (
        ap (digits_from 0) (append_assoc (digits fuel (n / 10)) ((b'0' + n % 10) ∷ []) rest)
        ∙ digits_from-digits fuel (n / 10) ((b'0' + n % 10) ∷ rest) (omega arith)
        ∙ read_digit (n / 10) (n % 10) rest (omega arith)
        ∙ ap (λ (k : ℕ). digits_from k rest) (omega arith))
]

digits-All : (fuel n : ℕ) → All IsDigit (digits fuel n)
digits-All zero n = tt
digits-All (suc fuel) n = elim (Bool-cases (ltb n 10)) [
  | inl small ↦ rw small (shown-IsDigit n (ltb→lt n 10 small), tt)
  | inr big ↦ rw big (
      All-append IsDigit (digits fuel (n / 10)) ((b'0' + n % 10) ∷ []) (digits-All fuel (n / 10))
        (shown-IsDigit (n % 10) (omega arith), tt))
]

pub show_nat-All : (n : ℕ) → All IsDigit (show_nat n)
unfolding show_nat
show_nat-All n = digits-All (suc n) n

pub digits_from-show_nat : (n : ℕ) → digits_from 0 (show_nat n) ≡ some n
unfolding show_nat digits_from
digits_from-show_nat n =
    ap (digits_from 0) (sym (append-nil (digits (suc n) n)))
    ∙ digits_from-digits (suc n) n [] (omega arith)

not_plus : (c : ℕ) → IsDigit c → (c == b'+') ≡ false
not_plus c h = ground (arith, h)

some_digits : (n : ℕ) → 0 < length (show_nat n)
unfolding show_nat
some_digits n = elim (Bool-cases (ltb n 10)) [
  | inl small ↦ rw small (omega arith)
  | inr big ↦ rw big (omega (arith, length-append (digits n (n / 10)) ((b'0' + n % 10) ∷ [])))
]

-- A number that fits is read back from its digits.
pub parse_u64_digits :
    (text : Text) (n : ℕ)
    → text ≢ []
    → All IsDigit text
    → digits_from 0 text ≡ some n
    → n < u64_mod
    → parse_u64 text ≡ some n
unfolding parse_u64
parse_u64_digits [] n some_text h read fits = absurd (some_text refl)
parse_u64_digits (c ∷ []) n some_text h read fits = rw (read) (rw (lt→ltb n u64_mod fits) refl)
parse_u64_digits (c ∷ d ∷ text) n some_text (h, hs) read fits =
    rw (not_plus c h) (rw (read) (rw (lt→ltb n u64_mod fits) refl))

pub show_nat-ne-nil : (n : ℕ) → show_nat n ≢ []
show_nat-ne-nil n e = omega (arith, some_digits n, ap length e)

pub parse_u64-show_nat : (n : ℕ) → n < u64_mod → parse_u64 (show_nat n) ≡ some n
parse_u64-show_nat n fits =
    parse_u64_digits (show_nat n) n (show_nat-ne-nil n) (show_nat-All n) (digits_from-show_nat n)
      fits
