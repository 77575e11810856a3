-- ===== src/Core/AbiParser/TypeText/RoundTrip.antt =====
-- Types that are printed and parsed: `parse_type_string` in crates/forge-index-core/src/abi/parser.rs and
-- `to_sol_string` in crates/forge-index-core/src/abi/types.rs.
use forge_index.Base.{
  ℕ, zero, suc, ◌<◌, Bool, true, false, Option, none, some, [], ◌∷◌, ◌++◌, ◌≡◌, ◌≢◌, refl, sym, ap,
  subst, ◌∙◌, arith, ◌==◌, ==_refl, if◌then◌else◌, length, reverse, reverse-append, reverse-reverse,
  append_assoc, All, length-append, All-append,
}
use forge_index.Base.Decimal.{is_digit, parse_u64}
use forge_index.Base.Decimal.RoundTrip.{IsDigit, show_nat-All, show_nat-ne-nil, parse_u64-show_nat}
use forge_index.Base.Exec.{ok}
use forge_index.Base.Search.{strip_prefix, starts_with, ends_with}
use forge_index.Base.Search.Found.{strip_prefix-append}
use forge_index.Base.Text.{Text, codes, text_eq, show_nat}
use forge_index.Base.Word.{u64_mod}
use forge_index.Core.AbiParser.TypeText.{
  reversed, strip_suffix, rsplit, init, sized_bytes, elementary, sized, fixed_size, wrap, by_end,
  parse_type, or_unknown, parse_type_string,
}
use forge_index.Core.AbiType.{
  AbiType, uint, int, fixed_bytes, address, boolean, bytes, string, array, fixed_array, tuple,
  to_sol_string,
}

-- a type that a text can name: sizes fit a `usize`, and no tuple
abbrev pub IsPlain : AbiType → Type 0
IsPlain (uint bits) = bits < u64_mod
IsPlain (int bits) = bits < u64_mod
IsPlain (fixed_bytes n) = n < u64_mod
IsPlain address = Unit
IsPlain boolean = Unit
IsPlain bytes = Unit
IsPlain string = Unit
IsPlain (array t) = IsPlain t
IsPlain (fixed_array t n) = IsPlain t × (n < u64_mod)
IsPlain (tuple ps) = ⊥

-- a text that is not empty, cut before its last character
last_cut :
    (P : ℕ → Type 0) (text : Text)
    → text ≢ []
    → All P text
    → (front : Text) × (c : ℕ) × (text ≡ front ++ c ∷ []) × P c
last_cut P [] some_text h = absurd (some_text refl)
last_cut P (c ∷ []) some_text (h, hs) = ([], c, refl, h)
last_cut P (c ∷ d ∷ text) some_text (h, hs) =
    let (front, l, same, hl) = last_cut P (d ∷ text) (λ e. cc e) hs in
    (c ∷ front, l, ap (λ t. c ∷ t) same, hl)

strip_suffix-append : (p u : Text) → strip_suffix p (u ++ p) ≡ some u
strip_suffix-append p u =
    ap (λ t. reversed (strip_prefix (reverse p) t)) (reverse-append u p)
    ∙ ap reversed (strip_prefix-append (reverse p) (reverse u))
    ∙ ap some (reverse-reverse u)

open_end :
    (front : Text) (c : ℕ) → (b']' == c) ≡ false → ends_with (codes "]") (front ++ c ∷ []) ≡ false
open_end front c h =
    ap (starts_with (b']' ∷ [])) (reverse-append front (c ∷ []))
    ∙ ap
        (λ b. elim (if b then some (reverse front) else none) as (λ _. Bool) [
          | none ↦ false
          | some rest ↦ true
        ])
        h

closed_end : (front : Text) → ends_with (codes "]") (front ++ b']' ∷ []) ≡ true
closed_end front = ap (starts_with (b']' ∷ [])) (reverse-append front (b']' ∷ []))

-- a text that does not end in a bracket
no_bracket :
    (front : Text) (c : ℕ)
    → (b']' == c) ≡ false
    → (strip_suffix (codes "[]") (front ++ c ∷ []) ≡ none) × (fixed_size (front ++ c ∷ []) ≡ none)
no_bracket front c h = (
  ap (λ t. reversed (strip_prefix (b']' ∷ b'[' ∷ []) t)) (reverse-append front (c ∷ []))
      ∙ ap (λ b. reversed (if b then strip_prefix (b'[' ∷ []) (reverse front) else none)) h,
  ap (λ b. if b then sized (rsplit b'[' (front ++ c ∷ [])) else none) (open_end front c h),
)

no_empty_brackets :
    (front : Text) (d : ℕ)
    → (b'[' == d) ≡ false
    → strip_suffix (codes "[]") (front ++ d ∷ b']' ∷ []) ≡ none
no_empty_brackets front d h =
    ap (λ t. reversed (strip_prefix (b']' ∷ b'[' ∷ []) t)) (reverse-append front (d ∷ b']' ∷ []))
    ∙ ap (λ b. reversed (if b then some (reverse front) else none)) h

rsplit-none : (c : ℕ) (text : Text) → All (λ d. (d == c) ≡ false) text → rsplit c text ≡ none
rsplit-none c [] h = refl
rsplit-none c (d ∷ text) (h, hs) = rw (rsplit-none c text hs) (rw h refl)

rsplit_found :
    (c : ℕ) (u rest : Text)
    → All (λ d. (d == c) ≡ false) rest
    → rsplit c (u ++ c ∷ rest) ≡ some (u, rest)
rsplit_found c [] rest h = rw (rsplit-none c rest h) (rw (==_refl c) refl)
rsplit_found c (d ∷ u) rest h = rw (rsplit_found c u rest h) refl

init-snoc : (text : Text) (c : ℕ) → init (text ++ c ∷ []) ≡ text
init-snoc [] c = refl
init-snoc (d ∷ []) c = refl
init-snoc (d ∷ e ∷ text) c = ap (λ t. d ∷ t) (init-snoc (e ∷ text) c)

-- digits are no brackets
pub digit_apart :
    (c k : ℕ) → is_digit k ≡ false → IsDigit c → ((c == k) ≡ false) × ((k == c) ≡ false)
digit_apart c k h digit = ground arith

not_nil : (text : Text) → text ≢ [] → text_eq text [] ≡ false
unfolding text_eq
not_nil [] some_text = absurd (some_text refl)
not_nil (c ∷ text) some_text = refl

digits_apart : (text : Text) → All IsDigit text → All (λ d. (d == b'[') ≡ false) text
digits_apart [] h = tt
digits_apart (c ∷ text) (h, hs) = ((digit_apart c b'[' refl h).0, digits_apart text hs)

module _ (n : ℕ) where
  cut : (front : Text) × (c : ℕ) × (show_nat n ≡ front ++ c ∷ []) × IsDigit c
  cut = last_cut IsDigit (show_nat n) (show_nat-ne-nil n) (show_nat-All n)

  sized_plain :
      (word : Text)
      → (strip_suffix (codes "[]") (word ++ show_nat n) ≡ none)
        × (fixed_size (word ++ show_nat n) ≡ none)
  sized_plain word =
      let (front, c, same, digit) = cut in
      let whole : (word ++ front) ++ c ∷ [] ≡ word ++ show_nat n =
        append_assoc word front (c ∷ []) ∙ ap (λ t. word ++ t) (sym same) in
      subst (λ t. (strip_suffix (codes "[]") t ≡ none) × (fixed_size t ≡ none)) whole
        (no_bracket (word ++ front) c (digit_apart c b']' refl digit).1)

  pub brackets :
      (u : Text) → strip_suffix (codes "[]") (u ++ (codes "[" ++ (show_nat n ++ codes "]"))) ≡ none
  brackets u =
      let (front, c, same, digit) = cut in
      let whole : (u ++ (b'[' ∷ front)) ++ c ∷ b']' ∷ []
          ≡ u ++ (codes "[" ++ (show_nat n ++ codes "]")) =
        append_assoc u (b'[' ∷ front) (c ∷ b']' ∷ [])
        ∙ ap (λ t. u ++ (b'[' ∷ t))
            (sym (append_assoc front (c ∷ []) (b']' ∷ [])) ∙ ap (λ t. t ++ b']' ∷ []) (sym same)) in
      subst (λ t. strip_suffix (codes "[]") t ≡ none) whole
        (no_empty_brackets (u ++ (b'[' ∷ front)) c (digit_apart c b'[' refl digit).1)

  pub brackets_size :
      (u : Text)
      → n < u64_mod
      → fixed_size (u ++ (codes "[" ++ (show_nat n ++ codes "]"))) ≡ some (u, n)
  brackets_size u fits =
      let rest = show_nat n ++ codes "]" in
      let apart =
        All-append (λ d. (d == b'[') ≡ false) (show_nat n) (codes "]")
          (digits_apart (show_nat n) (show_nat-All n)) (refl, tt) in
      let ends : ends_with (codes "]") (u ++ (codes "[" ++ rest)) ≡ true =
        ap (ends_with (codes "]")) (sym (append_assoc u (codes "[" ++ show_nat n) (codes "]")))
        ∙ closed_end (u ++ (codes "[" ++ show_nat n)) in
      rw ends (
        ap sized (rsplit_found b'[' u rest apart)
        ∙ ap (λ o. elim o as (λ _. Option (Text × ℕ)) [ none ↦ none | some k ↦ some (u, k) ])
            (ap parse_u64 (init-snoc (show_nat n) b']') ∙ parse_u64-show_nat n fits))

  -- a round of the parser on a word and a number
  word_round :
      (fuel : ℕ) (word : Text)
      → parse_type (suc fuel) (word ++ show_nat n) ≡ some (elementary (word ++ show_nat n))
  unfolding parse_type
  word_round fuel word =
      let (open_text, size) = sized_plain word in
      λ i. by_end (parse_type fuel) (word ++ show_nat n) (open_text i) (size i)

  uint_text : n < u64_mod → elementary (codes "uint" ++ show_nat n) ≡ ok (uint n)
  unfolding elementary text_eq
  uint_text fits = rw (parse_u64-show_nat n fits) refl

  int_text : n < u64_mod → elementary (codes "int" ++ show_nat n) ≡ ok (int n)
  unfolding elementary text_eq
  int_text fits = rw (parse_u64-show_nat n fits) refl

  bytes_text : n < u64_mod → elementary (codes "bytes" ++ show_nat n) ≡ ok (fixed_bytes n)
  unfolding elementary text_eq
  bytes_text fits =
      ap
        (λ b.
          if b
          then ok bytes
          else sized_bytes (codes "bytes" ++ show_nat n) (parse_u64 (show_nat n)))
        (not_nil (show_nat n) (show_nat-ne-nil n))
      ∙ ap (sized_bytes (codes "bytes" ++ show_nat n)) (parse_u64-show_nat n fits)

-- With more fuel than the text has characters, the text of a plain type is parsed to that type.
parse_type-to_sol_string :
    (t : AbiType) (fuel : ℕ)
    → IsPlain t
    → length (to_sol_string t) < fuel
    → parse_type fuel (to_sol_string t) ≡ some (ok t)
unfolding to_sol_string parse_type
parse_type-to_sol_string t zero h enough = absurd (omega arith)
parse_type-to_sol_string (uint n) (suc fuel) h enough =
    word_round n fuel (codes "uint") ∙ ap some (uint_text n h)
parse_type-to_sol_string (int n) (suc fuel) h enough =
    word_round n fuel (codes "int") ∙ ap some (int_text n h)
parse_type-to_sol_string (fixed_bytes n) (suc fuel) h enough =
    word_round n fuel (codes "bytes") ∙ ap some (bytes_text n h)
parse_type-to_sol_string address (suc fuel) h enough = unfold elementary text_eq in refl
parse_type-to_sol_string boolean (suc fuel) h enough = unfold elementary text_eq in refl
parse_type-to_sol_string bytes (suc fuel) h enough = unfold elementary text_eq in refl
parse_type-to_sol_string string (suc fuel) h enough = unfold elementary text_eq in refl
parse_type-to_sol_string (array t) (suc fuel) h enough =
    let text = to_sol_string (array t) in
    ap (λ o. by_end (parse_type fuel) text o (fixed_size text))
      (strip_suffix-append (codes "[]") (to_sol_string t))
    ∙ (ap (wrap array) (
        parse_type-to_sol_string t fuel h
          (omega (arith, length-append (to_sol_string t) (codes "[]")))))
parse_type-to_sol_string (fixed_array t n) (suc fuel) (h, fits) enough =
    let text = to_sol_string (fixed_array t n) in
    (λ i.
      by_end (parse_type fuel) text (brackets n (to_sol_string t) i)
        (brackets_size n (to_sol_string t) fits i))
    ∙ (ap (wrap (λ u. fixed_array u n)) (
        parse_type-to_sol_string t fuel h (
          omega (arith, length-append (to_sol_string t) (codes "[" ++ (show_nat n ++ codes "]"))))))
parse_type-to_sol_string (tuple ps) (suc fuel) h enough = elim h [ ]

pub parse_type_string-to_sol_string :
    (t : AbiType) → IsPlain t → parse_type_string (to_sol_string t) ≡ ok t
unfolding parse_type_string
parse_type_string-to_sol_string t h =
    ap (or_unknown (to_sol_string t))
      (parse_type-to_sol_string t (suc (length (to_sol_string t))) h (omega arith))
