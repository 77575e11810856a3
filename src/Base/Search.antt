-- ===== src/Base/Search.antt =====
-- Searching text: `str::find`, `contains`, `starts_with`, `ends_with`, `replace`, `trim_matches` and
-- `split_whitespace`. A found place is the text before it and the text behind it.
pub mod Found
use forge_index.Base.Lists.{length, drop_while}
use forge_index.Base.Tests.{◌==◌, leb, if◌then◌else◌}
use forge_index.Base.Text.{Text}
use forge_index.Base.Trim.{pop_back_while}
use Prim.Native.Nat.{ℕ, zero, suc, ◌+◌}
use mathlib.Core.Bool.{Bool, true, false, ◌&&◌, ◌||◌}
use mathlib.Core.List.{List, [], ◌∷◌, ◌++◌, reverse}
use mathlib.Core.Option.{Option, none, some}

-- `strip_prefix`
abbrev pub strip_prefix : Text → Text → Option Text
strip_prefix [] text = some text
strip_prefix (p ∷ ps) [] = none
strip_prefix (p ∷ ps) (c ∷ text) = let rest = strip_prefix ps text in if p == c then rest else none

abbrev pub starts_with : Text → Text → Bool
starts_with p text = elim (strip_prefix p text) [ none ↦ false | some rest ↦ true ]

-- `ends_with`
abbrev pub ends_with : Text → Text → Bool
ends_with p text = starts_with (reverse p) (reverse text)

abbrev pub put_before : ℕ → Option (Text × Text) → Option (Text × Text)
put_before c none = none
put_before c (some (before, after)) = some (c ∷ before, after)

-- `find`, the first place
abbrev pub find : Text → Text → Option (Text × Text)
find p [] = elim (strip_prefix p []) [ none ↦ none | some rest ↦ some ([], rest) ]
find p (c ∷ text) =
    let later = put_before c (find p text) in
    elim (strip_prefix p (c ∷ text)) [ none ↦ later | some rest ↦ some ([], rest) ]

abbrev pub contains : Text → Text → Bool
contains p text = elim (find p text) [ none ↦ false | some place ↦ true ]

-- `replace` for a pattern that is not empty; each round takes at least one character
abbrev pub replace_rounds : ℕ → Text → Text → Text → Text
replace_rounds zero p w text = text
replace_rounds (suc fuel) p w text = elim (find p text) [
  | none ↦ text
  | some (before, after) ↦ let rest = replace_rounds fuel p w after in before ++ (w ++ rest)
]

unfoldable pub replace : Text → Text → Text → Text
replace p w text = replace_rounds (length text) p w text

-- Unicode's white space
abbrev pub is_space : ℕ → Bool
is_space c =
    (leb 9 c && leb c 13)
    || (c == 32)
    || (c == 133)
    || (c == 160)
    || (c == 5760)
    || (leb 8192 c && leb c 8202)
    || (c == 8232)
    || (c == 8233)
    || (c == 8239)
    || (c == 8287)
    || (c == 12288)

abbrev pub trim_matches : (ℕ → Bool) → Text → Text
trim_matches test text = pop_back_while test (drop_while test text)

abbrev pub trim : Text → Text
trim = trim_matches is_space

abbrev add_word : Text → List Text → List Text
add_word [] words = words
add_word (c ∷ word) words = reverse (c ∷ word) ∷ words

-- the words of the text, where `word` is the one begun, backwards
abbrev words_from : Text → Text → List Text
words_from word [] = add_word word []
words_from word (c ∷ text) =
    let next = words_from [] text in
    let same = words_from (c ∷ word) text in if is_space c then add_word word next else same

unfoldable pub split_whitespace : Text → List Text
split_whitespace text = words_from [] text

-- `rsplit_once(c).1`, what stands behind the last `c`
abbrev pub after_last : ℕ → Text → Option Text
after_last c [] = none
after_last c (d ∷ text) = elim (after_last c text) [
  | some rest ↦ some rest
  | none ↦ if d == c then some text else none
]

-- the length in UTF-8
abbrev pub utf8_len : ℕ → ℕ
utf8_len c = if leb c 127 then 1 else if leb c 2047 then 2 else if leb c 65535 then 3 else 4

abbrev pub byte_len : Text → ℕ
byte_len [] = 0
byte_len (c ∷ text) = utf8_len c + byte_len text
