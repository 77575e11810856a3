-- ===== src/Api/Sql/Keywords.antt =====
-- Keywords as standalone words: `contains_keyword` and `find_keyword_pos` in crates/forge-index-api/src/sql/parser.rs. A text
-- is its code points; a position that the source counts in bytes is counted in UTF-8 bytes here.
pub mod Exact
use forge_index.Base.{
  ℕ, zero, suc, ◌+◌, Bool, true, false, not, ◌&&◌, ◌||◌, Option, none, some, [], ◌∷◌, leb, ◌==◌,
  if◌then◌else◌, length,
}
use forge_index.Base.Search.{find, byte_len}
use forge_index.Base.Text.{Text}

-- `is_ascii_alphanumeric`, or the underscore
abbrev pub is_word : ℕ → Bool
is_word c =
    (leb b'0' c && leb c b'9')
    || (leb b'A' c && leb c b'Z')
    || (leb b'a' c && leb c b'z')
    || (c == b'_')

-- the character before the text that follows `text`
abbrev pub last_of : Option ℕ → Text → Option ℕ
last_of prev [] = prev
last_of prev (c ∷ text) = last_of (some c) text

abbrev pub no_word : Option ℕ → Bool
no_word none = true
no_word (some c) = not (is_word c)

abbrev pub first_of : Text → Option ℕ
first_of [] = none
first_of (c ∷ text) = some c

-- the loop of `contains_keyword` on the text behind `prev`
unfoldable pub contains_from : ℕ → Option ℕ → Text → Text → Bool
contains_from zero prev keyword text = false
contains_from (suc fuel) prev keyword text = elim (find keyword text) [
  | none ↦ false
  | some (before, after) ↦
      let rest = contains_from fuel (last_of none keyword) keyword after in
      if no_word (last_of prev before) && no_word (first_of after) then true else rest
]

-- each round takes at least the keyword
unfoldable pub contains_keyword : Text → Text → Bool
contains_keyword upper_sql keyword = contains_from (suc (length upper_sql)) none keyword upper_sql

-- the loop of `find_keyword_pos`, from a position in bytes
unfoldable pub keyword_pos_from : ℕ → Option ℕ → ℕ → Text → Text → Option ℕ
keyword_pos_from zero prev start keyword text = none
keyword_pos_from (suc fuel) prev start keyword text = elim (find keyword text) [
  | none ↦ none
  | some (before, after) ↦
      let abs_pos = start + byte_len before in
      let rest =
        keyword_pos_from fuel (last_of none keyword) (abs_pos + byte_len keyword) keyword after in
      if no_word (last_of prev before) && no_word (first_of after) then some abs_pos else rest
]

unfoldable pub find_keyword_pos : Text → Text → Option ℕ
find_keyword_pos upper_sql keyword =
    keyword_pos_from (suc (length upper_sql)) none 0 keyword upper_sql
