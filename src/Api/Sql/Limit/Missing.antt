-- ===== src/Api/Sql/Limit/Missing.antt =====
-- A query without a limit gets one: `enforce_limit` in crates/forge-index-api/src/sql/parser.rs.
use forge_index.Base.{
  ℕ, zero, suc, ◌+◌, ◌++◌, Option, none, Option-cases, ◌≡◌, refl, arith, false, Bool-cases, inl,
  inr, length, ◌&&◌,
}
use forge_index.Base.Exec.{ok}
use forge_index.Base.Search.{find, byte_len}
use forge_index.Base.Text.{Text, codes, show_nat}
use forge_index.Api.Sql.Keywords.{
  contains_from, contains_keyword, keyword_pos_from, find_keyword_pos, last_of, no_word, first_of,
}
use forge_index.Api.Sql.Keywords.Exact.{Standalone, contains_keyword_iff}
use forge_index.Api.Sql.Limit.{enforce_limit}
use forge_index.Api.Sql.Types.{Casing}

pos_none :
    (fuel : ℕ) (prev : Option ℕ) (start : ℕ) (keyword text : Text)
    → contains_from fuel prev keyword text ≡ false
    → keyword_pos_from fuel prev start keyword text ≡ none
unfolding contains_from keyword_pos_from
pos_none zero prev start keyword text h = refl
pos_none (suc fuel) prev start keyword text h = elim (Option-cases (find keyword text)) [
  | inl absent ↦ ground (arith, absent)
  | inr ((before, after), place) ↦
      let further =
        pos_none fuel (last_of none keyword) (start + byte_len before + byte_len keyword) keyword
          after in
      elim (Bool-cases (no_word (last_of prev before) && no_word (first_of after))) [
        | inl here ↦ ground (arith, h, place, here)
        | inr apart ↦ ground (arith, place, apart, further (ground (arith, h, place, apart)))
      ]
]

-- If LIMIT is no word of the query in upper case, the query that runs ends with ` LIMIT 1000`.
pub enforce_limit_missing :
    (casing : Casing) (sql : Text)
    → ¬ Standalone none (codes "LIMIT") (casing.to_uppercase sql)
    → enforce_limit casing sql ≡ ok (sql ++ codes " LIMIT 1000")
unfolding enforce_limit find_keyword_pos contains_keyword show_nat
enforce_limit_missing casing sql missing =
    let upper = casing.to_uppercase sql in
    let (there, _) =
      contains_keyword_iff b'L' (codes "IMIT") (refl, (refl, (refl, (refl, (refl, tt))))) upper in
    let unseen : contains_keyword upper (codes "LIMIT") ≡ false =
      elim (Bool-cases (contains_keyword upper (codes "LIMIT"))) [
        | inl seen ↦ absurd (missing (there seen))
        | inr unseen ↦ unseen
      ] in
    rw (pos_none (suc (length upper)) none 0 (codes "LIMIT") upper unseen, enforce_limit) refl
