-- ===== src/Api/Sql/Validate/Accepted.antt =====
-- Which queries pass the check: `validate_sql` in crates/forge-index-api/src/sql/parser.rs.
use forge_index.Base.{
  ◌≤◌, ◌∙◌, map, ◌==◌, List, [], ◌∷◌, none, ◌≡◌, refl, sym, ap, arith, Bool, true, false, not,
  Bool-cases, inl, inr, if◌then◌else◌, ◌↔◌, All, ◌||◌, ltb, ltb→ge, ge→ltb, drop, ◌≢◌,
}
use forge_index.Base.Exec.{Result, ok, err}
use forge_index.Base.Fallible.{◌>>=◌, ◌>>◌}
use forge_index.Base.Search.{contains, trim, byte_len, split_whitespace}
use forge_index.Base.Text.{Text, codes, text_eq}
use forge_index.Base.Trim.{pop_back_while}
use forge_index.Api.Sql.Keywords.{contains_keyword, is_word}
use forge_index.Api.Sql.Keywords.Exact.{Standalone, AllWord, contains_keyword_iff}
use forge_index.Api.Sql.Limit.{enforce_limit}
use forge_index.Api.Sql.Tables.{extract_table_names, add_prefixes}
use forge_index.Api.Sql.Types.{
  Casing, SqlError, Refusal, ValidatedSql, is_empty, max_query_length, banned_keywords,
  banned_schemas,
}
use forge_index.Api.Sql.Validate.{
  check_keywords, check_schemas, check_text, refuse_if, first_word, without_semicolons,
  validate_sql,
}

abbrev all_words : Text → Bool
all_words [] = true
all_words (c ∷ text) = let rest = all_words text in if is_word c then rest else false

all_words-AllWord : (text : Text) → all_words text ≡ true → AllWord text
all_words-AllWord [] h = tt
all_words-AllWord (c ∷ text) h = elim (Bool-cases (is_word c)) [
  | inl there ↦ (there, all_words-AllWord text (ground (arith, h, there)))
  | inr other ↦ ground (arith, h, other)
]

abbrev IsKeyword : Text → Type 0
IsKeyword [] = ⊥
IsKeyword (k ∷ ks) = all_words (k ∷ ks) ≡ true

then_iff :
    {A : Type 0} (m : Result Refusal Unit) (k : Result Refusal A) (a : A)
    → ((m >> k) ≡ ok a) ↔ ((m ≡ ok tt) × (k ≡ ok a))
then_iff (ok tt) k a = (λ h. (refl, h), λ (p, h). h)
then_iff (err e) k a = (λ h. ground (arith, h), λ (p, h). ground (arith, p))

refuse_if_iff : (test : Bool) (e : SqlError) → (refuse_if test e ≡ ok tt) ↔ (test ≡ false)
refuse_if_iff true e = (λ h. ground (arith, h), λ h. ground (arith, h))
refuse_if_iff false e = (λ h. refl, λ h. refl)

keyword_absent :
    (keyword upper : Text)
    → IsKeyword keyword
    → (contains_keyword upper keyword ≡ false) ↔ (¬ Standalone none keyword upper)
keyword_absent [] upper h = elim h [ ]
keyword_absent (k ∷ ks) upper h =
    let (there, found) = contains_keyword_iff k ks (all_words-AllWord (k ∷ ks) h) upper in
    (
      λ absent s. ground (arith, absent, found s),
      λ not_there. elim (Bool-cases (contains_keyword upper (k ∷ ks))) [
        | inl reported ↦ absurd (not_there (there reported))
        | inr absent ↦ absent
      ],
    )

check_keywords_iff :
    (upper : Text) (keywords : List Text)
    → All IsKeyword keywords
    → (check_keywords upper keywords ≡ ok tt) ↔ All (λ k. ¬ Standalone none k upper) keywords
unfolding check_keywords
check_keywords_iff upper [] h = (λ _. tt, λ _. refl)
check_keywords_iff upper (k ∷ ks) (h, hs) =
    let (iff, fi) = check_keywords_iff upper ks hs in
    let (away, back) = keyword_absent k upper h in
    elim (Bool-cases (contains_keyword upper k)) [
      | inl there ↦
          (λ e. ground (arith, e, there), λ (clear, _). absurd (ground (arith, there, back clear)))
      | inr absent ↦ (
        λ e. (away absent, iff (ground (arith, e, absent))),
        λ (_, rest). ground (arith, absent, fi rest),
      )
    ]

check_schemas_iff :
    (lower : Text) (schemas : List Text)
    → (check_schemas lower schemas ≡ ok tt) ↔ All (λ s. contains s lower ≡ false) schemas
unfolding check_schemas
check_schemas_iff lower [] = (λ _. tt, λ _. refl)
check_schemas_iff lower (s ∷ ss) =
    let (iff, fi) = check_schemas_iff lower ss in
    elim (Bool-cases (contains s lower)) [
      | inl there ↦
          (λ e. ground (arith, e, there), λ (clear, _). absurd (ground (arith, there, clear)))
      | inr absent ↦ (
        λ e. (absent, iff (ground (arith, e, absent))),
        λ (_, rest). ground (arith, absent, fi rest),
      )
    ]

-- the first word of a text, if there is one
abbrev first_of_words : List Text → Text
first_of_words [] = []
first_of_words (w ∷ ws) = w

-- the words that a query must not have
abbrev writing_words : List Text
writing_words = map codes (
    "INSERT" ∷ "UPDATE" ∷ "DELETE" ∷ "DROP" ∷ "CREATE" ∷ "ALTER" ∷ "TRUNCATE" ∷ "GRANT" ∷ "REVOKE"
    ∷ "COPY" ∷ "EXECUTE" ∷ [])

-- What a query has to be.
abbrev pub Passes : Casing → Text → Type 0
Passes casing sql =
    (byte_len sql ≤ 10000)
    × (sql ≢ [])
    × (casing.to_uppercase (first_of_words (split_whitespace sql)) ≡ codes "SELECT")
    × (contains (codes ";") (trim (pop_back_while (λ c. c == b';') sql)) ≡ false)
    × (contains (codes "$$") sql || contains (codes "$tag$") sql ≡ false)
    × All (λ k. ¬ Standalone none k (casing.to_uppercase sql)) writing_words
    × All (λ s. contains s (casing.to_lowercase sql) ≡ false)
        (codes "pg_catalog" ∷ codes "information_schema" ∷ [])

opening :
    (casing : Casing) (sql : Text)
    → first_word casing sql ≡ casing.to_uppercase (first_of_words (split_whitespace sql))
opening casing sql = by_words (split_whitespace sql)
  where
    by_words :
        (ws : List Text)
        → elim ws [ [] ↦ casing.to_uppercase [] | word ∷ words ↦ casing.to_uppercase word ]
          ≡ casing.to_uppercase (first_of_words ws)
    by_words [] = refl
    by_words (w ∷ ws) = refl

text_eq_iff : (s t : Text) → (not (text_eq s t) ≡ false) ↔ (s ≡ t)
unfolding text_eq
text_eq_iff [] [] = (λ h. refl, λ h. refl)
text_eq_iff [] (d ∷ t) = (λ h. ground (arith, h), λ h. ground (arith, h))
text_eq_iff (c ∷ s) [] = (λ h. ground (arith, h), λ h. ground (arith, h))
text_eq_iff (c ∷ s) (d ∷ t) =
    let (there, back) = text_eq_iff s t in
    (λ h. ground (arith, h, there), λ h. ground (arith, h, back (ap (drop 1) h)))

not_empty_iff : (s : Text) → (is_empty s ≡ false) ↔ (s ≢ [])
not_empty_iff [] = (λ h. ground (arith, h), λ h. absurd (h refl))
not_empty_iff (c ∷ s) = (λ h e. ground (arith, e), λ h. refl)

keywords-IsKeyword : All IsKeyword banned_keywords
keywords-IsKeyword =
    (refl, (refl, (refl, (refl, (refl, (refl, (refl, (refl, (refl, (refl, (refl, tt)))))))))))

-- seven checks in a row, the first five of them tests
checks_iff :
    (a b c d e : Bool) (fa fb fc fd fe : SqlError) (m k : Result Refusal Unit)
    → ((refuse_if a fa
          >> refuse_if b fb
          >> refuse_if c fc
          >> refuse_if d fd
          >> refuse_if e fe
          >> m
          >> k)
        ≡ ok tt)
      ↔ ((a ≡ false)
          × (b ≡ false)
          × (c ≡ false)
          × (d ≡ false)
          × (e ≡ false)
          × (m ≡ ok tt)
          × (k ≡ ok tt))
checks_iff a b c d e fa fb fc fd fe m k =
    let ma = refuse_if a fa in
    let mb = ma >> refuse_if b fb in
    let mc = mb >> refuse_if c fc in
    let md = mc >> refuse_if d fd in
    let me = md >> refuse_if e fe in
    (
      λ h.
          let (h6, hk) = (then_iff (me >> m) k tt).0 h in
          let (h5, hm) = (then_iff me m tt).0 h6 in
          let (h4, he) = (then_iff md (refuse_if e fe) tt).0 h5 in
          let (h3, hd) = (then_iff mc (refuse_if d fd) tt).0 h4 in
          let (h2, hc) = (then_iff mb (refuse_if c fc) tt).0 h3 in
          let (ha, hb) = (then_iff ma (refuse_if b fb) tt).0 h2 in
          (
            (refuse_if_iff a fa).0 ha,
            (refuse_if_iff b fb).0 hb,
            (refuse_if_iff c fc).0 hc,
            (refuse_if_iff d fd).0 hd,
            (refuse_if_iff e fe).0 he,
            hm,
            hk,
          ),
      λ (ha, hb, hc, hd, he, hm, hk). ground (arith, ha, hb, hc, hd, he, hm, hk),
    )

pub check_text_iff :
    (casing : Casing) (sql : Text) → (check_text casing sql ≡ ok tt) ↔ Passes casing sql
unfolding check_text
check_text_iff casing sql =
    let (keywords, keywords') =
      check_keywords_iff (casing.to_uppercase sql) banned_keywords keywords-IsKeyword in
    let (schemas, schemas') = check_schemas_iff (casing.to_lowercase sql) banned_schemas in
    let (word, word') = text_eq_iff (first_word casing sql) (codes "SELECT") in
    let (some_text, some_text') = not_empty_iff sql in
    let (there, back) =
      checks_iff (ltb max_query_length (byte_len sql)) (is_empty sql)
        (not (text_eq (first_word casing sql) (codes "SELECT")))
        (contains (codes ";") (without_semicolons sql))
        (contains (codes "$$") sql || contains (codes "$tag$") sql) _ _ _ _ _
        (check_keywords (casing.to_uppercase sql) banned_keywords)
        (check_schemas (casing.to_lowercase sql) banned_schemas) in
    (
      λ h.
          let (size, filled, select, single, quotes, free, apart) = there h in
          (
            ltb→ge max_query_length (byte_len sql) size,
            some_text filled,
            sym (opening casing sql) ∙ word select,
            single,
            quotes,
            keywords free,
            schemas apart,
          ),
      λ (size, filled, select, single, quotes, free, apart). back (
        ge→ltb max_query_length (byte_len sql) size,
        some_text' filled,
        word' (opening casing sql ∙ select),
        single,
        quotes,
        keywords' free,
        schemas' apart,
      ),
    )

value_of : {A : Type 0} {a b : A} → Path (Result Refusal A) (ok a) (ok b) → a ≡ b
value_of {A} {a} h = ap (λ r. elim r as (λ _. A) [ ok x ↦ x | err e ↦ a ]) h

finish_iff :
    (m : Result Refusal Text) (original : Text) (table_names : List Text) (v : ValidatedSql)
    → ((m >>= λ sanitised.
          ok (record { original = original; sanitised = sanitised; table_names = table_names }))
        ≡ ok v)
      ↔ ((v.original ≡ original) × (v.table_names ≡ table_names) × (m ≡ ok v.sanitised))
finish_iff (err e) original table_names v = (λ h. ground (arith, h), λ (p, q, r). ground (arith, r))
finish_iff (ok s) original table_names v = (
  λ h.
      let same = value_of h in
      (
        ap (λ w. w.original) (sym same),
        ap (λ w. w.table_names) (sym same),
        ap (λ w. ok w.sanitised) same,
      ),
  λ (p, q, r).
      let same : s ≡ v.sanitised = value_of r in
      λ i. ok (record { original = sym p i; sanitised = same i; table_names = sym q i }),
)

-- what the check gives, by what it makes of the text
pub validate_sql_iff :
    (casing : Casing) (input pg_schema : Text) (v : ValidatedSql)
    → (validate_sql casing input pg_schema ≡ ok v) ↔ (
        Passes casing (trim input)
        × (v.original ≡ trim input)
        × (v.table_names ≡ extract_table_names casing (without_semicolons (trim input)))
        × (enforce_limit casing (
              add_prefixes pg_schema
                (extract_table_names casing (without_semicolons (trim input)))
                (without_semicolons (trim input)))
            ≡ ok v.sanitised))
unfolding validate_sql
validate_sql_iff casing input pg_schema v =
    let sql = trim input in
    let trimmed = without_semicolons sql in
    let tables = extract_table_names casing trimmed in
    let limited = enforce_limit casing (add_prefixes pg_schema tables trimmed) in
    let (passes, passes') = check_text_iff casing sql in
    let (finish, finish') = finish_iff (check_text casing sql >> limited) sql tables v in
    (
      λ h.
          let (p, q, r) = finish h in
          let (checked, run) = (then_iff (check_text casing sql) limited v.sanitised).0 r in
          (passes checked, p, q, run),
      λ (good, p, q, run).
          finish'
            (p, q, (then_iff (check_text casing sql) limited v.sanitised).1 (passes' good, run)),
    )
