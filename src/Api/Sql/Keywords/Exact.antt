-- ===== src/Api/Sql/Keywords/Exact.antt =====
-- Searching a keyword finds exactly its standalone places, although a place that is not standalone is
-- passed over as a whole: `contains_keyword` in crates/forge-index-api/src/sql/parser.rs.
use forge_index.Base.{
  ℕ, zero, suc, ◌<◌, [], ◌∷◌, ◌++◌, append_assoc, Option, none, some, Option-cases, ◌≡◌, refl, sym,
  ap, ◌∙◌, arith, true, false, Bool-cases, inl, inr, if◌then◌else◌, ◌⊎◌, ◌↔◌, All, length,
  length-append, drop, ◌&&◌,
}
use forge_index.Base.Search.{strip_prefix, find, put_before}
use forge_index.Base.Search.Found.{
  strip_prefix-append, strip_prefix_text, find_text, find_here, find_later,
}
use forge_index.Base.Text.{Text}
use forge_index.Api.Sql.Keywords.{
  is_word, last_of, no_word, first_of, contains_from, contains_keyword,
}

-- the keyword stands in the text, which follows `prev`, and no word character touches it
abbrev pub Standalone : Option ℕ → Text → Text → Type 0
Standalone prev keyword text =
    (before : Text) × ((after : Text) × ((text ≡ before ++ (keyword ++ after))
        × (no_word (last_of prev before) ≡ true)
        × (no_word (first_of after) ≡ true)))

-- a keyword is made of word characters
abbrev pub AllWord : Text → Type 0
AllWord = All (λ c. is_word c ≡ true)

last_of-append : (prev : Option ℕ) (a b : Text) → last_of prev (a ++ b) ≡ last_of (last_of prev a) b
last_of-append prev [] b = refl
last_of-append prev (c ∷ a) b = last_of-append (some c) a b

-- a text `k` of word characters that starts where `a` starts ends before `a` does, if no word
-- character comes just before the end of `a`
align :
    (k : Text) (w : ℕ) (rest a tail : Text)
    → AllWord k
    → is_word w ≡ true
    → k ++ rest ≡ a ++ tail
    → no_word (last_of (some w) a) ≡ true
    → (a' : Text) × ((rest ≡ a' ++ tail) × (no_word (last_of (last_of (some w) k) a') ≡ true))
align [] w rest a tail _ hw same clear = (a, (same, clear))
align (x ∷ k) w rest [] tail (hx, hk) hw same clear = ground (arith, hw, clear)
align (x ∷ k) w rest (y ∷ a) tail (hx, hk) hw same clear =
    let heads : x ≡ y = ground (arith, same) in
    align k x rest a tail hk hx (ap (drop 1) same)
      (ap (λ c. no_word (last_of (some c) a)) heads ∙ clear)

regroup : (a k b c : Text) → a ++ (k ++ (b ++ (k ++ c))) ≡ (a ++ (k ++ b)) ++ (k ++ c)
regroup a k b c = simp append_assoc refl

module _ (k : ℕ) (ks : Text) (words : AllWord (k ∷ ks)) where
  -- the search meets a standalone place or passes over a place before one
  locate :
      (prev : Option ℕ) (a b : Text)
      → no_word (last_of prev a) ≡ true
      → no_word (first_of b) ≡ true
      → (before : Text) × ((after : Text) × ((find (k ∷ ks) (a ++ (k ∷ ks ++ b))
              ≡ some (before, after))
            × (((no_word (last_of prev before) ≡ true) × (no_word (first_of after) ≡ true))
                ⊎ Standalone (last_of none (k ∷ ks)) (k ∷ ks) after)))
  locate prev [] b ha hb =
      ([], (b, (find_here (k ∷ ks) k (ks ++ b) b (strip_prefix-append (k ∷ ks) b), inl (ha, hb))))
  locate prev (c ∷ a) b ha hb =
      elim (Option-cases (strip_prefix (k ∷ ks) (c ∷ (a ++ (k ∷ ks ++ b))))) [
        | inl absent ↦
            let (before, (after, (found, next))) = locate (some c) a b ha hb in
            (
              c ∷ before,
              (
                after,
                (find_later (k ∷ ks) c (a ++ (k ∷ ks ++ b)) absent ∙ ap (put_before c) found, next),
              ),
            )
        | inr (rest, here) ↦
            let same = strip_prefix_text (k ∷ ks) (c ∷ (a ++ (k ∷ ks ++ b))) rest here in
            let heads : k ≡ c = ground (arith, same) in
            let (a', (split, clear)) =
              align ks k rest a (k ∷ ks ++ b) words.1 words.0 (sym (ap (drop 1) same))
                (ap (λ d. no_word (last_of (some d) a)) heads ∙ ha) in
            (
              [],
              (
                rest,
                (
                  find_here (k ∷ ks) c (a ++ (k ∷ ks ++ b)) rest here,
                  inr (a', (b, (split, clear, hb))),
                ),
              ),
            )
      ]

  contains_step :
      (fuel : ℕ) (prev : Option ℕ) (text before after : Text)
      → find (k ∷ ks) text ≡ some (before, after)
      → contains_from (suc fuel) prev (k ∷ ks) text ≡ (
          if no_word (last_of prev before) && no_word (first_of after)
          then true
          else contains_from fuel (last_of none (k ∷ ks)) (k ∷ ks) after)
  unfolding contains_from
  contains_step fuel prev text before after place =
      ap
        (λ o. elim o [
          | none ↦ false
          | some (b, a) ↦
              if no_word (last_of prev b) && no_word (first_of a)
              then true
              else contains_from fuel (last_of none (k ∷ ks)) (k ∷ ks) a
        ])
        place

  from_complete :
      (fuel : ℕ) (prev : Option ℕ) (text : Text)
      → length text < fuel
      → Standalone prev (k ∷ ks) text
      → contains_from fuel prev (k ∷ ks) text ≡ true
  unfolding contains_from
  from_complete zero prev text h s = absurd (omega arith)
  from_complete (suc fuel) prev text h (a, (b, (split, ha, hb))) =
      let (before, (after, (found, next))) = locate prev a b ha hb in
      let place = ap (find (k ∷ ks)) split ∙ found in
      let shorter : length after < fuel = omega (
        arith,
        ap length (find_text (k ∷ ks) text before after place),
        length-append before (k ∷ ks ++ after),
        length-append ks after,
      ) in
      elim next [
        | inl (ok_before, ok_after) ↦
            contains_step fuel prev text before after place ∙ ground (arith, ok_before, ok_after)
        | inr later ↦
            contains_step fuel prev text before after place
            ∙ ground (arith, from_complete fuel (last_of none (k ∷ ks)) after shorter later)
      ]

  from_sound :
      (fuel : ℕ) (prev : Option ℕ) (text : Text)
      → contains_from fuel prev (k ∷ ks) text ≡ true
      → Standalone prev (k ∷ ks) text
  unfolding contains_from
  from_sound zero prev text h = ground (arith, h)
  from_sound (suc fuel) prev text h = elim (Option-cases (find (k ∷ ks) text)) [
    | inl absent ↦ ground (arith, h, absent)
    | inr ((before, after), place) ↦
        let whole = sym (contains_step fuel prev text before after place) ∙ h in
        let split = find_text (k ∷ ks) text before after place in
        elim (Bool-cases (no_word (last_of prev before) && no_word (first_of after))) [
          | inl here ↦ (before, (after, (split, (ground (arith, here)), (ground (arith, here)))))
          | inr apart ↦
              let (a, (b, (rest, clear, ends))) =
                from_sound fuel (last_of none (k ∷ ks)) after (ground (arith, whole, apart)) in
              (
                before ++ (k ∷ ks ++ a),
                (
                  b,
                  (
                    split ∙ (ap (λ t. before ++ (k ∷ ks ++ t)) rest ∙ regroup before (k ∷ ks) a b),
                    ap no_word
                          (last_of-append prev before (k ∷ ks ++ a) ∙ last_of-append (some k) ks a)
                        ∙ clear,
                    ends,
                  ),
                ),
              )
        ]
  ]

  -- A keyword of word characters is reported exactly if it stands somewhere in the text with no word
  -- character just before it and none just behind it.
  pub contains_keyword_iff :
      (upper_sql : Text)
      → (contains_keyword upper_sql (k ∷ ks) ≡ true) ↔ Standalone none (k ∷ ks) upper_sql
  unfolding contains_keyword
  contains_keyword_iff upper_sql = (
    from_sound (suc (length upper_sql)) none upper_sql,
    from_complete (suc (length upper_sql)) none upper_sql (omega arith),
  )
