-- ===== src/Telemetry/BuildId/Order.antt =====
-- The order of an object's keys in the canonical JSON: crates/forge-index-telemetry/src/build_id.rs.
use forge_index.Base.{
  ◌≡◌, ◌≢◌, ◌⊎◌, inl, inr, refl, sym, ap, ◌∙◌, Bool, true, false, List, [], ◌∷◌, Bool-cases, arith,
  map, ◌++◌,
}
use forge_index.Base.Json.{Json, object, Fields, field}
use forge_index.Base.Sort.{insert_sorted, sort_by}
use forge_index.Base.Text.{Text, codes, join}
use forge_index.Telemetry.BuildId.{text_le, key_le, part, canonical_json, canonical_fields}

text_le_total : (s t : Text) → (text_le s t ≡ true) ⊎ (text_le t s ≡ true)
unfolding text_le
text_le_total [] t = inl refl
text_le_total (c ∷ s) [] = inr refl
text_le_total (c ∷ s) (d ∷ t) = ground (arith, text_le_total s t)

text_le_antisym : (s t : Text) → text_le s t ≡ true → text_le t s ≡ true → s ≡ t
unfolding text_le
text_le_antisym [] [] h h' = refl
text_le_antisym [] (d ∷ t) h h' = cc h'
text_le_antisym (c ∷ s) [] h h' = cc h
text_le_antisym (c ∷ s) (d ∷ t) h h' = ground (arith, text_le_antisym s t, h, h')

text_le_trans : (s t u : Text) → text_le s t ≡ true → text_le t u ≡ true → text_le s u ≡ true
unfolding text_le
text_le_trans [] t u h h' = refl
text_le_trans (c ∷ s) [] u h h' = cc h
text_le_trans (c ∷ s) (d ∷ t) [] h h' = cc h'
text_le_trans (c ∷ s) (d ∷ t) (e ∷ u) h h' = ground (arith, text_le_trans s t u, h, h')

module _ {A : Type 0} (le : A → A → Bool)
    (trans : (a b c : A) → le a b ≡ true → le b c ≡ true → le a c ≡ true) where
  -- of two elements, only the first may stand before the other
  insert_swap :
      (a b : A) (xs : List A)
      → le a b ≡ true
      → le b a ≡ false
      → insert_sorted le a (insert_sorted le b xs) ≡ insert_sorted le b (insert_sorted le a xs)
  insert_swap a b [] h h' = rw h (rw h' refl)
  insert_swap a b (x ∷ xs) h h' = elim (Bool-cases (le b x)) [
    | inl b_first ↦ rw b_first (rw (trans a b x h b_first) (rw h (rw h' (rw b_first refl))))
    | inr b_later ↦ elim (Bool-cases (le a x)) [
      | inl a_first ↦ rw b_later (rw a_first (rw h' (rw b_later refl)))
      | inr a_later ↦
          rw b_later (rw a_later (rw b_later (ap (λ l. x ∷ l) (insert_swap a b xs h h'))))
    ]
  ]

-- the same fields in another order, where fields that change places have different keys
pub data Reorder : Fields → Fields → Type 0 where
  same : {f : Fields} → Reorder f f
  keep : {k : Text} {v : Json} {f g : Fields} → Reorder f g → Reorder (field k v f) (field k v g)
  swap :
      {j k : Text} {u v : Json} {f : Fields}
      → j ≢ k
      → Reorder (field j u (field k v f)) (field k v (field j u f))
  next : {f g h : Fields} → Reorder f g → Reorder g h → Reorder f h

one_way : (j k : Text) → j ≢ k → text_le j k ≡ true → text_le k j ≡ false
one_way j k different h = elim (Bool-cases (text_le k j)) [
  | inl back ↦ absurd (different (text_le_antisym j k h back))
  | inr only ↦ only
]

key_le_trans : (a b c : Text × Text) → key_le a b ≡ true → key_le b c ≡ true → key_le a c ≡ true
key_le_trans (j, a) (k, b) (l, c) h h' = text_le_trans j k l h h'

entries_swap :
    (j k a b : Text) (xs : List (Text × Text))
    → j ≢ k
    → insert_sorted key_le (j, a) (insert_sorted key_le (k, b) xs)
      ≡ insert_sorted key_le (k, b) (insert_sorted key_le (j, a) xs)
entries_swap j k a b xs different = elim (text_le_total j k) [
  | inl first ↦ insert_swap key_le key_le_trans (j, a) (k, b) xs first (one_way j k different first)
  | inr second ↦ sym (
      insert_swap key_le key_le_trans (k, b) (j, a) xs second
        (one_way k j (λ e. different (sym e)) second))
]

module _ (to_string : Json → Text) where
  sorted_fields :
      {f g : Fields}
      → Reorder f g
      → sort_by key_le (canonical_fields to_string f)
        ≡ sort_by key_le (canonical_fields to_string g)
  unfolding canonical_json
  sorted_fields same = refl
  sorted_fields (keep {k} {v} r) =
      ap (λ l. insert_sorted key_le (k, canonical_json to_string v) l) (sorted_fields r)
  sorted_fields (swap {j} {k} {u} {v} {f} different) =
      entries_swap j k (canonical_json to_string u) (canonical_json to_string v)
        (sort_by key_le (canonical_fields to_string f)) different
  sorted_fields (next r s) = sorted_fields r ∙ sorted_fields s

  -- An object's canonical JSON is the same when its fields are put in another order, as long as fields
  -- that change places have different keys.
  pub canonical_json-Reorder :
      {f g : Fields}
      → Reorder f g
      → canonical_json to_string (object f) ≡ canonical_json to_string (object g)
  unfolding canonical_json
  canonical_json-Reorder r =
      ap (λ l. codes "{" ++ (join (codes ",") (map part l) ++ codes "}")) (sorted_fields r)
