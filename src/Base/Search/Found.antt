-- ===== src/Base/Search/Found.antt =====
-- What a search finds, and that it finds the first place.
use forge_index.Base.{
  ℕ, [], ◌∷◌, ◌++◌, none, some, Option-cases, ◌≡◌, refl, ap, arith, ==_refl, inl, inr,
}
use forge_index.Base.Search.{strip_prefix, find, put_before}
use forge_index.Base.Text.{Text}

pub strip_prefix-append : (p rest : Text) → strip_prefix p (p ++ rest) ≡ some rest
strip_prefix-append [] rest = refl
strip_prefix-append (c ∷ p) rest = rw (==_refl c) (strip_prefix-append p rest)

pub strip_prefix_text : (p text rest : Text) → strip_prefix p text ≡ some rest → text ≡ p ++ rest
strip_prefix_text [] text rest h = ground (arith, h)
strip_prefix_text (c ∷ p) [] rest h = ground (arith, h)
strip_prefix_text (c ∷ p) (d ∷ text) rest h = ground (arith, strip_prefix_text p text rest)

pub find_text :
    (p text before after : Text)
    → find p text ≡ some (before, after)
    → text ≡ before ++ (p ++ after)
find_text p [] before after h = elim (Option-cases (strip_prefix p [])) [
  | inl absent ↦ ground (arith, h, absent)
  | inr (rest, e) ↦ ground (arith, h, e, strip_prefix_text p [] rest e)
]
find_text p (c ∷ text) before after h = elim (Option-cases (strip_prefix p (c ∷ text))) [
  | inl absent ↦ elim (Option-cases (find p text)) [
    | inl none_later ↦ ground (arith, h, absent, none_later)
    | inr ((b, a), e) ↦ ground (arith, h, absent, e, find_text p text b a e)
  ]
  | inr (rest, e) ↦ ground (arith, h, e, strip_prefix_text p (c ∷ text) rest e)
]

pub find_here :
    (p : Text) (c : ℕ) (text rest : Text)
    → strip_prefix p (c ∷ text) ≡ some rest
    → find p (c ∷ text) ≡ some ([], rest)
find_here p c text rest here =
    ap (λ o. elim o [ none ↦ put_before c (find p text) | some r ↦ some ([], r) ]) here

pub find_later :
    (p : Text) (c : ℕ) (text : Text)
    → strip_prefix p (c ∷ text) ≡ none
    → find p (c ∷ text) ≡ put_before c (find p text)
find_later p c text absent =
    ap (λ o. elim o [ none ↦ put_before c (find p text) | some r ↦ some ([], r) ]) absent
