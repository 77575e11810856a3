-- ===== src/Base/Sort.antt =====
-- `sort_by`: the standard library's stable sort, as an insertion sort.
use mathlib.Core.Bool.{Bool, true, false}
use mathlib.Core.List.{List, [], ◌∷◌, Permᴰ}
use mathlib.Core.List.Permᴰ
use mathlib.Core.Logic.{◌⊎◌, inl, inr}
use mathlib.Core.Path.{◌≡◌, refl, subst}
use native.Mathlib.Omega.{arith}
use forge_index.Base.Tests.{if◌then◌else◌, Bool-cases}

module _ {A : Type 0} (le : A → A → Bool) where
  abbrev pub insert_sorted : A → List A → List A
  insert_sorted a [] = a ∷ []
  insert_sorted a (x ∷ xs) =
      let rest = insert_sorted a xs in if le a x then a ∷ x ∷ xs else x ∷ rest

  abbrev pub sort_by : List A → List A
  sort_by [] = []
  sort_by (x ∷ xs) = insert_sorted x (sort_by xs)

  -- every element before the one that follows it
  abbrev pub IsSorted : List A → Type 0
  IsSorted [] = Unit
  IsSorted (x ∷ []) = Unit
  IsSorted (x ∷ y ∷ xs) = (le x y ≡ true) × IsSorted (y ∷ xs)

  insert_sorted-Perm : (a : A) (xs : List A) → Permᴰ (insert_sorted a xs) (a ∷ xs)
  insert_sorted-Perm a [] = Permᴰ.refl (a ∷ [])
  insert_sorted-Perm a (x ∷ xs) = elim (Bool-cases (le a x)) [
    | inl yes_first ↦ rw yes_first (Permᴰ.refl (a ∷ x ∷ xs))
    | inr later ↦
        rw later (Permᴰ.trans (Permᴰ.cons refl (insert_sorted-Perm a xs)) (Permᴰ.swap refl refl))
  ]

  pub sort_by-Perm : (xs : List A) → Permᴰ (sort_by xs) xs
  sort_by-Perm [] = Permᴰ.nil
  sort_by-Perm (x ∷ xs) =
      Permᴰ.trans (insert_sorted-Perm x (sort_by xs)) (Permᴰ.cons refl (sort_by-Perm xs))

  module _ (total : (a b : A) → (le a b ≡ true) ⊎ (le b a ≡ true)) where
    after : (a b : A) → le a b ≡ false → le b a ≡ true
    after a b h = ground (arith, total a b, h)

    insert_sorted-IsSorted : (a : A) (xs : List A) → IsSorted xs → IsSorted (insert_sorted a xs)
    insert_sorted-IsSorted a [] h = tt
    insert_sorted-IsSorted a (x ∷ []) h = elim (Bool-cases (le a x)) [
      | inl first ↦ rw first (first, tt)
      | inr later ↦ rw later (after a x later, tt)
    ]
    insert_sorted-IsSorted a (x ∷ y ∷ ys) (hxy, h) = elim (Bool-cases (le a x)) [
      | inl first ↦ rw first (first, (hxy, h))
      | inr later ↦
          rw later (behind (Bool-cases (le a y)) (insert_sorted-IsSorted a (y ∷ ys) h) later)
    ]
      where
        kept : le a y ≡ false → insert_sorted a (y ∷ ys) ≡ (y ∷ insert_sorted a ys)
        kept second = rw second refl

        behind :
            (le a y ≡ true) ⊎ (le a y ≡ false)
            → IsSorted (insert_sorted a (y ∷ ys))
            → le a x ≡ false
            → IsSorted (x ∷ insert_sorted a (y ∷ ys))
        behind (inl first) sorted later = rw first (after a x later, (first, h))
        behind (inr second) sorted later = rw second (hxy, subst IsSorted (kept second) sorted)

    pub sort_by-IsSorted : (xs : List A) → IsSorted (sort_by xs)
    sort_by-IsSorted [] = tt
    sort_by-IsSorted (x ∷ xs) = insert_sorted-IsSorted x (sort_by xs) (sort_by-IsSorted xs)
