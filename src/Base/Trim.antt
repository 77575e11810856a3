-- ===== src/Base/Trim.antt =====
-- Removing from the back of a list as long as a test holds.
use forge_index.Base.Lists.{drop_while, All, All-append}
use mathlib.Core.Bool.{Bool, true, false}
use mathlib.Core.List.{List, [], ◌∷◌, ◌++◌, reverse, reverse-cons, reverse-append, reverse-reverse}
use mathlib.Core.Path.{◌≡◌, refl}
use native.Mathlib.Omega.{arith}

module _ {A : Type 0} where
  -- `pop_back` as long as the back passes the test; `trim_end_matches` on text
  abbrev pub pop_back_while : (A → Bool) → List A → List A
  pop_back_while test xs = reverse (drop_while test (reverse xs))

  pub drop_while-append :
      (test : A → Bool) (xs ys : List A)
      → All (λ e. test e ≡ true) xs
      → drop_while test (xs ++ ys) ≡ drop_while test ys
  drop_while-append test [] ys h = refl
  drop_while-append test (x ∷ xs) ys (hx, hxs) = rw hx (drop_while-append test xs ys hxs)

  pub drop_while_none :
      (test : A → Bool) (xs : List A) → All (λ e. test e ≡ false) xs → drop_while test xs ≡ xs
  drop_while_none test [] h = refl
  drop_while_none test (x ∷ xs) (hx, _) = ground arith

  pub All-reverse : (P : A → Type 0) (xs : List A) → All P xs → All P (reverse xs)
  All-reverse P [] h = tt
  All-reverse P (x ∷ xs) (hx, hxs) =
      rw (reverse-cons x xs) (All-append P (reverse xs) (x ∷ []) (All-reverse P xs hxs) (hx, tt))

  pub pop_back_while-append :
      (test : A → Bool) (lo hi : List A)
      → All (λ e. test e ≡ false) lo
      → All (λ e. test e ≡ true) hi
      → pop_back_while test (lo ++ hi) ≡ lo
  pop_back_while-append test lo hi hlo hhi =
      rw
        (
          reverse-append lo hi,
          drop_while-append test (reverse hi) (reverse lo) (All-reverse _ hi hhi),
          drop_while_none test (reverse lo) (All-reverse _ lo hlo),
        )
        (reverse-reverse lo)
