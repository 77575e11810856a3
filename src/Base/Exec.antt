-- ===== src/Base/Exec.antt =====
-- Code that changes a state and may return early with an error: what was changed before the error
-- stays changed, so the state comes back on both branches.

use mathlib.Core.Path.{◌≡◌, refl}

pub data Result {ℓ} (E A : Type ℓ) : Type ℓ where
  ok : A → Result E A
  err : E → Result E A

abbrev pub Exec {ℓ} : Type ℓ → Type ℓ → Type ℓ → Type ℓ
Exec S E A = S → Result E A × S

module _ {ℓ} {S E A B : Type ℓ} where
  -- what follows a step with result `r` that left the state `s`
  abbrev pub continue : Result E A → (A → Exec S E B) → S → Result E B × S
  continue (ok a) f s = f a s
  continue (err e) f s = (err e, s)

  infixl 5 ◌>>=◌ ◌>>◌
  abbrev pub ◌>>=◌ : Exec S E A → (A → Exec S E B) → Exec S E B
  ◌>>=◌ m f s = let (r, s') = m s in continue r f s'

  abbrev pub ◌>>◌ : Exec S E A → Exec S E B → Exec S E B
  m >> k = m >>= λ _. k

module _ {ℓ} {S E A : Type ℓ} where
  abbrev pub pure : A → Exec S E A
  pure a s = (ok a, s)

  abbrev pub fail : E → Exec S E A
  fail e s = (err e, s)

module _ {ℓ} {E F A : Type ℓ} where
  abbrev pub map_error : (E → F) → Result E A → Result F A
  map_error f (ok a) = ok a
  map_error f (err e) = err (f e)

  -- `.map_err(f)`
  abbrev pub map_err : {S : Type ℓ} → (E → F) → Exec S E A → Exec S F A
  map_err f m s = let (r, s') = m s in (map_error f r, s')

module _ {ℓ} {S E A B C : Type ℓ} where
  -- what follows two steps, bracketed either way
  pub continue-continue :
      (r : Result E A) (f : A → Exec S E B) (g : B → Exec S E C) (s : S)
      → continue (continue r f s).0 g (continue r f s).1 ≡ continue r (λ a. f a >>= g) s
  continue-continue (ok a) f g s = refl
  continue-continue (err e) f g s = refl

module _ {ℓ} {S E A : Type ℓ} where
  pub continue-pure : (r : Result E A) (s : S) → continue r (λ a. pure a) s ≡ (r, s)
  continue-pure (ok a) s = refl
  continue-pure (err e) s = refl
