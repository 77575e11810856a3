-- ===== src/Base/Text/Equal.antt =====
-- What the comparison of texts says.
use forge_index.Base.Tests.{==_refl}
use forge_index.Base.Lists.{drop}
use forge_index.Base.Text.{Text, text_eq}
use mathlib.Core.Bool.{true}
use mathlib.Core.List.{[], ◌∷◌}
use mathlib.Core.Logic.{◌↔◌}
use mathlib.Core.Path.{◌≡◌, refl, ap}
use native.Mathlib.Omega.{arith}

pub text_eq_self : (t : Text) → text_eq t t ≡ true
unfolding text_eq
text_eq_self [] = refl
text_eq_self (c ∷ t) = rw (==_refl c) (text_eq_self t)

pub text_eq_iff : (s t : Text) → (text_eq s t ≡ true) ↔ (s ≡ t)
unfolding text_eq
text_eq_iff [] [] = (λ h. refl, λ h. refl)
text_eq_iff [] (d ∷ t) = (λ h. ground (arith, h), λ h. ground (arith, h))
text_eq_iff (c ∷ s) [] = (λ h. ground (arith, h), λ h. ground (arith, h))
text_eq_iff (c ∷ s) (d ∷ t) =
    let (there, back) = text_eq_iff s t in
    (λ h. ground (arith, h, there), λ h. ground (arith, h, back (ap (drop 1) h)))
