-- ===== src/Base/Keeps.antt =====
-- Predicates on the state that a step keeps.
use mathlib.Core.Path.{◌≡◌}
use forge_index.Base.Exec.{Result, ok, err, Exec, continue, ◌>>=◌}

abbrev pub Keeps : {S E A : Type 0} → (S → Type 0) → Exec S E A → Type 0
Keeps {S = S} P m = (s : S) → P s → P (m s).1

module _ {S E A B : Type 0} (P : S → Type 0) where
  keeps_continue :
      (r : Result E A) (f : A → Exec S E B) (s : S)
      → P s
      → ((a : A) → Keeps P (f a))
      → P (continue r f s).1
  keeps_continue (ok a) f s h hf = hf a s h
  keeps_continue (err e) f s h hf = h

  pub Keeps-bind :
      (m : Exec S E A) (f : A → Exec S E B)
      → Keeps P m
      → ((a : A) → Keeps P (f a))
      → Keeps P (m >>= f)
  Keeps-bind m f hm hf s h = keeps_continue (m s).0 f (m s).1 (hm s h) hf

  -- where the first step succeeded, what follows it decides
  error_continue :
      (r : Result E A) (f : A → Exec S E B) (s : S) (e : E)
      → P s
      → ((a : A) (t : S) → P t → (f a t).0 ≡ err e → P (f a t).1)
      → (continue r f s).0 ≡ err e
      → P (continue r f s).1
  error_continue (ok a) f s e h hf failed = hf a s h failed
  error_continue (err x) f s e h hf failed = h

  pub error-bind :
      (m : Exec S E A) (f : A → Exec S E B) (e : E)
      → Keeps P m
      → ((a : A) (t : S) → P t → (f a t).0 ≡ err e → P (f a t).1)
      → (s : S) → P s
      → ((m >>= f) s).0 ≡ err e
      → P ((m >>= f) s).1
  error-bind m f e hm hf s h = error_continue (m s).0 f (m s).1 e (hm s h) hf

pub ok_is_not_err : {E A X : Type 0} (r : Result E A) (a : A) (e : E) → r ≡ ok a → r ≡ err e → X
ok_is_not_err r a e p q = cc (p, q)
