-- ===== src/Base/Int.antt =====
-- Signed integers over the native numbers, and their decimal text.
use forge_index.Base.Text.{Text, show_nat}
use Prim.Native.Nat.{ℕ, suc}
use mathlib.Core.List.{◌∷◌}

-- `negsuc n` is -(n + 1).
pub data ℤ : Type 0 where
  pos : ℕ → ℤ
  negsuc : ℕ → ℤ

-- `to_string` on a signed integer
unfoldable pub show_int : ℤ → Text
unfolding show_nat
show_int (pos n) = show_nat n
show_int (negsuc n) = b'-' ∷ show_nat (suc n)
