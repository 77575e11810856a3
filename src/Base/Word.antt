-- ===== src/Base/Word.antt =====
-- Arithmetic of `u64` as a release build does it: sums, differences and products wrap around.
use Prim.Native.Nat.{ℕ, ◌+◌, ◌-◌, ◌*◌, ◌%◌, ◌^◌, ◌≤◌, ◌<◌}
use mathlib.Core.Path.{◌≡◌}
use native.Mathlib.Omega.{arith}

abbrev pub u64_mod : ℕ
u64_mod = 2 ^ 64

abbrev pub wrapping_add : ℕ → ℕ → ℕ
wrapping_add a b = (a + b) % u64_mod

abbrev pub wrapping_sub : ℕ → ℕ → ℕ
wrapping_sub a b = (a + u64_mod - b) % u64_mod

abbrev pub wrapping_mul : ℕ → ℕ → ℕ
wrapping_mul a b = a * b % u64_mod

-- `a.saturating_sub(b)`
abbrev pub saturating_sub : ℕ → ℕ → ℕ
saturating_sub a b = a - b

pub wrapping_add-eq : (a b : ℕ) → a + b < u64_mod → wrapping_add a b ≡ a + b
wrapping_add-eq a b h = omega arith

pub wrapping_sub-eq : (a b : ℕ) → b ≤ a → a < u64_mod → wrapping_sub a b ≡ a - b
wrapping_sub-eq a b h k = omega arith
