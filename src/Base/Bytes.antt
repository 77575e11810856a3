-- ===== src/Base/Bytes.antt =====
-- Numbers as bytes, the highest first, and slices of bytes.
use Prim.Native.Nat.{ℕ, zero, suc, ◌+◌, ◌-◌, ◌*◌, ◌/◌, ◌%◌, ◌^◌, ◌<◌}
use mathlib.Core.Bool.{Bool, true, false}
use mathlib.Core.List.{List, [], ◌∷◌, ◌++◌}
use mathlib.Core.Option.{Option, none, some}
use mathlib.Core.Path.{◌≡◌, refl, sym, ap, ◌∙◌}
use native.Mathlib.Omega.{arith}
use native.Mathlib.Nat.{pow-suc, mul_assoc}
pub mod Digits
use forge_index.Base.Lists.{length, length-append, take, drop}
use forge_index.Base.Tests.{ltb, ge→ltb, if◌then◌else◌}

-- `from_be_bytes`
abbrev pub from_be_acc : ℕ → List ℕ → ℕ
from_be_acc acc [] = acc
from_be_acc acc (b ∷ bs) = from_be_acc (acc * 256 + b) bs

unfoldable pub from_be : List ℕ → ℕ
from_be bs = from_be_acc 0 bs

-- the last `k` bytes of a number, before the bytes `rest`
abbrev pub be_before : (k v : ℕ) → List ℕ → List ℕ
be_before zero v rest = rest
be_before (suc k) v rest = be_before k (v / 256) (v % 256 ∷ rest)

unfoldable pub to_be : (k v : ℕ) → List ℕ
to_be k v = be_before k v []

abbrev pub replicate : ℕ → ℕ → List ℕ
replicate zero b = []
replicate (suc n) b = b ∷ replicate n b

-- `&data[start..end]`; none where Rust panics
unfoldable pub slice : List ℕ → (start end : ℕ) → Option (List ℕ)
slice xs start end =
    if ltb end start
    then none
    else if ltb (length xs) end
    then none
    else some (take (end - start) (drop start xs))

pub from_be_before :
    (k v acc : ℕ) (rest : List ℕ)
    → v < 256 ^ k
    → from_be_acc acc (be_before k v rest) ≡ from_be_acc (acc * 256 ^ k + v) rest
from_be_before zero v acc rest h = ap (λ n. from_be_acc n rest) (omega arith)
from_be_before (suc k) v acc rest h =
    let power = pow-suc 256 k in
    let regroup = mul_assoc acc (256 ^ k) 256 in
    from_be_before k (v / 256) acc (v % 256 ∷ rest) (omega arith)
    ∙ ap (λ n. from_be_acc n rest) (omega (arith, ap (λ p. acc * p) power))

-- reading the `k` bytes of a number gives the number
pub from_be-to_be : (k v : ℕ) → v < 256 ^ k → from_be (to_be k v) ≡ v
unfolding from_be to_be
from_be-to_be k v h = from_be_before k v 0 [] h ∙ omega arith

pub length-be_before : (k v : ℕ) (rest : List ℕ) → length (be_before k v rest) ≡ k + length rest
length-be_before zero v rest = omega arith
length-be_before (suc k) v rest = omega (arith, length-be_before k (v / 256) (v % 256 ∷ rest))

pub length-to_be : (k v : ℕ) → length (to_be k v) ≡ k
unfolding to_be
length-to_be k v = omega (arith, length-be_before k v [])

-- the number without its last `k` bytes
abbrev pub without_bytes : ℕ → ℕ → ℕ
without_bytes zero v = v
without_bytes (suc k) v = without_bytes k (v / 256)

pub without_bytes_zero : (k v : ℕ) → v < 256 ^ k → without_bytes k v ≡ 0
without_bytes_zero zero v h = omega arith
without_bytes_zero (suc k) v h = without_bytes_zero k (v / 256) (omega (arith, pow-suc 256 k))

module _ {ℓ} {A : Type ℓ} where
  pub take_front : (xs ys : List A) → take (length xs) (xs ++ ys) ≡ xs
  take_front [] ys = refl
  take_front (x ∷ xs) ys = ap (λ zs. x ∷ zs) (take_front xs ys)

  pub drop_front : (xs ys : List A) → drop (length xs) (xs ++ ys) ≡ ys
  drop_front [] ys = refl
  drop_front (x ∷ xs) ys = drop_front xs ys

-- the middle of three parts, by where it starts and ends
pub slice_middle :
    (before middle after : List ℕ) (start end : ℕ)
    → start ≡ length before
    → end ≡ start + length middle
    → slice (before ++ (middle ++ after)) start end ≡ some middle
unfolding slice
slice_middle before middle after start end hs he =
    let whole = before ++ (middle ++ after) in
    let size = length-append before (middle ++ after) in
    let tail_size = length-append middle after in
    let ordered = ge→ltb end start (omega arith) in
    let inside = ge→ltb (length whole) end (omega arith) in
    rw (ordered, inside)
      (ap some (
        ap (λ n. take (end - start) (drop n whole)) hs
        ∙ ap (take (end - start)) (drop_front before (middle ++ after))
        ∙ ap (λ n. take n (middle ++ after)) (omega arith)
        ∙ take_front middle after))
