-- ===== src/Base/Bytes/Digits.antt =====
-- The digits of a number in base 256, taken apart and put together again.
use forge_index.Base.{
  ℕ, zero, suc, ◌+◌, ◌*◌, ◌/◌, ◌%◌, ◌^◌, ◌<◌, List, [], ◌∷◌, ◌++◌, append-nil, length, All, ◌≡◌,
  refl, sym, ap, ◌∙◌, arith,
}
use forge_index.Base.Bytes.{from_be_acc, from_be, be_before, to_be, without_bytes}
use native.Mathlib.Nat.{pow-suc, mul_assoc, div-div-eq-div-mul}

abbrev pub IsByte : ℕ → Type 0
IsByte b = b < 256

-- what stands above the last `k` bytes does not change them
pub be_before_above :
    (k q r : ℕ) (rest : List ℕ) → be_before k (q * 256 ^ k + r) rest ≡ be_before k r rest
be_before_above zero q r rest = refl
be_before_above (suc k) q r rest =
    let power = pow-suc 256 k in
    let regroup = mul_assoc q (256 ^ k) 256 in
    let whole : q * 256 ^ suc k ≡ q * 256 ^ k * 256 = ap (λ p. q * p) power ∙ sym regroup in
    let above : (q * 256 ^ suc k + r) / 256 ≡ q * 256 ^ k + r / 256 = omega arith in
    let byte : (q * 256 ^ suc k + r) % 256 ≡ r % 256 = omega arith in
    ap (λ n. be_before k n ((q * 256 ^ suc k + r) % 256 ∷ rest)) above
    ∙ (ap (λ b. be_before k (q * 256 ^ k + r / 256) (b ∷ rest)) byte
        ∙ be_before_above k q (r / 256) (r % 256 ∷ rest))

pub without_bytes_eq : (k v : ℕ) → without_bytes k v ≡ v / 256 ^ k
without_bytes_eq zero v = omega arith
without_bytes_eq (suc k) v =
    without_bytes_eq k (v / 256)
    ∙ (div-div-eq-div-mul v 256 (256 ^ k) ∙ ap (λ p. v / p) (omega (arith, pow-suc 256 k)))

-- one more byte goes in front
pub be_before_front :
    (k v : ℕ) (rest : List ℕ)
    → be_before (suc k) v rest ≡ without_bytes k v % 256 ∷ be_before k v rest
be_before_front zero v rest = refl
be_before_front (suc k) v rest = be_before_front k (v / 256) (v % 256 ∷ rest)

without_bytes_last : (k v : ℕ) → without_bytes (suc k) v ≡ without_bytes k v / 256
without_bytes_last zero v = refl
without_bytes_last (suc k) v = without_bytes_last k (v / 256)

without_bytes_read :
    (bs : List ℕ) (acc : ℕ) → All IsByte bs → without_bytes (length bs) (from_be_acc acc bs) ≡ acc
without_bytes_read [] acc _ = refl
without_bytes_read (b ∷ bs) acc (h, hs) =
    without_bytes_last (length bs) (from_be_acc (acc * 256 + b) bs)
    ∙ (ap (λ n. n / 256) (without_bytes_read bs (acc * 256 + b) hs) ∙ omega arith)

be_before_read :
    (bs : List ℕ) (acc : ℕ) (rest : List ℕ)
    → All IsByte bs
    → be_before (length bs) (from_be_acc acc bs) rest ≡ bs ++ rest
be_before_read [] acc rest _ = refl
be_before_read (b ∷ bs) acc rest (h, hs) =
    let below = acc * 256 + b in
    let byte : without_bytes (length bs) (from_be_acc below bs) % 256 ≡ b =
      ap (λ n. n % 256) (without_bytes_read bs below hs) ∙ omega arith in
    be_before_front (length bs) (from_be_acc below bs) rest
    ∙ (ap (λ n. n ∷ be_before (length bs) (from_be_acc below bs) rest) byte
        ∙ ap (λ ys. b ∷ ys) (be_before_read bs below rest hs))

-- writing what bytes spell gives the bytes
pub to_be-from_be : (bs : List ℕ) → All IsByte bs → to_be (length bs) (from_be bs) ≡ bs
unfolding from_be to_be
to_be-from_be bs h = be_before_read bs 0 [] h ∙ append-nil bs
