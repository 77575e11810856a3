-- ===== src/Core/Slot/Signed.antt =====
-- Sign extension of a word: `decode_int` in crates/forge-index-core/src/abi/decoder.rs.
use forge_index.Base.{
  ℕ, zero, suc, ◌+◌, ◌-◌, ◌*◌, ◌/◌, ◌%◌, ◌^◌, ◌<◌, ◌≤◌, true, false, ◌≡◌, refl, sym, ap, ◌∙◌, arith,
  ◌==◌, lt→ltb, ge→ltb,
}
use forge_index.Base.Int.{pos, negsuc}
use forge_index.Base.Word.{wrapping_sub, wrapping_sub-eq}
use forge_index.Core.Slot.{to_i128, or_mask, has_sign_bit, sign_extend}
use native.Mathlib.Nat.{
  pow-zero, pow-suc, mul_assoc, add-mul-div_left, add-mul-mod_self_left, div-eq_of_lt, mod-eq_of_lt,
  pow-le-pow_right, mul-suc, one-le-pow,
}

pow_sum : (c a b : ℕ) → c ^ (a + b) ≡ c ^ a * c ^ b
pow_sum c a zero =
    let none : a + 0 ≡ a = omega arith in
    let one : c ^ a * 1 ≡ c ^ a = omega arith in
    let empty : c ^ a * c ^ 0 ≡ c ^ a = ap (λ n. c ^ a * n) (pow-zero c) ∙ one in
    ap (λ n. c ^ n) none ∙ sym empty
pow_sum c a (suc b) =
    let next : a + suc b ≡ suc (a + b) = omega arith in
    ap (λ n. c ^ n) next
    ∙ (pow-suc c (a + b)
        ∙ (ap (λ n. n * c) (pow_sum c a b)
            ∙ (mul_assoc (c ^ a) (c ^ b) c ∙ ap (λ n. c ^ a * n) (sym (pow-suc c b)))))

-- all but one of the 2^b blocks of 2^a
blocks : (a b m : ℕ) → a + b ≡ 128 → suc m ≡ 2 ^ b → 2 ^ a * m + 2 ^ a ≡ 2 ^ 128
blocks a b m h e =
    sym (mul-suc (2 ^ a) m) ∙ (ap (λ n. 2 ^ a * n) e ∙ (sym (pow_sum 2 a b) ∙ ap (λ n. 2 ^ n) h))

-- a sum of a part below `p` and a multiple of `p`
div_part : (p q r n : ℕ) → r < p → n ≡ r + p * q → n / p ≡ q
div_part p q r n h e =
    ap (λ m. m / p) e ∙ (add-mul-div_left r q (omega arith) ∙ omega (arith, div-eq_of_lt h))

mod_part : (p q r n : ℕ) → r < p → n ≡ r + p * q → n % p ≡ r
mod_part p q r n h e = ap (λ m. m % p) e ∙ (add-mul-mod_self_left r p q ∙ mod-eq_of_lt h)

sign_shift : (k : ℕ) → k < 128 → wrapping_sub (suc k) 1 % 128 ≡ k
sign_shift k h = omega (arith, wrapping_sub-eq (suc k) 1 (omega arith) (omega arith))

pub power_bound : (k j : ℕ) → k ≤ j → 2 ^ k ≤ 2 ^ j
power_bound k j h = pow-le-pow_right (omega arith) h

pub sign_extend_pos : (k n : ℕ) → k < 128 → n < 2 ^ k → sign_extend n (suc k) ≡ pos n
unfolding sign_extend has_sign_bit to_i128
sign_extend_pos k n hk h =
    let no_bit : has_sign_bit n (suc k) ≡ false =
      ap (λ s. n / 2 ^ s % 2 == 1) (sign_shift k hk) ∙ ap (λ b. b % 2 == 1) (div-eq_of_lt h) in
    rw (no_bit, lt→ltb n (2 ^ 127) (omega (arith, power_bound k 127 (omega arith)))) refl

or_mask_negsuc :
    (k n : ℕ) → k < 127 → n < 2 ^ k → or_mask (2 ^ 128 - 1 - n) (suc k) ≡ 2 ^ 128 - 1 - n
unfolding or_mask
or_mask_negsuc k n hk h =
    let raw = 2 ^ 128 - 1 - n in
    let shift : suc k % 128 ≡ suc k = omega arith in
    let bound = power_bound (suc k) 127 (omega arith) in
    let wider = power_bound k (suc k) (omega arith) in
    let one = one-le-pow (127 - k) 2 (omega arith) in
    let m = 2 ^ (127 - k) - 1 in
    let filled = blocks (suc k) (127 - k) m (omega arith) (omega arith) in
    let rest = mod_part (2 ^ suc k) m (2 ^ suc k - 1 - n) raw (omega arith) (omega arith) in
    ap (λ s. raw % 2 ^ s + (2 ^ 128 - 2 ^ s)) shift ∙ omega arith

pub sign_extend_negsuc :
    (k n : ℕ) → k < 127 → n < 2 ^ k → sign_extend (2 ^ 128 - 1 - n) (suc k) ≡ negsuc n
unfolding sign_extend has_sign_bit to_i128 or_mask
sign_extend_negsuc k n hk h =
    let raw = 2 ^ 128 - 1 - n in
    let bound = power_bound k 126 (omega arith) in
    let shift = sign_shift k (omega arith) in
    let high = pow-suc 2 (127 - k) in
    let same : 128 - k ≡ suc (127 - k) = omega arith in
    let exponent : 2 ^ (128 - k) ≡ 2 ^ (127 - k) * 2 = ap (λ j. 2 ^ j) same ∙ high in
    let one = one-le-pow (127 - k) 2 (omega arith) in
    let m = 2 ^ (127 - k) * 2 - 1 in
    let filled = blocks k (128 - k) m (omega arith) (omega arith) in
    let quotient = div_part (2 ^ k) m (2 ^ k - 1 - n) raw (omega arith) (omega arith) in
    let bit : has_sign_bit raw (suc k) ≡ true =
      ap (λ s. raw / 2 ^ s % 2 == 1) shift ∙ (ap (λ b. b % 2 == 1) quotient ∙ ground arith) in
    rw (bit) (
      ap to_i128 (or_mask_negsuc k n hk h)
      ∙ rw (ge→ltb raw (2 ^ 127) (omega arith)) (ap negsuc (omega arith)))
