-- ===== src/Base/Bits.antt =====
-- Laws of the bit operations at variables: one binary digit at a time, then a mask of low bits.
use Prim.Native.Nat.{
  ℕ, zero, suc, ◌+◌, ◌-◌, ◌*◌, ◌/◌, ◌%◌, ◌^◌, ◌≤◌, ◌<◌, min, max, bit_and, bit_or, digits,
  bit_and-bitwise, bit_or-bitwise,
}
use mathlib.Core.Path.{◌≡◌, refl, sym, ap, ◌∙◌}
use native.Mathlib.Nat.{pow-suc, one-le-pow}
use native.Mathlib.Omega.{arith}

module _ (z : ℕ → ℕ) (f : ℕ → ℕ → ℕ) where
  -- The count of digits to go does not matter once it covers the number.
  digits_enough : (n m a b : ℕ) → a ≤ n → a ≤ m → digits z f n a b ≡ digits z f m a b
  digits_enough zero zero a b p q = refl
  digits_enough zero (suc m) zero b p q = refl
  digits_enough zero (suc m) (suc a) b p q = absurd (omega arith)
  digits_enough (suc n) zero zero b p q = refl
  digits_enough (suc n) zero (suc a) b p q = absurd (omega arith)
  digits_enough (suc n) (suc m) zero b p q = refl
  digits_enough (suc n) (suc m) (suc a) b p q =
      ap (λ k. k * 2 + f (suc a % 2) (b % 2))
        (digits_enough n m (suc a / 2) (b / 2) (omega arith) (omega arith))

pub bit_and_digit : (a b : ℕ) → bit_and a b ≡ bit_and (a / 2) (b / 2) * 2 + min (a % 2) (b % 2)
bit_and_digit zero b = omega (arith, bit_and-bitwise 0 b, bit_and-bitwise 0 (b / 2))
bit_and_digit (suc a) b = omega (
  arith,
  bit_and-bitwise (suc a) b,
  bit_and-bitwise (suc a / 2) (b / 2),
  digits_enough (λ _. 0) min a (suc a / 2) (suc a / 2) (b / 2) (omega arith) (omega arith),
)

pub bit_or_digit : (a b : ℕ) → bit_or a b ≡ bit_or (a / 2) (b / 2) * 2 + max (a % 2) (b % 2)
bit_or_digit zero b = omega (arith, bit_or-bitwise 0 b, bit_or-bitwise 0 (b / 2))
bit_or_digit (suc a) b = omega (
  arith,
  bit_or-bitwise (suc a) b,
  bit_or-bitwise (suc a / 2) (b / 2),
  digits_enough (λ c. c) max a (suc a / 2) (suc a / 2) (b / 2) (omega arith) (omega arith),
)

bit_and-zero_below : (n a : ℕ) → a ≤ n → bit_and a 0 ≡ 0
bit_and-zero_below n zero h = bit_and-bitwise 0 0
bit_and-zero_below zero (suc a) h = absurd (omega arith)
bit_and-zero_below (suc n) (suc a) h =
    omega (arith, bit_and_digit (suc a) 0, bit_and-zero_below n (suc a / 2) (omega arith))

pub bit_and-zero : (a : ℕ) → bit_and a 0 ≡ 0
bit_and-zero a = bit_and-zero_below a a (omega arith)

-- `x & (2^k - 1)` of a number written as a multiple of `2^k` and a rest.
bit_and_split : (k q r : ℕ) → r < 2 ^ k → bit_and (q * 2 ^ k + r) (2 ^ k - 1) ≡ r
bit_and_split zero q r h = rw bit_and-zero (omega arith)
bit_and_split (suc k) q r h = ground (
  arith,
  bit_and_digit (q * 2 ^ suc k + r) (2 ^ suc k - 1),
  pow-suc 2 k,
  one-le-pow k 2,
  ap (λ (t : ℕ). q * t) (pow-suc 2 k),
  bit_and_split k q (r / 2) (omega (arith, pow-suc 2 k)),
)

pub bit_and_low : (k a : ℕ) → bit_and a (2 ^ k - 1) ≡ a % 2 ^ k
bit_and_low k a = ground (arith, one-le-pow k 2, bit_and_split k (a / 2 ^ k) (a % 2 ^ k))

bit_or-zero_below : (n a : ℕ) → a ≤ n → bit_or a 0 ≡ a
bit_or-zero_below n zero h = bit_or-bitwise 0 0
bit_or-zero_below zero (suc a) h = absurd (omega arith)
bit_or-zero_below (suc n) (suc a) h =
    omega (arith, bit_or_digit (suc a) 0, bit_or-zero_below n (suc a / 2) (omega arith))

pub bit_or-zero : (a : ℕ) → bit_or a 0 ≡ a
bit_or-zero a = bit_or-zero_below a a (omega arith)

-- `x | 2^k` of a number in three parts: above the bit, the bit, below it.
bit_or_bit_split :
    (k q d r : ℕ)
    → d < 2
    → r < 2 ^ k
    → bit_or ((q * 2 + d) * 2 ^ k + r) (2 ^ k) ≡ (q * 2 + 1) * 2 ^ k + r
bit_or_bit_split zero q d r hd hr = ground (
  arith,
  bit_or_digit (q * 2 + d) 1,
  bit_or-zero q,
  ap (λ (t : ℕ). bit_or t 1) {x = (q * 2 + d) * 1 + r} {y = q * 2 + d} (omega arith),
  ap (λ (t : ℕ). bit_or t 0) {x = (q * 2 + d) / 2} {y = q} (omega arith),
)
bit_or_bit_split (suc k) q d r hd hr =
    let half : ((q * 2 + d) * 2 ^ suc k + r) / 2 ≡ (q * 2 + d) * 2 ^ k + r / 2 =
      omega (arith, pow-suc 2 k, ap (λ (t : ℕ). (q * 2 + d) * t) (pow-suc 2 k)) in
    let even : ((q * 2 + d) * 2 ^ suc k + r) % 2 ≡ r % 2 =
      omega (arith, pow-suc 2 k, ap (λ (t : ℕ). (q * 2 + d) * t) (pow-suc 2 k)) in
    let bit : 2 ^ suc k / 2 ≡ 2 ^ k = omega (arith, pow-suc 2 k) in
    let low : 2 ^ suc k % 2 ≡ 0 = omega (arith, pow-suc 2 k) in
    rw
      (
        bit_or_digit ((q * 2 + d) * 2 ^ suc k + r) (2 ^ suc k),
        half,
        even,
        bit,
        low,
        bit_or_bit_split k q d (r / 2) hd (omega (arith, pow-suc 2 k)),
      )
      (ground (arith, ap (λ (t : ℕ). (q * 2 + 1) * t) (pow-suc 2 k)))

-- `x | 2^k` sets bit k and keeps the others.
pub bit_or_bit : (k a : ℕ) → bit_or a (2 ^ k) ≡ (a / 2 ^ k / 2 * 2 + 1) * 2 ^ k + a % 2 ^ k
bit_or_bit k a =
    let digit : a / 2 ^ k / 2 * 2 + a / 2 ^ k % 2 ≡ a / 2 ^ k = omega arith in
    let parts : (a / 2 ^ k / 2 * 2 + a / 2 ^ k % 2) * 2 ^ k + a % 2 ^ k ≡ a =
      ground (arith, one-le-pow k 2, ap (λ (t : ℕ). t * 2 ^ k) digit) in
    ap (λ t. bit_or t (2 ^ k)) (sym parts)
    ∙ bit_or_bit_split k (a / 2 ^ k / 2) (a / 2 ^ k % 2) (a % 2 ^ k) (omega arith)
        (omega (arith, one-le-pow k 2))
