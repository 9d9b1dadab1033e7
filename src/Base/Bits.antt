-- ===== src/Base/Bits.antt =====
-- `|` of disjoint bit fields as a sum, at every width.
use Prim.Native.Nat.{ℕ, zero, suc, ◌+◌, ◌*◌, ◌/◌, ◌^◌, ◌≤◌, ◌<◌, max}
use Prim.Native.Nat.{bit_or, digits, bit_or-bitwise}
use mathlib.Core.Path.{◌≡◌, refl, ap, ◌∙◌}
use native.Mathlib.Nat.{pow-suc}
use native.Mathlib.Omega.{arith}

abbrev or_digits : ℕ → ℕ → ℕ → ℕ
or_digits = digits (λ b. b) max

double_field : (b k : ℕ) → b * 2 ^ suc k ≡ 2 * (b * 2 ^ k)
double_field b k = omega (arith, ap (λ (t : ℕ). b * t) (pow-suc 2 k))

or_digits_low : (n k a b : ℕ) → a ≤ n → a < 2 ^ k → or_digits n a (b * 2 ^ k) ≡ a + b * 2 ^ k
or_digits_low zero k zero b p q = omega arith
or_digits_low zero k (suc a) b p q = absurd (omega arith)
or_digits_low (suc n) k zero b p q = omega arith
or_digits_low (suc n) zero (suc a) b p q = absurd (omega arith)
or_digits_low (suc n) (suc k) (suc a) b p q =
    let half : (b * 2 ^ suc k) / 2 ≡ b * 2 ^ k = omega (arith, double_field b k) in
    rw half (
      omega (
        arith,
        pow-suc 2 k,
        double_field b k,
        or_digits_low n k (suc a / 2) b (omega arith) (omega (arith, pow-suc 2 k)),
      ))

or_digits-zero : (n a : ℕ) → a ≤ n → or_digits n a 0 ≡ a
or_digits-zero zero zero p = refl
or_digits-zero zero (suc a) p = absurd (omega arith)
or_digits-zero (suc n) zero p = refl
or_digits-zero (suc n) (suc a) p = omega (arith, or_digits-zero n (suc a / 2) (omega arith))

or_digits_high : (n k a b c : ℕ) → a ≡ b * 2 ^ k → a ≤ n → c < 2 ^ k → or_digits n a c ≡ a + c
or_digits_high zero k zero b c e p q = omega arith
or_digits_high zero k (suc a) b c e p q = absurd (omega arith)
or_digits_high (suc n) k zero b c e p q = omega arith
or_digits_high (suc n) zero (suc a) b zero e p q = or_digits-zero (suc n) (suc a) p ∙ omega arith
or_digits_high (suc n) zero (suc a) b (suc c) e p q = absurd (omega arith)
or_digits_high (suc n) (suc k) (suc a) b c e p q = omega (
  arith,
  double_field b k,
  pow-suc 2 k,
  or_digits_high n k (suc a / 2) b (c / 2) (omega (arith, double_field b k)) (omega arith)
      (omega (arith, pow-suc 2 k)),
)

-- `low | (high << k)`, where `low` fits `k` bits.
pub bit_or_low : (k low high : ℕ) → low < 2 ^ k → bit_or low (high * 2 ^ k) ≡ low + high * 2 ^ k
bit_or_low k low high h =
    bit_or-bitwise low (high * 2 ^ k) ∙ or_digits_low low k low high (omega arith) h

-- `(high << k) | low`, where `low` fits `k` bits.
pub bit_or_high : (k high low : ℕ) → low < 2 ^ k → bit_or (high * 2 ^ k) low ≡ high * 2 ^ k + low
bit_or_high k high low h =
    bit_or-bitwise (high * 2 ^ k) low
    ∙ or_digits_high (high * 2 ^ k) k (high * 2 ^ k) high low refl (omega arith) h
