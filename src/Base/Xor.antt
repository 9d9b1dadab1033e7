-- ===== src/Base/Xor.antt =====
-- `^` of two numbers, by its lowest digit.
use Prim.Native.Nat.{ℕ, zero, suc, ◌+◌, ◌*◌, ◌/◌, ◌%◌, ◌≤◌, ◌<◌}
use Prim.Native.Nat.{bit_xor, differ, digits, bit_xor-bitwise}
use mathlib.Core.Path.{◌≡◌, refl, sym, ap, ◌∙◌}
use mathlib.Core.Logic.{◌≢◌}
use native.Mathlib.Omega.{arith}

abbrev xor_digits : ℕ → ℕ → ℕ → ℕ
xor_digits = digits (λ b. b) differ

xor_digits-zero : (n b : ℕ) → xor_digits n 0 b ≡ b
xor_digits-zero zero b = refl
xor_digits-zero (suc n) b = refl

-- Any count of digits from the number itself on gives the same result.
same_digits : (x n m y : ℕ) → x ≤ n → x ≤ m → xor_digits n x y ≡ xor_digits m x y
same_digits zero n m y below_n below_m = xor_digits-zero n y ∙ sym (xor_digits-zero m y)
same_digits (suc x) zero m y below_n below_m = absurd (omega arith)
same_digits (suc x) (suc n) zero y below_n below_m = absurd (omega arith)
same_digits (suc x) (suc n) (suc m) y below_n below_m =
    ap (λ (t : ℕ). t * 2 + differ (suc x % 2) (y % 2))
      (same_digits (suc x / 2) n m (y / 2) (omega arith) (omega arith))

zero-bit_xor : (b : ℕ) → bit_xor 0 b ≡ b
zero-bit_xor b = bit_xor-bitwise 0 b

differ-zero : (b : ℕ) → b < 2 → differ 0 b ≡ b
differ-zero zero h = refl
differ-zero (suc zero) h = refl
differ-zero (suc (suc b)) h = absurd (omega arith)

pub bit_xor_step : (a b : ℕ) → bit_xor a b ≡ bit_xor (a / 2) (b / 2) * 2 + differ (a % 2) (b % 2)
bit_xor_step zero b =
    omega (arith, zero-bit_xor b, zero-bit_xor (b / 2), differ-zero (b % 2) (omega arith))
bit_xor_step (suc a) b =
    bit_xor-bitwise (suc a) b
    ∙ ap (λ (t : ℕ). t * 2 + differ (suc a % 2) (b % 2))
        (same_digits (suc a / 2) a (suc a / 2) (b / 2) (omega arith) (omega arith)
          ∙ sym (bit_xor-bitwise (suc a / 2) (b / 2)))

differ-le : (a b : ℕ) → a < 2 → b < 2 → differ a b ≤ 1
differ-le zero b p q = omega (arith, differ-zero b q)
differ-le (suc zero) zero p q = omega arith
differ-le (suc zero) (suc zero) p q = omega arith
differ-le (suc zero) (suc (suc b)) p q = absurd (omega arith)
differ-le (suc (suc a)) b p q = absurd (omega arith)

differ-eq-zero : (a b : ℕ) → a < 2 → b < 2 → differ a b ≡ 0 → a ≡ b
differ-eq-zero zero b p q e = omega (arith, differ-zero b q)
differ-eq-zero (suc zero) zero p q e = absurd (omega arith)
differ-eq-zero (suc zero) (suc zero) p q e = refl
differ-eq-zero (suc zero) (suc (suc b)) p q e = absurd (omega arith)
differ-eq-zero (suc (suc a)) b p q e = absurd (omega arith)

-- A shift to the right distributes over `^`.
pub half-bit_xor : (a b : ℕ) → bit_xor a b / 2 ≡ bit_xor (a / 2) (b / 2)
half-bit_xor a b =
    omega (arith, bit_xor_step a b, differ-le (a % 2) (b % 2) (omega arith) (omega arith))

-- Induction on a bound of both numbers.
bit_xor-zero_bound : (k a b : ℕ) → a ≤ k → b ≤ k → bit_xor a b ≡ 0 → a ≡ b
bit_xor-zero_bound zero a b p q e = omega arith
bit_xor-zero_bound (suc k) a b p q e = omega (
  arith,
  bit_xor_step a b,
  differ-eq-zero (a % 2) (b % 2) (omega arith) (omega arith) (omega (arith, bit_xor_step a b)),
  bit_xor-zero_bound k (a / 2) (b / 2) (omega arith) (omega arith)
      (omega (arith, bit_xor_step a b)),
)

-- Numbers whose `^` is 0 are equal.
pub eq_of_bit_xor-zero : (a b : ℕ) → bit_xor a b ≡ 0 → a ≡ b
eq_of_bit_xor-zero a b e = bit_xor-zero_bound (a + b) a b (omega arith) (omega arith) e

-- Numbers whose `^` is 1 differ in the lowest digit alone.
pub bit_xor-one : (a b : ℕ) → bit_xor a b ≡ 1 → (a / 2 ≡ b / 2) × (a % 2 ≢ b % 2)
bit_xor-one a b e = (eq_of_bit_xor-zero (a / 2) (b / 2) high, low)
  where
    high : bit_xor (a / 2) (b / 2) ≡ 0
    high = omega (arith, bit_xor_step a b)

    same : (d c : ℕ) → d < 2 → d ≡ c → differ d c ≡ 0
    same zero zero p q = refl
    same zero (suc c) p q = absurd (omega arith)
    same (suc zero) zero p q = absurd (omega arith)
    same (suc zero) (suc zero) p q = refl
    same (suc zero) (suc (suc c)) p q = absurd (omega arith)
    same (suc (suc d)) c p q = absurd (omega arith)

    low : a % 2 ≢ b % 2
    low q = absurd (omega (arith, bit_xor_step a b, same (a % 2) (b % 2) (omega arith) q))

differ_comm : (a b : ℕ) → differ a b ≡ differ b a
differ_comm zero zero = refl
differ_comm zero (suc b) = refl
differ_comm (suc a) zero = refl
differ_comm (suc a) (suc b) = differ_comm a b

-- Induction on a bound of both numbers.
bit_xor_comm_bound : (k a b : ℕ) → a ≤ k → b ≤ k → bit_xor a b ≡ bit_xor b a
bit_xor_comm_bound zero zero zero p q = refl
bit_xor_comm_bound zero (suc a) b p q = absurd (omega arith)
bit_xor_comm_bound zero zero (suc b) p q = absurd (omega arith)
bit_xor_comm_bound (suc k) a b p q = omega (
  arith,
  bit_xor_step a b,
  bit_xor_step b a,
  differ_comm (a % 2) (b % 2),
  bit_xor_comm_bound k (a / 2) (b / 2) (omega arith) (omega arith),
)

pub bit_xor_comm : (a b : ℕ) → bit_xor a b ≡ bit_xor b a
bit_xor_comm a b = bit_xor_comm_bound (a + b) a b (omega arith) (omega arith)
