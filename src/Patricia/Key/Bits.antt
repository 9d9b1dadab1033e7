-- ===== src/Patricia/Key/Bits.antt =====
-- `GetDiffBit` by the key's first byte, and the leading zeros of the xor of two bytes.
use minweight_store_cpp.Base.{ℕ, zero, suc, ◌+◌, ◌-◌, ◌/◌, ◌%◌, ◌^◌, ◌≤◌, ◌<◌}
use minweight_store_cpp.Base.{bit_xor, ltb, ◌==◌, arith, if◌then◌else◌, false}
use native.Mathlib.Decide.{dec_lt}
use minweight_store_cpp.Base.{[], ◌∷◌, ◌≡◌, ◌≢◌, refl, sym, ap, ◌∙◌, Bool, true, ◌&&◌, ◌||◌}
use minweight_store_cpp.Base.Xor.{half-bit_xor, bit_xor-one, eq_of_bit_xor-zero}
use native.Mathlib.Nat.{pow-suc, div-one, div-div-eq-div-mul}
use minweight_store_cpp.Patricia.Key.{Key, IsByte, bit_at, get_diff_bit}
use minweight_store_cpp.Patricia.Key.{count_leading_zero_bits8}

pub get_diff_bit-nil : (f : ℕ) → get_diff_bit [] f ≡ 0
unfolding get_diff_bit
get_diff_bit-nil f = ground arith

pub get_diff_bit-head_zero : (x : ℕ) (xs : Key) → get_diff_bit (x ∷ xs) 0 ≡ 1
unfolding get_diff_bit
get_diff_bit-head_zero x xs = ground arith

pub get_diff_bit-head :
    (x : ℕ) (xs : Key) (f : ℕ) → f < 8 → get_diff_bit (x ∷ xs) (f + 1) ≡ bit_at x (7 - f)
unfolding get_diff_bit
get_diff_bit-head x xs f h =
    let whole : (f + 1) / 9 ≡ 0 = omega arith in
    let part : (f + 1) % 9 ≡ f + 1 = omega arith in
    let shift : 8 - (f + 1) ≡ 7 - f = omega arith in rw (whole, part, shift) (ground arith)

pub get_diff_bit-tail :
    (x : ℕ) (xs : Key) (f : ℕ) → get_diff_bit (x ∷ xs) (f + 9) ≡ get_diff_bit xs f
unfolding get_diff_bit
get_diff_bit-tail x xs f =
    let whole : (f + 9) / 9 ≡ suc (f / 9) = omega arith in
    let part : (f + 9) % 9 ≡ f % 9 = omega arith in rw (whole, part) (ground arith)

-- A test of `count` numbers from `first` on.
passes : (ℕ → Bool) → ℕ → ℕ → Bool
passes test first zero = true
passes test first (suc count) = if test first then passes test (first + 1) count else false

both_passed : (c rest : Bool) → (if c then rest else false) ≡ true → (c ≡ true) × (rest ≡ true)
both_passed true rest h = (refl, h)
both_passed false rest h = absurd (cc)

passes-test :
    (count first v : ℕ) (test : ℕ → Bool)
    → first ≤ v
    → v < first + count
    → passes test first count ≡ true
    → test v ≡ true
unfolding passes
passes-test zero first v test low high h = absurd (omega arith)
passes-test (suc count) first v test low high h =
    let (here, later) = both_passed (test first) (passes test (first + 1) count) h in
    elim (dec_lt first v) [
      | yes lt ↦ passes-test count (first + 1) v test (omega arith) (omega arith) later
      | no ge ↦ let e : v ≡ first = omega arith in rw e here
    ]

-- The first digit of a byte that is set: below 8 from the left, with nothing above it.
finds_first_digit : ℕ → Bool
finds_first_digit v =
    (v == 0)
    || (ltb (count_leading_zero_bits8 v) 8 && (v / 2 ^ (7 - count_leading_zero_bits8 v) == 1))

first_digit_table : passes finds_first_digit 0 256 ≡ true
unfolding passes finds_first_digit count_leading_zero_bits8
first_digit_table = refl

pub count_leading_zero_bits8_first :
    (v : ℕ)
    → v < 256
    → v ≢ 0
    → (count_leading_zero_bits8 v < 8) × (v / 2 ^ (7 - count_leading_zero_bits8 v) ≡ 1)
unfolding finds_first_digit
count_leading_zero_bits8_first v h nz =
    ground
      (arith, passes-test 256 0 v finds_first_digit (omega arith) (omega arith) first_digit_table)

half_shift : (a s : ℕ) → a / 2 ^ suc s ≡ a / 2 ^ s / 2
half_shift a s = rw pow-suc (sym (div-div-eq-div-mul a (2 ^ s) 2))

-- A shift by any width distributes over `^`.
shift-bit_xor : (s a b : ℕ) → bit_xor a b / 2 ^ s ≡ bit_xor (a / 2 ^ s) (b / 2 ^ s)
shift-bit_xor zero a b = cc (div-one a, div-one b, div-one (bit_xor a b))
shift-bit_xor (suc s) a b = cc (
  half_shift (bit_xor a b) s,
  half_shift a s,
  half_shift b s,
  shift-bit_xor s a b,
  half-bit_xor (a / 2 ^ s) (b / 2 ^ s),
)

-- The xor of two bytes is a byte: nothing is left after a shift by 8.
bit_xor-byte : (x y : ℕ) → IsByte x → IsByte y → bit_xor x y < 256
bit_xor-byte x y hx hy =
    let none_left : bit_xor (x / 2 ^ 8) (y / 2 ^ 8) ≡ 0 = rw (high x hx, high y hy) in
    omega (arith, shift-bit_xor 8 x y, none_left)
  where
    high : (z : ℕ) → IsByte z → z / 2 ^ 8 ≡ 0
    high z h = omega arith

-- Once the digits above one agree, so do all further up.
same_above :
    (a b s k : ℕ) → a / 2 ^ s / 2 ≡ b / 2 ^ s / 2 → a / 2 ^ (suc s + k) ≡ b / 2 ^ (suc s + k)
same_above a b s zero h =
    let e : suc s + 0 ≡ suc s = omega arith in rw e (cc (half_shift a s, half_shift b s))
same_above a b s (suc k) h =
    let e : suc s + suc k ≡ suc (suc s + k) = omega arith in
    rw e (cc (half_shift a (suc s + k), half_shift b (suc s + k), same_above a b s k h))

shift_mono : (a b s : ℕ) → a ≤ b → a / 2 ^ s ≤ b / 2 ^ s
shift_mono a b zero h = rw (div-one a, div-one b) h
shift_mono a b (suc s) h = omega (arith, half_shift a s, half_shift b s, shift_mono a b s h)

-- The first digit at which two bytes differ, the smaller byte named first.
pub record Parts (x y c : ℕ) : Type 0 where
  pub within : c < 8
  pub low : bit_at x (7 - c) ≡ 0
  pub high : bit_at y (7 - c) ≡ 1
  pub above : (f : ℕ) → f < c → bit_at x (7 - f) ≡ bit_at y (7 - f)

pub bytes_part :
    (x y : ℕ) → IsByte x → IsByte y → x < y → Parts x y (count_leading_zero_bits8 (bit_xor x y))
bytes_part x y hx hy lt = record {
  within = first.0;
  low = omega (arith, digits, shift_mono x y h (omega arith));
  high = omega (arith, digits, shift_mono x y h (omega arith));
  above = λ f lf.
      let e : 7 - f ≡ suc h + (c - f - 1) = omega (arith, first) in
      rw e (ap (λ (t : ℕ). t % 2) (same_above x y h (c - f - 1) digits.0));
}
  where
    c : ℕ
    c = count_leading_zero_bits8 (bit_xor x y)

    h : ℕ
    h = 7 - c

    first : (c < 8) × (bit_xor x y / 2 ^ h ≡ 1)
    first =
        count_leading_zero_bits8_first (bit_xor x y) (bit_xor-byte x y hx hy)
          (λ e. absurd (omega (arith, eq_of_bit_xor-zero x y e)))

    digits : (x / 2 ^ h / 2 ≡ y / 2 ^ h / 2) × (x / 2 ^ h % 2 ≢ y / 2 ^ h % 2)
    digits = bit_xor-one (x / 2 ^ h) (y / 2 ^ h) (sym (shift-bit_xor h x y) ∙ first.1)
