-- ===== src/Patricia/Route/Laws.antt =====
-- A packed route gives back its diff and left count, and routes by its diff bit.
use minweight_store_cpp.Base.{ℕ, zero, suc, ◌+◌, ◌-◌, ◌*◌, ◌/◌, ◌%◌, ◌^◌, ◌≤◌, ◌<◌, bit_or, ◌==◌}
use minweight_store_cpp.Base.{if◌then◌else◌, ◌≡◌, refl, ◌∙◌, arith}
use minweight_store_cpp.Base.{get_elem?, length, inl, inr, Option-cases, lt→ltb, le→ltb}
use minweight_store_cpp.Base.{get_elem?-eq_none, get_elem?-eq_some}
use minweight_store_cpp.Base.Bits.{bit_or_low}
use minweight_store_cpp.Patricia.Key.{Key, bit_at, get_diff_bit, max_diff}
use minweight_store_cpp.Patricia.Route.{make, bit_op, diff, left_count, inc_left_count}
use minweight_store_cpp.Patricia.Route.{dec_left_count, bit, read_bit, term_bit_op}

-- The operation field: 8 on a length bit, else the shift of the key bit.
abbrev pub op_field : ℕ → ℕ
op_field d = if d % 9 == 0 then term_bit_op else 8 - d % 9

op_field-le : (d : ℕ) → op_field d ≤ 8
op_field-le d = ground arith

-- The fields do not overlap, so the word is their sum.
pub make_sum :
    (d l : ℕ) → d ≤ max_diff → l < 2 ^ 15 → make d l ≡ d / 9 + op_field d * 8192 + l * 131072
unfolding make
make_sum d l hd hl =
    let fits : l * 2 ^ 17 % 2 ^ 32 ≡ l * 2 ^ 17 = omega arith in
    let low : bit_or (d / 9) (op_field d * 2 ^ 13) ≡ d / 9 + op_field d * 2 ^ 13 =
      bit_or_low 13 (d / 9) (op_field d) (omega arith) in
    rw (fits, low) (bit_or_low 17 (d / 9 + op_field d * 2 ^ 13) l (omega (arith, op_field-le d)))

bit_or_digits : (a b : ℕ) → a < 2 → b < 2 → bit_or a b ≡ (if a == 1 then 1 else b)
bit_or_digits zero zero p q = refl
bit_or_digits zero (suc zero) p q = refl
bit_or_digits zero (suc (suc b)) p q = absurd (omega arith)
bit_or_digits (suc zero) zero p q = refl
bit_or_digits (suc zero) (suc zero) p q = refl
bit_or_digits (suc zero) (suc (suc b)) p q = absurd (omega arith)
bit_or_digits (suc (suc a)) b p q = absurd (omega arith)

-- The branch-free read of a key's byte.
read_byte :
    (byte d : ℕ)
    → bit_or (op_field d / 2 ^ 3) (bit_at byte (op_field d % 8))
      ≡ (if d % 9 == 0 then 1 else bit_at byte (8 - d % 9))
read_byte byte d =
    bit_or_digits (op_field d / 2 ^ 3) (bit_at byte (op_field d % 8)) (omega (arith, op_field-le d))
      (omega arith)
    ∙ ground arith

module _ (d l : ℕ) (hd : d ≤ max_diff) (hl : l < 2 ^ 15) where
  byte_idx-make : make d l % 2 ^ 13 ≡ d / 9
  byte_idx-make = omega (arith, make_sum d l hd hl, op_field-le d)

  bit_op-make : bit_op (make d l) ≡ op_field d
  unfolding bit_op
  bit_op-make = omega (arith, make_sum d l hd hl, op_field-le d)

  -- A route gives back the left count it was made with.
  pub left_count-make : left_count (make d l) ≡ l
  unfolding left_count
  left_count-make = omega (arith, make_sum d l hd hl, op_field-le d)

  diff_of_fields :
      (b o : ℕ)
      → b ≡ d / 9
      → o ≡ op_field d
      → (if o == term_bit_op then b * 9 % 2 ^ 16 else (b * 9 + 8 + 2 ^ 32 - o) % 2 ^ 32 % 2 ^ 16)
        ≡ d
  diff_of_fields b o eb eo = ground arith

  -- A route gives back the diff it was made with.
  pub diff-make : diff (make d l) ≡ d
  unfolding diff
  diff-make = diff_of_fields _ _ byte_idx-make bit_op-make

  bit_of_fields :
      (key : Key) (b o : ℕ)
      → b ≡ d / 9
      → o ≡ op_field d
      → read_bit (get_elem? key b) o ≡ get_diff_bit key d
  unfolding get_diff_bit
  bit_of_fields key b o eb eo =
      rw (eb, eo)
        (elim (Option-cases (get_elem? key (d / 9))) [
          | inl e ↦ rw (e, le→ltb (d / 9) (length key) (get_elem?-eq_none key _ e)) (ground arith)
          | inr (byte, e) ↦
              rw (e, lt→ltb (d / 9) (length key) (get_elem?-eq_some key _ byte e))
                (read_byte byte d)
        ])

  -- A route reads the bit of the key that `GetDiffBit` reads at its diff.
  pub bit-make : (key : Key) → bit (make d l) key ≡ get_diff_bit key d
  unfolding bit
  bit-make key = bit_of_fields key _ _ byte_idx-make bit_op-make

  -- A route word that is packed from a diff of at most `kMaxDiff` and a left count of at most 15 bits, the
  -- width of its field, gives both back, fits 32 bits, and routes each key by the key's bit at that diff.
  pub make_lem :
      (make d l < 2 ^ 32)
      × (diff (make d l) ≡ d)
      × (left_count (make d l) ≡ l)
      × ((key : Key) → bit (make d l) key ≡ get_diff_bit key d)
  make_lem =
      (omega (arith, make_sum d l hd hl, op_field-le d), diff-make, left_count-make, bit-make)

  pub inc_left_count-make : l + 1 < 2 ^ 15 → inc_left_count (make d l) ≡ make d (l + 1)
  unfolding inc_left_count
  inc_left_count-make h = omega (arith, make_sum d l hd hl, make_sum d (l + 1) hd h, op_field-le d)

pub dec_left_count-make :
    (d l : ℕ) → d ≤ max_diff → l + 1 < 2 ^ 15 → dec_left_count (make d (l + 1)) ≡ make d l
unfolding dec_left_count
dec_left_count-make d l hd h =
    omega (arith, make_sum d l hd (omega arith), make_sum d (l + 1) hd h, op_field-le d)
