-- ===== src/Patricia/Key.antt =====
-- src/minpatricia/include/minpatricia/diff.h and position.h: keys, their order, and the bit at
-- which two keys part. A `ByteView` is the list of its bytes; its address is not modelled.
pub mod Bits
pub mod Parting
pub mod Order
mod Runs
use minweight_store_cpp.Base.{ℕ, zero, suc, ◌+◌, ◌-◌, ◌*◌, ◌/◌, ◌%◌, ◌^◌, ◌<◌, min}
use minweight_store_cpp.Base.{bit_and, bit_xor, ltb, leb, ◌==◌, if◌then◌else◌}
use minweight_store_cpp.Base.{Option, none, some, List, [], ◌∷◌, length, take, get_elem?}
use minweight_store_cpp.Patricia.Status.{Result, ok, err, equal_keys, key_too_large, ◌>>=◌, ◌>>◌}
use Prim.Native.Nat.{Ordering, compare}

abbrev pub Key : Type 0
Key = List ℕ

abbrev pub IsByte : ℕ → Type 0
IsByte b = b < 256

-- `kMaxDiff` and `kMaxKeySize`
abbrev pub max_diff : ℕ
max_diff = 65535

abbrev pub max_key_size : ℕ
max_key_size = max_diff / 9

-- `compare` is the C++ -1, 0 or 1.
pub record CompareDiff : Type 0 where
  pub order : Ordering
  pub diff : ℕ

unfoldable pub check_key_size : Key → Result (Unit {0})
check_key_size key = if ltb max_key_size (length key) then err key_too_large else ok tt

-- C's `memcmp` on two buffers of the same length, by the first byte that differs.
pub memcmp : Key → Key → Ordering
memcmp (x ∷ xs) (y ∷ ys) =
    let rest = memcmp xs ys in
    elim (compare x y) [
      | Ordering.lt ↦ Ordering.lt
      | Ordering.eq ↦ rest
      | Ordering.gt ↦ Ordering.gt
    ]
memcmp _ _ = Ordering.eq

-- The C++ function first compares the sizes alone where both views begin at one address; the
-- shorter is then a prefix of the longer, and the answer is the same.
unfoldable pub compare_keys : Key → Key → Ordering
unfolding memcmp
compare_keys a b =
    let n = if ltb (length a) (length b) then length a else length b in
    let by_size =
      if ltb (length a) (length b)
      then Ordering.lt
      else if ltb (length b) (length a)
      then Ordering.gt
      else Ordering.eq in
    elim (memcmp (take n a) (take n b)) [
      | Ordering.lt ↦ Ordering.lt
      | Ordering.eq ↦ by_size
      | Ordering.gt ↦ Ordering.gt
    ]

-- The loop of `CountLeadingZeroBits8`. The rounds are bounded by the 8 bits of a byte; the C++ loop
-- does not end on 0, and its callers pass the xor of two different bytes.
leading_zeros : ℕ → ℕ → ℕ → ℕ → ℕ
leading_zeros zero value mask leading = leading
leading_zeros (suc rounds) value mask leading =
    let more = leading_zeros rounds value (mask / 2) (leading + 1) in
    if bit_and value mask == 0 then more else leading

pub count_leading_zero_bits8 : ℕ → ℕ
unfolding leading_zeros
count_leading_zero_bits8 value = leading_zeros 8 value 0x80 0

-- The `while` loop of `CompareAndDiffBit` from byte `i` on, and what follows it.
pub diff_from : ℕ → Key → Key → Result CompareDiff
diff_from i [] [] = err equal_keys
diff_from i [] (y ∷ ys) = ok (record { order = Ordering.lt; diff = i * 9 % 2 ^ 16 })
diff_from i (x ∷ xs) [] = ok (record { order = Ordering.gt; diff = i * 9 % 2 ^ 16 })
diff_from i (x ∷ xs) (y ∷ ys) =
    if x == y
    then diff_from (i + 1) xs ys
    else ok (record {
      order = if ltb x y then Ordering.lt else Ordering.gt;
      diff = (i * 9 + count_leading_zero_bits8 (bit_xor x y) + 1) % 2 ^ 16;
    })

unfoldable pub compare_and_diff_bit : Key → Key → Result CompareDiff
unfolding check_key_size diff_from count_leading_zero_bits8
compare_and_diff_bit a b = do check_key_size a; check_key_size b; diff_from 0 a b

unfoldable pub find_diff_bit : Key → Key → Result ℕ
unfolding compare_and_diff_bit
find_diff_bit a b = do d ← compare_and_diff_bit a b; ok d.diff

-- `(byte >> s) & 1`
abbrev pub bit_at : ℕ → ℕ → ℕ
bit_at byte s = byte / 2 ^ s % 2

-- node_page.h, `GetDiffBit`: bit 0 of a group of nine says that the byte is there.
unfoldable pub get_diff_bit : Key → ℕ → ℕ
get_diff_bit key diff =
    let byte_idx = diff / 9 in
    let bit_idx = diff % 9 in
    if bit_idx == 0
    then (if ltb byte_idx (length key) then 1 else 0)
    else elim (get_elem? key byte_idx) [ none ↦ 0 | some byte ↦ bit_at byte (8 - bit_idx) ]
