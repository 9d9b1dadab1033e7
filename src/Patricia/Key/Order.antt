-- ===== src/Patricia/Key/Order.antt =====
-- The order of keys: `CompareKeys` is the lexicographic order of bytes, and `CompareAndDiffBit`
-- agrees with it.
use Prim.Native.Nat.{Ordering, compare}
use native.Mathlib.Decide.{dec_lt, ℕ_discrete}
use minweight_store_cpp.Base.{ℕ, ◌+◌, ◌*◌, ◌%◌, ◌^◌, bit_xor, ◌≤◌, ◌<◌, ltb, if◌then◌else◌, arith}
use minweight_store_cpp.Base.{[], ◌∷◌, ◌≡◌, ◌≢◌, ◌↔◌, refl, sym, ap, ◌∙◌, length}
use minweight_store_cpp.Base.{◌⊎◌, inl, inr}
use minweight_store_cpp.Patricia.Status.{Result, ok, err, equal_keys, key_too_large}
use minweight_store_cpp.Patricia.Key.{
  Key, CompareDiff, compare_keys, diff_from, count_leading_zero_bits8,
}
use minweight_store_cpp.Patricia.Key.{compare_and_diff_bit, max_key_size}
use minweight_store_cpp.Patricia.Key.Parting.{
  IsKey, Critical, PartsAt, compare_and_diff_bit-PartsAt, check_key_size_fits,
}

-- The lexicographic order, by the first byte that differs; a proper prefix comes first.
pub lex : Key → Key → Ordering
lex [] [] = Ordering.eq
lex [] (y ∷ ys) = Ordering.lt
lex (x ∷ xs) [] = Ordering.gt
lex (x ∷ xs) (y ∷ ys) =
    let rest = lex xs ys in
    elim (compare x y) [
      | Ordering.lt ↦ Ordering.lt
      | Ordering.eq ↦ rest
      | Ordering.gt ↦ Ordering.gt
    ]

-- `CompareKeys` is the lexicographic order, for all keys.
pub compare_keys-lex : (a b : Key) → compare_keys a b ≡ lex a b
unfolding compare_keys lex
compare_keys-lex [] [] = refl
compare_keys-lex [] (y ∷ ys) = ground arith
compare_keys-lex (x ∷ xs) [] = ground arith
compare_keys-lex (x ∷ xs) (y ∷ ys) = ground (arith, compare_keys-lex xs ys)

diff_from-lex : (i : ℕ) (a b : Key) (d : CompareDiff) → diff_from i a b ≡ ok d → d.order ≡ lex a b
unfolding diff_from lex
diff_from-lex i [] [] d e = cc
diff_from-lex i [] (y ∷ ys) d e = ground arith
diff_from-lex i (x ∷ xs) [] d e = ground arith
diff_from-lex i (x ∷ xs) (y ∷ ys) d e = ground (arith, diff_from-lex (i + 1) xs ys d)

-- The loop finds no difference in equal keys alone, and has no other error.
diff_from-equal : (i : ℕ) (a : Key) → diff_from i a a ≡ err equal_keys
unfolding diff_from
diff_from-equal i [] = refl
diff_from-equal i (x ∷ xs) = ground (arith, diff_from-equal (i + 1) xs)

diff_from_total : (i : ℕ) (a b : Key) → (a ≡ b) ⊎ ((d : CompareDiff) × (diff_from i a b ≡ ok d))
unfolding diff_from
diff_from_total i [] [] = inl refl
diff_from_total i [] (y ∷ ys) = inr (_, refl)
diff_from_total i (x ∷ xs) [] = inr (_, refl)
diff_from_total i (x ∷ xs) (y ∷ ys) = elim (ℕ_discrete x y) [
  | yes same ↦ elim (diff_from_total (i + 1) xs ys) [
    | inl e ↦ inl (cc)
    | inr (d, e) ↦ inr (d, ground arith)
  ]
  | no ne ↦ inr (
    record {
      order = if ltb x y then Ordering.lt else Ordering.gt;
      diff = (i * 9 + count_leading_zero_bits8 (bit_xor x y) + 1) % 2 ^ 16;
    },
    ground arith,
  )
]

-- On keys of legal size the comparison is the loop from byte 0.
compare_and_diff_bit_loop :
    (a b : Key)
    → length a ≤ max_key_size
    → length b ≤ max_key_size
    → compare_and_diff_bit a b ≡ diff_from 0 a b
unfolding compare_and_diff_bit
compare_and_diff_bit_loop a b ha hb = rw (check_key_size_fits a ha, check_key_size_fits b hb)

too_large_left :
    (a b : Key) → max_key_size < length a → compare_and_diff_bit a b ≡ err key_too_large
unfolding compare_and_diff_bit
too_large_left a b h = ground arith

too_large_right :
    (a b : Key)
    → length a ≤ max_key_size
    → max_key_size < length b
    → compare_and_diff_bit a b ≡ err key_too_large
unfolding compare_and_diff_bit
too_large_right a b fits h = rw (check_key_size_fits a fits) (ground arith)

pub lex_refl : (a : Key) → lex a a ≡ Ordering.eq
unfolding lex
lex_refl [] = refl
lex_refl (x ∷ xs) = ground (arith, lex_refl xs)

-- A successful loop is on two different keys.
diff_from-ne : (a b : Key) (d : CompareDiff) → diff_from 0 a b ≡ ok d → a ≢ b
diff_from-ne a b d e same =
    let none_found : diff_from 0 a b ≡ err equal_keys = rw (← same) (diff_from-equal 0 a) in cc

-- Two keys of a size that the index takes.
abbrev pub AreShort : Key → Key → Type 0
AreShort a b = (length a ≤ max_key_size) × (length b ≤ max_key_size)

-- What `CompareAndDiffBit` returns on two keys. The sizes tell the first case from the others.
pub data DiffResult (a b : Key) (r : Result CompareDiff) : Type 0 where
  too_large :
      (max_key_size < length a) ⊎ (max_key_size < length b)
      → r ≡ err key_too_large
      → DiffResult a b r
  same : AreShort a b → a ≡ b → r ≡ err equal_keys → DiffResult a b r
  differ :
      AreShort a b
      → (d : CompareDiff) → r ≡ ok d
      → a ≢ b
      → d.order ≡ compare_keys a b
      → DiffResult a b r

-- `CompareAndDiffBit` on every pair of keys: it answers `key_too_large` where the first or the second is
-- larger than `kMaxKeySize`; on two keys that are not, it reports equal keys, and succeeds on
-- different ones, with the order of `CompareKeys`.
pub compare_and_diff_bit-DiffResult : (a b : Key) → DiffResult a b (compare_and_diff_bit a b)
compare_and_diff_bit-DiffResult a b = elim (dec_lt max_key_size (length a)) [
  | yes big ↦ too_large (inl big) (too_large_left a b big)
  | no fits_a ↦ elim (dec_lt max_key_size (length b)) [
    | yes big ↦ too_large (inr big) (too_large_right a b (omega arith) big)
    | no fits_b ↦
        let loop = compare_and_diff_bit_loop a b (omega arith) (omega arith) in
        let short : AreShort a b = (omega arith, omega arith) in
        elim (diff_from_total 0 a b) [
          | inl e ↦ same short e (loop ∙ rw (← e) (diff_from-equal 0 a))
          | inr (d, e) ↦
              differ short d (loop ∙ e) (diff_from-ne a b d e)
                (diff_from-lex 0 a b d e ∙ sym (compare_keys-lex a b))
        ]
  ]
]

-- Two first diff bits of one pair of keys are one, and of one direction.
Critical-le : {a b : Key} {e : ℕ} (f : ℕ) → Critical a b e → Critical a b f → e ≤ f
Critical-le {e = e} f c d = elim (dec_lt f e) [
  | yes lt ↦ absurd (omega (arith, c.agree f lt, d.low, d.high))
  | no ge ↦ omega arith
]

Critical-opposite : {a b : Key} (e f : ℕ) → Critical a b e → Critical b a f → ⊥
Critical-opposite e f c d = elim (dec_lt f e) [
  | yes lt ↦ omega (arith, c.agree f lt, d.low, d.high)
  | no ge ↦ elim (dec_lt e f) [
    | yes lt ↦ omega (arith, d.agree e lt, c.low, c.high)
    | no le ↦ let n : e ≡ f = omega arith in omega (arith, c.low, rw (← n) at d.high)
  ]
]

Critical-unique :
    {a b : Key} {e : ℕ} (o : Ordering) (n : ℕ)
    → Critical a b e
    → PartsAt o a b n
    → (o ≡ Ordering.lt) × (n ≡ e)
Critical-unique {e = e} Ordering.lt n c p =
    (refl, omega (arith, Critical-le n c p, Critical-le e p c))
Critical-unique Ordering.eq n c p = absurd p
Critical-unique {e = e} Ordering.gt n c p = absurd (Critical-opposite e n c p)

-- The first diff bit decides the order: `CompareAndDiffBit` answers "less, at `e`" on two legal keys
-- exactly when `e` is the first diff bit that tells them apart, clear in the first and set in the
-- second.
pub compare_and_diff_bit-iff-Critical :
    (a b : Key) (e : ℕ)
    → IsKey a
    → IsKey b
    → (compare_and_diff_bit a b ≡ ok (record { order = Ordering.lt; diff = e })) ↔ Critical a b e
compare_and_diff_bit-iff-Critical a b e ka kb = (forth, back)
  where
    forth :
        compare_and_diff_bit a b ≡ ok (record { order = Ordering.lt; diff = e }) → Critical a b e
    forth h = (compare_and_diff_bit-PartsAt a b _ ka kb h).0

    back : Critical a b e → compare_and_diff_bit a b ≡ ok (record { order = Ordering.lt; diff = e })
    back c = elim (compare_and_diff_bit-DiffResult a b) [
      | too_large big r ↦ absurd (omega arith)
      | same short e r ↦ absurd (omega (arith, rw (← e) at c.high, c.low))
      | differ short d r ne o ↦
          let u = Critical-unique d.order d.diff c (compare_and_diff_bit-PartsAt a b d ka kb r).0 in
          r ∙ ap ok (λ i. record { order = u.0 i; diff = u.1 i })
    ]

pub lex_injective : (a b : Key) → lex a b ≡ Ordering.eq → a ≡ b
unfolding lex
lex_injective [] [] h = refl
lex_injective [] (y ∷ ys) h = cc
lex_injective (x ∷ xs) [] h = cc
lex_injective (x ∷ xs) (y ∷ ys) h =
    let head : x ≡ y = ground arith in
    let tail : lex xs ys ≡ Ordering.eq = ground arith in let rest = lex_injective xs ys tail in cc
