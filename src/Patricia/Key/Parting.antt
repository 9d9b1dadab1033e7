-- ===== src/Patricia/Key/Parting.antt =====
-- `CompareAndDiffBit` finds the first diff bit at which the keys part, and the order it gives them.
use Prim.Native.Nat.{Ordering}
use minweight_store_cpp.Base.{ℕ, zero, suc, ◌+◌, ◌-◌, ◌*◌, ◌%◌, ◌^◌, ◌≤◌, ◌<◌}
use minweight_store_cpp.Base.{bit_xor, ltb, if◌then◌else◌, arith, lt→ltb, le→ltb}
use minweight_store_cpp.Base.{[], ◌∷◌, ◌≡◌, ◌≢◌, sym, ◌∙◌, length, All}
use mathlib.Core.Path.{subst}
use native.Mathlib.Decide.{dec_lt, ℕ_discrete}
use minweight_store_cpp.Base.Xor.{bit_xor_comm}
use minweight_store_cpp.Patricia.Status.{ok, ok-injective}
use minweight_store_cpp.Patricia.Key.{
  Key, IsByte, CompareDiff, get_diff_bit, max_key_size, max_diff,
}
use minweight_store_cpp.Patricia.Key.{diff_from, compare_and_diff_bit, check_key_size}
use minweight_store_cpp.Patricia.Key.{count_leading_zero_bits8}
use minweight_store_cpp.Patricia.Key.Bits.{
  Parts, bytes_part, get_diff_bit-nil, get_diff_bit-head_zero, get_diff_bit-head, get_diff_bit-tail,
}

-- Diff bit `e` is the first that tells the keys apart, clear in `a` and set in `b`.
pub record Critical (a b : Key) (e : ℕ) : Type 0 where
  pub low : get_diff_bit a e ≡ 0
  pub high : get_diff_bit b e ≡ 1
  pub agree : (f : ℕ) → f < e → get_diff_bit a f ≡ get_diff_bit b f

-- The keys part at `e` with `a` on the side that `order` names.
abbrev pub PartsAt : Ordering → Key → Key → ℕ → Type 0
PartsAt Ordering.lt a b e = Critical a b e
PartsAt Ordering.eq a b e = ⊥
PartsAt Ordering.gt a b e = Critical b a e

abbrev pub IsKey : Key → Type 0
IsKey a = All IsByte a × (length a ≤ max_key_size)

Critical-nil : (y : ℕ) (ys : Key) → Critical [] (y ∷ ys) 0
Critical-nil y ys = record {
  low = get_diff_bit-nil 0;
  high = get_diff_bit-head_zero y ys;
  agree = λ f h. absurd (omega arith);
}

Critical-head : (x y c : ℕ) (xs ys : Key) → Parts x y c → Critical (x ∷ xs) (y ∷ ys) (c + 1)
Critical-head x y c xs ys p = record {
  low = get_diff_bit-head x xs c p.within ∙ p.low;
  high = get_diff_bit-head y ys c p.within ∙ p.high;
  agree = agree;
}
  where
    agree : (f : ℕ) → f < c + 1 → get_diff_bit (x ∷ xs) f ≡ get_diff_bit (y ∷ ys) f
    agree zero h = get_diff_bit-head_zero x xs ∙ sym (get_diff_bit-head_zero y ys)
    agree (suc f) h =
        let e : suc f ≡ f + 1 = omega arith in
        let inside : f < 8 = omega (arith, p.within) in
        rw e (
          get_diff_bit-head x xs f inside
          ∙ p.above f (omega arith)
          ∙ sym (get_diff_bit-head y ys f inside))

Critical-tail : (x e : ℕ) (xs ys : Key) → Critical xs ys e → Critical (x ∷ xs) (x ∷ ys) (e + 9)
Critical-tail x e xs ys p = record {
  low = get_diff_bit-tail x xs e ∙ p.low;
  high = get_diff_bit-tail x ys e ∙ p.high;
  agree = agree;
}
  where
    group : (f : ℕ) → f < 9 → get_diff_bit (x ∷ xs) f ≡ get_diff_bit (x ∷ ys) f
    group zero h = get_diff_bit-head_zero x xs ∙ sym (get_diff_bit-head_zero x ys)
    group (suc f) h =
        let n : suc f ≡ f + 1 = omega arith in
        rw n (get_diff_bit-head x xs f (omega arith) ∙ sym (get_diff_bit-head x ys f (omega arith)))

    later : (f : ℕ) → f < e → get_diff_bit (x ∷ xs) (f + 9) ≡ get_diff_bit (x ∷ ys) (f + 9)
    later f h = get_diff_bit-tail x xs f ∙ p.agree f h ∙ sym (get_diff_bit-tail x ys f)

    agree : (f : ℕ) → f < e + 9 → get_diff_bit (x ∷ xs) f ≡ get_diff_bit (x ∷ ys) f
    agree f h = elim (dec_lt f 9) [
      | yes near ↦ group f near
      | no far ↦ let n : f ≡ f - 9 + 9 = omega arith in rw n (later (f - 9) (omega arith))
    ]

PartsAt-tail :
    (o : Ordering) (x e : ℕ) (xs ys : Key) → PartsAt o xs ys e → PartsAt o (x ∷ xs) (x ∷ ys) (e + 9)
PartsAt-tail Ordering.lt x e xs ys p = Critical-tail x e xs ys p
PartsAt-tail Ordering.eq x e xs ys p = p
PartsAt-tail Ordering.gt x e xs ys p = Critical-tail x e ys xs p

-- What a run of the loop from byte `i` finds, counted from byte `i`.
pub record Found (i : ℕ) (a b : Key) (d : CompareDiff) : Type 0 where
  pub at : ℕ
  pub place : d.diff ≡ i * 9 + at
  pub near : at ≤ length a * 9
  pub parts : PartsAt d.order a b at

-- The two ways in which the loop stops where the keys differ.
differ_order :
    {x y : ℕ} (c : ℕ) (xs ys : Key)
    → x ≢ y
    → (x < y → Parts x y c)
    → (y < x → Parts y x c)
    → (c < 8) × PartsAt (if ltb x y then Ordering.lt else Ordering.gt) (x ∷ xs) (y ∷ ys) (c + 1)
differ_order {x} {y} c xs ys ne below above = elim (dec_lt x y) [
  | yes lt ↦ rw (lt→ltb x y lt) ((below lt).within, Critical-head x y c xs ys (below lt))
  | no ge ↦
      let gt : y < x = omega arith in
      rw (le→ltb x y (omega arith)) ((above gt).within, Critical-head y x c ys xs (above gt))
]

diff_from-differ :
    (i x y : ℕ) (xs ys : Key)
    → IsByte x
    → IsByte y
    → x ≢ y
    → i * 9 + 9 ≤ 65535
    → Found i (x ∷ xs) (y ∷ ys) (record {
      order = if ltb x y then Ordering.lt else Ordering.gt;
      diff = (i * 9 + count_leading_zero_bits8 (bit_xor x y) + 1) % 2 ^ 16;
    })
diff_from-differ i x y xs ys hx hy ne fits =
    let both =
      differ_order (count_leading_zero_bits8 (bit_xor x y)) xs ys ne (bytes_part x y hx hy) (λ gt.
        subst (λ v. Parts y x (count_leading_zero_bits8 v)) (bit_xor_comm y x)
          (bytes_part y x hy hx gt)) in
    record {
      at = count_leading_zero_bits8 (bit_xor x y) + 1;
      place = omega (arith, both.0);
      near = omega (arith, both.0);
      parts = both.1;
    }

Found-tail :
    (i x : ℕ) (xs ys : Key) (d : CompareDiff) → Found (i + 1) xs ys d → Found i (x ∷ xs) (x ∷ ys) d
Found-tail i x xs ys d f = record {
  at = f.at + 9;
  place = omega (arith, f.place);
  near = omega (arith, f.near);
  parts = PartsAt-tail d.order x f.at xs ys f.parts;
}

pub diff_from-Found :
    (i : ℕ) (a b : Key) (d : CompareDiff)
    → All IsByte a
    → All IsByte b
    → i * 9 + length a * 9 ≤ 65535
    → diff_from i a b ≡ ok d
    → Found i a b d
unfolding diff_from
diff_from-Found i [] [] d ha hb fits e = cc
diff_from-Found i [] (y ∷ ys) d ha hb fits e =
    subst (Found i [] (y ∷ ys)) (ok-injective e)
      (record { at = 0; place = omega arith; near = omega arith; parts = Critical-nil y ys })
diff_from-Found i (x ∷ xs) [] d ha hb fits e =
    subst (Found i (x ∷ xs) []) (ok-injective e)
      (record { at = 0; place = omega arith; near = omega arith; parts = Critical-nil x xs })
diff_from-Found i (x ∷ xs) (y ∷ ys) d (hx, hxs) (hy, hys) fits e = elim (ℕ_discrete x y) [
  | yes same ↦
      subst (λ z. Found i (x ∷ xs) (z ∷ ys) d) same
        (Found-tail i x xs ys d
          (diff_from-Found (i + 1) xs ys d hxs hys (omega arith) (ground arith)))
  | no ne ↦
      subst (Found i (x ∷ xs) (y ∷ ys)) (ground arith)
        (diff_from-differ i x y xs ys hx hy ne (omega arith))
]

pub check_key_size_fits : (a : Key) → length a ≤ max_key_size → check_key_size a ≡ ok tt
unfolding check_key_size
check_key_size_fits a h = ground arith

-- Two keys of legal size and bytes: a successful comparison gives the first diff bit at which they
-- part, and the order says which key has the bit clear.
pub compare_and_diff_bit-PartsAt :
    (a b : Key) (d : CompareDiff)
    → IsKey a
    → IsKey b
    → compare_and_diff_bit a b ≡ ok d
    → PartsAt d.order a b d.diff × (d.diff ≤ max_diff)
unfolding compare_and_diff_bit
compare_and_diff_bit-PartsAt a b d (ha, na) (hb, nb) e =
    let f : Found 0 a b d =
      diff_from-Found 0 a b d ha hb (omega arith)
        (rw (check_key_size_fits a na, check_key_size_fits b nb) at e) in
    let place : d.diff ≡ f.at = omega (arith, f.place) in
    (rw place f.parts, omega (arith, f.place, f.near))
