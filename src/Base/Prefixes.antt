-- ===== src/Base/Prefixes.antt =====
-- Reads, writes and prefixes of two lists one behind the other.
use Prim.Native.Nat.{ℕ, zero, suc, ◌-◌, ◌≤◌, ◌<◌, min}
use mathlib.Core.Path.{◌≡◌, refl, ap}
use mathlib.Core.List.{List, [], ◌∷◌, ◌++◌}
use native.Mathlib.Omega.{arith}
use native.Mathlib.Numerals.{unary_clauses}
use minweight_store_cpp.Base.Lists.{length, get_elem?, set, take}

module _ {ℓ} {A : Type ℓ} where
  pub get_elem?-append_lt :
      (xs ys : List A) (i : ℕ) → i < length xs → get_elem? (xs ++ ys) i ≡ get_elem? xs i
  get_elem?-append_lt [] ys i h = absurd (omega arith)
  get_elem?-append_lt (x ∷ xs) ys zero h = refl
  get_elem?-append_lt (x ∷ xs) ys (suc i) h = get_elem?-append_lt xs ys i (omega arith)

  pub get_elem?-append_ge :
      (xs ys : List A) (i : ℕ)
      → length xs ≤ i
      → get_elem? (xs ++ ys) i ≡ get_elem? ys (i - length xs)
  get_elem?-append_ge [] ys i h = let e : i - 0 ≡ i = omega arith in rw e refl
  get_elem?-append_ge (x ∷ xs) ys zero h = absurd (omega arith)
  get_elem?-append_ge (x ∷ xs) ys (suc i) h =
      simp unary_clauses (get_elem?-append_ge xs ys i (omega arith))

  pub set-append_lt :
      (xs ys : List A) (i : ℕ) (v : A) → i < length xs → set (xs ++ ys) i v ≡ set xs i v ++ ys
  set-append_lt [] ys i v h = absurd (omega arith)
  set-append_lt (x ∷ xs) ys zero v h = refl
  set-append_lt (x ∷ xs) ys (suc i) v h = ap (λ t. x ∷ t) (set-append_lt xs ys i v (omega arith))

  pub set-append_ge :
      (xs ys : List A) (i : ℕ) (v : A)
      → length xs ≤ i
      → set (xs ++ ys) i v ≡ xs ++ set ys (i - length xs) v
  set-append_ge [] ys i v h = let e : i - 0 ≡ i = omega arith in rw e refl
  set-append_ge (x ∷ xs) ys zero v h = absurd (omega arith)
  set-append_ge (x ∷ xs) ys (suc i) v h =
      simp unary_clauses (ap (λ t. x ∷ t) (set-append_ge xs ys i v (omega arith)))

  pub take-append :
      (n : ℕ) (xs ys : List A)
      → take n (xs ++ ys) ≡ take (min n (length xs)) xs ++ take (n - length xs) ys
  take-append zero [] ys = refl
  take-append zero (x ∷ xs) ys =
      let m : min 0 (suc (length xs)) ≡ 0 = omega arith in
      let d : 0 - suc (length xs) ≡ 0 = omega arith in rw (m, d) refl
  take-append (suc n) [] ys =
      let m : min (suc n) 0 ≡ 0 = omega arith in
      let d : suc n - 0 ≡ suc n = omega arith in rw (m, d) refl
  take-append (suc n) (x ∷ xs) ys = simp unary_clauses (ap (λ t. x ∷ t) (take-append n xs ys))

  pub take-all : (n : ℕ) (xs : List A) → length xs ≤ n → take n xs ≡ xs
  take-all zero [] h = refl
  take-all zero (x ∷ xs) h = absurd (omega arith)
  take-all (suc n) [] h = refl
  take-all (suc n) (x ∷ xs) h = ap (λ t. x ∷ t) (take-all n xs (omega arith))

  pub take-append_le : (n : ℕ) (xs ys : List A) → n ≤ length xs → take n (xs ++ ys) ≡ take n xs
  take-append_le zero xs ys h = refl
  take-append_le (suc n) [] ys h = absurd (omega arith)
  take-append_le (suc n) (x ∷ xs) ys h = ap (λ t. x ∷ t) (take-append_le n xs ys (omega arith))

  pub length-zero : (xs : List A) → length xs ≡ 0 → xs ≡ []
  length-zero [] h = refl
  length-zero (x ∷ xs) h = absurd (omega arith)
