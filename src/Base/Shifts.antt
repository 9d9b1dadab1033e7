-- ===== src/Base/Shifts.antt =====
-- The loops that open and close a gap in an array, as used on the routes and reps of a page.
use Prim.Native.Nat.{ℕ, zero, suc, ◌+◌}
use mathlib.Core.Path.{◌≡◌, refl, sym, ap, ◌∙◌}
use mathlib.Core.List.{List, [], ◌∷◌, ◌++◌, append_assoc}
use native.Mathlib.Omega.{arith}
use minweight_store_cpp.Base.Lists.{length, get_or, set, length-append, get_or-append, set-append}

module _ {ℓ} {A : Type ℓ} where
  -- `for (i = low + rounds; i > low; --i) a[i] = a[i - 1];`, reading `d` past the end.
  unfoldable pub shift_up : A → ℕ → ℕ → List A → List A
  shift_up d low zero xs = xs
  shift_up d low (suc rounds) xs =
      shift_up d low rounds (set xs (low + suc rounds) (get_or xs (low + rounds) d))

  -- `for (i = low; i < low + rounds; ++i) a[i] = a[i + 1];`, reading `d` past the end.
  unfoldable pub shift_down : A → ℕ → ℕ → List A → List A
  shift_down d low zero xs = xs
  shift_down d low (suc rounds) xs =
      shift_down d (low + 1) rounds (set xs low (get_or xs (low + 1) d))

  set-prefix :
      (xs ys : List A) (i : ℕ) (v : A) → set (xs ++ ys) (length xs + i) v ≡ xs ++ set ys i v
  set-prefix [] ys i v = let e : 0 + i ≡ i = omega arith in rw e
  set-prefix (x ∷ xs) ys i v =
      let e : suc (length xs) + i ≡ suc (length xs + i) = omega arith in
      rw e (ap (λ t. x ∷ t) (set-prefix xs ys i v))

  get_or-prefix :
      (xs ys : List A) (i : ℕ) (d : A) → get_or (xs ++ ys) (length xs + i) d ≡ get_or ys i d
  get_or-prefix [] ys i d = let e : 0 + i ≡ i = omega arith in rw e
  get_or-prefix (x ∷ xs) ys i d =
      let e : suc (length xs) + i ≡ suc (length xs + i) = omega arith in
      rw e (get_or-prefix xs ys i d)

  snoc_view :
      (k : ℕ) (xs : List A)
      → length xs ≡ suc k
      → (ys : List A) × (z : A) × (xs ≡ ys ++ (z ∷ [])) × (length ys ≡ k)
  snoc_view k [] h = absurd (omega arith)
  snoc_view zero (x ∷ []) h = ([], x, refl, refl)
  snoc_view (suc k) (x ∷ []) h = absurd (omega arith)
  snoc_view zero (x ∷ y ∷ xs) h = absurd (omega arith)
  snoc_view (suc k) (x ∷ y ∷ xs) h =
      let (ys, z, e, n) = snoc_view k (y ∷ xs) (omega arith) in
      (x ∷ ys, z, ap (λ t. x ∷ t) e, omega (arith, n))

module _ {ℓ} {A : Type ℓ} where
  -- Where the gap opens behind `pre`, `mid` moves up by one, over `x`.
  open_gap_count :
      (k : ℕ) (pre mid post : List A) (x v d : A)
      → length mid ≡ k
      → set (shift_up d (length pre) k (pre ++ (mid ++ x ∷ post))) (length pre) v
        ≡ pre ++ v ∷ (mid ++ post)
  unfolding shift_up
  open_gap_count zero pre [] post x v d h = set-append pre post x v
  open_gap_count zero pre (m ∷ mid) post x v d h = absurd (omega arith)
  open_gap_count (suc k) pre mid post x v d h =
      let (ys, z, e, n) = snoc_view k mid h in
      let read : get_or (pre ++ (mid ++ x ∷ post)) (length pre + k) d ≡ z =
        get_or-prefix pre (mid ++ x ∷ post) k d
        ∙ rw (e, append_assoc, ← n) (get_or-append ys (x ∷ post) z d) in
      let write : set (pre ++ (mid ++ x ∷ post)) (length pre + suc k) z
          ≡ pre ++ (ys ++ z ∷ z ∷ post) =
        set-prefix pre (mid ++ x ∷ post) (suc k) z
        ∙ rw (← h) (ap (λ t. pre ++ t) (set-append mid post x z ∙ rw (e, append_assoc))) in
      let ih = open_gap_count k pre ys (z ∷ post) z v d n in
      rw (read, write) (ih ∙ rw (e, append_assoc))

  pub open_gap :
      (pre mid post : List A) (x v d : A)
      → set (shift_up d (length pre) (length mid) (pre ++ (mid ++ x ∷ post))) (length pre) v
        ≡ pre ++ v ∷ (mid ++ post)
  open_gap pre mid post x v d = open_gap_count (length mid) pre mid post x v d refl

  -- Where the gap behind `pre` closes, `mid` moves down by one, and `v` is put behind it.
  pub close_gap :
      (pre mid post : List A) (x v d : A)
      → set
          (shift_down d (length pre) (length mid) (pre ++ x ∷ (mid ++ post)))
          (length pre + length mid)
          v
        ≡ pre ++ (mid ++ v ∷ post)
  unfolding shift_down
  close_gap pre [] post x v d =
      let e : length pre + 0 ≡ length pre = omega arith in rw e (set-append pre post x v)
  close_gap pre (m ∷ mid) post x v d =
      let tail = m ∷ (mid ++ post) in
      let longer : length pre + 1 ≡ length (pre ++ (m ∷ [])) =
        omega (arith, length-append pre (m ∷ [])) in
      let read : get_or (pre ++ x ∷ tail) (length pre + 1) d ≡ m =
        get_or-prefix pre (x ∷ tail) 1 d in
      let write : set (pre ++ x ∷ tail) (length pre) m ≡ (pre ++ (m ∷ [])) ++ tail =
        set-append pre tail x m ∙ sym (append_assoc pre (m ∷ []) tail) in
      let place : length pre + suc (length mid) ≡ length (pre ++ (m ∷ [])) + length mid =
        omega (arith, longer) in
      let step : shift_down d (length pre) (suc (length mid)) (pre ++ x ∷ tail)
          ≡ shift_down d (length pre + 1) (length mid)
              (set (pre ++ x ∷ tail) (length pre) (get_or (pre ++ x ∷ tail) (length pre + 1) d)) =
        refl in
      rw (step, read, write, place, longer)
        (close_gap (pre ++ (m ∷ [])) mid post m v d ∙ append_assoc pre (m ∷ []) (mid ++ v ∷ post))
