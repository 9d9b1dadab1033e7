-- ===== src/Base/Slots.antt =====
-- Tables of slots with a free list: node_store.h and record_store.h both keep one.
use minweight_store_cpp.Base.Lists.{length, get_or, set, All, length-append, length-set}
use Prim.Native.Nat.{ℕ, zero, suc, ◌+◌, ◌<◌}
use mathlib.Core.Path.{◌≡◌, refl, sym, ap, ◌∙◌}
use mathlib.Core.Logic.{◌≢◌}
use mathlib.Core.Bool.{Bool, true, false}
use mathlib.Core.List.{List, [], ◌∷◌, ◌++◌}
use native.Mathlib.Omega.{arith}

abbrev pub weight : Bool → ℕ
weight true = 1
weight false = 0

module _ {ℓ} {A : Type ℓ} where
  pub get_or-set_self :
      (xs : List A) (i : ℕ) (v d : A) → i < length xs → get_or (set xs i v) i d ≡ v
  get_or-set_self [] i v d h = absurd (omega arith)
  get_or-set_self (x ∷ xs) zero v d h = refl
  get_or-set_self (x ∷ xs) (suc i) v d h = get_or-set_self xs i v d (omega arith)

  pub get_or-set_ne :
      (xs : List A) (i j : ℕ) (v d : A) → i ≢ j → get_or (set xs i v) j d ≡ get_or xs j d
  get_or-set_ne [] i j v d h = refl
  get_or-set_ne (x ∷ xs) zero zero v d h = absurd (h refl)
  get_or-set_ne (x ∷ xs) zero (suc j) v d h = refl
  get_or-set_ne (x ∷ xs) (suc i) zero v d h = refl
  get_or-set_ne (x ∷ xs) (suc i) (suc j) v d h = get_or-set_ne xs i j v d (λ e. h (ap suc e))

  pub get_or-append_lt :
      (xs ys : List A) (i : ℕ) (d : A) → i < length xs → get_or (xs ++ ys) i d ≡ get_or xs i d
  get_or-append_lt [] ys i d h = absurd (omega arith)
  get_or-append_lt (x ∷ xs) ys zero d h = refl
  get_or-append_lt (x ∷ xs) ys (suc i) d h = get_or-append_lt xs ys i d (omega arith)

  module _ (in_use : A → Bool) (blank : A) where
    abbrev pub count : List A → ℕ
    count [] = 0
    count (x ∷ xs) = weight (in_use x) + count xs

    -- A slot that may be handed out: not the first one, in the table, and not in use.
    abbrev pub IsFree : List A → ℕ → Type 0
    IsFree xs p = (0 < p) × (p < length xs) × (in_use (get_or xs p blank) ≡ false)

    -- The free slots of a table, each listed once.
    abbrev pub Free : List A → List ℕ → Type 0
    Free xs [] = Unit
    Free xs (p ∷ ps) = IsFree xs p × All (λ q. p ≢ q) ps × Free xs ps

    pub count-append : (xs : List A) (a : A) → count (xs ++ (a ∷ [])) ≡ count xs + weight (in_use a)
    count-append [] a = omega arith
    count-append (x ∷ xs) a = omega (arith, count-append xs a)

    pub count-set :
        (xs : List A) (i : ℕ) (a : A)
        → i < length xs
        → count (set xs i a) + weight (in_use (get_or xs i blank)) ≡ count xs + weight (in_use a)
    count-set [] i a h = absurd (omega arith)
    count-set (x ∷ xs) zero a h = omega arith
    count-set (x ∷ xs) (suc i) a h = omega (arith, count-set xs i a (omega arith))

    pub Free-set :
        (xs : List A) (p : ℕ) (a : A) (ps : List ℕ)
        → All (λ q. p ≢ q) ps
        → Free xs ps
        → Free (set xs p a) ps
    Free-set xs p a [] h f = tt
    Free-set xs p a (q ∷ qs) (h, hs) ((low, high, unused), apart, rest) = (
      (low, omega (arith, length-set xs p a), ap in_use (get_or-set_ne xs p q a blank h) ∙ unused),
      apart,
      Free-set xs p a qs hs rest,
    )

    pub Free-append : (xs : List A) (a : A) (ps : List ℕ) → Free xs ps → Free (xs ++ (a ∷ [])) ps
    Free-append xs a [] f = tt
    Free-append xs a (q ∷ qs) ((low, high, unused), apart, rest) = (
      (
        low,
        omega (arith, length-append xs (a ∷ [])),
        ap in_use (get_or-append_lt xs (a ∷ []) q blank high) ∙ unused,
      ),
      apart,
      Free-append xs a qs rest,
    )

    -- A slot in use is none of the free ones.
    pub Free-apart :
        (xs : List A) (p : ℕ) (ps : List ℕ)
        → in_use (get_or xs p blank) ≡ true
        → Free xs ps
        → All (λ q. p ≢ q) ps
    Free-apart xs p [] h f = tt
    Free-apart xs p (q ∷ qs) h ((low, high, unused), apart, rest) = (
      (λ e. false-ne-true (sym unused ∙ ap (λ i. in_use (get_or xs i blank)) (sym e) ∙ h)),
      Free-apart xs p qs h rest,
    )
      where
        false-ne-true : false ≢ true
        false-ne-true e = cc
