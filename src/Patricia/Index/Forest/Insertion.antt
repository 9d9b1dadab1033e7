-- ===== src/Patricia/Index/Forest/Insertion.antt =====
-- A new key goes into a page's routes at the diff bit at which it parts from the key found there.
use minweight_store_cpp.Base.{ℕ, suc, ◌+◌, ◌-◌, ◌≤◌, ◌<◌, arith}
use minweight_store_cpp.Base.{◌≡◌, ◌⊎◌, inl, inr}
use native.Mathlib.Decide.{dec_lt, ℕ_discrete}
use minweight_store_cpp.Patricia.Key.{Key, get_diff_bit}
use minweight_store_cpp.Patricia.Page.Tree.{Tree, leaf, fork, leaves, insert_slot}
use minweight_store_cpp.Patricia.Index.Forest.{Splits}

-- `New` is `Old` with a key put in at a slot.
pub record Inserted (Old New : ℕ → Key → Type 0) (slot : ℕ) (key : Key) : Type 0 where
  pub before : (s : ℕ) (k : Key) → s < slot → New s k → Old s k
  pub here : (k : Key) → New slot k → k ≡ key
  pub behind : (s : ℕ) (k : Key) → slot ≤ s → New (suc s) k → Old s k

-- Bit `d` is the first that tells the key from another.
pub record PartsFrom (key other : Key) (d : ℕ) : Type 0 where
  pub differ :
      (get_diff_bit key d ≡ 0) × (get_diff_bit other d ≡ 1)
      ⊎ (get_diff_bit key d ≡ 1) × (get_diff_bit other d ≡ 0)
  pub agree : (f : ℕ) → f < d → get_diff_bit key f ≡ get_diff_bit other f

pub insert_slot-le : (key : Key) (d : ℕ) (t : Tree) → insert_slot key d t ≤ leaves t
unfolding insert_slot
insert_slot-le key d leaf = ground arith
insert_slot-le key d (fork e l r) = ground (arith, insert_slot-le key d l, insert_slot-le key d r)

-- The same keys in another place.
pub Splits-shift :
    (Old New : ℕ → Key → Type 0) (base base' : ℕ) (t : Tree)
    → ((i : ℕ) (k : Key) → i < leaves t → New (base' + i) k → Old (base + i) k)
    → Splits Old base t
    → Splits New base' t
Splits-shift Old New base base' leaf h w = tt
Splits-shift Old New base base' (fork d l r) h (left, right, agree, wl, wr) = (
  λ s k lo hi new.
      left (base + (s - base')) k (omega arith) (omega arith) (old s k lo (omega arith) new),
  λ s k lo hi new.
      right (base + (s - base')) k (omega arith) (omega arith) (old s k (omega arith) hi new),
  λ s s' k k' f lo hi lo' hi' new new' small.
      agree (base + (s - base')) (base + (s' - base')) k k' f (omega arith) (omega arith)
        (omega arith) (omega arith) (old s k lo hi new) (old s' k' lo' hi' new') small,
  Splits-shift Old New base base' l (λ i k lt new. h i k (omega arith) new) wl,
  Splits-shift Old New (base + leaves l) (base' + leaves l) r
      (λ i k lt new.
        let e : base + leaves l + i ≡ base + (leaves l + i) = omega arith in
        let e' : base' + (leaves l + i) ≡ base' + leaves l + i = omega arith in
        rw e (h (leaves l + i) k (omega arith) (rw e' new)))
      wr,
)
  where
    old :
        (s : ℕ) (k : Key)
        → base' ≤ s
        → s < base' + (leaves l + leaves r)
        → New s k
        → Old (base + (s - base')) k
    old s k lo hi new =
        let e : base' + (s - base') ≡ s = omega arith in h (s - base') k (omega arith) (rw e new)

module _ {Old New : ℕ → Key → Type 0} {slot : ℕ} {key : Key} (ins : Inserted Old New slot key) where
  -- A key of the new leaves is an old one, at its place or one before, or the key itself.
  pub source :
      (base n s : ℕ) (k : Key)
      → base ≤ slot
      → slot ≤ base + n
      → base ≤ s
      → s < base + n + 1
      → New s k
      → ((s' : ℕ) × (base ≤ s') × (s' < base + n) × (s' ≤ s) × (s ≤ suc s') × Old s' k)
        ⊎ (s ≡ slot) × (k ≡ key)
  source base n s k lo hi from to new = elim (dec_lt s slot) [
    | yes low ↦ inl (s, from, omega arith, omega arith, omega arith, ins.before s k low new)
    | no ge ↦ elim (ℕ_discrete s slot) [
      | yes e ↦ inr (e, ins.here k (rw e at new))
      | no ne ↦
          let up : s ≡ suc (s - 1) = omega arith in
          inl (
            s - 1,
            omega arith,
            omega arith,
            omega arith,
            omega arith,
            ins.behind (s - 1) k (omega arith) (rw up at new),
          )
    ]
  ]

  pub Splits-beyond :
      (base : ℕ) (t : Tree) → slot ≤ base → Splits Old base t → Splits New (base + 1) t
  Splits-beyond base t le w =
      Splits-shift Old New base (base + 1) t
        (λ i k lt new.
          let e : base + 1 + i ≡ suc (base + i) = omega arith in
          ins.behind (base + i) k (omega arith) (rw e at new))
        w

  pub Splits-within :
      (base : ℕ) (t : Tree) → base + leaves t ≤ slot → Splits Old base t → Splits New base t
  Splits-within base t le w =
      Splits-shift Old New base base t (λ i k lt new. ins.before (base + i) k (omega arith) new) w
