-- ===== src/Patricia/Index/Forest/Order.antt =====
-- The records of an index stand in the order of their keys.
use Prim.Native.Nat.{Ordering}
use minweight_store_cpp.Base.{ℕ, suc, ◌+◌, ◌≤◌, ◌<◌, ltb, arith}
use minweight_store_cpp.Base.{
  List, [], ◌∷◌, ◌++◌, ◌≡◌, sym, ap, ◌∙◌, refl, All, inl, inr, Bool-cases, ltb→lt, ltb→le,
}
use minweight_store_cpp.Patricia.Status.{Result, ok-injective}
use minweight_store_cpp.Patricia.Key.{Key, compare_keys}
use minweight_store_cpp.Patricia.Key.Parting.{Critical, IsKey}
use minweight_store_cpp.Patricia.Key.Order.{
  compare_and_diff_bit-iff-Critical, compare_and_diff_bit-DiffResult, too_large, same, differ,
}
use minweight_store_cpp.Patricia.Page.Tree.{Tree, leaf, fork, leaves}
use minweight_store_cpp.Patricia.Nodes.{HeapNodeStore}
use minweight_store_cpp.Patricia.Index.{Index}
use minweight_store_cpp.Patricia.Index.Forest.{
  Forest, no_more, record_then, child_then, positions, Held, Under, Under-lt, Splits, Below, Sorted,
  Holds, All-append, All-positions,
}

abbrev pub Pairwise : (ℕ → ℕ → Type 0) → List ℕ → Type 0
Pairwise P [] = Unit {0}
Pairwise P (x ∷ xs) = All (P x) xs × Pairwise P xs

-- Keys that part at a diff bit compare so.
less-Critical :
    (a b : Key) (d : ℕ) → IsKey a → IsKey b → Critical a b d → compare_keys a b ≡ Ordering.lt
less-Critical a b d ka kb c =
    let run = (compare_and_diff_bit-iff-Critical a b d ka kb).1 c in
    elim (compare_and_diff_bit-DiffResult a b) [
      | too_large big r ↦ absurd cc
      | same short e r ↦ absurd cc
      | differ short found r ne o ↦ sym o ∙ ap (λ e. e.order) (ok-injective (sym r ∙ run))
    ]

-- Keys below two leaves part at the diff of the fork that tells the leaves apart.
Critical-Splits :
    (In : ℕ → Key → Type 0) (base : ℕ) (t : Tree) (s s' : ℕ) (k k' : Key)
    → Splits In base t
    → base ≤ s
    → s < s'
    → s' < base + leaves t
    → In s k
    → In s' k'
    → (d : ℕ) × Critical k k' d
Critical-Splits In base leaf s s' k k' w lo lt hi h h' = absurd (omega arith)
Critical-Splits In base (fork d l r) s s' k k' (left, right, agree, wl, wr) lo lt hi h h' =
    elim (Bool-cases (ltb s' (base + leaves l))) [
      | inl low ↦ Critical-Splits In base l s s' k k' wl lo lt (ltb→lt s' _ low) h h'
      | inr high ↦
          let ge = ltb→le s' _ high in
          elim (Bool-cases (ltb s (base + leaves l))) [
            | inr beyond ↦
                Critical-Splits In (base + leaves l) r s s' k k' wr (ltb→le s _ beyond) lt
                  (omega arith) h h'
            | inl before ↦ (
              d,
              record {
                low = left s k lo (ltb→lt s _ before) h;
                high = right s' k' ge hi h';
                agree = λ e small. agree s s' k k' e lo (omega arith) (omega arith) hi h h' small;
              },
            )
          ]
    ]

Pairwise-append :
    (P : ℕ → ℕ → Type 0) (xs ys : List ℕ)
    → Pairwise P xs
    → Pairwise P ys
    → All (λ x. All (P x) ys) xs
    → Pairwise P (xs ++ ys)
Pairwise-append P [] ys hx hy cross = hy
Pairwise-append P (x ∷ xs) ys (px, hx) hy (cx, cross) =
    (All-append (P x) xs ys px cx, Pairwise-append P xs ys hx hy cross)

All-map :
    {A : Type 0} (P Q : A → Type 0) → ((x : A) → P x → Q x) → (xs : List A) → All P xs → All Q xs
All-map P Q g [] h = tt
All-map P Q g (x ∷ xs) (p, h) = (g x p, All-map P Q g xs h)

Pairwise-map :
    (P Q : ℕ → ℕ → Type 0)
    → ((x y : ℕ) → P x y → Q x y)
    → (xs : List ℕ) → Pairwise P xs
    → Pairwise Q xs
Pairwise-map P Q g [] h = tt
Pairwise-map P Q g (x ∷ xs) (a, h) = (All-map (P x) (Q x) (g x) xs a, Pairwise-map P Q g xs h)

module _ (nodes : HeapNodeStore) (keys : ℕ → Key) where
  abbrev pub Parted : ℕ → ℕ → Type 0
  Parted p q = IsKey (keys p) × IsKey (keys q) × ((d : ℕ) × Critical (keys p) (keys q) d)

  Parted-positions :
      (f : Forest)
      → Held nodes f
      → Sorted keys f
      → ((s p : ℕ) → Under f s p → IsKey (keys p))
      → ((s s' p q : ℕ) → s < s' → Under f s p → Under f s' q → Parted p q)
      → Pairwise Parted (positions f)
  Parted-positions no_more h w are apart = tt
  Parted-positions (record_then pos rest) (small, h) w are apart = (
    All-positions (Parted pos) rest (λ s q u. apart 0 (suc s) pos q (omega arith) refl u),
    Parted-positions rest h w (λ s p u. are (suc s) p u)
        (λ s s' p q lt u v. apart (suc s) (suc s') p q (omega arith) u v),
  )
  Parted-positions (child_then id t child rest) (small, is, held, h) (split, below, w) are apart =
      Pairwise-append Parted (positions child) (positions rest)
        (Parted-positions child held below (λ s p u. are 0 p (s, u))
          (λ s s' p q lt u v. (
            are 0 p (s, u),
            are 0 q (s', v),
            Critical-Splits (Below keys child) 0 t s s' (keys p) (keys q) split (omega arith) lt
                (omega (arith, Under-lt child s' q v, is.count)) (p, u, refl) (q, v, refl),
          )))
        (Parted-positions rest h w (λ s p u. are (suc s) p u)
          (λ s s' p q lt u v. apart (suc s) (suc s') p q (omega arith) u v))
        (All-positions (λ p. All (Parted p) (positions rest)) child
          (λ s p u.
            All-positions (Parted p) rest (λ s' q v. apart 0 (suc s') p q (omega arith) (s, u) v)))

-- The routes of an index tell its keys apart in the order of its records: `CompareKeys` finds each
-- record's key smaller than that of every later one, if all are strings of bytes of a size
-- that the index takes.
pub positions-Pairwise :
    (records : ℕ → Result Key) (index : Index) (t : Tree) (f : Forest)
    → (w : Holds records index t f) → ((s pos : ℕ) → Under f s pos → IsKey (w.keys pos))
    → Pairwise (λ p q. compare_keys (w.keys p) (w.keys q) ≡ Ordering.lt) (positions f)
positions-Pairwise records index t f w are =
    let apart = Parted-positions index.nodes w.keys f w.held w.sorted are (λ s s' p q lt u v. (
      are s p u,
      are s' q v,
      Critical-Splits (Below w.keys f) 0 t s s' (w.keys p) (w.keys q) w.routes (omega arith) lt
          (omega (arith, Under-lt f s' q v, w.root_page.count)) (p, u, refl) (q, v, refl),
    )) in
    Pairwise-map (Parted index.nodes w.keys)
      (λ p q. compare_keys (w.keys p) (w.keys q) ≡ Ordering.lt)
      (λ p q (kp, kq, (d, c)). less-Critical (w.keys p) (w.keys q) d kp kq c) (positions f) apart
