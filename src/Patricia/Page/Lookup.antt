-- ===== src/Patricia/Page/Lookup.antt =====
-- `Lookup` on a page walks the tree that the page encodes.
use minweight_store_cpp.Base.{ℕ, zero, suc, ◌+◌, ◌-◌, ◌^◌, ◌≤◌, ◌<◌, ◌==◌, arith}
use minweight_store_cpp.Base.{List, [], ◌∷◌, ◌++◌, length, ◌≡◌, ap, ◌∙◌, true, false, inl, inr}
use minweight_store_cpp.Base.{lt→ltb, Bool-cases}
use minweight_store_cpp.Patricia.Status.{ok}
use minweight_store_cpp.Patricia.Key.{Key, get_diff_bit}
use minweight_store_cpp.Patricia.Route
use minweight_store_cpp.Patricia.Route.Laws.{left_count-make, bit-make}
use minweight_store_cpp.Patricia.Page.{NodePage, lookup_loop, lookup, max_node_reps}
use minweight_store_cpp.Patricia.Page.Tree.{
  Tree, leaf, fork, leaves, encode, InRange, Encodes, tree_lookup, one-le-leaves, one-lt-leaves,
  split_left, split_right, length_left, length_right, read_head,
}

lookup_loop-tree :
    (t : Tree) (rounds : ℕ) (pre post : List ℕ) (key : Key) (base : ℕ)
    → InRange t
    → leaves t ≤ max_node_reps
    → leaves t ≤ rounds
    → lookup_loop rounds (pre ++ (encode t ++ post)) key (length pre) base (leaves t)
      ≡ ok (base + tree_lookup key t)
unfolding lookup_loop tree_lookup
lookup_loop-tree leaf zero pre post key base range fits enough = absurd (omega arith)
lookup_loop-tree leaf (suc rounds) pre post key base range fits enough = ap ok (omega arith)
lookup_loop-tree (fork d l r) zero pre post key base range fits enough =
    absurd (omega (arith, one-le-leaves l))
lookup_loop-tree (fork d l r) (suc rounds) pre post key base (hd, hl, hr) fits enough =
    let m = Route.make d (leaves l) in
    let small : leaves l < 2 ^ 15 = omega arith in
    let more = lt→ltb 1 (leaves l + leaves r) (one-lt-leaves d l r pre post) in
    let head = read_head d l r pre post in
    let route = bit-make d (leaves l) hd small key in
    let left = left_count-make d (leaves l) hd small in
    elim (Bool-cases (get_diff_bit key d == 0)) [
      | inl clear ↦
          rw
            (
              more,
              head,
              route,
              clear,
              left,
              split_left d l r pre post,
              ← length_left d l r pre post,
              lookup_loop,
            )
            (lookup_loop-tree l rounds (pre ++ m ∷ []) (encode r ++ post) key base hl (omega arith)
              (omega (arith, one-le-leaves r)))
      | inr is_set ↦
          let rest : leaves l + leaves r - leaves l ≡ leaves r = omega arith in
          rw
            (
              more,
              head,
              route,
              is_set,
              left,
              rest,
              split_right d l r pre post,
              ← length_right d l r pre post,
              lookup_loop,
            )
            (lookup_loop-tree r rounds (pre ++ m ∷ encode l) post key (base + leaves l) hr
                (omega arith) (omega (arith, one-le-leaves l))
              ∙ ap ok (omega arith))
    ]

-- On a page that encodes a tree `Lookup` ends, and gives the leaf to which the key leads.
pub lookup-tree :
    (page : NodePage) (t : Tree) (pad : List ℕ) (key : Key)
    → Encodes page t pad
    → lookup page key ≡ ok (tree_lookup key t, true)
unfolding lookup
lookup-tree page t pad key e =
    let some_leaf : (page.size == 0) ≡ false = ground (arith, e.size, one-le-leaves t) in
    let run : lookup_loop page.size page.routes key 0 0 page.size ≡ ok (0 + tree_lookup key t) =
      rw (e.size, e.routes)
        (lookup_loop-tree t (leaves t) [] pad key 0 e.range e.fits (omega arith)) in
    rw (some_leaf, run) (ap (λ n. ok (n, true)) (omega arith))

pub tree_lookup-lt : (key : Key) (t : Tree) → tree_lookup key t < leaves t
unfolding tree_lookup
tree_lookup-lt key leaf = omega arith
tree_lookup-lt key (fork d l r) = ground (arith, tree_lookup-lt key l, tree_lookup-lt key r)
