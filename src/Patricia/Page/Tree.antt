-- ===== src/Patricia/Page/Tree.antt =====
-- The binary tree that the routes of a page stand for.
use minweight_store_cpp.Base.{ℕ, ◌+◌, ◌-◌, ◌≤◌, ◌<◌, ltb, ◌==◌}
use minweight_store_cpp.Base.{if◌then◌else◌, List, [], ◌∷◌, ◌++◌, length, ◌≡◌, arith}
use minweight_store_cpp.Base.{length-append, append_assoc, get_elem?, get_elem?-append}
use minweight_store_cpp.Base.{Option, none, some, Bool-cases, inl, inr}
use mathlib.Core.Option
use minweight_store_cpp.Patricia.Key.{Key, get_diff_bit, max_diff}
use minweight_store_cpp.Patricia.Page.{NodePage, max_node_reps}
use minweight_store_cpp.Patricia.Route

-- A fork tests one diff bit of a key: clear goes left, set goes right.
pub data Tree : Type 0 where
  leaf : Tree
  fork : ℕ → Tree → Tree → Tree

abbrev pub leaves : Tree → ℕ
leaves leaf = 1
leaves (fork d l r) = leaves l + leaves r

-- The routes of a tree, in preorder.
abbrev pub encode : Tree → List ℕ
encode leaf = []
encode (fork d l r) = Route.make d (leaves l) ∷ (encode l ++ encode r)

-- Every diff fits the 16 bits of a diff.
abbrev pub InRange : Tree → Type 0
InRange leaf = Unit {0}
InRange (fork d l r) = (d ≤ max_diff) × InRange l × InRange r

-- The page's routes are those of the tree, and its size the number of leaves.
pub record Encodes (page : NodePage) (t : Tree) (pad : List ℕ) : Type 0 where
  pub size : page.size ≡ leaves t
  pub routes : page.routes ≡ encode t ++ pad
  pub total : length page.routes ≡ max_node_reps - 1
  pub fits : leaves t ≤ max_node_reps
  pub range : InRange t

pub one-le-leaves : (t : Tree) → 1 ≤ leaves t
one-le-leaves leaf = omega arith
one-le-leaves (fork d l r) = omega (arith, one-le-leaves l)

pub length-encode : (t : Tree) → length (encode t) + 1 ≡ leaves t
length-encode leaf = omega arith
length-encode (fork d l r) =
    omega (arith, length-append (encode l) (encode r), length-encode l, length-encode r)

-- The leaf that a key leads to.
unfoldable pub tree_lookup : Key → Tree → ℕ
tree_lookup key leaf = 0
tree_lookup key (fork d l r) =
    let left = tree_lookup key l in
    let right = tree_lookup key r in if get_diff_bit key d == 0 then left else leaves l + right

-- Where a walk that has passed the routes `pre` finds the two parts of a fork.
module _ (d : ℕ) (l r : Tree) (pre post : List ℕ) where
  pub split_left :
      pre ++ (encode (fork d l r) ++ post)
      ≡ (pre ++ Route.make d (leaves l) ∷ []) ++ (encode l ++ (encode r ++ post))
  split_left = simp append_assoc

  pub split_right :
      pre ++ (encode (fork d l r) ++ post)
      ≡ (pre ++ Route.make d (leaves l) ∷ encode l) ++ (encode r ++ post)
  split_right = simp append_assoc

  pub length_left : length (pre ++ Route.make d (leaves l) ∷ []) ≡ length pre + 1
  length_left = omega (arith, length-append pre (Route.make d (leaves l) ∷ []))

  pub length_right : length (pre ++ Route.make d (leaves l) ∷ encode l) ≡ length pre + leaves l
  length_right =
      omega (arith, length-append pre (Route.make d (leaves l) ∷ encode l), length-encode l)

  pub read_head :
      get_elem? (pre ++ (encode (fork d l r) ++ post)) (length pre) ≡ some (Route.make d (leaves l))
  read_head = get_elem?-append pre ((encode l ++ encode r) ++ post) (Route.make d (leaves l))

  pub one-lt-leaves : 1 < leaves (fork d l r)
  one-lt-leaves = omega (arith, one-le-leaves l, one-le-leaves r)

-- The slot beside the first fork on the key's path whose diff is larger, if there is one.
unfoldable pub above_slot : Key → ℕ → Tree → Option ℕ
above_slot key diff leaf = none
above_slot key diff (fork d l r) =
    let left = above_slot key diff l in
    let right = Option.map (λ s. leaves l + s) (above_slot key diff r) in
    if ltb diff d
    then some (if get_diff_bit key diff == 0 then 0 else leaves l + leaves r)
    else if get_diff_bit key d == 0
    then left
    else right

-- The slot of a new leaf that parts from the tree at `diff`, and the tree with it.
unfoldable pub insert_slot : Key → ℕ → Tree → ℕ
insert_slot key diff leaf = if get_diff_bit key diff == 0 then 0 else 1
insert_slot key diff (fork d l r) =
    let left = insert_slot key diff l in
    let right = leaves l + insert_slot key diff r in
    if ltb diff d
    then (if get_diff_bit key diff == 0 then 0 else leaves l + leaves r)
    else if get_diff_bit key d == 0
    then left
    else right

unfoldable pub insert_leaf : Key → ℕ → Tree → Tree
insert_leaf key diff leaf = fork diff leaf leaf
insert_leaf key diff (fork d l r) =
    let left = insert_leaf key diff l in
    let right = insert_leaf key diff r in
    if ltb diff d
    then (if get_diff_bit key diff == 0
        then fork diff leaf (fork d l r)
        else fork diff (fork d l r) leaf)
    else if get_diff_bit key d == 0
    then fork d left r
    else fork d l right

-- The tree without one of its leaves; a lone leaf stays.
unfoldable pub delete_leaf : ℕ → Tree → Tree
delete_leaf slot leaf = leaf
delete_leaf slot (fork d leaf leaf) = leaf
delete_leaf slot (fork d leaf (fork e a b)) =
    let right = delete_leaf (slot - 1) (fork e a b) in
    if ltb slot 1 then fork e a b else fork d leaf right
delete_leaf slot (fork d (fork e a b) leaf) =
    let left = delete_leaf slot (fork e a b) in
    if ltb slot (leaves a + leaves b) then fork d left leaf else fork e a b
delete_leaf slot (fork d (fork e a b) (fork f u v)) =
    let left = delete_leaf slot (fork e a b) in
    let right = delete_leaf (slot - (leaves a + leaves b)) (fork f u v) in
    if ltb slot (leaves a + leaves b) then fork d left (fork f u v) else fork d (fork e a b) right

-- The diffs between neighbouring leaves, from left to right.
unfoldable pub inorder : Tree → List ℕ
inorder leaf = []
inorder (fork d l r) = inorder l ++ d ∷ inorder r

pub leaves-insert_leaf :
    (key : Key) (diff : ℕ) (t : Tree) → leaves (insert_leaf key diff t) ≡ leaves t + 1
unfolding insert_leaf
leaves-insert_leaf key diff leaf = omega arith
leaves-insert_leaf key diff (fork d l r) =
    ground (arith, leaves-insert_leaf key diff l, leaves-insert_leaf key diff r)

pub InRange-insert_leaf :
    (key : Key) (diff : ℕ) (t : Tree)
    → diff ≤ max_diff
    → InRange t
    → InRange (insert_leaf key diff t)
unfolding insert_leaf
InRange-insert_leaf key diff leaf h range = omega arith
InRange-insert_leaf key diff (fork d l r) h (hd, hl, hr) = elim (Bool-cases (ltb diff d)) [
  | inl above ↦ elim (Bool-cases (get_diff_bit key diff == 0)) [
    | inl e ↦ rw (above, e) (h, tt, (hd, hl, hr))
    | inr e ↦ rw (above, e) (h, (hd, hl, hr), tt)
  ]
  | inr below ↦ elim (Bool-cases (get_diff_bit key d == 0)) [
    | inl e ↦ rw (below, e) (hd, InRange-insert_leaf key diff l h hl, hr)
    | inr e ↦ rw (below, e) (hd, hl, InRange-insert_leaf key diff r h hr)
  ]
]

pub leaves-delete_leaf :
    (slot : ℕ) (t : Tree) → 1 < leaves t → leaves (delete_leaf slot t) + 1 ≡ leaves t
unfolding delete_leaf
leaves-delete_leaf slot leaf h = absurd (omega arith)
leaves-delete_leaf slot (fork d leaf leaf) h = omega arith
leaves-delete_leaf slot (fork d leaf (fork e a b)) h =
    ground (arith, leaves-delete_leaf (slot - 1) (fork e a b), one-le-leaves a, one-le-leaves b)
leaves-delete_leaf slot (fork d (fork e a b) leaf) h =
    ground (arith, leaves-delete_leaf slot (fork e a b), one-le-leaves a, one-le-leaves b)
leaves-delete_leaf slot (fork d (fork e a b) (fork f u v)) h = ground (
  arith,
  leaves-delete_leaf slot (fork e a b),
  leaves-delete_leaf (slot - (leaves a + leaves b)) (fork f u v),
  one-le-leaves a,
  one-le-leaves b,
  one-le-leaves u,
  one-le-leaves v,
)
