-- ===== src/Patricia/Index/Forest.antt =====
-- What the pages of an index hold: a tree of pages.
pub mod Order
pub mod Insertion
pub mod Leaves
pub mod Growth
use minweight_store_cpp.Base.{ℕ, zero, suc, ◌+◌, ◌≤◌, ◌<◌, bit_or}
use minweight_store_cpp.Base.{
  Option, none, some, List, [], ◌∷◌, ◌++◌, ◌≡◌, refl, All, arith, length,
}
use Prim.Native.Nat.{max}
use minweight_store_cpp.Patricia.Status.{Result, ok}
use minweight_store_cpp.Patricia.Key.{Key, get_diff_bit, check_key_size}
use minweight_store_cpp.Patricia.Route.{child_tag}
use minweight_store_cpp.Patricia.Page.{NodePage, max_node_reps}
use minweight_store_cpp.Patricia.Page.Tree.{Tree, leaf, fork, leaves, Encodes, tree_lookup}
use minweight_store_cpp.Patricia.Nodes.{HeapNodeStore, get_node}
use minweight_store_cpp.Patricia.Index.{Index}

-- The entries of a page from one of them on: a record's position, or a child page, its id with the
-- tree of its routes and its entries.
pub data Forest : Type 0 where
  no_more : Forest
  record_then : ℕ → Forest → Forest
  child_then : ℕ → Tree → Forest → Forest → Forest

abbrev pub entries : Forest → ℕ
entries no_more = 0
entries (record_then pos rest) = suc (entries rest)
entries (child_then id t child rest) = suc (entries rest)

-- The `reps` of the page.
abbrev pub reps_of : Forest → List ℕ
reps_of no_more = []
reps_of (record_then pos rest) = pos ∷ reps_of rest
reps_of (child_then id t child rest) = bit_or child_tag id ∷ reps_of rest

-- The records below, in order.
abbrev pub positions : Forest → List ℕ
positions no_more = []
positions (record_then pos rest) = pos ∷ positions rest
positions (child_then id t child rest) = positions child ++ positions rest

-- How many pages deep a page with these entries is.
abbrev pub depth : Forest → ℕ
depth no_more = 1
depth (record_then pos rest) = depth rest
depth (child_then id t child rest) = max (suc (depth child)) (depth rest)

pub one-le-depth : (f : Forest) → 1 ≤ depth f
one-le-depth no_more = omega arith
one-le-depth (record_then pos rest) = one-le-depth rest
one-le-depth (child_then id t child rest) = omega (arith, one-le-depth rest)

-- The page `id` of the store has the routes of `t` and the entries `f`.
pub record IsPage (nodes : HeapNodeStore) (id : ℕ) (t : Tree) (f : Forest) : Type 0 where
  pub page : NodePage
  pub here : get_node nodes id ≡ ok page
  pub pad : List ℕ
  pub encodes : Encodes page t pad
  pub count : entries f ≡ leaves t
  pub rest : List ℕ
  pub reps : page.reps ≡ reps_of f ++ rest
  pub room : length page.reps ≡ max_node_reps

-- The children are in the store, and each number fits its entry.
abbrev pub Held : HeapNodeStore → Forest → Type 0
Held nodes no_more = Unit {0}
Held nodes (record_then pos rest) = (pos < child_tag) × Held nodes rest
Held nodes (child_then id t child rest) =
    (id < child_tag) × IsPage nodes id t child × Held nodes child × Held nodes rest

-- Where the search for a key ends that begins at an entry.
abbrev pub find_in : Key → ℕ → Forest → Option ℕ
find_in key s no_more = none
find_in key zero (record_then pos rest) = some pos
find_in key (suc s) (record_then pos rest) = find_in key s rest
find_in key zero (child_then id t child rest) = find_in key (tree_lookup key t) child
find_in key (suc s) (child_then id t child rest) = find_in key s rest

-- The record at `pos` is below entry `s`.
abbrev pub Under : Forest → ℕ → ℕ → Type 0
Under no_more s pos = ⊥
Under (record_then p rest) zero pos = p ≡ pos
Under (record_then p rest) (suc s) pos = Under rest s pos
Under (child_then id t child rest) zero pos = (s : ℕ) × Under child s pos
Under (child_then id t child rest) (suc s) pos = Under rest s pos

-- The keys below the leaves from `base` on lead there: at a fork with diff `d` they agree before `d`,
-- and bit `d` is clear on the left and set on the right.
abbrev pub Splits : (ℕ → Key → Type 0) → ℕ → Tree → Type 0
Splits Below base leaf = Unit {0}
Splits Below base (fork d l r) =
    ((s : ℕ) (k : Key) → base ≤ s → s < base + leaves l → Below s k → get_diff_bit k d ≡ 0)
    × ((s : ℕ) (k : Key)
        → base + leaves l ≤ s
        → s < base + leaves (fork d l r)
        → Below s k
        → get_diff_bit k d ≡ 1)
    × ((s s' : ℕ) (k k' : Key) (f : ℕ)
        → base ≤ s
        → s < base + leaves (fork d l r)
        → base ≤ s'
        → s' < base + leaves (fork d l r)
        → Below s k
        → Below s' k'
        → f < d
        → get_diff_bit k f ≡ get_diff_bit k' f)
    × Splits Below base l
    × Splits Below (base + leaves l) r

-- The keys below the entries of a page.
abbrev pub Below : (ℕ → Key) → Forest → ℕ → Key → Type 0
Below keys f s key = (pos : ℕ) × Under f s pos × (keys pos ≡ key)

-- The routes of every page below lead each key to its record.
abbrev pub Sorted : (ℕ → Key) → Forest → Type 0
Sorted keys no_more = Unit {0}
Sorted keys (record_then pos rest) = Sorted keys rest
Sorted keys (child_then id t child rest) =
    Splits (Below keys child) 0 t × Sorted keys child × Sorted keys rest

-- An index with records: a root page of the store, the pages below it, the key that the record store
-- has for each position, and routes that lead to it.
pub record Holds (records : ℕ → Result Key) (index : Index) (t : Tree) (f : Forest) : Type 0 where
  pub root_page : IsPage index.nodes index.root_id t f
  pub held : Held index.nodes f
  pub keys : ℕ → Key
  pub stored : (s pos : ℕ) → Under f s pos → records pos ≡ ok (keys pos)
  pub short : (s pos : ℕ) → Under f s pos → check_key_size (keys pos) ≡ ok tt
  pub routes : Splits (Below keys f) 0 t
  pub sorted : Sorted keys f

pub Under-lt : (f : Forest) (s pos : ℕ) → Under f s pos → s < entries f
Under-lt no_more s pos u = absurd u
Under-lt (record_then p rest) zero pos u = omega arith
Under-lt (record_then p rest) (suc s) pos u = omega (arith, Under-lt rest s pos u)
Under-lt (child_then id t child rest) zero pos u = omega arith
Under-lt (child_then id t child rest) (suc s) pos u = omega (arith, Under-lt rest s pos u)

pub All-append :
    {A : Type 0} (P : A → Type 0) (xs ys : List A) → All P xs → All P ys → All P (xs ++ ys)
All-append P [] ys hx hy = hy
All-append P (x ∷ xs) ys (px, hx) hy = (px, All-append P xs ys hx hy)

pub All-positions :
    (P : ℕ → Type 0) (f : Forest) → ((s pos : ℕ) → Under f s pos → P pos) → All P (positions f)
All-positions P no_more h = tt
All-positions P (record_then pos rest) h =
    (h 0 pos refl, All-positions P rest (λ s p u. h (suc s) p u))
All-positions P (child_then id t child rest) h =
    All-append P (positions child) (positions rest) (All-positions P child (λ s p u. h 0 p (s, u)))
      (All-positions P rest (λ s p u. h (suc s) p u))
