-- ===== src/Patricia/Index/Read.antt =====
-- index.h: the reads of the index that follow one key or one page.
use minweight_store_cpp.Base.{
  ℕ, zero, suc, ◌+◌, ◌==◌, Bool, true, false, if◌then◌else◌, List, [], ◌∷◌, take, get_elem?,
}
use minweight_store_cpp.Patricia.Status.{Result, ok, err, stuck, corrupt_layout, deref, ◌>>=◌, ◌>>◌}
use minweight_store_cpp.Patricia.Key.{Key, check_key_size, compare_keys}
use minweight_store_cpp.Patricia.Route
use minweight_store_cpp.Patricia.Page.{NodePage, lookup}
use minweight_store_cpp.Patricia.Nodes.{HeapNodeStore, get_node}
use minweight_store_cpp.Patricia.Index.{Index, ProbeResult}
use Prim.Native.Nat.{Ordering}

-- `CompareKeys(a, b) == 0`, `>= 0` and `<= 0`.
abbrev pub is_eq : Ordering → Bool
is_eq Ordering.lt = false
is_eq Ordering.eq = true
is_eq Ordering.gt = false

abbrev pub is_ge : Ordering → Bool
is_ge Ordering.lt = false
is_ge Ordering.eq = true
is_ge Ordering.gt = true

abbrev pub is_le : Ordering → Bool
is_le Ordering.lt = true
is_le Ordering.eq = true
is_le Ordering.gt = false

-- `NodePage::reps[i]`
abbrev pub rep_at : NodePage → ℕ → Result ℕ
rep_at page i = deref (get_elem? page.reps i)

-- `MinPos` and `MaxPos`
unfoldable pub min_pos : HeapNodeStore → ℕ → Result ℕ
min_pos nodes rep = elim (Route.is_child rep) [
  | false ↦ ok (Route.position rep)
  | true ↦ do
    child ← get_node nodes (Route.child_id rep)
    if child.size == 0 then err corrupt_layout else ok child.first_pos
]

unfoldable pub max_pos : HeapNodeStore → ℕ → Result ℕ
max_pos nodes rep = elim (Route.is_child rep) [
  | false ↦ ok (Route.position rep)
  | true ↦ do
    child ← get_node nodes (Route.child_id rep)
    if child.size == 0 then err corrupt_layout else ok child.last_pos
]

-- The `for (;;)` loop of `Probe` from the page `id` on, for `rounds` pages at most.
unfoldable pub probe_from : ℕ → HeapNodeStore → ℕ → Key → Result ProbeResult
probe_from zero nodes id key = stuck
probe_from (suc rounds) nodes id key = do
  node ← get_node nodes id
  (leaf, some_leaf) ← lookup node key
  elim some_leaf [
    | false ↦ ok (record { pos = 0; found = false })
    | true ↦ do
      rep ← rep_at node leaf
      elim (Route.is_child rep) [
        | true ↦ probe_from rounds nodes (Route.child_id rep) key
        | false ↦ ok (record { pos = Route.position rep; found = true })
      ]
  ]

unfoldable pub probe : ℕ → Index → Key → Result ProbeResult
unfolding probe_from
probe rounds index key = do check_key_size key; probe_from rounds index.nodes index.root_id key

-- The loop of `CountRecords` over the reps of a page, where `count_child` counts a child's records.
unfoldable pub count_reps : HeapNodeStore → (NodePage → Result ℕ) → List ℕ → ℕ → Result ℕ
count_reps nodes count_child [] total = ok total
count_reps nodes count_child (rep ∷ reps) total = elim (Route.is_child rep) [
  | false ↦ count_reps nodes count_child reps (total + 1)
  | true ↦ do
    child ← get_node nodes (Route.child_id rep)
    child_count ← count_child child
    count_reps nodes count_child reps (total + child_count)
]

-- `CountRecords`, `rounds` pages deep at most.
unfoldable pub count_records : ℕ → HeapNodeStore → NodePage → Result ℕ
unfolding count_reps
count_records zero nodes node = stuck
count_records (suc rounds) nodes node =
    count_reps nodes (count_records rounds nodes) (take node.size node.reps) 0

module _ (records : ℕ → Result Key) where
  -- `Key`
  unfoldable pub key_at : ℕ → Result Key
  key_at pos = do key ← records pos; check_key_size key; ok key

  unfoldable pub get : ℕ → Index → Key → Result ProbeResult
  unfolding probe key_at
  get rounds index key = do
    found ← probe rounds index key
    elim found.found [
      | false ↦ ok found
      | true ↦ do
        record_key ← key_at found.pos
        elim (is_eq (compare_keys record_key key)) [
          | true ↦ ok found
          | false ↦ ok (record { pos = 0; found = false })
        ]
    ]
