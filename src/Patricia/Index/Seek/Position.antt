-- ===== src/Patricia/Index/Seek/Position.antt =====
-- index.h: `SeekGreaterOrEqual`, `SeekLessOrEqual` and what they share with the insertion.
use minweight_store_cpp.Base.{ℕ, zero, suc, ◌+◌, ◌-◌, ◌==◌, ltb, leb, true, false, if◌then◌else◌}
use minweight_store_cpp.Base.{Option, none, some, List, [], ◌∷◌, length, get_elem?}
use minweight_store_cpp.Patricia.Status.{
  Result, ok, err, stuck, corrupt_layout, equal_keys, deref, ◌>>=◌,
}
use minweight_store_cpp.Patricia.Key.{Key, compare_and_diff_bit, CompareDiff}
use minweight_store_cpp.Patricia.Route
use minweight_store_cpp.Patricia.Page.{lookup}
use minweight_store_cpp.Patricia.Page.Edit.{insert_slot_above_path}
use minweight_store_cpp.Patricia.Nodes.{HeapNodeStore, get_node}
use minweight_store_cpp.Patricia.Index.{Index, PutFrame, InsertSlot}
use minweight_store_cpp.Patricia.Index.Path.{
  IterPath, reset, push_node, at, set_at, truncate, frames_for_insert,
}
use minweight_store_cpp.Patricia.Index.Read.{rep_at, key_at}
use minweight_store_cpp.Patricia.Index.Seek.{
  Found, node_for_frame, leftmost_record, rightmost_record, with_leaf,
}
use Prim.Native.Nat.{Ordering}

-- The `for` loop of `InsertSlotFromPath` from frame `i` on.
unfoldable pub slot_above : HeapNodeStore → List PutFrame → ℕ → Key → ℕ → Result (Option InsertSlot)
slot_above nodes [] i key diff = ok none
slot_above nodes (frame ∷ frames) i key diff = do
  node ← get_node nodes frame.id
  (slot, here) ← insert_slot_above_path node key diff frame.leaf
  elim here [
    | true ↦ ok (some (record { target = i; slot = slot }))
    | false ↦ slot_above nodes frames (i + 1) key diff
  ]

-- `frames.back()`
unfoldable pub last_frame : List PutFrame → Result PutFrame
last_frame frames = deref (get_elem? frames (length frames - 1))

unfoldable pub insert_slot_from_path :
    HeapNodeStore → List PutFrame → Key → Ordering → ℕ → Result InsertSlot
unfolding slot_above
insert_slot_from_path nodes frames key cmp diff = do
  above ← slot_above nodes frames 0 key diff
  elim above [
    | some found ↦ ok found
    | none ↦ do
      last ← last_frame frames
      elim cmp [
        | Ordering.lt ↦ ok (record { target = length frames - 1; slot = last.leaf })
        | Ordering.eq ↦ ok (record { target = length frames - 1; slot = last.leaf + 1 })
        | Ordering.gt ↦ ok (record { target = length frames - 1; slot = last.leaf + 1 })
      ]
  ]

-- The `for (;;)` loop of `PositionAtOrAfter`: one round for each frame of the path.
unfoldable pub at_or_after_loop : ℕ → ℕ → HeapNodeStore → IterPath → ℕ → Found
at_or_after_loop zero depth nodes path slot = stuck
at_or_after_loop (suc rounds) depth nodes path slot = do
  frame ← deref (at path (path.len - 1))
  node ← node_for_frame nodes frame
  elim (ltb node.size slot) [
    | true ↦ err corrupt_layout
    | false ↦ elim (ltb slot node.size) [
      | true ↦ do
        let moved = set_at path (path.len - 1) (with_leaf frame slot)
        rep ← rep_at node slot
        elim (Route.is_child rep) [
          | true ↦ leftmost_record depth nodes moved (Route.child_id rep)
          | false ↦ ok (some moved)
        ]
      | false ↦ elim (path.len == 1) [
        | true ↦ ok none
        | false ↦ do
          let up = truncate path (path.len - 1)
          parent ← deref (at up (up.len - 1))
          at_or_after_loop rounds depth nodes up (parent.leaf + 1)
      ]
    ]
  ]

unfoldable pub position_at_or_after : ℕ → HeapNodeStore → IterPath → ℕ → ℕ → Found
unfolding at_or_after_loop
position_at_or_after depth nodes path target slot =
    if leb path.len target
    then err corrupt_layout
    else at_or_after_loop (target + 1) depth nodes (truncate path (target + 1)) slot

-- The `for (;;)` loop of `PositionAtOrBefore`.
unfoldable pub at_or_before_loop : ℕ → ℕ → HeapNodeStore → IterPath → ℕ → Found
at_or_before_loop zero depth nodes path slot = stuck
at_or_before_loop (suc rounds) depth nodes path slot = do
  frame ← deref (at path (path.len - 1))
  node ← node_for_frame nodes frame
  elim (ltb node.size slot) [
    | true ↦ err corrupt_layout
    | false ↦ elim (ltb 0 slot) [
      | true ↦ do
        let moved = set_at path (path.len - 1) (with_leaf frame (slot - 1))
        rep ← rep_at node (slot - 1)
        elim (Route.is_child rep) [
          | true ↦ rightmost_record depth nodes moved (Route.child_id rep)
          | false ↦ ok (some moved)
        ]
      | false ↦ elim (path.len == 1) [
        | true ↦ ok none
        | false ↦ do
          let up = truncate path (path.len - 1)
          parent ← deref (at up (up.len - 1))
          at_or_before_loop rounds depth nodes up parent.leaf
      ]
    ]
  ]

unfoldable pub position_at_or_before : ℕ → HeapNodeStore → IterPath → ℕ → ℕ → Found
unfolding at_or_before_loop
position_at_or_before depth nodes path target slot =
    if leb path.len target
    then err corrupt_layout
    else at_or_before_loop (target + 1) depth nodes (truncate path (target + 1)) slot

-- Where `CompareAndDiffBit` says `kEqualKeys`, `equal` is the answer.
abbrev pub unless_equal : Result CompareDiff → Found → (CompareDiff → Found) → Found
unless_equal (err equal_keys) equal f = equal
unless_equal (err e) equal f = err e
unless_equal (ok d) equal f = f d
unless_equal stuck equal f = stuck

module _ (records : ℕ → Result Key) where
  -- The `for (;;)` loop of `SeekGreaterOrEqual`.
  unfoldable pub seek_ge_from : ℕ → ℕ → HeapNodeStore → IterPath → ℕ → Key → Found
  seek_ge_from zero depth nodes path id key = stuck
  seek_ge_from (suc rounds) depth nodes path id key = do
    node ← get_node nodes id
    elim (node.size == 0) [
      | true ↦ ok none
      | false ↦ do
        (leaf, some_leaf) ← lookup node key
        elim some_leaf [
          | false ↦ err corrupt_layout
          | true ↦ do
            let pushed = push_node path id (some id) leaf
            rep ← rep_at node leaf
            elim (Route.is_child rep) [
              | true ↦ seek_ge_from rounds depth nodes pushed (Route.child_id rep) key
              | false ↦ do
                record_key ← key_at records (Route.position rep)
                unless_equal (compare_and_diff_bit key record_key) (ok (some pushed)) (λ cmp. do
                  slot ←
                      insert_slot_from_path nodes (frames_for_insert pushed) key cmp.order cmp.diff
                  position_at_or_after depth nodes pushed slot.target slot.slot)
            ]
        ]
    ]

  -- `SeekGreaterOrEqual`
  unfoldable pub seek_greater_or_equal : ℕ → Index → Key → IterPath → Found
  unfolding seek_ge_from
  seek_greater_or_equal rounds index key path =
      seek_ge_from rounds rounds index.nodes (reset path) index.root_id key

  -- The `for (;;)` loop of `SeekLessOrEqual`.
  unfoldable pub seek_le_from : ℕ → ℕ → HeapNodeStore → IterPath → ℕ → Key → Found
  seek_le_from zero depth nodes path id key = stuck
  seek_le_from (suc rounds) depth nodes path id key = do
    node ← get_node nodes id
    elim (node.size == 0) [
      | true ↦ ok none
      | false ↦ do
        (leaf, some_leaf) ← lookup node key
        elim some_leaf [
          | false ↦ err corrupt_layout
          | true ↦ do
            let pushed = push_node path id (some id) leaf
            rep ← rep_at node leaf
            elim (Route.is_child rep) [
              | true ↦ seek_le_from rounds depth nodes pushed (Route.child_id rep) key
              | false ↦ do
                record_key ← key_at records (Route.position rep)
                unless_equal (compare_and_diff_bit key record_key) (ok (some pushed)) (λ cmp. do
                  slot ←
                      insert_slot_from_path nodes (frames_for_insert pushed) key cmp.order cmp.diff
                  position_at_or_before depth nodes pushed slot.target slot.slot)
            ]
        ]
    ]

  -- `SeekLessOrEqual`
  unfoldable pub seek_less_or_equal : ℕ → Index → Key → IterPath → Found
  unfolding seek_le_from
  seek_less_or_equal rounds index key path =
      seek_le_from rounds rounds index.nodes (reset path) index.root_id key
