-- ===== src/Patricia/Index/Writes.antt =====
-- index.h: the writes that may split a page, and the steps of an insertion below `InsertOrReplace`.
use minweight_store_cpp.Base.{
  ℕ, zero, suc, ◌+◌, ◌-◌, ◌==◌, ltb, leb, not, ◌&&◌, ◌||◌, Bool, true, false, if◌then◌else◌,
}
use minweight_store_cpp.Base.{
  Option, none, some, List, [], ◌∷◌, ◌++◌, length, take, drop, set, get_elem?, replicate,
}
use minweight_store_cpp.Base.Shifts.{shift_up}
use minweight_store_cpp.Patricia.Status.{Result, ok, err, stuck, corrupt_layout, deref}
use minweight_store_cpp.Patricia.Key.{Key}
use minweight_store_cpp.Patricia.Route
use minweight_store_cpp.Patricia.Page.{NodePage, max_node_reps, route_diffs}
use minweight_store_cpp.Patricia.Page.Edit.{insert_route}
use minweight_store_cpp.Patricia.Nodes.{HeapNodeStore, get_node, alloc}
use minweight_store_cpp.Patricia.Index.{PutFrame}
use minweight_store_cpp.Patricia.Index.Act.{
  Act, ◌>>=◌, ◌>>◌, give, fail, pure, reads, page_at, write_page,
}
use minweight_store_cpp.Patricia.Index.Read.{rep_at, min_pos, max_pos}
use minweight_store_cpp.Patricia.Index.Diffs.{build_diffs}
use minweight_store_cpp.Patricia.Index.Routing.{build_cartesian}
use minweight_store_cpp.Patricia.Index.Rebuild.{write_fitting, write_node_with_diffs}
use minweight_store_cpp.Patricia.Index.Split.{choose_split_range, remap_insert_slot_after_split}

-- The first `n` elements with `v` put before element `slot`, as the copying loops leave them.
abbrev pub with_inserted {ℓ} : {A : Type ℓ} → List A → ℕ → ℕ → A → List A
with_inserted xs n slot v = take slot xs ++ v ∷ take (n - slot) (drop slot xs)

-- The entries with those of a range replaced by one: `reps[start] = rep` and `erase`.
abbrev pub with_range_replaced : List ℕ → ℕ → ℕ → ℕ → List ℕ
with_range_replaced reps start stop rep = take start reps ++ rep ∷ drop stop reps

-- The loop of `PropagateBoundary` for the `i` parents of the page `child`.
unfoldable pub propagate_loop : ℕ → List PutFrame → ℕ → Bool → Bool → Act (Unit {0})
propagate_loop zero frames child first_changed last_changed = give tt
propagate_loop (suc i) frames child first_changed last_changed = do
  frame ← pure (deref (get_elem? frames i))
  below ← pure (deref (get_elem? frames (suc i)))
  parent ← reads (λ nodes. get_node nodes frame.id)
  elim (leb parent.size frame.leaf) [
    | true ↦ fail corrupt_layout
    | false ↦ do
      child_rep ← pure (rep_at parent frame.leaf)
      elim (not (Route.is_child child_rep) || not (Route.child_id child_rep == below.id)) [
        | true ↦ fail corrupt_layout
        | false ↦ do
          page ← reads (λ nodes. page_at nodes child)
          let first_pos =
              if first_changed && frame.leaf == 0 then page.first_pos else parent.first_pos
          let last_pos =
              if last_changed && frame.leaf == parent.size - 1
              then page.last_pos
              else parent.last_pos
          write_page frame.id (record parent { first_pos = first_pos; last_pos = last_pos })
          elim (first_pos == parent.first_pos && last_pos == parent.last_pos) [
            | true ↦ give tt
            | false ↦
                propagate_loop i frames frame.id (not (first_pos == parent.first_pos))
                  (not (last_pos == parent.last_pos))
          ]
      ]
  ]

-- `PropagateBoundary`
unfoldable pub propagate_boundary : List PutFrame → ℕ → ℕ → ℕ → Act (Unit {0})
unfolding propagate_loop
propagate_boundary frames changed old_first old_last = do
  frame ← pure (deref (get_elem? frames changed))
  child ← reads (λ nodes. get_node nodes frame.id)
  elim (child.first_pos == old_first && child.last_pos == old_last) [
    | true ↦ give tt
    | false ↦
        propagate_loop changed frames frame.id (not (child.first_pos == old_first))
          (not (child.last_pos == old_last))
  ]

-- The loop of `PathEdgeInsertSlot` over the frames above the target.
unfoldable pub on_edge : HeapNodeStore → List PutFrame → ℕ → Result Bool
on_edge nodes [] slot = ok true
on_edge nodes (frame ∷ frames) slot = elim (slot == 0) [
  | true ↦ elim (frame.leaf == 0) [ true ↦ on_edge nodes frames slot | false ↦ ok false ]
  | false ↦ elim (get_node nodes frame.id) [
    | ok node ↦ elim (frame.leaf == node.size - 1) [
      | true ↦ on_edge nodes frames slot
      | false ↦ ok false
    ]
    | err e ↦ err e
    | stuck ↦ stuck
  ]
]

-- `PathEdgeInsertSlot`, `none` where it returns -1.
unfoldable pub path_edge_insert_slot : List PutFrame → ℕ → ℕ → ℕ → Act (Option ℕ)
unfolding on_edge
path_edge_insert_slot frames target slot old_size =
    if not (slot == 0) && not (slot == old_size) then give none else do
      edge ← reads (λ nodes. on_edge nodes (take target frames) slot)
      if edge then give (some slot) else give none

module _ (records : ℕ → Result Key) where
  -- `WriteNode`, with `split` for its call of `SplitAndWriteNode`.
  unfoldable pub write_node_by : (ℕ → List ℕ → Act (Unit {0})) → ℕ → List ℕ → Act (Unit {0})
  unfolding write_fitting
  write_node_by split id reps =
      if ltb max_node_reps (length reps) then split id reps else write_fitting records id reps

  -- `SplitAndWriteNodeAt`. Each round of its loop makes the list shorter.
  unfoldable pub split_and_write_node_at : ℕ → ℕ → List ℕ → Option ℕ → Act (Unit {0})
  unfolding choose_split_range remap_insert_slot_after_split write_node_by
  split_and_write_node_at zero id reps insert_slot = pure stuck
  split_and_write_node_at (suc rounds) id reps insert_slot =
      elim (ltb max_node_reps (length reps)) [
        | false ↦ write_fitting records id reps
        | true ↦ do
          range ← reads (λ nodes. choose_split_range records nodes reps insert_slot)
          child_id ← alloc
          let stop = range.start + range.count
          write_node_by (λ child child_reps. split_and_write_node_at rounds child child_reps none)
              child_id (take range.count (drop range.start reps))
          child ← reads (λ nodes. page_at nodes child_id)
          elim (child.size == 0) [
            | true ↦ fail corrupt_layout
            | false ↦ do
              child_rep ← pure (Route.make_child child_id)
              split_and_write_node_at rounds id
                  (with_range_replaced reps range.start stop child_rep)
                  (remap_insert_slot_after_split insert_slot range.start stop range.count)
          ]
      ]

  -- `InsertFullAt`, which calls `SplitAndWriteNode`.
  unfoldable pub insert_full_at : ℕ → NodePage → ℕ → ℕ → Act (Unit {0})
  unfolding split_and_write_node_at
  insert_full_at id node slot new_rep =
      split_and_write_node_at (node.size + 2) id (with_inserted node.reps node.size slot new_rep)
        none

  -- The bounds of a page once `new_rep` stands at `slot`.
  unfoldable pub insert_bounds : HeapNodeStore → NodePage → ℕ → ℕ → Result ℕ × Result ℕ
  unfolding min_pos max_pos
  insert_bounds nodes node slot new_rep = (
    if node.size == 0 || slot == 0 then min_pos nodes new_rep else ok node.first_pos,
    if node.size == 0 || slot == node.size then max_pos nodes new_rep else ok node.last_pos,
  )

  unfoldable pub insert_at_incremental : ℕ → ℕ → ℕ → Key → ℕ → Act (Unit {0})
  unfolding insert_full_at insert_bounds
  insert_at_incremental id slot new_rep key diff = do
    node ← reads (λ nodes. get_node nodes id)
    elim (ltb node.size slot) [
      | true ↦ fail corrupt_layout
      | false ↦ elim (leb max_node_reps node.size) [
        | true ↦ insert_full_at id node slot new_rep
        | false ↦ do
          first_pos ← reads (λ nodes. (insert_bounds nodes node slot new_rep).0)
          last_pos ← reads (λ nodes. (insert_bounds nodes node slot new_rep).1)
          routed ← pure (if node.size == 0 then ok node else insert_route node slot key diff)
          write_page id (record routed {
            reps = set (shift_up 0 slot (node.size - slot) node.reps) slot new_rep;
            size = node.size + 1;
            first_pos = first_pos;
            last_pos = last_pos;
          })
      ]
    ]

  -- The routes of the parent with `split_diff` where the child was split.
  abbrev pub parent_diffs : List ℕ → ℕ → ℕ → ℕ → List ℕ
  parent_diffs old_diffs parent_size child_slot split_diff =
      with_inserted old_diffs (parent_size - 1) child_slot split_diff

  unfoldable pub promote_sibling : ℕ → ℕ → ℕ → List ℕ → Act (Unit {0})
  unfolding build_diffs build_cartesian write_node_with_diffs route_diffs
  promote_sibling parent_id child_slot child_id reps =
      if not (length reps == max_node_reps + 1) then fail corrupt_layout else do
        parent ← reads (λ nodes. get_node nodes parent_id)
        elim (leb parent.size child_slot || leb max_node_reps parent.size) [
          | true ↦ fail corrupt_layout
          | false ↦ do
            child_rep ← pure (rep_at parent child_slot)
            elim (not (Route.is_child child_rep) || not (Route.child_id child_rep == child_id)) [
              | true ↦ fail corrupt_layout
              | false ↦ do
                diffs ← reads (λ nodes. build_diffs records nodes reps)
                cartesian ← pure (build_cartesian diffs)
                let split = cartesian.root + 1
                split_diff ← pure (deref (get_elem? diffs cartesian.root))
                sibling_id ← alloc
                write_node_with_diffs child_id (take split reps) (take (split - 1) diffs)
                write_node_with_diffs sibling_id (drop split reps) (drop split diffs)
                sibling_rep ← pure (Route.make_child sibling_id)
                now ← reads (λ nodes. page_at nodes parent_id)
                old_diffs ← pure (route_diffs now (replicate (parent.size - 1) 0))
                write_node_with_diffs parent_id
                    (with_inserted now.reps parent.size (child_slot + 1) sibling_rep)
                    (parent_diffs old_diffs parent.size child_slot split_diff)
            ]
        ]

  -- `InsertAtPath`
  unfoldable pub insert_at_path : List PutFrame → ℕ → ℕ → ℕ → Key → ℕ → Act (Unit {0})
  unfolding insert_at_incremental propagate_boundary promote_sibling path_edge_insert_slot
  insert_at_path frames target slot new_rep key diff = do
    frame ← pure (deref (get_elem? frames target))
    node ← reads (λ nodes. get_node nodes frame.id)
    elim (ltb node.size max_node_reps) [
      | true ↦ do
        insert_at_incremental frame.id slot new_rep key diff
        propagate_boundary frames target node.first_pos node.last_pos
      | false ↦ do
        let reps = with_inserted node.reps node.size slot new_rep
        let split_here = (do
          edge_slot ← path_edge_insert_slot frames target slot node.size
          split_and_write_node_at (node.size + 2) frame.id reps edge_slot
          propagate_boundary frames target node.first_pos node.last_pos)
        elim (target == 0) [
          | true ↦ split_here
          | false ↦ do
            parent_frame ← pure (deref (get_elem? frames (target - 1)))
            parent ← reads (λ nodes. get_node nodes parent_frame.id)
            elim (ltb parent.size max_node_reps) [
              | false ↦ split_here
              | true ↦ do
                promote_sibling parent_frame.id parent_frame.leaf frame.id reps
                propagate_boundary frames (target - 1) parent.first_pos parent.last_pos
            ]
        ]
    ]
