-- ===== src/Patricia/Index/Merges.antt =====
-- index.h: how a deletion merges pages.
use minweight_store_cpp.Base.{ℕ, ◌+◌, ◌-◌, ◌==◌, ltb, leb, ◌||◌, Bool, true, false, if◌then◌else◌}
use minweight_store_cpp.Base.{
  Option, none, some, List, [], ◌∷◌, ◌++◌, take, drop, set, get_elem?, replicate,
}
use minweight_store_cpp.Base.Shifts.{shift_down}
use minweight_store_cpp.Patricia.Status.{Result, ok, err, stuck, corrupt_layout, deref}
use minweight_store_cpp.Patricia.Route
use minweight_store_cpp.Patricia.Page.{NodePage, max_node_reps, route_diffs, is_direct_route_pair}
use minweight_store_cpp.Patricia.Page.Edit.{delete_route}
use minweight_store_cpp.Patricia.Nodes.{get_node}
use minweight_store_cpp.Patricia.Index.Act.{
  Act, ◌>>=◌, ◌>>◌, give, fail, pure, reads, page_at, write_page, free_at,
}
use minweight_store_cpp.Patricia.Index.Read.{rep_at, min_pos, max_pos}
use minweight_store_cpp.Patricia.Index.Rebuild.{rebuild_node_with_diffs, write_node_with_diffs}

-- `DeleteAtIncremental` on the page `id`.
unfoldable pub delete_at_incremental : ℕ → ℕ → Act (Unit {0})
unfolding min_pos max_pos
delete_at_incremental id slot = do
  node ← reads (λ nodes. page_at nodes id)
  elim (leb node.size slot) [
    | true ↦ fail corrupt_layout
    | false ↦ elim (node.size == 1) [
      | true ↦
          write_page id
            (record node { reps = set node.reps 0 0; size = 0; first_pos = 0; last_pos = 0 })
      | false ↦ do
        second ← pure (rep_at node 1)
        first_pos ← reads (λ nodes. if slot == 0 then min_pos nodes second else ok node.first_pos)
        before ← pure (rep_at node (node.size - 2))
        last_pos ←
            reads
              (λ nodes. if slot == node.size - 1 then max_pos nodes before else ok node.last_pos)
        routed ← pure (delete_route node slot)
        write_page id (record routed {
          reps = set (shift_down 0 slot (node.size - 1 - slot) node.reps) (node.size - 1) 0;
          size = node.size - 1;
          first_pos = first_pos;
          last_pos = last_pos;
        })
    ]
  ]

-- The diffs that `RouteDiffs` writes for a page of more than one entry.
unfoldable pub inner_diffs : NodePage → Result (List ℕ)
unfolding route_diffs
inner_diffs page = if ltb 1 page.size then route_diffs page (replicate (page.size - 1) 0) else ok []

-- `MergeChildIntoParent`
unfoldable pub merge_child_into_parent : ℕ → ℕ → ℕ → Act (Unit {0})
unfolding inner_diffs rebuild_node_with_diffs
merge_child_into_parent id slot child_id = do
  node ← reads (λ nodes. page_at nodes id)
  child ← reads (λ nodes. page_at nodes child_id)
  old_parent_diffs ← pure (route_diffs node (replicate (node.size - 1) 0))
  child_diffs ← pure (inner_diffs child)
  let new_size = node.size - 1 + child.size
  write_page id (record node {
    reps =
        take slot node.reps
        ++ take child.size child.reps
        ++ take (node.size - 1 - slot) (drop (slot + 1) node.reps)
        ++ drop new_size node.reps;
    size = new_size;
  })
  rebuild_node_with_diffs id
      (take slot old_parent_diffs ++ child_diffs ++ drop slot old_parent_diffs)
  free_at child_id

-- `RemoveMergedParentRep`
unfoldable pub remove_merged_parent_rep : ℕ → ℕ → ℕ → Act (Unit {0})
unfolding rebuild_node_with_diffs
remove_merged_parent_rep id slot drop_diff = do
  node ← reads (λ nodes. page_at nodes id)
  elim (leb node.size slot || leb (node.size - 1) drop_diff) [
    | true ↦ fail corrupt_layout
    | false ↦ do
      old_diffs ← pure (route_diffs node (replicate (node.size - 1) 0))
      write_page id (record node {
        reps = set (shift_down 0 slot (node.size - 1 - slot) node.reps) (node.size - 1) 0;
        size = node.size - 1;
      })
      rebuild_node_with_diffs id (take drop_diff old_diffs ++ drop (drop_diff + 1) old_diffs)
  ]

-- Two neighbours become one page, the left one's `into` or the right one's: the entries of both, with
-- the parent's diff between them. An empty neighbour would be a write past the diffs.
unfoldable pub merge_pair : ℕ → ℕ → ℕ → ℕ → ℕ → Act (Unit {0})
unfolding inner_diffs write_node_with_diffs
merge_pair id into left_id right_id middle = do
  node ← reads (λ nodes. page_at nodes id)
  left ← reads (λ nodes. page_at nodes left_id)
  right ← reads (λ nodes. page_at nodes right_id)
  old_parent_diffs ← pure (route_diffs node (replicate (node.size - 1) 0))
  left_diffs ← pure (inner_diffs left)
  middle_diff ← pure (deref (get_elem? old_parent_diffs middle))
  right_diffs ← pure (inner_diffs right)
  elim (left.size == 0 || right.size == 0) [
    | true ↦ pure stuck
    | false ↦
        write_node_with_diffs into (take left.size left.reps ++ take right.size right.reps)
          (left_diffs ++ middle_diff ∷ right_diffs)
  ]

-- `MergeLeftSibling` into the page on the left of `slot`.
unfoldable pub merge_left_sibling : ℕ → ℕ → ℕ → ℕ → ℕ → Act (Unit {0})
unfolding merge_pair remove_merged_parent_rep
merge_left_sibling id left_slot left_id slot child_id = do
  merge_pair id left_id left_id child_id left_slot
  remove_merged_parent_rep id slot left_slot
  free_at child_id

-- `MergeRightSibling` into the child at `slot`.
unfoldable pub merge_right_sibling : ℕ → ℕ → ℕ → ℕ → ℕ → Act (Unit {0})
unfolding merge_pair remove_merged_parent_rep
merge_right_sibling id slot child_id right_slot right_id = do
  merge_pair id child_id child_id right_id slot
  remove_merged_parent_rep id right_slot slot
  free_at right_id

-- The id and the size of the child page at a slot, if there is a child.
unfoldable pub sibling_at : NodePage → ℕ → Act (Option (ℕ × ℕ))
sibling_at node slot = do
  rep ← pure (rep_at node slot)
  elim (Route.is_child rep) [
    | false ↦ give none
    | true ↦ do
      sibling ← reads (λ nodes. get_node nodes (Route.child_id rep))
      give (some (Route.child_id rep, sibling.size))
  ]

-- The sibling, if it can be merged: the pair fits a page and has a route of its own at `pair`.
unfoldable pub mergeable : NodePage → ℕ → ℕ → Option (ℕ × ℕ) → Result (Option (ℕ × ℕ))
unfolding is_direct_route_pair
mergeable node child_size pair none = ok none
mergeable node child_size pair (some (id, size)) = elim (leb (size + child_size) max_node_reps) [
  | false ↦ ok none
  | true ↦ elim (is_direct_route_pair node pair) [
    | ok direct ↦ ok (if direct then some (id, size) else none)
    | err e ↦ err e
    | stuck ↦ stuck
  ]
]

-- `right_size > left_size` where both can be merged.
abbrev pub prefers_right : Option (ℕ × ℕ) → ℕ → Bool
prefers_right none right_size = true
prefers_right (some (left_id, left_size)) right_size = ltb left_size right_size

-- `MergeChildWithSibling`
unfoldable pub merge_child_with_sibling : ℕ → ℕ → ℕ → ℕ → Act Bool
unfolding sibling_at mergeable merge_left_sibling merge_right_sibling
merge_child_with_sibling id slot child_id child_size = do
  node ← reads (λ nodes. page_at nodes id)
  left ← if slot == 0 then give none else sibling_at node (slot - 1)
  right ← if ltb (slot + 1) node.size then sibling_at node (slot + 1) else give none
  left_choice ← pure (mergeable node child_size (slot - 1) left)
  right_choice ← pure (mergeable node child_size slot right)
  let merge_left = (λ (l : ℕ). do merge_left_sibling id (slot - 1) l slot child_id; give true)
  let merge_right = (λ (r : ℕ). do merge_right_sibling id slot child_id (slot + 1) r; give true)
  elim right_choice [
    | none ↦ elim left_choice [ none ↦ give false | some l ↦ merge_left l.0 ]
    | some r ↦ elim (prefers_right left_choice r.1) [
      | true ↦ merge_right r.0
      | false ↦ elim left_choice [ none ↦ give false | some l ↦ merge_left l.0 ]
    ]
  ]
