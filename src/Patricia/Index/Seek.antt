-- ===== src/Patricia/Index/Seek.antt =====
-- index.h: how an iteration finds its first record and steps to the next. The paths that C++ changes
-- in place are returned. Only the index's own loops take `rounds`: one round for each page on a way
-- down, and one for each frame on a way up.
pub mod Position
use minweight_store_cpp.Base.{
  ℕ, zero, suc, ◌+◌, ◌-◌, ◌==◌, ltb, leb, not, ◌&&◌, ◌||◌, Bool, true, false, if◌then◌else◌,
}
use minweight_store_cpp.Base.{Option, none, some, List, [], ◌∷◌, length, get_elem?}
use minweight_store_cpp.Patricia.Status.{
  Result, ok, err, stuck, corrupt_layout, equal_keys, deref, ◌>>=◌, ◌>>◌,
}
use minweight_store_cpp.Patricia.Key.{Key, compare_and_diff_bit, CompareDiff}
use minweight_store_cpp.Patricia.Route
use minweight_store_cpp.Patricia.Page.{NodePage, lookup}
use minweight_store_cpp.Patricia.Page.Edit.{insert_slot_above_path}
use minweight_store_cpp.Patricia.Nodes.{HeapNodeStore, get_node}
use minweight_store_cpp.Patricia.Index.{Index, PutFrame, InsertSlot}
use minweight_store_cpp.Patricia.Index.Act.{page_at}
use minweight_store_cpp.Patricia.Index.Path.{
  IterPath, reset, push_node, at, set_at, truncate, frames_for_insert,
}
use minweight_store_cpp.Patricia.Index.Read.{rep_at, key_at}
use Prim.Native.Nat.{Ordering}

-- `NodeForFrame`
unfoldable pub node_for_frame : HeapNodeStore → PutFrame → Result NodePage
node_for_frame nodes frame = elim frame.node [
  | none ↦ get_node nodes frame.id
  | some id ↦ page_at nodes id
]

-- The C++ result `false` is `none`; `true` is the path found.
abbrev pub Found : Type 0
Found = Result (Option IterPath)

unfoldable pub leftmost_record : ℕ → HeapNodeStore → IterPath → ℕ → Found
leftmost_record zero nodes path id = stuck
leftmost_record (suc rounds) nodes path id = do
  node ← get_node nodes id
  elim (node.size == 0) [
    | true ↦ err corrupt_layout
    | false ↦ do
      rep ← rep_at node 0
      elim (Route.is_child rep) [
        | true ↦ leftmost_record rounds nodes (push_node path id (some id) 0) (Route.child_id rep)
        | false ↦ ok (some (push_node path id (some id) 0))
      ]
  ]

unfoldable pub rightmost_record : ℕ → HeapNodeStore → IterPath → ℕ → Found
rightmost_record zero nodes path id = stuck
rightmost_record (suc rounds) nodes path id = do
  node ← get_node nodes id
  elim (node.size == 0) [
    | true ↦ err corrupt_layout
    | false ↦ do
      rep ← rep_at node (node.size - 1)
      elim (Route.is_child rep) [
        | true ↦
            rightmost_record rounds nodes (push_node path id (some id) (node.size - 1))
              (Route.child_id rep)
        | false ↦ ok (some (push_node path id (some id) (node.size - 1)))
      ]
  ]

unfoldable pub leftmost_root : ℕ → Index → IterPath → Found
unfolding leftmost_record
leftmost_root rounds index path = do
  root ← get_node index.nodes index.root_id
  elim (root.size == 0) [
    | true ↦ ok none
    | false ↦ leftmost_record rounds index.nodes (reset path) index.root_id
  ]

unfoldable pub rightmost_root : ℕ → Index → IterPath → Found
unfolding rightmost_record
rightmost_root rounds index path = do
  root ← get_node index.nodes index.root_id
  elim (root.size == 0) [
    | true ↦ ok none
    | false ↦ rightmost_record rounds index.nodes (reset path) index.root_id
  ]

abbrev pub with_leaf : PutFrame → ℕ → PutFrame
with_leaf frame leaf = record frame { leaf = leaf }

-- The `while` loop of `NextPath`; `depth` bounds the way down.
unfoldable pub next_path_loop : ℕ → ℕ → HeapNodeStore → IterPath → Found
next_path_loop zero depth nodes path = stuck
next_path_loop (suc rounds) depth nodes path = elim (path.len == 0) [
  | true ↦ ok none
  | false ↦ do
    frame ← deref (at path (path.len - 1))
    node ← node_for_frame nodes frame
    elim (ltb (frame.leaf + 1) node.size) [
      | true ↦ do
        let moved = set_at path (path.len - 1) (with_leaf frame (frame.leaf + 1))
        rep ← rep_at node (frame.leaf + 1)
        elim (Route.is_child rep) [
          | true ↦ leftmost_record depth nodes moved (Route.child_id rep)
          | false ↦ ok (some moved)
        ]
      | false ↦ next_path_loop rounds depth nodes (truncate path (path.len - 1))
    ]
]

unfoldable pub next_path : ℕ → HeapNodeStore → IterPath → Found
unfolding next_path_loop
next_path depth nodes path = next_path_loop (path.len + 1) depth nodes path

-- The `while` loop of `PrevPath`.
unfoldable pub prev_path_loop : ℕ → ℕ → HeapNodeStore → IterPath → Found
prev_path_loop zero depth nodes path = stuck
prev_path_loop (suc rounds) depth nodes path = elim (path.len == 0) [
  | true ↦ ok none
  | false ↦ do
    frame ← deref (at path (path.len - 1))
    node ← node_for_frame nodes frame
    elim (ltb 0 frame.leaf) [
      | true ↦ do
        let moved = set_at path (path.len - 1) (with_leaf frame (frame.leaf - 1))
        rep ← rep_at node (frame.leaf - 1)
        elim (Route.is_child rep) [
          | true ↦ rightmost_record depth nodes moved (Route.child_id rep)
          | false ↦ ok (some moved)
        ]
      | false ↦ prev_path_loop rounds depth nodes (truncate path (path.len - 1))
    ]
]

unfoldable pub prev_path : ℕ → HeapNodeStore → IterPath → Found
unfolding prev_path_loop
prev_path depth nodes path = prev_path_loop (path.len + 1) depth nodes path
