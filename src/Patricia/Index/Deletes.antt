-- ===== src/Patricia/Index/Deletes.antt =====
-- index.h: `Delete`.
use minweight_store_cpp.Base.{
  ℕ, zero, suc, ◌+◌, ◌-◌, ◌/◌, ◌==◌, ltb, leb, not, ◌&&◌, true, false, if◌then◌else◌,
}
use minweight_store_cpp.Patricia.Status.{Result, ok, err, stuck, corrupt_layout}
use minweight_store_cpp.Patricia.Key.{Key, check_key_size, compare_keys}
use minweight_store_cpp.Patricia.Route
use minweight_store_cpp.Patricia.Page.{max_node_reps, lookup}
use minweight_store_cpp.Patricia.Nodes.{get_node}
use minweight_store_cpp.Patricia.Index.{Index, DeleteResult}
use minweight_store_cpp.Patricia.Index.Act.{
  Act, ◌>>=◌, ◌>>◌, follow, give, fail, pure, reads, page_at, write_page, free_at,
}
use minweight_store_cpp.Patricia.Index.Read.{rep_at, key_at, is_eq}
use minweight_store_cpp.Patricia.Index.Puts.{Update, on_nodes}
use minweight_store_cpp.Patricia.Index.Merges.{
  delete_at_incremental, merge_child_into_parent, merge_child_with_sibling,
}

-- `RebuildParentAfterChildBoundary`
unfoldable pub rebuild_parent_after_child_boundary : ℕ → ℕ → ℕ → ℕ → ℕ → Act (Unit {0})
rebuild_parent_after_child_boundary id slot child_id old_first old_last = do
  node ← reads (λ nodes. page_at nodes id)
  child ← reads (λ nodes. page_at nodes child_id)
  write_page id (record node {
    first_pos =
        if not (child.first_pos == old_first) && slot == 0 then child.first_pos else node.first_pos;
    last_pos =
        if not (child.last_pos == old_last) && slot == node.size - 1
        then child.last_pos
        else node.last_pos;
  })

-- What `DeleteFromChild` does once the key is deleted below the child.
unfoldable pub after_child_delete : ℕ → ℕ → ℕ → ℕ → ℕ → Act (Unit {0})
unfolding delete_at_incremental merge_child_into_parent merge_child_with_sibling
    rebuild_parent_after_child_boundary
after_child_delete id slot child_id old_first old_last = do
  node ← reads (λ nodes. page_at nodes id)
  child ← reads (λ nodes. page_at nodes child_id)
  elim (child.size == 0) [
    | true ↦ do delete_at_incremental id slot; free_at child_id
    | false ↦ elim (leb (node.size - 1 + child.size) max_node_reps) [
      | true ↦ merge_child_into_parent id slot child_id
      | false ↦ do
        merged ←
            if ltb child.size (max_node_reps / 32)
            then merge_child_with_sibling id slot child_id child.size
            else give false
        elim merged [
          | true ↦ give tt
          | false ↦ elim (child.first_pos == old_first && child.last_pos == old_last) [
            | true ↦ give tt
            | false ↦ rebuild_parent_after_child_boundary id slot child_id old_first old_last
          ]
        ]
    ]
  ]

abbrev pub not_deleted : DeleteResult
not_deleted = record { pos = 0; deleted = false }

-- `DeleteFromChild`, with `recur` for its call of `DeleteFrom`.
unfoldable pub delete_from_child : (ℕ → Act DeleteResult) → ℕ → ℕ → ℕ → Act DeleteResult
unfolding after_child_delete
delete_from_child recur id slot child_id = do
  child ← reads (λ nodes. get_node nodes child_id)
  elim (child.size == 0) [
    | true ↦ fail corrupt_layout
    | false ↦ do
      result ← recur child_id
      elim result.deleted [
        | false ↦ give result
        | true ↦ do after_child_delete id slot child_id child.first_pos child.last_pos; give result
      ]
  ]

-- The `while` loop of `CompressRoot`: each round frees a page.
unfoldable pub compress_root : ℕ → ℕ → Act (Unit {0})
compress_root zero root_id = pure stuck
compress_root (suc rounds) root_id = do
  page ← reads (λ nodes. get_node nodes root_id)
  elim (page.size == 1) [
    | false ↦ give tt
    | true ↦ do
      rep ← pure (rep_at page 0)
      elim (Route.is_child rep) [
        | false ↦ give tt
        | true ↦ do
          child ← reads (λ nodes. get_node nodes (Route.child_id rep))
          write_page root_id child
          free_at (Route.child_id rep)
          compress_root rounds root_id
      ]
  ]

module _ (records : ℕ → Result Key) where
  -- `DeleteFrom`, `rounds` pages deep at most.
  unfoldable pub delete_from : ℕ → Key → ℕ → Act DeleteResult
  unfolding delete_at_incremental delete_from_child
  delete_from zero key id = pure stuck
  delete_from (suc rounds) key id = do
    node ← reads (λ nodes. get_node nodes id)
    (leaf, some_leaf) ← pure (lookup node key)
    elim some_leaf [
      | false ↦ give not_deleted
      | true ↦ do
        rep ← pure (rep_at node leaf)
        elim (Route.is_child rep) [
          | true ↦ delete_from_child (delete_from rounds key) id leaf (Route.child_id rep)
          | false ↦ do
            record_key ← pure (key_at records (Route.position rep))
            elim (is_eq (compare_keys record_key key)) [
              | false ↦ give not_deleted
              | true ↦ do
                delete_at_incremental id leaf
                give (record { pos = Route.position rep; deleted = true })
            ]
        ]
    ]

  -- `Delete`: the key is not counted any more, and the root is compressed.
  abbrev pub count_delete : ℕ → Update DeleteResult → Update DeleteResult
  count_delete rounds (index, ok result) = elim result.deleted [
    | false ↦ (index, ok result)
    | true ↦
        on_nodes (record index { count = index.count - 1 })
          (follow (compress_root rounds index.root_id index.nodes) (λ _. give result))
  ]
  count_delete rounds (index, err e) = (index, err e)
  count_delete rounds (index, stuck) = (index, stuck)

  unfoldable pub delete : ℕ → Index → Key → Update DeleteResult
  unfolding delete_from compress_root
  delete rounds index key = count_delete rounds (
      on_nodes index
        ((do pure (check_key_size key); delete_from rounds key index.root_id) index.nodes))
