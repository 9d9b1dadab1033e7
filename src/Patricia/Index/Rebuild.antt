-- ===== src/Patricia/Index/Rebuild.antt =====
-- index.h: a page's bounds and routes from its entries, and the write of a whole page.
use minweight_store_cpp.Base.{
  ℕ, ◌-◌, ◌==◌, ltb, not, true, false, if◌then◌else◌, List, ◌++◌, length, take, replicate,
}
use minweight_store_cpp.Patricia.Status.{Result, corrupt_layout}
use minweight_store_cpp.Patricia.Key.{Key}
use minweight_store_cpp.Patricia.Page.{NodePage, max_node_reps}
use minweight_store_cpp.Patricia.Nodes.{get_node}
use minweight_store_cpp.Patricia.Index.Act.{
  Act, ◌>>=◌, ◌>>◌, fail, pure, reads, page_at, write_page,
}
use minweight_store_cpp.Patricia.Index.Read.{rep_at, min_pos, max_pos}
use minweight_store_cpp.Patricia.Index.Diffs.{build_diffs}
use minweight_store_cpp.Patricia.Index.Routing.{build_cartesian, write_preorder_routes}

-- `ClearRoutes`
unfoldable pub clear_routes : NodePage → NodePage
clear_routes node = record node { routes = replicate (length node.routes) 0 }

-- `RebuildRoutesWithDiffs`; the routes behind those of the diffs are cleared.
unfoldable pub rebuild_routes_with_diffs : ℕ → List ℕ → Act (Unit {0})
unfolding build_cartesian write_preorder_routes
rebuild_routes_with_diffs id diffs = do
  node ← reads (λ nodes. page_at nodes id)
  cartesian ← pure (build_cartesian diffs)
  routes ← pure (write_preorder_routes node.routes diffs cartesian node.size)
  write_page id (record node {
    routes = take (length diffs) routes ++ replicate (length routes - length diffs) 0;
  })

-- The first and the last position of a page that is not empty.
unfoldable pub write_bounds : ℕ → NodePage → Act (Unit {0})
unfolding min_pos max_pos
write_bounds id node = do
  first_rep ← pure (rep_at node 0)
  first_pos ← reads (λ nodes. min_pos nodes first_rep)
  last_rep ← pure (rep_at node (node.size - 1))
  last_pos ← reads (λ nodes. max_pos nodes last_rep)
  write_page id (record node { first_pos = first_pos; last_pos = last_pos })

unfoldable pub write_no_bounds : ℕ → NodePage → Act (Unit {0})
unfolding clear_routes
write_no_bounds id node = write_page id (clear_routes (record node { first_pos = 0; last_pos = 0 }))

unfoldable pub clear_routes_at : ℕ → Act (Unit {0})
unfolding clear_routes
clear_routes_at id = do node ← reads (λ nodes. page_at nodes id); write_page id (clear_routes node)

unfoldable pub rebuild_node_with_diffs : ℕ → List ℕ → Act (Unit {0})
unfolding write_bounds write_no_bounds clear_routes_at rebuild_routes_with_diffs
rebuild_node_with_diffs id diffs = do
  node ← reads (λ nodes. page_at nodes id)
  elim (node.size == 0) [
    | true ↦ if length diffs == 0 then write_no_bounds id node else fail corrupt_layout
    | false ↦ elim (length diffs == node.size - 1) [
      | false ↦ fail corrupt_layout
      | true ↦ do
        write_bounds id node
        if node.size == 1 then clear_routes_at id else rebuild_routes_with_diffs id diffs
    ]
  ]

-- A page's array of entries, the rest cleared.
abbrev pub filled : List ℕ → List ℕ
filled reps = reps ++ replicate (max_node_reps - length reps) 0

unfoldable pub write_node_with_diffs : ℕ → List ℕ → List ℕ → Act (Unit {0})
unfolding rebuild_node_with_diffs
write_node_with_diffs id reps diffs =
    if ltb max_node_reps (length reps)
    then fail corrupt_layout
    else if not (length diffs == length reps - 1)
    then fail corrupt_layout
    else do
      node ← reads (λ nodes. get_node nodes id)
      write_page id (record node { reps = filled reps; size = length reps })
      rebuild_node_with_diffs id diffs

module _ (records : ℕ → Result Key) where
  unfoldable pub rebuild_node : ℕ → Act (Unit {0})
  unfolding write_bounds write_no_bounds clear_routes_at rebuild_routes_with_diffs
  rebuild_node id = do
    node ← reads (λ nodes. page_at nodes id)
    elim (node.size == 0) [
      | true ↦ write_no_bounds id node
      | false ↦ do
        write_bounds id node
        elim (node.size == 1) [
          | true ↦ clear_routes_at id
          | false ↦ do
            diffs ← reads (λ nodes. build_diffs records nodes (take node.size node.reps))
            rebuild_routes_with_diffs id diffs
        ]
    ]

  -- `WriteNode` where the entries fit a page.
  unfoldable pub write_fitting : ℕ → List ℕ → Act (Unit {0})
  unfolding rebuild_node
  write_fitting id reps = do
    node ← reads (λ nodes. get_node nodes id)
    write_page id (record node { reps = filled reps; size = length reps })
    rebuild_node id
