-- ===== src/Patricia/Nodes/Runs.antt =====
-- node_store.h, `HeapNodeStore`, on a store with the root and one more page.
use minweight_store_cpp.Base.{[], ◌∷◌, none, some, refl, arith}
use minweight_store_cpp.Patricia.Page.{empty_page}
use minweight_store_cpp.Patricia.Nodes.{HeapNodeStore}
use minweight_store_cpp.Patricia.Nodes.Invariant.{IsNodes}
use minweight_store_cpp.Patricia.Nodes.Allocs.{AllocAnswer, alloc_lem}
use minweight_store_cpp.Patricia.Nodes.Frees.{FreeNodeAnswer, free_node_lem}

-- Ids 0 and 1 have pages, id 2 is free.
abbrev two_pages : HeapNodeStore
two_pages = record {
  nodes = some empty_page ∷ some empty_page ∷ none ∷ [];
  free_list = 2 ∷ [];
  live_count = 2;
}

two_pages-IsNodes : IsNodes two_pages
two_pages-IsNodes = record {
  nonempty = omega arith;
  root_page = refl;
  free_slots = ((omega arith, omega arith, refl), tt, tt);
  counted = refl;
}

alloc_lem_example : AllocAnswer two_pages
alloc_lem_example = alloc_lem two_pages two_pages-IsNodes (omega arith)

free_node_lem_example : FreeNodeAnswer two_pages 1
free_node_lem_example = free_node_lem two_pages 1 two_pages-IsNodes
