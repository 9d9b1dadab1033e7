-- ===== src/Patricia/Nodes/Invariant.antt =====
-- node_store.h, `HeapNodeStore`: its invariant, and what an id gives.
use minweight_store_cpp.Base.{ℕ, ◌≤◌, ◌<◌, leb, true, false, Option, none, some, length}
use minweight_store_cpp.Base.{get_or, ◌≡◌, refl, arith, Bool-cases, inl, inr}
use minweight_store_cpp.Base.Slots.{count, Free}
use minweight_store_cpp.Patricia.Status.{ok, err, corrupt_layout}
use minweight_store_cpp.Patricia.Page.{NodePage}
use minweight_store_cpp.Patricia.Nodes.{HeapNodeStore, has_page, empty_nodes, get_node}

-- The root has a page; the free list has each free id at most once; `live_` counts the pages.
pub record IsNodes (store : HeapNodeStore) : Type 0 where
  pub nonempty : 0 < length store.nodes
  pub root_page : has_page (get_or store.nodes 0 none) ≡ true
  pub free_slots : Free has_page none store.nodes store.free_list
  pub counted : store.live_count ≡ count has_page none store.nodes

pub empty_nodes-IsNodes : IsNodes empty_nodes
empty_nodes-IsNodes = record {
  nonempty = omega arith;
  root_page = refl;
  free_slots = tt;
  counted = refl;
}

pub get_node-page :
    (store : HeapNodeStore) (id : ℕ) (page : NodePage)
    → id < length store.nodes
    → get_or store.nodes id none ≡ some page
    → get_node store id ≡ ok page
unfolding get_node
get_node-page store id page h e =
    let t : leb (length store.nodes) id ≡ false = ground arith in rw (t, e) refl

pub get_node_same :
    (store store' : HeapNodeStore) (id : ℕ)
    → leb (length store'.nodes) id ≡ leb (length store.nodes) id
    → get_or store'.nodes id none ≡ get_or store.nodes id none
    → get_node store' id ≡ get_node store id
unfolding get_node
get_node_same store store' id e f = rw (e, f) refl

pub get_node_out_of_range :
    (store : HeapNodeStore) (id : ℕ)
    → length store.nodes ≤ id
    → get_node store id ≡ err corrupt_layout
unfolding get_node
get_node_out_of_range store id h =
    let t : leb (length store.nodes) id ≡ true = ground arith in rw t refl

pub no_page : (slot : Option NodePage) → has_page slot ≡ false → slot ≡ none
no_page none h = refl
no_page (some page) h = absurd (cc)

pub get_node_unused :
    (store : HeapNodeStore) (id : ℕ)
    → has_page (get_or store.nodes id none) ≡ false
    → get_node store id ≡ err corrupt_layout
unfolding get_node
get_node_unused store id h =
    let e = no_page (get_or store.nodes id none) h in
    elim (Bool-cases (leb (length store.nodes) id)) [ inl t ↦ rw t refl | inr t ↦ rw (t, e) refl ]
