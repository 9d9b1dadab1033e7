-- ===== src/Patricia/Nodes.antt =====
-- src/minpatricia/include/minpatricia/node_store.h, `HeapNodeStore`: the pages by their ids. The back
-- of the vector `free_` is the head of the list `free_list`; `none` is a null page pointer.
pub mod Invariant
pub mod Allocs
pub mod Frees
pub mod Runs
use minweight_store_cpp.Base.{ℕ, ◌+◌, ◌-◌, leb, ◌==◌, ◌||◌, Bool, true, false, if◌then◌else◌}
use minweight_store_cpp.Base.{List, [], ◌∷◌, ◌++◌, length, get_or, set, Option, none, some}
use minweight_store_cpp.Patricia.Status.{Result, ok, err, corrupt_layout, position_tag}
use minweight_store_cpp.Patricia.Route.{tagged}
use minweight_store_cpp.Patricia.Page.{NodePage, empty_page}

pub record HeapNodeStore : Type 0 where
  pub nodes : List (Option NodePage)
  pub free_list : List ℕ
  pub live_count : ℕ

abbrev pub has_page : Option NodePage → Bool
has_page none = false
has_page (some page) = true

-- The constructor.
abbrev pub empty_nodes : HeapNodeStore
empty_nodes = record { nodes = some empty_page ∷ []; free_list = []; live_count = 1 }

-- `Root`
abbrev pub root : ℕ
root = 0

-- `Get`
unfoldable pub get_node : HeapNodeStore → ℕ → Result NodePage
get_node store id =
    if leb (length store.nodes) id
    then err corrupt_layout
    else elim (get_or store.nodes id none) [ none ↦ err corrupt_layout | some page ↦ ok page ]

-- `Alloc`, with the id of the new, empty page.
unfoldable pub alloc : HeapNodeStore → HeapNodeStore × Result ℕ
alloc store = elim store.free_list [
  | [] ↦
      let id = length store.nodes in
      if tagged id then (store, err position_tag) else (
        record store {
          nodes = store.nodes ++ (some empty_page ∷ []);
          live_count = store.live_count + 1;
        },
        ok id,
      )
  | id ∷ rest ↦ (
    record {
      nodes = set store.nodes id (some empty_page);
      free_list = rest;
      live_count = store.live_count + 1;
    },
    ok id,
  )
]

-- `Free`
unfoldable pub free_node : HeapNodeStore → ℕ → HeapNodeStore × Result (Unit {0})
free_node store id =
    if id == root || leb (length store.nodes) id
    then (store, err corrupt_layout)
    else elim (get_or store.nodes id none) [
      | none ↦ (store, err corrupt_layout)
      | some page ↦ (
        record {
          nodes = set store.nodes id none;
          free_list = id ∷ store.free_list;
          live_count = store.live_count - 1;
        },
        ok tt,
      )
    ]
