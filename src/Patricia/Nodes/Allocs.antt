-- ===== src/Patricia/Nodes/Allocs.antt =====
-- node_store.h, `HeapNodeStore::Alloc`.
use minweight_store_cpp.Base.{ℕ, ◌+◌, ◌^◌, ◌<◌, leb, false, Option, none, some, List, []}
use minweight_store_cpp.Base.{
  ◌∷◌, ◌++◌, length, get_or, set, length-append, length-set, get_or-append,
}
use minweight_store_cpp.Base.{◌≡◌, ◌≢◌, refl, sym, ap, ◌∙◌, ◌⊎◌, inl, inr, arith}
use minweight_store_cpp.Base.Slots.{
  Free, weight, count-append, count-set, Free-set, Free-append, get_or-set_self, get_or-set_ne,
  get_or-append_lt,
}
use mathlib.Core.Path.{subst}
use native.Mathlib.Decide.{dec_lt}
use minweight_store_cpp.Patricia.Status.{ok, err, corrupt_layout}
use minweight_store_cpp.Patricia.Route.{tagged}
use minweight_store_cpp.Patricia.Page.{NodePage, empty_page}
use minweight_store_cpp.Patricia.Nodes.{HeapNodeStore, has_page, get_node, alloc}
use minweight_store_cpp.Patricia.Nodes.Invariant.{
  IsNodes, get_node-page, get_node_same, get_node_out_of_range, get_node_unused,
}

-- A new page at `id`.
abbrev pub Allocated : HeapNodeStore → HeapNodeStore → ℕ → Type 0
Allocated store store' id =
    (0 < id)
    × (get_node store id ≡ err corrupt_layout)
    × IsNodes store'
    × (store'.live_count ≡ store.live_count + 1)
    × (get_node store' id ≡ ok empty_page)
    × ((k : ℕ) → k ≢ id → get_node store' k ≡ get_node store k)

abbrev pub AllocAnswer : HeapNodeStore → Type 0
AllocAnswer store =
    (store' : HeapNodeStore) × (id : ℕ) × (alloc store ≡ (store', ok id))
    × Allocated store store' id

alloc_at_end :
    (store : HeapNodeStore)
    → IsNodes store
    → length store.nodes < 2 ^ 63
    → store.free_list ≡ []
    → AllocAnswer store
unfolding alloc
alloc_at_end store w small e =
    let store' : HeapNodeStore = record store {
      nodes = store.nodes ++ (some empty_page ∷ []);
      live_count = store.live_count + 1;
    } in
    let n = length store.nodes in
    let page : Option NodePage = some empty_page in
    let at_end = get_or-append store.nodes [] page none in
    let len = length-append store.nodes (page ∷ []) in
    let nonempty = w.nonempty in
    let c = w.counted in
    let t : tagged n ≡ false = ground arith in
    (
      store',
      n,
      rw (e, t) refl,
      (
        nonempty,
        get_node_out_of_range store n (omega arith),
        record {
          nonempty = omega arith;
          root_page =
              ap has_page (get_or-append_lt store.nodes (page ∷ []) 0 none nonempty) ∙ w.root_page;
          free_slots = Free-append has_page none store.nodes page store.free_list w.free_slots;
          counted = omega (arith, count-append has_page none store.nodes page);
        },
        refl,
        get_node-page store' n empty_page (omega arith) at_end,
        λ k ne. elim (dec_lt k n) [
          | yes lt ↦
              let old : leb (length store'.nodes) k ≡ leb n k = ground arith in
              get_node_same store store' k old (get_or-append_lt store.nodes (page ∷ []) k none lt)
          | no ge ↦
              get_node_out_of_range store' k (omega (arith, ne))
              ∙ sym (get_node_out_of_range store k (omega arith))
        ],
      ),
    )

alloc_reused :
    (store : HeapNodeStore) (id : ℕ) (rest : List ℕ)
    → IsNodes store
    → store.free_list ≡ id ∷ rest
    → AllocAnswer store
unfolding alloc
alloc_reused store id rest w e =
    let page : Option NodePage = some empty_page in
    let store' : HeapNodeStore = record {
      nodes = set store.nodes id page;
      free_list = rest;
      live_count = store.live_count + 1;
    } in
    let ((low, high, unused), apart, others) =
      subst (Free has_page none store.nodes) e w.free_slots in
    let len = length-set store.nodes id page in
    let c = w.counted in
    let n = w.nonempty in
    let counts = count-set has_page none store.nodes id page high in
    let one : weight (has_page (get_or store.nodes id none)) ≡ 0 = ap weight unused in
    (
      store',
      id,
      rw e refl,
      (
        low,
        get_node_unused store id unused,
        record {
          nonempty = omega arith;
          root_page =
              ap has_page (get_or-set_ne store.nodes id 0 page none (λ z. absurd (omega arith)))
              ∙ w.root_page;
          free_slots = Free-set has_page none store.nodes id page rest apart others;
          counted = omega arith;
        },
        refl,
        get_node-page store' id empty_page (omega arith)
            (get_or-set_self store.nodes id page none high),
        λ k ne.
            get_node_same store store' k (ap (λ l. leb l k) len)
              (get_or-set_ne store.nodes id k page none (λ z. ne (sym z))),
      ),
    )

free_list-cases : (xs : List ℕ) → (xs ≡ []) ⊎ ((x : ℕ) × (ys : List ℕ) × (xs ≡ x ∷ ys))
free_list-cases [] = inl refl
free_list-cases (x ∷ xs) = inr (x, xs, refl)

-- `Alloc` on a well-formed store of fewer than 2 ^ 63 slots gives an empty page at an id that had
-- none and is not the root's; the other ids keep their pages, one more page is live and the
-- store is well formed again.
pub alloc_lem :
    (store : HeapNodeStore) → IsNodes store → length store.nodes < 2 ^ 63 → AllocAnswer store
alloc_lem store w small = elim (free_list-cases store.free_list) [
  | inl e ↦ alloc_at_end store w small e
  | inr (id, rest, e) ↦ alloc_reused store id rest w e
]
