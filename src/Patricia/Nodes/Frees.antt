-- ===== src/Patricia/Nodes/Frees.antt =====
-- node_store.h, `HeapNodeStore::Free`.
use minweight_store_cpp.Base.{ℕ, ◌+◌, ◌-◌, ◌≤◌, ◌<◌, leb, ◌==◌, ◌||◌, true, false, none, some, ◌∷◌}
use minweight_store_cpp.Base.{length, get_or, set, length-set, Option-cases}
use minweight_store_cpp.Base.{◌≡◌, ◌≢◌, refl, sym, ap, ◌∙◌, ◌⊎◌, inl, inr, arith, Bool-cases}
use minweight_store_cpp.Base.Slots.{
  weight, count-set, Free-set, Free-apart, get_or-set_self, get_or-set_ne,
}
use native.Mathlib.Decide.{dec_lt}
use minweight_store_cpp.Patricia.Status.{ok, err, corrupt_layout}
use minweight_store_cpp.Patricia.Page.{NodePage}
use minweight_store_cpp.Patricia.Nodes.{HeapNodeStore, has_page, get_node, free_node}
use minweight_store_cpp.Patricia.Nodes.Invariant.{
  IsNodes, get_node-page, get_node_same, get_node_out_of_range, get_node_unused,
}

-- What is left when the page of `id` was freed.
abbrev pub Freed : HeapNodeStore → ℕ → Type 0
Freed store id =
    (store' : HeapNodeStore) × (free_node store id ≡ (store', ok tt))
    × IsNodes store'
    × (store.live_count ≡ store'.live_count + 1)
    × (get_node store' id ≡ err corrupt_layout)
    × ((k : ℕ) → k ≢ id → get_node store' k ≡ get_node store k)

free_used :
    (store : HeapNodeStore) (id : ℕ) (page : NodePage)
    → IsNodes store
    → 0 < id
    → id < length store.nodes
    → get_or store.nodes id none ≡ some page
    → Freed store id
unfolding free_node
free_used store id page w low high there =
    let store' : HeapNodeStore = record {
      nodes = set store.nodes id none;
      free_list = id ∷ store.free_list;
      live_count = store.live_count - 1;
    } in
    let t1 : (id == 0) ≡ false = ground arith in
    let t2 : leb (length store.nodes) id ≡ false = ground arith in
    let len = length-set store.nodes id none in
    let c = w.counted in
    let n = w.nonempty in
    let counts = count-set has_page none store.nodes id none high in
    let used : has_page (get_or store.nodes id none) ≡ true = ap has_page there in
    let one : weight (has_page (get_or store.nodes id none)) ≡ 1 = ap weight used in
    let gone = get_or-set_self store.nodes id none none high in
    let apart = Free-apart has_page none store.nodes id store.free_list used w.free_slots in
    (
      store',
      rw (t1, t2, there) refl,
      record {
        nonempty = omega arith;
        root_page =
            ap has_page (get_or-set_ne store.nodes id 0 none none (λ z. absurd (omega arith)))
            ∙ w.root_page;
        free_slots = (
          (low, omega arith, ap has_page gone),
          apart,
          Free-set has_page none store.nodes id none store.free_list apart w.free_slots,
        );
        counted = omega arith;
      },
      omega arith,
      get_node_unused store' id (ap has_page gone),
      λ k ne.
          get_node_same store store' k (ap (λ l. leb l k) len)
            (get_or-set_ne store.nodes id k none none (λ z. ne (sym z))),
    )

free_root : (store : HeapNodeStore) → free_node store 0 ≡ (store, err corrupt_layout)
unfolding free_node
free_root store = refl

free_absent :
    (store : HeapNodeStore) (id : ℕ)
    → (length store.nodes ≤ id) ⊎ (get_or store.nodes id none ≡ none)
    → free_node store id ≡ (store, err corrupt_layout)
unfolding free_node
free_absent store id (inl big) =
    let t : leb (length store.nodes) id ≡ true = ground arith in
    elim (Bool-cases (id == 0)) [ inl z ↦ rw z refl | inr z ↦ rw (z, t) refl ]
free_absent store id (inr e) = elim (Bool-cases (id == 0 || leb (length store.nodes) id)) [
  | inl z ↦ rw z refl
  | inr z ↦ rw (z, e) refl
]

-- The answer to a call of `Free`: of the root, of an id with a page, or of another id.
abbrev pub FreeNodeAnswer : HeapNodeStore → ℕ → Type 0
FreeNodeAnswer store id =
    (id ≡ 0) × (free_node store id ≡ (store, err corrupt_layout))
    ⊎ (0 < id) × ((page : NodePage) × (get_node store id ≡ ok page)) × Freed store id
    ⊎ (get_node store id ≡ err corrupt_layout) × (free_node store id ≡ (store, err corrupt_layout))

-- `Free` on a well-formed store refuses the root and any id without a page, and changes nothing;
-- the page of any other id is gone after it, and no other.
pub free_node_lem : (store : HeapNodeStore) (id : ℕ) → IsNodes store → FreeNodeAnswer store id
free_node_lem store id w = elim (dec_lt 0 id) [
  | no zero ↦
      let e : id ≡ 0 = omega arith in inl (e, ap (λ k. free_node store k) e ∙ free_root store)
  | yes low ↦ elim (dec_lt id (length store.nodes)) [
    | no big ↦ inr (
        inr
          (get_node_out_of_range store id (omega arith), free_absent store id (inl (omega arith))))
    | yes high ↦ elim (Option-cases (get_or store.nodes id none)) [
      | inl e ↦ inr (inr (get_node_unused store id (ap has_page e), free_absent store id (inr e)))
      | inr (page, e) ↦ inr (
          inl
            (low, (page, get_node-page store id page high e), free_used store id page w low high e))
    ]
  ]
]
