-- ===== src/Patricia/Index/Puts.antt =====
-- index.h: `NewIndex`, `Put` and `Retarget`.
pub mod Slots
pub mod Pages
pub mod Root
pub mod Contract
use minweight_store_cpp.Base.{ℕ, zero, suc, ◌+◌, ◌-◌, ◌==◌, not, Bool, true, false, if◌then◌else◌}
use minweight_store_cpp.Base.{Option, none, some, List, [], ◌∷◌, ◌++◌, length, set}
use minweight_store_cpp.Patricia.Status.{
  Result, ok, err, stuck, corrupt_layout, position_mismatch, deref,
}
use minweight_store_cpp.Patricia.Key.{Key, check_key_size, compare_keys, find_diff_bit}
use minweight_store_cpp.Patricia.Route
use minweight_store_cpp.Patricia.Page.{NodePage, lookup}
use minweight_store_cpp.Patricia.Nodes.{HeapNodeStore, get_node, root}
use minweight_store_cpp.Patricia.Index.{Index, PutResult, PutFrame}
use minweight_store_cpp.Patricia.Index.Act.{Act, ◌>>=◌, ◌>>◌, give, fail, pure, reads, write_page}
use minweight_store_cpp.Patricia.Index.Read.{rep_at, key_at, min_pos, max_pos, is_eq, count_records}
use minweight_store_cpp.Patricia.Index.Rebuild.{rebuild_node}
use minweight_store_cpp.Patricia.Index.Seek.Position.{insert_slot_from_path}
use minweight_store_cpp.Patricia.Index.Writes.{
  propagate_boundary, insert_at_incremental, insert_at_path,
}

-- An action on the index's pages; the other fields stay.
abbrev pub Update {ℓ} : Type ℓ → Type ℓ
Update A = Index × Result A

abbrev pub on_nodes {ℓ} : {A : Type ℓ} → Index → HeapNodeStore × Result A → Update A
on_nodes index (nodes, r) = (record index { nodes = nodes }, r)

-- `InsertOrReplace` where the key has a record: the entry is replaced.
unfoldable pub replace_at : List PutFrame → NodePage → ℕ → ℕ → ℕ → Act (Unit {0})
unfolding propagate_boundary min_pos max_pos
replace_at frames node id leaf new_rep = do
  first_pos ← reads (λ nodes. if leaf == 0 then min_pos nodes new_rep else ok node.first_pos)
  last_pos ←
      reads (λ nodes. if leaf == node.size - 1 then max_pos nodes new_rep else ok node.last_pos)
  write_page id (record node {
    reps = set node.reps leaf new_rep;
    first_pos = first_pos;
    last_pos = last_pos;
  })
  propagate_boundary frames (length frames - 1) node.first_pos node.last_pos

abbrev pub inserted : PutResult
inserted = record { old_pos = 0; replaced = false }

module _ (records : ℕ → Result Key) where
  -- What `InsertOrReplace` does at the record to which the key leads.
  unfoldable pub put_at_record : List PutFrame → NodePage → ℕ → ℕ → ℕ → Key → ℕ → Act PutResult
  unfolding replace_at insert_slot_from_path insert_at_path
  put_at_record frames node id leaf old_pos key new_rep = do
    record_key ← pure (key_at records old_pos)
    elim (is_eq (compare_keys key record_key)) [
      | true ↦ do
        replace_at frames node id leaf new_rep
        give (record { old_pos = old_pos; replaced = true })
      | false ↦ do
        diff ← pure (find_diff_bit key record_key)
        slot ←
            reads
              (λ nodes. insert_slot_from_path nodes frames key (compare_keys key record_key) diff)
        insert_at_path records frames slot.target slot.slot new_rep key diff
        give inserted
    ]

  -- The `for (;;)` loop of `InsertOrReplace`, one round for each page on the way.
  unfoldable pub insert_or_replace : ℕ → List PutFrame → ℕ → Key → ℕ → Act PutResult
  insert_or_replace zero frames id key new_rep = pure stuck
  insert_or_replace (suc rounds) frames id key new_rep = do
    node ← reads (λ nodes. get_node nodes id)
    elim (node.size == 0) [
      | true ↦ do insert_at_incremental records id 0 new_rep key 0; give inserted
      | false ↦ do
        (leaf, some_leaf) ← pure (lookup node key)
        elim some_leaf [
          | false ↦ fail corrupt_layout
          | true ↦ do
            let here : PutFrame = record { id = id; node = some id; leaf = leaf }
            rep ← pure (rep_at node leaf)
            elim (Route.is_child rep) [
              | true ↦
                  insert_or_replace rounds (frames ++ here ∷ []) (Route.child_id rep) key new_rep
              | false ↦
                  put_at_record (frames ++ here ∷ []) node id leaf (Route.position rep) key new_rep
            ]
        ]
    ]

  -- `Put`: a new key is counted.
  abbrev pub count_put : Update PutResult → Update PutResult
  count_put (index, ok result) =
      (if result.replaced then index else record index { count = index.count + 1 }, ok result)
  count_put (index, err e) = (index, err e)
  count_put (index, stuck) = (index, stuck)

  unfoldable pub put : ℕ → Index → Key → ℕ → Update PutResult
  unfolding insert_or_replace
  put rounds index key pos = count_put (
      on_nodes index (
        (do
          pure (check_key_size key)
          rep ← pure (Route.make_record pos)
          insert_or_replace rounds [] index.root_id key rep)
          index.nodes))

  -- `NewIndex` on a node store, with `NewWithNodes` for `init_root` and `OpenWithNodes` without.
  unfoldable pub new_index : ℕ → HeapNodeStore → Bool → HeapNodeStore × Result ℕ
  unfolding rebuild_node count_records
  new_index rounds nodes init_root =
      (do
        page ← reads (λ nodes. get_node nodes root)
        if init_root then rebuild_node records root else give tt
        now ← reads (λ nodes. get_node nodes root)
        reads (λ nodes. count_records rounds nodes now))
        nodes

-- The index that `NewIndex` returns, where it returns one.
unfoldable pub opened : HeapNodeStore × Result ℕ → Result Index
opened (nodes, ok count) = ok (record { nodes = nodes; root_id = root; count = count })
opened (nodes, err e) = err e
opened (nodes, stuck) = stuck

-- The `for (;;)` loop of the private `Retarget`.
unfoldable pub retarget_from : ℕ → List PutFrame → ℕ → Key → ℕ → ℕ → Act (Unit {0})
unfolding propagate_boundary
retarget_from zero frames id key old_pos new_rep = pure stuck
retarget_from (suc rounds) frames id key old_pos new_rep = do
  node ← reads (λ nodes. get_node nodes id)
  (leaf, some_leaf) ← pure (lookup node key)
  elim some_leaf [
    | false ↦ fail position_mismatch
    | true ↦ do
      let path = frames ++ record { id = id; node = some id; leaf = leaf } ∷ []
      rep ← pure (rep_at node leaf)
      elim (Route.is_child rep) [
        | true ↦ retarget_from rounds path (Route.child_id rep) key old_pos new_rep
        | false ↦ elim (Route.position rep == old_pos) [
          | false ↦ fail position_mismatch
          | true ↦ do
            let new_pos = Route.position new_rep
            write_page id (record node {
              reps = set node.reps leaf new_rep;
              first_pos = if leaf == 0 then new_pos else node.first_pos;
              last_pos = if leaf == node.size - 1 then new_pos else node.last_pos;
            })
            propagate_boundary path (length path - 1) node.first_pos node.last_pos
        ]
      ]
  ]

-- `Retarget`
unfoldable pub retarget : ℕ → Index → Key → ℕ → ℕ → Update (Unit {0})
unfolding retarget_from
retarget rounds index key old_pos new_pos = on_nodes index (
    (do
      pure (check_key_size key)
      rep ← pure (Route.make_record new_pos)
      retarget_from rounds [] index.root_id key old_pos rep)
      index.nodes)
