-- ===== src/Patricia/Index/Puts/Slots.antt =====
-- index.h, `InsertSlotFromPath` where the way ends in the root page.
use Prim.Native.Nat.{Ordering}
use minweight_store_cpp.Base.{ℕ, ◌+◌, ltb, ◌==◌, if◌then◌else◌, arith}
use minweight_store_cpp.Base.{
  Option, none, some, [], ◌∷◌, ◌≡◌, sym, ap, ◌∙◌, refl, inl, inr, Bool-cases, true, false,
  Option-cases,
}
use mathlib.Core.Option
use minweight_store_cpp.Patricia.Status.{ok, ◌>>=◌}
use minweight_store_cpp.Patricia.Key.{Key, get_diff_bit}
use minweight_store_cpp.Patricia.Key.Parting.{PartsAt}
use minweight_store_cpp.Patricia.Page.Edit.{insert_slot_above_path}
use minweight_store_cpp.Patricia.Page.Slots.{insert_slot_above_path-tree}
use minweight_store_cpp.Patricia.Page.Tree.{
  Tree, leaf, fork, leaves, tree_lookup, above_slot, insert_slot,
}
use minweight_store_cpp.Patricia.Page.Lookup.{tree_lookup-lt}
use minweight_store_cpp.Patricia.Nodes.{HeapNodeStore}
use minweight_store_cpp.Patricia.Index.{PutFrame, InsertSlot}
use minweight_store_cpp.Patricia.Index.Seek.Position.{slot_above, last_frame, insert_slot_from_path}
use minweight_store_cpp.Patricia.Index.Forest.{Forest, IsPage}

-- Beside a fork, or beside the leaf to which the key leads.
abbrev pub slot_or_beside : Key → ℕ → ℕ → Option ℕ → ℕ
slot_or_beside key d found none = found + (if get_diff_bit key d == 0 then 0 else 1)
slot_or_beside key d found (some s) = s

slot_or_beside_shift :
    (key : Key) (d n found : ℕ) (o : Option ℕ)
    → slot_or_beside key d (n + found) (Option.map (λ s. n + s) o)
      ≡ n + slot_or_beside key d found o
slot_or_beside_shift key d n found none = omega arith
slot_or_beside_shift key d n found (some s) = refl

insert_slot-above :
    (key : Key) (d : ℕ) (t : Tree)
    → insert_slot key d t ≡ slot_or_beside key d (tree_lookup key t) (above_slot key d t)
unfolding insert_slot tree_lookup above_slot
insert_slot-above key d leaf = omega arith
insert_slot-above key d (fork e l r) = elim (Bool-cases (ltb d e)) [
  | inl above ↦ rw above refl
  | inr below ↦ elim (Bool-cases (get_diff_bit key e == 0)) [
    | inl clear ↦ rw (below, clear) (insert_slot-above key d l)
    | inr is_set ↦
        rw (below, is_set)
          (ap (λ s. leaves l + s) (insert_slot-above key d r)
            ∙ sym (slot_or_beside_shift key d (leaves l) (tree_lookup key r) (above_slot key d r)))
  ]
]

abbrev pub frame_at : ℕ → ℕ → PutFrame
frame_at id n = record { id = id; node = some id; leaf = n }

abbrev pub root_slot : ℕ → InsertSlot
root_slot slot = record { target = 0; slot = slot }

-- Before the leaf, or behind it.
beside :
    (key other : Key) (cmp : Ordering) (d found : ℕ)
    → PartsAt cmp key other d
    → (elim cmp [
      | Ordering.lt ↦ ok (root_slot found)
      | Ordering.eq ↦ ok (root_slot (found + 1))
      | Ordering.gt ↦ ok (root_slot (found + 1))
    ])
      ≡ ok (root_slot (slot_or_beside key d found none))
beside key other Ordering.lt d found c =
    let low = c.low in
    let z : (get_diff_bit key d == 0) ≡ true = ground arith in
    rw z (ap (λ n. ok (root_slot n)) (omega arith))
beside key other Ordering.eq d found c = absurd c
beside key other Ordering.gt d found c =
    let high = c.high in let z : (get_diff_bit key d == 0) ≡ false = ground arith in rw z refl

-- On one page the slot is the one at which the page's routes take the key.
module _ (nodes : HeapNodeStore) (id : ℕ) (t : Tree) (f : Forest) (is : IsPage nodes id t f) where
  pub insert_slot_from_path-root :
      (key other : Key) (cmp : Ordering) (d : ℕ)
      → PartsAt cmp key other d
      → insert_slot_from_path nodes (frame_at id (tree_lookup key t) ∷ []) key cmp d
        ≡ ok (root_slot (insert_slot key d t))
  unfolding insert_slot_from_path slot_above last_frame
  insert_slot_from_path-root key other cmp d parts =
      let leaf_at = tree_lookup key t in
      let inside = tree_lookup-lt key t in
      let here = is.here in
      let answer =
        insert_slot_above_path-tree is.page t is.pad key d leaf_at is.encodes
          (omega (arith, is.encodes.size)) in
      let at = insert_slot-above key d t in
      elim (Option-cases (above_slot key d t)) [
        | inr (s, found) ↦
            let slot : insert_slot key d t ≡ s = rw found at at in
            let reads : insert_slot_above_path is.page key d leaf_at ≡ ok (0 + s, true) =
              rw found at answer in
            let up : slot_above nodes (frame_at id leaf_at ∷ []) 0 key d
                ≡ ok (some (root_slot (0 + s))) =
              rw (slot_above, here, ◌>>=◌, reads, ◌>>=◌) refl in
            rw (up, ◌>>=◌, slot) (ap (λ n. ok (root_slot n)) (omega arith))
        | inl none_above ↦
            let slot = rw none_above at at in
            let here_leaf : (0 + leaf_at == leaf_at) ≡ true = ground arith in
            let reads : insert_slot_above_path is.page key d leaf_at ≡ ok (0, false) =
              rw none_above at answer ∙ rw here_leaf refl in
            let up : slot_above nodes (frame_at id leaf_at ∷ []) 0 key d ≡ ok none =
              rw (slot_above, here, ◌>>=◌, reads, ◌>>=◌) refl in
            rw (up, ◌>>=◌, slot) (beside key other cmp d leaf_at parts)
      ]
