-- ===== src/Patricia/Index/Walk.antt =====
-- index.h: the iterations. The callback `fn` is a parameter with a state of its own: it is given a key
-- and a position and says whether to go on. It changes no page.
pub mod Trails
pub mod Steps
pub mod Ascents
use minweight_store_cpp.Base.{
  ℕ, zero, suc, ◌+◌, ◌-◌, ◌==◌, leb, Bool, true, false, Option, none, some, List, [], ◌∷◌,
  get_elem?,
}
use minweight_store_cpp.Patricia.Status.{
  Result, ok, err, stuck, StatusCode, corrupt_layout, deref, ◌>>=◌, ◌>>◌,
}
use minweight_store_cpp.Patricia.Key.{Key, check_key_size, compare_keys}
use minweight_store_cpp.Patricia.Route
use minweight_store_cpp.Patricia.Page.{NodePage}
use minweight_store_cpp.Patricia.Nodes.{HeapNodeStore}
use minweight_store_cpp.Patricia.Index.{Index, IterItem}
use minweight_store_cpp.Patricia.Index.Path.{IterPath, at, new_path}
use minweight_store_cpp.Patricia.Index.Read.{rep_at, key_at, is_ge, is_le}
use minweight_store_cpp.Patricia.Index.Seek.{
  Found, node_for_frame, leftmost_root, rightmost_root, next_path, prev_path,
}
use minweight_store_cpp.Patricia.Index.Seek.Position.{seek_greater_or_equal, seek_less_or_equal}

-- The end of an iteration: the callback's state, with the status.
abbrev pub Walked {ℓ} : Type ℓ → Type ℓ
Walked S = S × Result (Unit {0})

-- `return ok.ok() ? OkStatus() : ok.status();` where there is no path, or go on.
abbrev pub from_path {ℓ} : {S : Type ℓ} → Found → S → (IterPath → Walked S) → Walked S
from_path (ok none) s walk = (s, ok tt)
from_path (ok (some path)) s walk = walk path
from_path (err e) s walk = (s, err e)
from_path stuck s walk = (s, stuck)

-- `IterBound`: the key at which an iteration ends, if it has one.
abbrev pub at_upper : Option Key → Key → Bool
at_upper none key = false
at_upper (some bound) key = is_ge (compare_keys key bound)

abbrev pub at_lower : Option Key → Key → Bool
at_lower none key = false
at_lower (some bound) key = is_le (compare_keys key bound)

abbrev pub with_status {ℓ} : {S : Type ℓ} → Result (Unit {0}) → S → Walked S → Walked S
with_status (ok u) s walked = walked
with_status (err e) s walked = (s, err e)
with_status stuck s walked = (s, stuck)

module _ (records : ℕ → Result Key) where
  unfoldable pub current_record : HeapNodeStore → IterPath → Result IterItem
  current_record nodes path = elim (path.len == 0) [
    | true ↦ err corrupt_layout
    | false ↦ do
      frame ← deref (at path (path.len - 1))
      node ← node_for_frame nodes frame
      elim (leb node.size frame.leaf) [
        | true ↦ err corrupt_layout
        | false ↦ do
          rep ← rep_at node frame.leaf
          elim (Route.is_child rep) [
            | true ↦ err corrupt_layout
            | false ↦ do
              key ← key_at records (Route.position rep)
              ok (record { key = key; pos = Route.position rep })
          ]
      ]
  ]

module _ {ℓ} {S : Type ℓ} (records : ℕ → Result Key) (fn : S → Key → ℕ → S × Bool) where
  -- The item is shown to the callback, unless it is out of bounds; `next` goes on.
  abbrev pub visit : (Key → Bool) → Result IterItem → S → (S → Walked S) → Walked S
  visit out (ok item) s next = elim (out item.key) [
    | true ↦ (s, ok tt)
    | false ↦ elim ((fn s item.key item.pos).1) [
      | false ↦ ((fn s item.key item.pos).0, ok tt)
      | true ↦ next (fn s item.key item.pos).0
    ]
  ]
  visit out (err e) s next = (s, err e)
  visit out stuck s next = (s, stuck)

  -- The `while` loop of `AscendFromPath`: one round for each record.
  unfoldable pub ascend_from_path : ℕ → ℕ → HeapNodeStore → IterPath → Option Key → S → Walked S
  ascend_from_path zero depth nodes path upper s = (s, stuck)
  ascend_from_path (suc rounds) depth nodes path upper s = elim (path.len == 0) [
    | true ↦ (s, ok tt)
    | false ↦ visit (at_upper upper) (current_record records nodes path) s (λ t.
        from_path (next_path depth nodes path) t
          (λ moved. ascend_from_path rounds depth nodes moved upper t))
  ]

  -- The `while` loop of `DescendFromPath`.
  unfoldable pub descend_from_path : ℕ → ℕ → HeapNodeStore → IterPath → Option Key → S → Walked S
  descend_from_path zero depth nodes path lower s = (s, stuck)
  descend_from_path (suc rounds) depth nodes path lower s = elim (path.len == 0) [
    | true ↦ (s, ok tt)
    | false ↦ visit (at_lower lower) (current_record records nodes path) s (λ t.
        from_path (prev_path depth nodes path) t
          (λ moved. descend_from_path rounds depth nodes moved lower t))
  ]

  -- `Ascend`, which `Visit` calls. `depth` bounds the ways down and `rounds` the records.
  unfoldable pub ascend : ℕ → ℕ → Index → S → Walked S
  ascend rounds depth index s =
      from_path (leftmost_root depth index new_path) s
        (λ path. ascend_from_path rounds depth index.nodes path none s)

  unfoldable pub ascend_range : ℕ → ℕ → Index → Key → Key → S → Walked S
  ascend_range rounds depth index greater_or_equal less_than s =
      with_status (check_key_size greater_or_equal) s (
        with_status (check_key_size less_than) s (
          from_path (seek_greater_or_equal records depth index greater_or_equal new_path) s
            (λ path. ascend_from_path rounds depth index.nodes path (some less_than) s)))

  unfoldable pub ascend_less_than : ℕ → ℕ → Index → Key → S → Walked S
  ascend_less_than rounds depth index pivot s = with_status (check_key_size pivot) s (
      from_path (leftmost_root depth index new_path) s
        (λ path. ascend_from_path rounds depth index.nodes path (some pivot) s))

  unfoldable pub ascend_greater_or_equal : ℕ → ℕ → Index → Key → S → Walked S
  ascend_greater_or_equal rounds depth index pivot s = with_status (check_key_size pivot) s (
      from_path (seek_greater_or_equal records depth index pivot new_path) s
        (λ path. ascend_from_path rounds depth index.nodes path none s))

  unfoldable pub descend : ℕ → ℕ → Index → S → Walked S
  descend rounds depth index s =
      from_path (rightmost_root depth index new_path) s
        (λ path. descend_from_path rounds depth index.nodes path none s)

  unfoldable pub descend_range : ℕ → ℕ → Index → Key → Key → S → Walked S
  descend_range rounds depth index less_or_equal greater_than s =
      with_status (check_key_size less_or_equal) s (
        with_status (check_key_size greater_than) s (
          from_path (seek_less_or_equal records depth index less_or_equal new_path) s
            (λ path. descend_from_path rounds depth index.nodes path (some greater_than) s)))

  unfoldable pub descend_less_or_equal : ℕ → ℕ → Index → Key → S → Walked S
  descend_less_or_equal rounds depth index pivot s = with_status (check_key_size pivot) s (
      from_path (seek_less_or_equal records depth index pivot new_path) s
        (λ path. descend_from_path rounds depth index.nodes path none s))

  unfoldable pub descend_greater_than : ℕ → ℕ → Index → Key → S → Walked S
  descend_greater_than rounds depth index pivot s = with_status (check_key_size pivot) s (
      from_path (rightmost_root depth index new_path) s
        (λ path. descend_from_path rounds depth index.nodes path (some pivot) s))
