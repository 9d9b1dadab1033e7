-- ===== src/Patricia/Page/Slots.antt =====
-- `InsertSlotAbovePath` on a page that encodes a tree.
use minweight_store_cpp.Base.{ℕ, zero, suc, ◌+◌, ◌-◌, ◌^◌, ◌≤◌, ◌<◌, ltb, leb, ◌==◌, ◌||◌, arith}
use minweight_store_cpp.Base.{
  if◌then◌else◌, Option, none, some, inl, inr, Bool, true, false, Bool-cases,
}
use minweight_store_cpp.Base.{List, [], ◌∷◌, ◌++◌, length, ◌≡◌, ap, ◌∙◌, lt→ltb}
use mathlib.Core.Option
use minweight_store_cpp.Patricia.Status.{Result, ok, err, corrupt_layout}
use minweight_store_cpp.Patricia.Key.{Key, get_diff_bit}
use minweight_store_cpp.Patricia.Route
use minweight_store_cpp.Patricia.Route.Laws.{left_count-make, diff-make, bit-make}
use minweight_store_cpp.Patricia.Page.{NodePage, max_node_reps}
use minweight_store_cpp.Patricia.Page.Edit.{insert_slot_loop, insert_slot_above_path}
use minweight_store_cpp.Patricia.Page.Tree.{
  Tree, leaf, fork, leaves, encode, InRange, Encodes, tree_lookup, above_slot, one-le-leaves,
  one-lt-leaves, split_left, split_right, length_left, length_right, read_head,
}

-- The answer where the walk began at leaf `base`.
abbrev pub slot_answer : ℕ → ℕ → ℕ → Option ℕ → Result (ℕ × Bool)
slot_answer want base found none =
    if base + found == want then ok (0, false) else err corrupt_layout
slot_answer want base found (some s) = ok (base + s, true)

-- The tests of a walk that stands on a route of a well-formed page.
pub on_route : (size idx : ℕ) → idx + 1 < size → leb (size - 1) idx ≡ false
on_route size idx h = ground arith

pub has_left : (left count : ℕ) → 1 ≤ left → left < count → (left == 0 || leb count left) ≡ false
has_left left count h k = ground arith

slot_answer_shift :
    (want base shift found : ℕ) (s : Option ℕ)
    → slot_answer want (base + shift) found s
      ≡ slot_answer want base (shift + found) (Option.map (λ n. shift + n) s)
slot_answer_shift want base shift found none =
    let e : base + shift + found ≡ base + (shift + found) = omega arith in rw e
slot_answer_shift want base shift found (some s) = ap (λ n. ok (n, true)) (omega arith)

module _ (page : NodePage) (key : Key) (diff want : ℕ) where
  insert_slot_loop-tree :
      (t : Tree) (rounds : ℕ) (pre post : List ℕ) (base : ℕ)
      → page.routes ≡ pre ++ (encode t ++ post)
      → length pre + leaves t ≤ page.size
      → InRange t
      → leaves t ≤ max_node_reps
      → leaves t ≤ rounds
      → insert_slot_loop rounds page key diff want (length pre) base (leaves t)
        ≡ slot_answer want base (tree_lookup key t) (above_slot key diff t)
  unfolding insert_slot_loop above_slot tree_lookup
  insert_slot_loop-tree leaf zero pre post base shape inside range fits enough =
      absurd (omega arith)
  insert_slot_loop-tree leaf (suc rounds) pre post base shape inside range fits enough =
      ground arith
  insert_slot_loop-tree (fork d l r) zero pre post base shape inside range fits enough =
      absurd (omega (arith, one-le-leaves l))
  insert_slot_loop-tree (fork d l r) (suc rounds) pre post base shape inside (hd, hl, hr) fits
        enough =
      let m = Route.make d (leaves l) in
      let small : leaves l < 2 ^ 15 = omega arith in
      let more = lt→ltb 1 (leaves l + leaves r) (one-lt-leaves d l r pre post) in
      let on = on_route page.size (length pre) (omega (arith, one-le-leaves l, one-le-leaves r)) in
      let head = rw (← shape) at (read_head d l r pre post) in
      let left = left_count-make d (leaves l) hd small in
      let some_left =
        has_left (leaves l) (leaves l + leaves r) (one-le-leaves l)
          (omega (arith, one-le-leaves r)) in
      let d_of = diff-make d (leaves l) hd small in
      let route = bit-make d (leaves l) hd small key in
      elim (Bool-cases (ltb diff d)) [
        | inl above ↦
            rw (more, on, head, left, some_left, d_of, above, insert_slot_loop) (ground arith)
        | inr below ↦ elim (Bool-cases (get_diff_bit key d == 0)) [
          | inl clear ↦
              rw
                (
                  more,
                  on,
                  head,
                  left,
                  some_left,
                  d_of,
                  below,
                  route,
                  clear,
                  left,
                  ← length_left d l r pre post,
                  insert_slot_loop,
                )
                (insert_slot_loop-tree l rounds (pre ++ m ∷ []) (encode r ++ post) base
                  (shape ∙ split_left d l r pre post)
                  (omega (arith, length_left d l r pre post, one-le-leaves r)) hl (omega arith)
                  (omega (arith, one-le-leaves r)))
          | inr is_set ↦
              let rest : leaves l + leaves r - leaves l ≡ leaves r = omega arith in
              rw
                (
                  more,
                  on,
                  head,
                  left,
                  some_left,
                  d_of,
                  below,
                  route,
                  is_set,
                  left,
                  rest,
                  ← length_right d l r pre post,
                  insert_slot_loop,
                )
                (insert_slot_loop-tree r rounds (pre ++ m ∷ encode l) post (base + leaves l)
                    (shape ∙ split_right d l r pre post)
                    (omega (arith, length_right d l r pre post)) hr (omega arith)
                    (omega (arith, one-le-leaves l))
                  ∙ slot_answer_shift want base (leaves l) (tree_lookup key r)
                      (above_slot key diff r))
        ]
      ]

-- On a page that encodes a tree `InsertSlotAbovePath` ends. With the leaf that `Lookup` gives as
-- the wanted leaf it answers the slot beside the first fork on the key's path whose diff is larger,
-- and "none here" if there is no such fork; with any other leaf of the page it answers the slot, or
-- an error.
pub insert_slot_above_path-tree :
    (page : NodePage) (t : Tree) (pad : List ℕ) (key : Key) (diff want : ℕ)
    → Encodes page t pad
    → want < page.size
    → insert_slot_above_path page key diff want
      ≡ slot_answer want 0 (tree_lookup key t) (above_slot key diff t)
unfolding insert_slot_above_path
insert_slot_above_path-tree page t pad key diff want e h =
    let run =
      insert_slot_loop-tree page key diff want t page.size [] pad 0 e.routes (omega (arith, e.size))
        e.range e.fits (omega (arith, e.size)) in
    ground (arith, e.size, one-le-leaves t, rw (← e.size) at run)
