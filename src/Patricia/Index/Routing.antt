-- ===== src/Patricia/Index/Routing.antt =====
-- index.h, `BuildCartesian` and `WritePreorderRoutes`: the routes of a page from the diffs between its
-- entries. The indices that the code reads are those it has pushed, below the number of diffs.
use minweight_store_cpp.Base.{
  ℕ, zero, suc, ◌+◌, ◌-◌, leb, true, false, Option, none, some, List, [], ◌∷◌, length, get_or, set,
  replicate,
}
use minweight_store_cpp.Patricia.Status.{Result, ok, err, stuck}
use minweight_store_cpp.Patricia.Route
use minweight_store_cpp.Patricia.Page.{RouteFrame}
use minweight_store_cpp.Patricia.Index.{Cartesian}

-- The `while` loop of `BuildCartesian`: the stack, its back first, without the diffs that are not
-- smaller than `d`, and the last of these.
unfoldable pub pop_larger : List ℕ → ℕ → List ℕ → Option ℕ → Option ℕ × List ℕ
pop_larger diffs d [] last = (last, [])
pop_larger diffs d (j ∷ stack) last = elim (leb d (get_or diffs j 0)) [
  | true ↦ pop_larger diffs d stack (some j)
  | false ↦ (last, j ∷ stack)
]

abbrev pub set_left : List (Option ℕ) → ℕ → Option ℕ → List (Option ℕ)
set_left left i none = left
set_left left i (some j) = set left i (some j)

abbrev pub set_right : List (Option ℕ) → ℕ → List ℕ → List (Option ℕ)
set_right right i [] = right
set_right right i (j ∷ stack) = set right j (some i)

-- `cart_stack.front()`
abbrev pub front : List ℕ → Result ℕ
front [] = stuck
front (j ∷ []) = ok j
front (j ∷ k ∷ stack) = front (k ∷ stack)

-- The `for` loop of `BuildCartesian` for the diffs from `i` on, and the root.
unfoldable pub cartesian_loop :
    ℕ → List ℕ → ℕ → List (Option ℕ) → List (Option ℕ) → List ℕ → Result Cartesian
unfolding pop_larger
cartesian_loop zero diffs i left right stack = elim (front stack) [
  | ok root ↦ ok (record { left = left; right = right; root = root })
  | err e ↦ err e
  | stuck ↦ stuck
]
cartesian_loop (suc rounds) diffs i left right stack =
    let popped = pop_larger diffs (get_or diffs i 0) stack none in
    cartesian_loop rounds diffs (i + 1) (set_left left i popped.0) (set_right right i popped.1)
      (i ∷ popped.1)

unfoldable pub build_cartesian : List ℕ → Result Cartesian
unfolding cartesian_loop
build_cartesian diffs =
    let nothing = replicate (length diffs) none in
    cartesian_loop (length diffs) diffs 0 nothing nothing []

abbrev pub push_part : Option ℕ → ℕ → ℕ → List RouteFrame → List RouteFrame
push_part none l r stack = stack
push_part (some i) l r stack = record { node = i; leaf_l = l; leaf_r = r } ∷ stack

-- The right part of a frame below its left part.
abbrev pub push_both :
    List (Option ℕ) → List (Option ℕ) → RouteFrame → List RouteFrame → List RouteFrame
push_both left right frame stack =
    let i = frame.node in
    push_part (get_or left i none) frame.leaf_l (i + 1)
      (push_part (get_or right i none) (i + 1) frame.leaf_r stack)

-- The `while` loop of `WritePreorderRoutes`. One round for each diff.
unfoldable pub preorder_loop :
    ℕ → List ℕ → List (Option ℕ) → List (Option ℕ) → List RouteFrame → ℕ → List ℕ → Result (List ℕ)
preorder_loop rounds diffs left right [] out_idx out = ok out
preorder_loop zero diffs left right (frame ∷ stack) out_idx out = stuck
preorder_loop (suc rounds) diffs left right (frame ∷ stack) out_idx out =
    preorder_loop rounds diffs left right (push_both left right frame stack) (out_idx + 1)
      (set out out_idx (Route.make (get_or diffs frame.node 0) (frame.node + 1 - frame.leaf_l)))

unfoldable pub write_preorder_routes : List ℕ → List ℕ → Cartesian → ℕ → Result (List ℕ)
unfolding preorder_loop
write_preorder_routes out diffs cartesian size =
    preorder_loop (length diffs) diffs cartesian.left cartesian.right
      (record { node = cartesian.root; leaf_l = 0; leaf_r = size } ∷ []) 0 out
