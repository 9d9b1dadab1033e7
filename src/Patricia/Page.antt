-- ===== src/Patricia/Page.antt =====
-- node_page.h, `NodePage`: a page of up to 339 entries with its routes, a binary tree in preorder.
-- The `int` indices of the C++ code never become negative here and are natural numbers; a read past
-- an array is `stuck`.
pub mod Edit
pub mod Tree
pub mod Lookup
pub mod Slots
pub mod Inserts
pub mod Deletes
pub mod Runs
use minweight_store_cpp.Base.{ℕ, zero, suc, ◌+◌, ◌-◌, ltb, leb, ◌==◌, ◌&&◌, ◌||◌, not}
use minweight_store_cpp.Base.{Bool, true, false, if◌then◌else◌, Option, none, some}
use minweight_store_cpp.Base.{List, [], ◌∷◌, length, get_elem?, set, replicate}
use minweight_store_cpp.Patricia.Status.{Result, ok, err, stuck, corrupt_layout, deref, ◌>>=◌, ◌>>◌}
use minweight_store_cpp.Patricia.Key.{Key}
use minweight_store_cpp.Patricia.Route

-- `kMaxNodeReps`
abbrev pub max_node_reps : ℕ
max_node_reps = 339

-- The two reserved fields are padding. `routes` has 338 words and `reps` 339.
pub record NodePage : Type 0 where
  pub size : ℕ
  pub first_pos : ℕ
  pub last_pos : ℕ
  pub routes : List ℕ
  pub reps : List ℕ

-- A page as `std::make_unique<NodePage>()` leaves it.
abbrev pub empty_page : NodePage
empty_page = record {
  size = 0;
  first_pos = 0;
  last_pos = 0;
  routes = replicate 338 0;
  reps = replicate 339 0;
}

-- The `while` loop of `LookupRouteOnly`, for `rounds` rounds at most.
unfoldable pub lookup_loop : ℕ → List ℕ → Key → ℕ → ℕ → ℕ → Result ℕ
lookup_loop zero routes key route_idx leaf_base leaf_count = stuck
lookup_loop (suc rounds) routes key route_idx leaf_base leaf_count = elim (ltb 1 leaf_count) [
  | false ↦ ok leaf_base
  | true ↦ elim (get_elem? routes route_idx) [
    | none ↦ stuck
    | some route ↦
        let left = Route.left_count route in
        elim (Route.bit route key == 0) [
          | true ↦ lookup_loop rounds routes key (route_idx + 1) leaf_base left
          | false ↦
              lookup_loop rounds routes key (route_idx + left) (leaf_base + left)
                (leaf_count - left)
        ]
  ]
]

-- `Lookup`, which is `LookupRouteOnly`. A well-formed page needs no more rounds than entries; on
-- a damaged one the C++ loop may not end.
unfoldable pub lookup : NodePage → Key → Result (ℕ × Bool)
unfolding lookup_loop
lookup page key =
    if page.size == 0
    then ok (0, false)
    else do leaf ← lookup_loop page.size page.routes key 0 0 page.size; ok (leaf, true)

pub record RouteFrame : Type 0 where
  pub node : ℕ
  pub leaf_l : ℕ
  pub leaf_r : ℕ

-- What a round of `RouteDiffs` leaves on the stack: the right part below the left one, each only
-- if it has a route. `leaf_l + left` is the C++ `diff_idx + 1`.
abbrev pub push_parts : RouteFrame → ℕ → List RouteFrame → List RouteFrame
push_parts frame left stack =
    let part = frame.leaf_l + left in
    let right : RouteFrame = record {
      node = frame.node + left;
      leaf_l = part;
      leaf_r = frame.leaf_r;
    } in
    let front : RouteFrame = record {
      node = frame.node + 1;
      leaf_l = frame.leaf_l;
      leaf_r = part;
    } in
    let below = if ltb (part + 1) frame.leaf_r then right ∷ stack else stack in
    if ltb (frame.leaf_l + 1) part then front ∷ below else below

-- The `while` loop of `RouteDiffs`.
unfoldable pub route_diffs_loop : ℕ → ℕ → List ℕ → List RouteFrame → List ℕ → Result (List ℕ)
route_diffs_loop rounds size routes [] out = ok out
route_diffs_loop zero size routes (frame ∷ stack) out = stuck
route_diffs_loop (suc rounds) size routes (frame ∷ stack) out = elim (leb (size - 1) frame.node) [
  | true ↦ err corrupt_layout
  | false ↦ elim (get_elem? routes frame.node) [
    | none ↦ stuck
    | some route ↦
        let left = Route.left_count route in
        elim (left == 0 || leb frame.leaf_r (frame.leaf_l + left)) [
          | true ↦ err corrupt_layout
          | false ↦
              route_diffs_loop rounds size routes (push_parts frame left stack)
                (set out (frame.leaf_l + left - 1) (Route.diff route))
        ]
  ]
]

-- `RouteDiffs` into the span `out`, whose length the caller gives. One round for each route.
unfoldable pub route_diffs : NodePage → List ℕ → Result (List ℕ)
unfolding route_diffs_loop
route_diffs page out =
    if not (length out + 1 == page.size)
    then err corrupt_layout
    else if leb page.size 1
    then ok out
    else route_diffs_loop page.size page.size page.routes
        (record { node = 0; leaf_l = 0; leaf_r = page.size } ∷ []) out

-- The `while` loop of `IsDirectRoutePair`.
unfoldable pub direct_pair_loop : ℕ → ℕ → List ℕ → List RouteFrame → Result Bool
direct_pair_loop rounds diff_idx routes [] = ok false
direct_pair_loop zero diff_idx routes (frame ∷ stack) = stuck
direct_pair_loop (suc rounds) diff_idx routes (frame ∷ stack) = elim (get_elem? routes frame.node) [
  | none ↦ stuck
  | some route ↦
      let left = Route.left_count route in
      elim (frame.leaf_l + left == diff_idx + 1) [
        | true ↦ ok (frame.leaf_l == diff_idx && frame.leaf_r == diff_idx + 2)
        | false ↦ direct_pair_loop rounds diff_idx routes (push_parts frame left stack)
      ]
]

unfoldable pub is_direct_route_pair : NodePage → ℕ → Result Bool
unfolding direct_pair_loop
is_direct_route_pair page diff_idx =
    if leb (page.size - 1) diff_idx
    then ok false
    else direct_pair_loop page.size diff_idx page.routes
        (record { node = 0; leaf_l = 0; leaf_r = page.size } ∷ [])
