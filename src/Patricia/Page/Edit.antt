-- ===== src/Patricia/Page/Edit.antt =====
-- node_page.h: the routes of a page when an entry comes in or goes out.
use minweight_store_cpp.Base.{ℕ, zero, suc, ◌+◌, ◌-◌, ltb, leb, ◌==◌, ◌||◌, not}
use minweight_store_cpp.Base.{Bool, true, false, if◌then◌else◌, Option, none, some}
use minweight_store_cpp.Base.{List, [], ◌∷◌, ◌++◌, get_elem?, set, modify}
use minweight_store_cpp.Base.Shifts.{shift_up, shift_down}
use minweight_store_cpp.Patricia.Status.{Result, ok, err, stuck, corrupt_layout}
use minweight_store_cpp.Patricia.Key.{Key, get_diff_bit}
use minweight_store_cpp.Patricia.Page.{NodePage, max_node_reps}
use minweight_store_cpp.Patricia.Route

-- The `while` loop of `InsertSlotAbovePath`. The left count that it has checked is smaller than
-- the leaf count, so one round for each entry is enough.
unfoldable pub insert_slot_loop : ℕ → NodePage → Key → ℕ → ℕ → ℕ → ℕ → ℕ → Result (ℕ × Bool)
insert_slot_loop zero page key diff want_leaf route_idx leaf_base leaf_count = stuck
insert_slot_loop (suc rounds) page key diff want_leaf route_idx leaf_base leaf_count =
    elim (ltb 1 leaf_count) [
      | false ↦ if leaf_base == want_leaf then ok (0, false) else err corrupt_layout
      | true ↦ elim (leb (page.size - 1) route_idx) [
        | true ↦ err corrupt_layout
        | false ↦ elim (get_elem? page.routes route_idx) [
          | none ↦ stuck
          | some route ↦
              let left = Route.left_count route in
              elim (left == 0 || leb leaf_count left) [
                | true ↦ err corrupt_layout
                | false ↦ elim (ltb diff (Route.diff route)) [
                  | true ↦
                      if get_diff_bit key diff == 0
                      then ok (leaf_base, true)
                      else ok (leaf_base + leaf_count, true)
                  | false ↦ elim (Route.bit route key == 0) [
                    | true ↦
                        insert_slot_loop rounds page key diff want_leaf (route_idx + 1) leaf_base
                          left
                    | false ↦
                        insert_slot_loop rounds page key diff want_leaf (route_idx + left)
                          (leaf_base + left) (leaf_count - left)
                  ]
                ]
              ]
        ]
      ]
    ]

unfoldable pub insert_slot_above_path : NodePage → Key → ℕ → ℕ → Result (ℕ × Bool)
unfolding insert_slot_loop
insert_slot_above_path page key diff want_leaf =
    if page.size == 0
    then ok (0, false)
    else if leb page.size want_leaf
    then err corrupt_layout
    else insert_slot_loop page.size page key diff want_leaf 0 0 page.size

-- `for (ancestor : left_ancestors) routes[ancestor].inc_left_count();` and with `dec_left_count`.
unfoldable pub modify_all : (ℕ → ℕ) → List ℕ → List ℕ → List ℕ
modify_all f [] routes = routes
modify_all f (i ∷ ancestors) routes = modify_all f ancestors (modify routes i f)

unfoldable pub insert_route_at : NodePage → ℕ → ℕ → ℕ → List ℕ → NodePage
unfolding shift_up modify_all
insert_route_at page route_idx diff left_count left_ancestors =
    let opened = shift_up 0 route_idx (page.size - 1 - route_idx) page.routes in
    let placed = set opened route_idx (Route.make diff left_count) in
    record page { routes = modify_all Route.inc_left_count left_ancestors placed }

-- The `while` loop of `InsertRoute`, and what follows it.
unfoldable pub insert_route_loop : ℕ → NodePage → ℕ → Key → ℕ → ℕ → ℕ → ℕ → List ℕ → Result NodePage
unfolding insert_route_at
insert_route_loop zero page slot key diff route_idx leaf_base leaf_count ancestors = stuck
insert_route_loop (suc rounds) page slot key diff route_idx leaf_base leaf_count ancestors =
    elim (ltb 1 leaf_count) [
      | false ↦
          let expected_slot = if get_diff_bit key diff == 0 then leaf_base else leaf_base + 1 in
          if slot == expected_slot
          then ok (insert_route_at page route_idx diff 1 ancestors)
          else err corrupt_layout
      | true ↦ elim (leb (page.size - 1) route_idx) [
        | true ↦ err corrupt_layout
        | false ↦ elim (get_elem? page.routes route_idx) [
          | none ↦ stuck
          | some route ↦
              let left = Route.left_count route in
              elim (left == 0 || leb leaf_count left) [
                | true ↦ err corrupt_layout
                | false ↦ elim (ltb diff (Route.diff route)) [
                  | true ↦
                      let on_right = not (get_diff_bit key diff == 0) in
                      let new_left_count = if on_right then leaf_count else 1 in
                      let expected_slot = if on_right then leaf_base + leaf_count else leaf_base in
                      if slot == expected_slot
                      then ok (insert_route_at page route_idx diff new_left_count ancestors)
                      else err corrupt_layout
                  | false ↦ elim (Route.bit route key == 0) [
                    | true ↦
                        insert_route_loop rounds page slot key diff (route_idx + 1) leaf_base left
                          (ancestors ++ route_idx ∷ [])
                    | false ↦
                        insert_route_loop rounds page slot key diff (route_idx + left)
                          (leaf_base + left) (leaf_count - left) ancestors
                  ]
                ]
              ]
        ]
      ]
    ]

unfoldable pub insert_route : NodePage → ℕ → Key → ℕ → Result NodePage
unfolding insert_route_loop
insert_route page slot key diff =
    if page.size == 0 || leb max_node_reps page.size
    then err corrupt_layout
    else insert_route_loop page.size page slot key diff 0 0 page.size []

unfoldable pub delete_route_at : NodePage → ℕ → List ℕ → NodePage
unfolding shift_down modify_all
delete_route_at page route_idx left_ancestors =
    let closed = shift_down 0 route_idx (page.size - 2 - route_idx) page.routes in
    let cleared = set closed (page.size - 2) 0 in
    record page { routes = modify_all Route.dec_left_count left_ancestors cleared }

-- The `while` loop of `DeleteRoute`, and what follows it. `none` is the C++ parent index -1.
unfoldable pub delete_route_loop :
    ℕ → NodePage → ℕ → ℕ → ℕ → ℕ → Option ℕ → List ℕ → Result NodePage
unfolding delete_route_at
delete_route_loop zero page slot route_idx leaf_base leaf_count parent ancestors = stuck
delete_route_loop (suc rounds) page slot route_idx leaf_base leaf_count parent ancestors =
    elim (ltb 1 leaf_count) [
      | false ↦ elim parent [
        | none ↦ err corrupt_layout
        | some parent_idx ↦
            if leaf_base == slot
            then ok (delete_route_at page parent_idx ancestors)
            else err corrupt_layout
      ]
      | true ↦ elim (leb (page.size - 1) route_idx) [
        | true ↦ err corrupt_layout
        | false ↦ elim (get_elem? page.routes route_idx) [
          | none ↦ stuck
          | some route ↦
              let left = Route.left_count route in
              elim (left == 0 || leb leaf_count left) [
                | true ↦ err corrupt_layout
                | false ↦ elim (ltb slot (leaf_base + left)) [
                  | true ↦
                      delete_route_loop rounds page slot (route_idx + 1) leaf_base left
                        (some route_idx)
                        (if ltb 1 left then ancestors ++ route_idx ∷ [] else ancestors)
                  | false ↦
                      delete_route_loop rounds page slot (route_idx + left) (leaf_base + left)
                        (leaf_count - left) (some route_idx) ancestors
                ]
              ]
        ]
      ]
    ]

unfoldable pub delete_route : NodePage → ℕ → Result NodePage
unfolding delete_route_loop
delete_route page slot =
    if leb page.size 1 || leb page.size slot
    then err corrupt_layout
    else delete_route_loop page.size page slot 0 0 page.size none []
