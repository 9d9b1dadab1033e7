-- ===== src/Patricia/Page/Inserts.antt =====
-- `InsertRoute` on a page that encodes a tree puts in one leaf.
use minweight_store_cpp.Base.{ℕ, zero, suc, ◌+◌, ◌-◌, ◌^◌, ◌≤◌, ◌<◌, ltb, leb, ◌==◌, ◌||◌, arith}
use minweight_store_cpp.Base.{if◌then◌else◌, inl, inr, false, Bool-cases, modify}
use minweight_store_cpp.Base.{List, [], ◌∷◌, ◌++◌, length, ◌≡◌, refl, sym, ap, ◌∙◌, lt→ltb}
use minweight_store_cpp.Base.{append_assoc, append-nil, length-append}
use minweight_store_cpp.Base.Shifts.{open_gap}
use minweight_store_cpp.Patricia.Status.{Result, ok, err, corrupt_layout}
use minweight_store_cpp.Patricia.Key.{Key, get_diff_bit, max_diff}
use minweight_store_cpp.Patricia.Route
use minweight_store_cpp.Patricia.Route.Laws.{
  left_count-make, diff-make, bit-make, inc_left_count-make,
}
use minweight_store_cpp.Patricia.Page.{NodePage, max_node_reps}
use minweight_store_cpp.Patricia.Page.Slots.{on_route, has_left}
use minweight_store_cpp.Patricia.Page.Edit.{
  insert_route_loop, insert_route, insert_route_at, modify_all,
}
use minweight_store_cpp.Patricia.Page.Tree.{
  Tree, leaf, fork, leaves, encode, InRange, Encodes, insert_slot, insert_leaf, leaves-insert_leaf,
  length-encode, one-le-leaves, one-lt-leaves, split_left, split_right, length_left, length_right,
  read_head,
}

pub modify_comm :
    (f : ℕ → ℕ) (xs : List ℕ) (i j : ℕ) → modify (modify xs i f) j f ≡ modify (modify xs j f) i f
modify_comm f [] i j = refl
modify_comm f (x ∷ xs) zero zero = refl
modify_comm f (x ∷ xs) zero (suc j) = refl
modify_comm f (x ∷ xs) (suc i) zero = refl
modify_comm f (x ∷ xs) (suc i) (suc j) = ap (λ t. x ∷ t) (modify_comm f xs i j)

-- The last ancestor may as well be changed first.
pub modify_all-snoc :
    (f : ℕ → ℕ) (is : List ℕ) (i : ℕ) (xs : List ℕ)
    → modify_all f (is ++ i ∷ []) xs ≡ modify_all f is (modify xs i f)
unfolding modify_all
modify_all-snoc f [] i xs = refl
modify_all-snoc f (j ∷ is) i xs =
    modify_all-snoc f is i (modify xs j f) ∙ ap (modify_all f is) (modify_comm f xs j i)

pub modify-append :
    (f : ℕ → ℕ) (xs ys : List ℕ) (y : ℕ) → modify (xs ++ y ∷ ys) (length xs) f ≡ xs ++ f y ∷ ys
modify-append f [] ys y = refl
modify-append f (x ∷ xs) ys y = ap (λ t. x ∷ t) (modify-append f xs ys y)

-- A new route goes in behind `pre`, over the first free word `p`.
insert_route_at-gap :
    (page : NodePage) (diff count : ℕ) (ancestors pre mid post : List ℕ) (p : ℕ)
    → page.routes ≡ pre ++ (mid ++ p ∷ post)
    → length pre + length mid + 1 ≡ page.size
    → insert_route_at page (length pre) diff count ancestors ≡ record page {
      routes =
          modify_all Route.inc_left_count ancestors (pre ++ Route.make diff count ∷ (mid ++ post));
    }
unfolding insert_route_at
insert_route_at-gap page diff count ancestors pre mid post p shape total =
    let rounds : page.size - 1 - length pre ≡ length mid = omega arith in
    ap (λ (rs : List ℕ). record page { routes = modify_all Route.inc_left_count ancestors rs })
      (rw (rounds, shape) (open_gap pre mid post p (Route.make diff count) 0))

module _ (page : NodePage) (slot : ℕ) (key : Key) (diff p : ℕ) (post : List ℕ) where
  -- The answer of a walk whose new leaf belongs at `expected`.
  abbrev insert_answer : ℕ → List ℕ → List ℕ → Result NodePage
  insert_answer expected ancestors routes =
      if slot == expected
      then ok (record page { routes = modify_all Route.inc_left_count ancestors routes })
      else err corrupt_layout

  insert_answer_at :
      (e expected count : ℕ) (ancestors pre mid routes : List ℕ)
      → page.routes ≡ pre ++ (mid ++ p ∷ post)
      → length pre + length mid + 1 ≡ page.size
      → e ≡ expected
      → pre ++ Route.make diff count ∷ (mid ++ post) ≡ routes
      → (if slot == e
          then ok (insert_route_at page (length pre) diff count ancestors)
          else err corrupt_layout)
        ≡ insert_answer expected ancestors routes
  insert_answer_at e expected count ancestors pre mid routes shape total same same_routes =
      rw (
        insert_route_at-gap page diff count ancestors pre mid post p shape total,
        same,
        same_routes,
      )

  -- A left step puts the fork on the list of ancestors; its left count grows by one at the end.
  insert_answer_left :
      (d expected : ℕ) (l r : Tree) (ancestors pre more : List ℕ)
      → d ≤ max_diff
      → leaves l + 1 < 2 ^ 15
      → insert_answer expected (ancestors ++ length pre ∷ []) (
          (pre ++ Route.make d (leaves l) ∷ [])
          ++ (encode (insert_leaf key diff l) ++ ((encode r ++ more) ++ post)))
        ≡ insert_answer expected ancestors
            (pre ++ (encode (fork d (insert_leaf key diff l) r) ++ (more ++ post)))
  insert_answer_left d expected l r ancestors pre more hd small =
      let rest = encode (insert_leaf key diff l) ++ ((encode r ++ more) ++ post) in
      let count : Route.inc_left_count (Route.make d (leaves l))
          ≡ Route.make d (leaves (insert_leaf key diff l)) =
        inc_left_count-make d (leaves l) hd (omega arith) small
        ∙ ap (Route.make d) (sym (leaves-insert_leaf key diff l)) in
      ap (λ rs. if slot == expected then ok (record page { routes = rs }) else err corrupt_layout)
        (modify_all-snoc Route.inc_left_count ancestors (length pre) _
          ∙ ap (modify_all Route.inc_left_count ancestors) (
              ap (λ rs. modify rs (length pre) Route.inc_left_count)
                (append_assoc pre (Route.make d (leaves l) ∷ []) rest)
              ∙ modify-append Route.inc_left_count pre rest (Route.make d (leaves l))
              ∙ rw count (simp append_assoc)))

  insert_route_loop-tree :
      (t : Tree) (rounds : ℕ) (pre more : List ℕ) (base : ℕ) (ancestors : List ℕ)
      → page.routes ≡ pre ++ (encode t ++ (more ++ p ∷ post))
      → length pre + leaves t + length more ≡ page.size
      → InRange t
      → leaves t < max_node_reps
      → leaves t ≤ rounds
      → insert_route_loop rounds page slot key diff (length pre) base (leaves t) ancestors
        ≡ insert_answer
            (base + insert_slot key diff t)
            ancestors
            (pre ++ (encode (insert_leaf key diff t) ++ (more ++ post)))
  unfolding insert_route_loop insert_slot insert_leaf
  insert_route_loop-tree leaf zero pre more base ancestors shape total range fits enough =
      absurd (omega arith)
  insert_route_loop-tree leaf (suc rounds) pre more base ancestors shape total range fits enough =
      insert_answer_at _ (base + insert_slot key diff leaf) 1 ancestors pre more _ shape
        (omega arith) (ground arith) refl
  insert_route_loop-tree (fork d l r) zero pre more base ancestors shape total range fits enough =
      absurd (omega (arith, one-le-leaves l))
  insert_route_loop-tree (fork d l r) (suc rounds) pre more base ancestors shape total (hd, hl, hr)
        fits enough =
      let m = Route.make d (leaves l) in
      let tail = more ++ p ∷ post in
      let small : leaves l < 2 ^ 15 = omega arith in
      let forked = lt→ltb 1 (leaves l + leaves r) (one-lt-leaves d l r pre tail) in
      let on = on_route page.size (length pre) (omega (arith, one-le-leaves l, one-le-leaves r)) in
      let head = rw (← shape) at (read_head d l r pre tail) in
      let left = left_count-make d (leaves l) hd small in
      let some_left =
        has_left (leaves l) (leaves l + leaves r) (one-le-leaves l)
          (omega (arith, one-le-leaves r)) in
      let d_of = diff-make d (leaves l) hd small in
      let route = bit-make d (leaves l) hd small key in
      elim (Bool-cases (ltb diff d)) [
        | inl above ↦
            let shape' =
              shape
              ∙ ap (λ t. pre ++ t) (sym (append_assoc (encode (fork d l r)) more (p ∷ post))) in
            let total' : length pre + length (encode (fork d l r) ++ more) + 1 ≡ page.size =
              omega (arith, length-append (encode (fork d l r)) more, length-encode (fork d l r)) in
            elim (Bool-cases (get_diff_bit key diff == 0)) [
              | inl clear ↦
                  rw (forked, on, head, left, some_left, d_of, above, clear, insert_route_loop)
                    (insert_answer_at base (base + 0) 1 ancestors pre (encode (fork d l r) ++ more)
                      _ shape' total' (omega arith) (simp append_assoc))
              | inr is_set ↦
                  rw (forked, on, head, left, some_left, d_of, above, is_set, insert_route_loop)
                    (insert_answer_at (base + (leaves l + leaves r)) (base + (leaves l + leaves r))
                      (leaves l + leaves r) ancestors pre (encode (fork d l r) ++ more) _ shape'
                      total' refl (simp (append_assoc, append-nil)))
            ]
        | inr below ↦ elim (Bool-cases (get_diff_bit key d == 0)) [
          | inl clear ↦
              rw
                (
                  forked,
                  on,
                  head,
                  left,
                  some_left,
                  d_of,
                  below,
                  route,
                  clear,
                  left,
                  ← length_left d l r pre tail,
                  insert_route_loop,
                )
                (insert_route_loop-tree l rounds (pre ++ m ∷ []) (encode r ++ more) base
                    (ancestors ++ length pre ∷ [])
                    (shape ∙ split_left d l r pre tail ∙ simp append_assoc)
                    (omega (
                      arith,
                      length_left d l r pre tail,
                      length-append (encode r) more,
                      length-encode r,
                    ))
                    hl (omega arith) (omega (arith, one-le-leaves r))
                  ∙ insert_answer_left d (base + insert_slot key diff l) l r ancestors pre more hd
                      (omega arith))
          | inr is_set ↦
              let rest : leaves l + leaves r - leaves l ≡ leaves r = omega arith in
              let place : base + leaves l + insert_slot key diff r
                  ≡ base + (leaves l + insert_slot key diff r) =
                omega arith in
              rw
                (
                  forked,
                  on,
                  head,
                  left,
                  some_left,
                  d_of,
                  below,
                  route,
                  is_set,
                  left,
                  rest,
                  ← length_right d l r pre tail,
                  insert_route_loop,
                )
                (insert_route_loop-tree r rounds (pre ++ m ∷ encode l) more (base + leaves l)
                    ancestors (shape ∙ split_right d l r pre tail)
                    (omega (arith, length_right d l r pre tail)) hr (omega arith)
                    (omega (arith, one-le-leaves l))
                  ∙ rw place (simp append_assoc))
        ]
      ]

-- On a page that encodes a tree and has room, `InsertRoute` succeeds exactly
-- at the slot at which the key belongs; the routes are then those of the tree with the new leaf.
-- At any other slot it is an error.
pub insert_route-tree :
    (page : NodePage) (t : Tree) (pad : List ℕ) (p slot : ℕ) (key : Key) (diff : ℕ)
    → Encodes page t (p ∷ pad)
    → page.size < max_node_reps
    → insert_route page slot key diff ≡ (
        if slot == insert_slot key diff t
        then ok (record page { routes = encode (insert_leaf key diff t) ++ pad })
        else err corrupt_layout)
unfolding insert_route modify_all
insert_route-tree page t pad p slot key diff e room =
    let run =
      insert_route_loop-tree page slot key diff p pad t page.size [] [] 0 [] e.routes
        (omega (arith, e.size)) e.range (omega (arith, e.size)) (omega (arith, e.size)) in
    let zero_add : 0 + insert_slot key diff t ≡ insert_slot key diff t = omega arith in
    let some_leaf : (page.size == 0 || leb max_node_reps page.size) ≡ false =
      ground (arith, e.size, one-le-leaves t) in
    rw some_leaf (rw (← e.size, zero_add) at run)
