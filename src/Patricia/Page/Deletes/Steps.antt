-- ===== src/Patricia/Page/Deletes/Steps.antt =====
-- `DeleteRoute` on a page that encodes a tree: the rounds of its loop.
use minweight_store_cpp.Base.{ℕ, zero, suc, ◌+◌, ◌-◌, ◌^◌, ◌≤◌, ◌<◌, ltb, ◌==◌, arith}
use minweight_store_cpp.Base.{if◌then◌else◌, true, modify}
use minweight_store_cpp.Base.{List, [], ◌∷◌, ◌++◌, length, ◌≡◌, ap, ◌∙◌, lt→ltb, le→ltb}
use minweight_store_cpp.Base.{append_assoc, Option, some}
use minweight_store_cpp.Base.Shifts.{close_gap}
use minweight_store_cpp.Patricia.Status.{Result, ok}
use minweight_store_cpp.Patricia.Key.{max_diff}
use minweight_store_cpp.Patricia.Route
use minweight_store_cpp.Patricia.Route.Laws.{left_count-make, dec_left_count-make}
use minweight_store_cpp.Patricia.Page.{NodePage, max_node_reps}
use minweight_store_cpp.Patricia.Page.Slots.{on_route, has_left}
use minweight_store_cpp.Patricia.Page.Inserts.{modify_all-snoc, modify-append}
use minweight_store_cpp.Patricia.Page.Edit.{delete_route_loop, delete_route_at, modify_all}
use minweight_store_cpp.Patricia.Page.Tree.{
  Tree, fork, leaves, encode, one-le-leaves, one-lt-leaves, length_left, read_head,
}

-- The route `m` behind `pre` goes, and the freed word at the end is cleared.
delete_route_at-gap :
    (page : NodePage) (ancestors pre mid post : List ℕ) (m : ℕ)
    → page.routes ≡ pre ++ m ∷ (mid ++ post)
    → length pre + length mid + 2 ≡ page.size
    → delete_route_at page (length pre) ancestors ≡ record page {
      routes = modify_all Route.dec_left_count ancestors (pre ++ (mid ++ 0 ∷ post));
    }
unfolding delete_route_at
delete_route_at-gap page ancestors pre mid post m shape total =
    let rounds : page.size - 2 - length pre ≡ length mid = omega arith in
    let last : page.size - 2 ≡ length pre + length mid = omega arith in
    ap (λ (rs : List ℕ). record page { routes = modify_all Route.dec_left_count ancestors rs })
      (rw (rounds, last, shape) (close_gap pre mid post m 0 0))

module _ (page : NodePage) (slot : ℕ) (post : List ℕ) where
  abbrev pub deleted : List ℕ → List ℕ → Result NodePage
  deleted ancestors routes =
      ok (record page { routes = modify_all Route.dec_left_count ancestors routes })

  -- A left step puts the fork on the list of ancestors; its left count falls by one at the end.
  pub deleted_left :
      (d : ℕ) (l l' : Tree) (ancestors pre rest : List ℕ)
      → d ≤ max_diff
      → leaves l < 2 ^ 15
      → leaves l' + 1 ≡ leaves l
      → deleted (ancestors ++ length pre ∷ []) ((pre ++ Route.make d (leaves l) ∷ []) ++ rest)
        ≡ deleted ancestors (pre ++ Route.make d (leaves l') ∷ rest)
  deleted_left d l l' ancestors pre rest hd small one_less =
      let count : Route.dec_left_count (Route.make d (leaves l)) ≡ Route.make d (leaves l') =
        rw (← one_less) (dec_left_count-make d (leaves l') hd (omega arith)) in
      ap (λ rs. ok (record page { routes = rs }))
        (modify_all-snoc Route.dec_left_count ancestors (length pre) _
          ∙ ap (modify_all Route.dec_left_count ancestors) (
              ap (λ rs. modify rs (length pre) Route.dec_left_count)
                (append_assoc pre (Route.make d (leaves l) ∷ []) rest)
              ∙ modify-append Route.dec_left_count pre rest (Route.make d (leaves l))
              ∙ rw count))

  -- The round on the leaf to delete.
  pub at_leaf :
      (rounds idx base : ℕ) (ancestors pre mid : List ℕ) (m : ℕ)
      → page.routes ≡ pre ++ m ∷ (mid ++ post)
      → length pre + length mid + 2 ≡ page.size
      → base ≡ slot
      → 1 ≤ rounds
      → delete_route_loop rounds page slot idx base 1 (some (length pre)) ancestors
        ≡ deleted ancestors (pre ++ (mid ++ 0 ∷ post))
  unfolding delete_route_loop
  at_leaf zero idx base ancestors pre mid m shape total same enough = absurd (omega arith)
  at_leaf (suc rounds) idx base ancestors pre mid m shape total same enough =
      let here : (base == slot) ≡ true = ground arith in
      rw here (ap ok (delete_route_at-gap page ancestors pre mid post m shape total))

  module _ (d : ℕ) (l r : Tree) (rounds : ℕ) (pre more : List ℕ) (base : ℕ) (parent : Option ℕ)
      (ancestors : List ℕ) (shape : page.routes ≡ pre ++ (encode (fork d l r) ++ (more ++ post)))
      (total : length pre + (leaves l + leaves r) + length more ≡ page.size)
      (fits : leaves l + leaves r ≤ max_node_reps) where
    hd_small : leaves l < 2 ^ 15
    hd_small = omega (arith, one-le-leaves r)

    -- One round on a fork, to either side.
    pub step_left :
        d ≤ max_diff
        → slot < base + leaves l
        → delete_route_loop
            (suc rounds)
            page
            slot
            (length pre)
            base
            (leaves l + leaves r)
            parent
            ancestors
          ≡ delete_route_loop rounds page slot
              (length pre + 1)
              base
              (leaves l)
              (some (length pre))
              (if ltb 1 (leaves l) then ancestors ++ length pre ∷ [] else ancestors)
    unfolding delete_route_loop
    step_left hd side =
        let left = left_count-make d (leaves l) hd hd_small in
        rw (
          lt→ltb 1 (leaves l + leaves r) (one-lt-leaves d l r pre post),
          on_route page.size (length pre) (omega (arith, one-le-leaves l, one-le-leaves r)),
          rw (← shape) at (read_head d l r pre (more ++ post)),
          left,
          has_left (leaves l) (leaves l + leaves r) (one-le-leaves l)
              (omega (arith, one-le-leaves r)),
          left,
          lt→ltb slot (base + leaves l) side,
          left,
          delete_route_loop,
        )

    pub step_right :
        d ≤ max_diff
        → base + leaves l ≤ slot
        → delete_route_loop
            (suc rounds)
            page
            slot
            (length pre)
            base
            (leaves l + leaves r)
            parent
            ancestors
          ≡ delete_route_loop rounds page slot
              (length pre + leaves l)
              (base + leaves l)
              (leaves r)
              (some (length pre))
              ancestors
    unfolding delete_route_loop
    step_right hd side =
        let left = left_count-make d (leaves l) hd hd_small in
        let rest : leaves l + leaves r - leaves l ≡ leaves r = omega arith in
        rw (
          lt→ltb 1 (leaves l + leaves r) (one-lt-leaves d l r pre post),
          on_route page.size (length pre) (omega (arith, one-le-leaves l, one-le-leaves r)),
          rw (← shape) at (read_head d l r pre (more ++ post)),
          left,
          has_left (leaves l) (leaves l + leaves r) (one-le-leaves l)
              (omega (arith, one-le-leaves r)),
          left,
          le→ltb slot (base + leaves l) side,
          left,
          rest,
          delete_route_loop,
        )

    -- The whole left step: the rounds on the left part, and the ancestor's count.
    pub go_left :
        (l' : Tree)
        → d ≤ max_diff
        → 1 < leaves l
        → slot < base + leaves l
        → leaves l' + 1 ≡ leaves l
        → delete_route_loop rounds page slot
            (length (pre ++ Route.make d (leaves l) ∷ []))
            base
            (leaves l)
            (some (length pre))
            (ancestors ++ length pre ∷ [])
          ≡ deleted (ancestors ++ length pre ∷ []) (
              (pre ++ Route.make d (leaves l) ∷ [])
              ++ (encode l' ++ ((encode r ++ more) ++ 0 ∷ post)))
        → delete_route_loop
            (suc rounds)
            page
            slot
            (length pre)
            base
            (leaves l + leaves r)
            parent
            ancestors
          ≡ deleted ancestors (pre ++ (encode (fork d l' r) ++ (more ++ 0 ∷ post)))
    go_left l' hd several side one_less run =
        step_left hd side
        ∙ rw (lt→ltb 1 (leaves l) several, ← length_left d l r pre post) run
        ∙ deleted_left d l l' ancestors pre (encode l' ++ ((encode r ++ more) ++ 0 ∷ post)) hd
            hd_small one_less
        ∙ simp append_assoc
