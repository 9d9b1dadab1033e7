-- ===== src/Patricia/Page/Deletes.antt =====
-- `DeleteRoute` on a page that encodes a tree takes out one leaf.
mod Steps
use minweight_store_cpp.Base.{ℕ, zero, suc, ◌+◌, ◌-◌, ◌^◌, ◌≤◌, ◌<◌, ltb, leb, ◌==◌, ◌||◌, arith}
use minweight_store_cpp.Base.{if◌then◌else◌, inl, inr, Bool, true, false, Bool-cases, modify, set}
use minweight_store_cpp.Base.{List, [], ◌∷◌, ◌++◌, length, ◌≡◌, refl, sym, ap, ◌∙◌, lt→ltb, le→ltb}
use minweight_store_cpp.Base.{
  append_assoc, append-nil, length-append, Option, none, some, ltb→lt, ltb→le,
}
use minweight_store_cpp.Base.Shifts.{shift_down, close_gap}
use minweight_store_cpp.Patricia.Status.{Result, ok, err, corrupt_layout}
use minweight_store_cpp.Patricia.Key.{max_diff}
use minweight_store_cpp.Patricia.Route
use minweight_store_cpp.Patricia.Route.Laws.{left_count-make, dec_left_count-make}
use minweight_store_cpp.Patricia.Page.{NodePage, max_node_reps}
use minweight_store_cpp.Patricia.Page.Slots.{on_route, has_left}
use minweight_store_cpp.Patricia.Page.Inserts.{modify_all-snoc, modify-append}
use minweight_store_cpp.Patricia.Page.Edit.{
  delete_route_loop, delete_route, delete_route_at, modify_all,
}
use minweight_store_cpp.Patricia.Page.Tree.{
  Tree, leaf, fork, leaves, encode, InRange, Encodes, delete_leaf, leaves-delete_leaf,
  length-encode, one-le-leaves, one-lt-leaves, split_left, split_right, length_left, length_right,
  read_head,
}
use minweight_store_cpp.Patricia.Page.Deletes.Steps.{
  deleted, at_leaf, step_left, step_right, go_left,
}

module _ (page : NodePage) (slot : ℕ) (post : List ℕ) where
  delete_route_loop-tree :
      (d : ℕ) (l r : Tree) (rounds : ℕ) (pre more : List ℕ) (base s : ℕ) (parent : Option ℕ)
      (ancestors : List ℕ)
      → page.routes ≡ pre ++ (encode (fork d l r) ++ (more ++ post))
      → length pre + (leaves l + leaves r) + length more ≡ page.size
      → InRange (fork d l r)
      → leaves l + leaves r ≤ max_node_reps
      → leaves l + leaves r ≤ rounds
      → slot ≡ base + s
      → s < leaves l + leaves r
      → delete_route_loop rounds page slot (length pre) base (leaves l + leaves r) parent ancestors
        ≡ deleted page slot post ancestors
            (pre ++ (encode (delete_leaf s (fork d l r)) ++ (more ++ 0 ∷ post)))
  unfolding delete_leaf
  delete_route_loop-tree d l r zero pre more base s parent ancestors shape total range fits enough
        at inside =
      absurd (omega (arith, one-le-leaves l))
  delete_route_loop-tree d leaf leaf (suc rounds) pre more base s parent ancestors shape total
        (hd, hl, hr) fits enough at inside =
      elim (Bool-cases (ltb s 1)) [
        | inl first ↦
            step_left page slot post d leaf leaf rounds pre more base parent ancestors shape total
              fits hd (omega (arith, ltb→lt s 1 first))
            ∙ at_leaf page slot post rounds (length pre + 1) base ancestors pre more
                (Route.make d 1) shape (omega arith) (omega (arith, ltb→lt s 1 first)) (omega arith)
        | inr second ↦
            step_right page slot post d leaf leaf rounds pre more base parent ancestors shape total
              fits hd (omega (arith, ltb→le s 1 second))
            ∙ at_leaf page slot post rounds (length pre + 1) (base + 1) ancestors pre more
                (Route.make d 1) shape (omega arith) (omega (arith, ltb→le s 1 second))
                (omega arith)
      ]
  delete_route_loop-tree d leaf (fork f u v) (suc rounds) pre more base s parent ancestors shape
        total (hd, hl, hr) fits enough at inside =
      let r = fork f u v in
      let m = Route.make d 1 in
      elim (Bool-cases (ltb s 1)) [
        | inl first ↦ rw first (
            step_left page slot post d leaf r rounds pre more base parent ancestors shape total fits
              hd (omega (arith, ltb→lt s 1 first))
            ∙ at_leaf page slot post rounds (length pre + 1) base ancestors pre (encode r ++ more) m
                (shape ∙ simp append_assoc)
                (omega (arith, length-append (encode r) more, length-encode r))
                (omega (arith, ltb→lt s 1 first)) (omega (arith, one-le-leaves u))
            ∙ simp append_assoc)
        | inr later ↦ rw later (
            step_right page slot post d leaf r rounds pre more base parent ancestors shape total
              fits hd (omega (arith, ltb→le s 1 later))
            ∙ rw (← length_right d leaf r pre (more ++ post)) (
                delete_route_loop-tree f u v rounds (pre ++ m ∷ []) more (base + 1) (s - 1)
                  (some (length pre)) ancestors (shape ∙ split_right d leaf r pre (more ++ post))
                  (omega (arith, length_right d leaf r pre (more ++ post))) hr (omega arith)
                  (omega arith) (omega (arith, ltb→le s 1 later)) (omega (arith, ltb→le s 1 later))
                ∙ simp append_assoc))
      ]
  delete_route_loop-tree d (fork e a b) leaf (suc rounds) pre more base s parent ancestors shape
        total (hd, hl, hr) fits enough at inside =
      let l = fork e a b in
      elim (Bool-cases (ltb s (leaves l))) [
        | inl early ↦ rw early (
            go_left page slot post d l leaf rounds pre more base parent ancestors shape total fits
              (delete_leaf s l) hd (one-lt-leaves e a b pre post)
              (omega (arith, ltb→lt s (leaves l) early))
              (leaves-delete_leaf s l (one-lt-leaves e a b pre post))
              (delete_route_loop-tree e a b rounds (pre ++ Route.make d (leaves l) ∷ []) more base s
                (some (length pre)) (ancestors ++ length pre ∷ [])
                (shape ∙ split_left d l leaf pre (more ++ post))
                (omega (arith, length_left d l leaf pre (more ++ post))) hl (omega arith)
                (omega arith) at (ltb→lt s (leaves l) early)))
        | inr last ↦ rw last (
            step_right page slot post d l leaf rounds pre more base parent ancestors shape total
              fits hd (omega (arith, ltb→le s (leaves l) last))
            ∙ at_leaf page slot post rounds (length pre + leaves l) (base + leaves l) ancestors pre
                (encode l ++ more) (Route.make d (leaves l))
                (shape ∙ simp (append_assoc, append-nil))
                (omega (arith, length-append (encode l) more, length-encode l))
                (omega (arith, ltb→le s (leaves l) last)) (omega (arith, one-le-leaves a))
            ∙ simp append_assoc)
      ]
  delete_route_loop-tree d (fork e a b) (fork f u v) (suc rounds) pre more base s parent ancestors
        shape total (hd, hl, hr) fits enough at inside =
      let l = fork e a b in
      let r = fork f u v in
      elim (Bool-cases (ltb s (leaves l))) [
        | inl early ↦ rw early (
            go_left page slot post d l r rounds pre more base parent ancestors shape total fits
              (delete_leaf s l) hd (one-lt-leaves e a b pre post)
              (omega (arith, ltb→lt s (leaves l) early))
              (leaves-delete_leaf s l (one-lt-leaves e a b pre post))
              (delete_route_loop-tree e a b rounds (pre ++ Route.make d (leaves l) ∷ [])
                (encode r ++ more) base s (some (length pre)) (ancestors ++ length pre ∷ [])
                (shape ∙ split_left d l r pre (more ++ post) ∙ simp append_assoc)
                (omega (
                  arith,
                  length_left d l r pre (more ++ post),
                  length-append (encode r) more,
                  length-encode r,
                ))
                hl (omega arith) (omega (arith, one-le-leaves u)) at (ltb→lt s (leaves l) early)))
        | inr later ↦ rw later (
            step_right page slot post d l r rounds pre more base parent ancestors shape total fits
              hd (omega (arith, ltb→le s (leaves l) later))
            ∙ rw (← length_right d l r pre (more ++ post)) (
                delete_route_loop-tree f u v rounds (pre ++ Route.make d (leaves l) ∷ encode l) more
                  (base + leaves l) (s - leaves l) (some (length pre)) ancestors
                  (shape ∙ split_right d l r pre (more ++ post))
                  (omega (arith, length_right d l r pre (more ++ post))) hr (omega arith)
                  (omega (arith, one-le-leaves a)) (omega (arith, ltb→le s (leaves l) later))
                  (omega (arith, ltb→le s (leaves l) later))
                ∙ simp append_assoc))
      ]

-- On a page that encodes a tree of two leaves or more, `DeleteRoute` at a slot of the page succeeds;
-- the routes are then those of the tree without that leaf, with a cleared word behind them.
pub delete_route-tree :
    (page : NodePage) (d : ℕ) (l r : Tree) (pad : List ℕ) (slot : ℕ)
    → Encodes page (fork d l r) pad
    → slot < page.size
    → delete_route page slot
      ≡ ok (record page { routes = encode (delete_leaf slot (fork d l r)) ++ 0 ∷ pad })
unfolding delete_route modify_all
delete_route-tree page d l r pad slot e inside =
    let run =
      delete_route_loop-tree page slot pad d l r page.size [] [] 0 slot none [] e.routes
        (omega (arith, e.size)) e.range e.fits (omega (arith, e.size)) (omega arith)
        (omega (arith, e.size)) in
    let legal : (leb page.size 1 || leb page.size slot) ≡ false =
      ground (arith, e.size, one-le-leaves l, one-le-leaves r) in
    rw legal (rw (← e.size) at run)
