-- ===== src/Patricia/Index/Walk/Trails.antt =====
-- Where an iteration stands in a tree of pages, and what is still before it.
use minweight_store_cpp.Base.{ℕ, zero, suc, ◌+◌, ◌-◌, ◌≤◌, ◌<◌, bit_or, arith}
use minweight_store_cpp.Base.{
  none, some, List, [], ◌∷◌, ◌++◌, length, get_elem?, set, take, ◌≡◌, sym, ◌∙◌, refl, length-append,
  set-append, take-length, get_elem?-append, get_elem?-eq_some, All, inl, inr, leb, get_or,
  Bool-cases, Option-cases,
}
use mathlib.Core.Path.{subst}
use minweight_store_cpp.Base.Prefixes.{get_elem?-append_lt}
use minweight_store_cpp.Patricia.Status.{ok, err-ne-ok}
use minweight_store_cpp.Patricia.Route.{child_tag}
use minweight_store_cpp.Patricia.Page.{NodePage}
use minweight_store_cpp.Patricia.Page.Tree.{Tree}
use minweight_store_cpp.Patricia.Nodes.{HeapNodeStore, get_node}
use minweight_store_cpp.Patricia.Index.{PutFrame}
use minweight_store_cpp.Patricia.Index.Act.{page_at}
use minweight_store_cpp.Patricia.Index.Path.{IterPath, at, set_at, truncate}
use minweight_store_cpp.Patricia.Index.Path.Frames.{Shows, at-Shows, set_at-Shows, truncate-Shows}
use minweight_store_cpp.Patricia.Index.Read.{rep_at}
use minweight_store_cpp.Patricia.Index.Forest.{
  Forest, no_more, record_then, child_then, entries, reps_of, positions, depth, IsPage, Held,
}

-- A page on the way, with the entry at which the iteration is.
pub record Stop : Type 0 where
  pub id : ℕ
  pub tree : Tree
  pub forest : Forest
  pub leaf : ℕ

abbrev pub frame_of : Stop → PutFrame
frame_of stop = record { id = stop.id; node = some stop.id; leaf = stop.leaf }

-- The frames of a path, from the root on. The innermost stop is the head of its list.
abbrev pub frames_of : List Stop → List PutFrame
frames_of [] = []
frames_of (stop ∷ stops) = frames_of stops ++ (frame_of stop ∷ [])

abbrev pub skip : ℕ → Forest → Forest
skip zero f = f
skip (suc n) no_more = no_more
skip (suc n) (record_then pos rest) = skip n rest
skip (suc n) (child_then id t child rest) = skip n rest

-- The records behind the entry at which the iteration is.
abbrev pub remaining : List Stop → List ℕ
remaining [] = []
remaining (stop ∷ stops) = positions (skip (suc stop.leaf) stop.forest) ++ remaining stops

pub record IsStop (nodes : HeapNodeStore) (deep : ℕ) (stop : Stop) : Type 0 where
  pub page : IsPage nodes stop.id stop.tree stop.forest
  pub held : Held nodes stop.forest
  pub inside : stop.leaf < entries stop.forest
  pub shallow : depth stop.forest ≤ suc deep

-- The iteration stands at the record `pos`, with the records `rest` before it.
pub record StandsAt (nodes : HeapNodeStore) (deep : ℕ) (path : IterPath) (pos : ℕ) (rest : List ℕ)
    : Type 0 where
  pub stop : Stop
  pub stops : List Stop
  pub shows : Shows path (frames_of (stop ∷ stops))
  pub valid : All (IsStop nodes deep) (stop ∷ stops)
  pub here : get_elem? (reps_of stop.forest) stop.leaf ≡ some pos
  pub small : pos < child_tag
  pub before : remaining (stop ∷ stops) ≡ rest

-- What stands at entry `n`.
pub data Entry (nodes : HeapNodeStore) (f : Forest) (n : ℕ) : Type 0 where
  record_entry :
      (pos : ℕ)
      → pos < child_tag
      → get_elem? (reps_of f) n ≡ some pos
      → positions (skip n f) ≡ pos ∷ positions (skip (suc n) f)
      → Entry nodes f n
  child_entry :
      (id : ℕ) (t : Tree) (child : Forest)
      → id < child_tag
      → get_elem? (reps_of f) n ≡ some (bit_or child_tag id)
      → IsPage nodes id t child
      → Held nodes child
      → suc (depth child) ≤ depth f
      → positions (skip n f) ≡ positions child ++ positions (skip (suc n) f)
      → Entry nodes f n

pub look :
    (nodes : HeapNodeStore) (f : Forest) (n : ℕ) → Held nodes f → n < entries f → Entry nodes f n
look nodes no_more n h lt = absurd (omega arith)
look nodes (record_then pos rest) zero (small, h) lt = record_entry pos small refl refl
look nodes (record_then pos rest) (suc n) (small, h) lt = elim (look nodes rest n h (omega arith)) [
  | record_entry p small here split ↦ record_entry p small here split
  | child_entry id t child small here is held deep split ↦
      child_entry id t child small here is held deep split
]
look nodes (child_then id t child rest) zero (small, is, held, h) lt =
    child_entry id t child small refl is held (omega arith) refl
look nodes (child_then i u c rest) (suc n) (small, is, held, h) lt =
    elim (look nodes rest n h (omega arith)) [
      | record_entry p small here split ↦ record_entry p small here split
      | child_entry id t child small here is held deep split ↦
          child_entry id t child small here is held (omega arith) split
    ]

pub skip_all : (f : Forest) (n : ℕ) → entries f ≤ n → positions (skip n f) ≡ []
skip_all no_more zero h = refl
skip_all no_more (suc n) h = refl
skip_all (record_then pos rest) zero h = absurd (omega arith)
skip_all (record_then pos rest) (suc n) h = skip_all rest n (omega arith)
skip_all (child_then id t child rest) zero h = absurd (omega arith)
skip_all (child_then id t child rest) (suc n) h = skip_all rest n (omega arith)

-- What `NodeStore::Get` finds is there for a pointer.
page_at-get_node :
    (nodes : HeapNodeStore) (id : ℕ) (page : NodePage)
    → get_node nodes id ≡ ok page
    → page_at nodes id ≡ ok page
unfolding get_node
page_at-get_node nodes id page e = elim (Bool-cases (leb (length nodes.nodes) id)) [
  | inl out ↦ absurd (err-ne-ok (rw out at e))
  | inr in_range ↦ elim (Option-cases (get_or nodes.nodes id none)) [
    | inl gone ↦ absurd (err-ne-ok (rw (in_range, gone) at e))
    | inr (found, there) ↦ rw (there, page_at) (rw (in_range, there) at e)
  ]
]

-- A page reads the entries of its forest, also through a pointer.
module _ (nodes : HeapNodeStore) (id : ℕ) (t : Tree) (f : Forest) (is : IsPage nodes id t f) where
  pub size-IsPage : is.page.size ≡ entries f
  size-IsPage = is.encodes.size ∙ sym is.count

  pub rep_at-IsPage : (n rep : ℕ) → get_elem? (reps_of f) n ≡ some rep → rep_at is.page n ≡ ok rep
  rep_at-IsPage n rep e =
      let r = is.reps in
      let inside = get_elem?-eq_some (reps_of f) n rep e in
      let there : get_elem? is.page.reps n ≡ some rep =
        rw r (get_elem?-append_lt (reps_of f) is.rest n inside ∙ e) in
      rw there refl

  pub page_at-IsPage : page_at nodes id ≡ ok is.page
  page_at-IsPage = page_at-get_node nodes id is.page is.here

-- The last frame of a path.
module _ (path : IterPath) (stop : Stop) (stops : List Stop)
    (w : Shows path (frames_of (stop ∷ stops))) where
  pub len-Shows : path.len ≡ suc (length (frames_of stops))
  len-Shows = w.len ∙ length-append (frames_of stops) (frame_of stop ∷ []) ∙ omega arith

  pub back-Shows : path.len - 1 ≡ length (frames_of stops)
  back-Shows = omega (arith, len-Shows)

  pub at-last : at path (path.len - 1) ≡ some (frame_of stop)
  at-last =
      let e = back-Shows in
      let all = frames_of (stop ∷ stops) in
      let size : length all ≡ length (frames_of stops) + 1 =
        length-append (frames_of stops) (frame_of stop ∷ []) in
      rw e (
        at-Shows path all w (length (frames_of stops)) (omega arith)
        ∙ get_elem?-append (frames_of stops) [] (frame_of stop))

  pub truncate-last : Shows (truncate path (path.len - 1)) (frames_of stops)
  truncate-last =
      let e = back-Shows in
      let all = frames_of (stop ∷ stops) in
      let size : length all ≡ length (frames_of stops) + 1 =
        length-append (frames_of stops) (frame_of stop ∷ []) in
      let cut : take (length (frames_of stops)) all ≡ frames_of stops =
        take-length (frames_of stops) (frame_of stop ∷ []) in
      rw e (
        subst (Shows (truncate path (length (frames_of stops)))) cut
          (truncate-Shows path all w (length (frames_of stops)) (omega arith)))

  pub set_at-last :
      (other : Stop)
      → Shows (set_at path (path.len - 1) (frame_of other)) (frames_of (other ∷ stops))
  set_at-last other =
      let e = back-Shows in
      let all = frames_of (stop ∷ stops) in
      let size : length all ≡ length (frames_of stops) + 1 =
        length-append (frames_of stops) (frame_of stop ∷ []) in
      let put : set all (length (frames_of stops)) (frame_of other) ≡ frames_of (other ∷ stops) =
        set-append (frames_of stops) [] (frame_of stop) (frame_of other) in
      rw e (
        subst (Shows (set_at path (length (frames_of stops)) (frame_of other))) put
          (set_at-Shows path all w (length (frames_of stops)) (frame_of other) (omega arith)))
