-- ===== src/Patricia/Index/Puts/Pages.antt =====
-- index.h, `InsertAtIncremental` on a page of the tree that has room.
use minweight_store_cpp.Base.{ℕ, suc, ◌+◌, ◌-◌, ◌≤◌, ◌<◌, ltb, leb, ◌==◌, ◌||◌, arith}
use minweight_store_cpp.Base.{
  List, [], ◌∷◌, ◌++◌, length, take, drop, set, ◌≡◌, sym, ap, ◌∙◌, refl, inl, inr, Bool, Bool-cases,
  true, false, if◌then◌else◌, length-append, length-take, length-drop, take-append-drop,
  append_assoc,
}
use mathlib.Core.Path.{subst}
use minweight_store_cpp.Base.Shifts.{shift_up, open_gap}
use minweight_store_cpp.Patricia.Status.{Result, ok, err-ne-ok}
use minweight_store_cpp.Patricia.Key.{Key, max_diff}
use minweight_store_cpp.Patricia.Route.{child_tag}
use minweight_store_cpp.Patricia.Route.Reps.{record_rep}
use minweight_store_cpp.Patricia.Page.{NodePage, max_node_reps}
use minweight_store_cpp.Patricia.Page.Edit.{insert_route}
use minweight_store_cpp.Patricia.Page.Inserts.{insert_route-tree}
use minweight_store_cpp.Patricia.Page.Tree.{
  Tree, leaves, encode, Encodes, insert_slot, insert_leaf, leaves-insert_leaf, InRange-insert_leaf,
  length-encode, one-le-leaves,
}
use minweight_store_cpp.Patricia.Nodes.{HeapNodeStore, get_node}
use minweight_store_cpp.Patricia.Index.Act.{set_page, follow}
use minweight_store_cpp.Patricia.Index.Read.{min_pos, max_pos}
use minweight_store_cpp.Patricia.Index.Writes.{insert_bounds, insert_at_incremental}
use minweight_store_cpp.Patricia.Index.Forest.{Forest, reps_of, IsPage}
use minweight_store_cpp.Patricia.Index.Forest.Insertion.{insert_slot-le}
use minweight_store_cpp.Patricia.Index.Forest.Growth.{
  insert_record, entries-insert_record, length-reps_of, reps_of-insert_record, get_node-set_self,
}

id_in_range :
    (nodes : HeapNodeStore) (id : ℕ) (page : NodePage)
    → get_node nodes id ≡ ok page
    → id < length nodes.nodes
unfolding get_node
id_in_range nodes id page e = elim (Bool-cases (leb (length nodes.nodes) id)) [
  | inl out ↦ absurd (err-ne-ok (rw out at e))
  | inr in_range ↦ ground arith
]

-- A list longer than its front has an element behind it.
next_of :
    {A : Type 0} (front rest : List A) (n : ℕ)
    → length (front ++ rest) ≡ n
    → length front < n
    → (a : A) × (more : List A) × (rest ≡ a ∷ more)
next_of front [] n total lt = absurd (omega (arith, length-append front []))
next_of front (a ∷ more) n total lt = (a, more, refl)

-- The gap in the entries.
reps_with :
    (reps front rest : List ℕ) (x n slot pos : ℕ)
    → reps ≡ front ++ x ∷ rest
    → slot ≤ length front
    → n ≡ length front
    → set (shift_up 0 slot (n - slot) reps) slot pos
      ≡ (take slot front ++ pos ∷ drop slot front) ++ rest
reps_with reps front rest x n slot pos shape le count =
    let at : length (take slot front) ≡ slot = omega (arith, length-take slot front) in
    let more : length (drop slot front) ≡ n - slot = omega (arith, length-drop slot front) in
    let split : reps ≡ take slot front ++ (drop slot front ++ x ∷ rest) =
      shape
      ∙ ap (λ t. t ++ x ∷ rest) (sym (take-append-drop slot front))
      ∙ append_assoc (take slot front) (drop slot front) (x ∷ rest) in
    let gap = open_gap (take slot front) (drop slot front) rest x pos 0 in
    rw split
      (rw (at, more) at gap ∙ sym (append_assoc (take slot front) (pos ∷ drop slot front) rest))

-- One route more, and one free word less.
routes_kept :
    (page : NodePage) (t : Tree) (pad : List ℕ) (p : ℕ) (bigger : Tree) {old : List ℕ}
    → Encodes page t old
    → old ≡ p ∷ pad
    → leaves bigger ≡ leaves t + 1
    → length (encode bigger ++ pad) ≡ max_node_reps - 1
routes_kept page t pad p bigger {old} e free more =
    let before : length (encode t) + length old ≡ max_node_reps - 1 =
      sym (length-append (encode t) old)
      ∙ ap (λ (xs : List ℕ). length xs) (sym e.routes)
      ∙ e.total in
    let one_less : length old ≡ suc (length pad) = ap (λ (xs : List ℕ). length xs) free in
    length-append (encode bigger) pad ∙ omega (arith, length-encode t, length-encode bigger)

-- The entries of the page once the new one is among them.
grown_reps :
    (nodes : HeapNodeStore) (id : ℕ) (t : Tree) (f : Forest) (is : IsPage nodes id t f)
    (slot pos : ℕ)
    → leaves t < max_node_reps
    → slot ≤ leaves t
    → (rest : List ℕ) × (set (shift_up 0 slot (is.page.size - slot) is.page.reps) slot pos
        ≡ reps_of (insert_record slot pos f) ++ rest)
      × (length (set (shift_up 0 slot (is.page.size - slot) is.page.reps) slot pos) ≡ max_node_reps)
grown_reps nodes id t f is slot pos room le =
    let count = length-reps_of f in
    let new = insert_record slot pos f in
    let total : length (reps_of f ++ is.rest) ≡ max_node_reps =
      ap (λ (xs : List ℕ). length xs) (sym is.reps) ∙ is.room in
    let (x, rest, behind) =
      next_of (reps_of f) is.rest max_node_reps total (omega (arith, is.count)) in
    let gap =
      reps_with is.page.reps (reps_of f) rest x is.page.size slot pos
        (is.reps ∙ ap (λ (xs : List ℕ). reps_of f ++ xs) behind) (omega (arith, is.count))
        (omega (arith, is.count, is.encodes.size)) in
    let reps =
      gap
      ∙ ap (λ (xs : List ℕ). xs ++ rest)
          (sym (reps_of-insert_record slot pos f (omega (arith, is.count)))) in
    let one_less : length is.rest ≡ suc (length rest) = ap (λ (xs : List ℕ). length xs) behind in
    (
      rest,
      reps,
      ap (λ (xs : List ℕ). length xs) reps
          ∙ length-append (reps_of new) rest
          ∙ omega (
            arith,
            length-append (reps_of f) is.rest,
            length-reps_of new,
            entries-insert_record slot pos f,
          ),
    )

if_ok :
    (test : Bool) (r : Result ℕ) (v w : ℕ)
    → r ≡ ok v
    → (u : ℕ) × ((if test then r else ok w) ≡ ok u)
if_ok true r v w e = (v, e)
if_ok false r v w e = (w, refl)

-- The page with the new entry.
abbrev grown : NodePage → List ℕ → ℕ → ℕ → ℕ → ℕ → NodePage
grown page routes slot pos first last = record page {
  routes = routes;
  reps = set (shift_up 0 slot (page.size - slot) page.reps) slot pos;
  size = page.size + 1;
  first_pos = first;
  last_pos = last;
}

module _ (records : ℕ → Result Key) (nodes : HeapNodeStore) where
  bounds_found :
      (page : NodePage) (slot pos : ℕ)
      → pos < child_tag
      → ((first : ℕ) × ((insert_bounds records nodes page slot pos).0 ≡ ok first))
        × ((last : ℕ) × ((insert_bounds records nodes page slot pos).1 ≡ ok last))
  unfolding insert_bounds min_pos max_pos
  bounds_found page slot pos small =
      let (plain, at) = record_rep pos small in
      let low : min_pos nodes pos ≡ ok pos = rw (plain, at, min_pos) refl in
      let high : max_pos nodes pos ≡ ok pos = rw (plain, at, max_pos) refl in
      (
        if_ok (page.size == 0 || slot == 0) (min_pos nodes pos) pos page.first_pos low,
        if_ok (page.size == 0 || slot == page.size) (max_pos nodes pos) pos page.last_pos high,
      )

  pub grow_page :
      (id : ℕ) (t : Tree) (f : Forest) (key : Key) (d pos : ℕ)
      → (is : IsPage nodes id t f) → leaves t < max_node_reps
      → pos < child_tag
      → d ≤ max_diff
      → (page : NodePage) × (insert_at_incremental records id (insert_slot key d t) pos key d nodes
          ≡ (set_page nodes id page, ok tt))
        × IsPage
            (set_page nodes id page)
            id
            (insert_leaf key d t)
            (insert_record (insert_slot key d t) pos f)
  unfolding insert_at_incremental
  grow_page id t f key d pos is room small fits =
      let node = is.page in
      let here = is.here in
      let e = is.encodes in
      let slot = insert_slot key d t in
      let le = insert_slot-le key d t in
      let size = e.size in
      let some_leaf = one-le-leaves t in
      let ((first, is_first), (last, is_last)) = bounds_found node slot pos small in
      let (p, pad, free) =
        next_of (encode t) is.pad (max_node_reps - 1)
          (ap (λ (xs : List ℕ). length xs) (sym e.routes) ∙ e.total)
          (omega (arith, length-encode t)) in
      let routes = encode (insert_leaf key d t) ++ pad in
      let same_slot : (slot == slot) ≡ true = ground arith in
      let routed : insert_route node slot key d ≡ ok (record node { routes = routes }) =
        insert_route-tree node t pad p slot key d (subst (Encodes node t) free e) (omega arith)
        ∙ rw same_slot refl in
      let in_page : ltb node.size slot ≡ false = ground arith in
      let has_room : leb max_node_reps node.size ≡ false = ground arith in
      let full : (node.size == 0) ≡ false = ground arith in
      let page = grown node routes slot pos first last in
      let run : insert_at_incremental records id slot pos key d nodes
          ≡ (set_page nodes id page, ok tt) =
        rw
          (here, follow, in_page, has_room, is_first, follow, is_last, follow, full, routed, follow)
          refl in
      let total =
        routes_kept node t pad p (insert_leaf key d t) e free (leaves-insert_leaf key d t) in
      let (rest, reps, kept) = grown_reps nodes id t f is slot pos room le in
      (
        page,
        run,
        record {
          page = page;
          here = get_node-set_self nodes id page (id_in_range nodes id node here);
          pad = pad;
          encodes = record {
            size = omega (arith, leaves-insert_leaf key d t);
            routes = refl;
            total = total;
            fits = omega (arith, leaves-insert_leaf key d t);
            range = InRange-insert_leaf key d t fits e.range;
          };
          count =
              entries-insert_record slot pos f
              ∙ omega (arith, is.count, leaves-insert_leaf key d t);
          rest = rest;
          reps = reps;
          room = kept;
        },
      )
