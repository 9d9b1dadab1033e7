-- ===== src/Patricia/Index/Walk/Ascents.antt =====
-- index.h: `Ascend`, `AscendLessThan` and their loop on a tree of pages.
use minweight_store_cpp.Base.{ℕ, zero, suc, ◌≤◌, ◌<◌, ◌==◌, leb, arith}
use minweight_store_cpp.Base.{
  Option, none, some, List, [], ◌∷◌, ◌++◌, length, ◌≡◌, refl, All, Bool, true, false, inl, inr,
  Bool-cases, append-nil,
}
use mathlib.Core.Path.{subst}
use minweight_store_cpp.Patricia.Status.{Result, ok, ◌>>=◌}
use minweight_store_cpp.Patricia.Key.{Key, check_key_size}
use minweight_store_cpp.Patricia.Route.Reps.{record_rep}
use minweight_store_cpp.Patricia.Page.Tree.{Tree, one-le-leaves}
use minweight_store_cpp.Patricia.Nodes.{HeapNodeStore}
use minweight_store_cpp.Patricia.Index.{Index}
use minweight_store_cpp.Patricia.Index.Path.{IterPath, new_path, reset}
use minweight_store_cpp.Patricia.Index.Path.Frames.{Shows}
use minweight_store_cpp.Patricia.Index.Read.{key_at}
use minweight_store_cpp.Patricia.Index.Seek.{Found, node_for_frame, leftmost_root, next_path}
use minweight_store_cpp.Patricia.Index.Forest.{Forest, All-positions, positions, depth, Holds}
use minweight_store_cpp.Patricia.Index.Walk.{
  Walked, at_upper, from_path, visit, current_record, ascend_from_path, ascend, ascend_less_than,
}
use minweight_store_cpp.Patricia.Index.Walk.Trails.{
  StandsAt, size-IsPage, rep_at-IsPage, page_at-IsPage, len-Shows, at-last,
}
use minweight_store_cpp.Patricia.Index.Walk.Steps.{
  Reaches, leftmost_record-Reaches, next_path-Reaches,
}

module _ {ℓ} {S : Type ℓ} (records : ℕ → Result Key) (keys : ℕ → Key)
    (fn : S → Key → ℕ → S × Bool) where
  -- The callback on one record after the other, until it says stop or a key is out of bounds.
  abbrev pub walk : (Key → Bool) → List ℕ → S → S
  walk out [] s = s
  walk out (pos ∷ rest) s = elim (out (keys pos)) [
    | true ↦ s
    | false ↦ elim ((fn s (keys pos) pos).1) [
      | false ↦ (fn s (keys pos) pos).0
      | true ↦ walk out rest (fn s (keys pos) pos).0
    ]
  ]

  abbrev pub Readable : ℕ → Type 0
  Readable pos = key_at records pos ≡ ok (keys pos)

  module _ (nodes : HeapNodeStore) (deep : ℕ) where
    current_record-StandsAt :
        (path : IterPath) (pos : ℕ) (rest : List ℕ)
        → StandsAt nodes deep path pos rest
        → Readable pos
        → current_record records nodes path ≡ ok (record { key = keys pos; pos = pos })
    unfolding current_record node_for_frame
    current_record-StandsAt path pos rest at read =
        let stop = at.stop in
        let is = at.valid.0 in
        let more : (path.len == 0) ≡ false =
          ground (arith, len-Shows path stop at.stops at.shows) in
        let last = at-last path stop at.stops at.shows in
        let ptr = page_at-IsPage nodes stop.id stop.tree stop.forest is.page in
        let size = size-IsPage nodes stop.id stop.tree stop.forest is.page in
        let inside : leb is.page.page.size stop.leaf ≡ false = ground (arith, is.inside) in
        let here =
          rep_at-IsPage nodes stop.id stop.tree stop.forest is.page stop.leaf pos at.here in
        let (plain, is_at) = record_rep pos at.small in
        rw
          (
            current_record, more, last, ◌>>=◌, ptr, ◌>>=◌, inside, here, ◌>>=◌, plain, is_at, read,
            ◌>>=◌,
          )
          refl

    -- The callback goes on from what a step reaches.
    continue :
        (out : Key → Bool) (found : Found) (rest : List ℕ) (s : S) (walker : IterPath → Walked S)
        → Reaches nodes deep found rest
        → All Readable rest
        → ((path : IterPath) (pos : ℕ) (more : List ℕ)
            → StandsAt nodes deep path pos more
            → All Readable (pos ∷ more)
            → length more < length rest
            → walker path ≡ (walk out (pos ∷ more) s, ok tt))
        → from_path found s walker ≡ (walk out rest s, ok tt)
    continue out found [] s walker none_left reads go = rw none_left refl
    continue out found (pos ∷ more) s walker (path, e, at) reads go =
        rw e (go path pos more at reads (omega arith))

    ascend_from_path-walk :
        (rounds : ℕ) (path : IterPath) (pos : ℕ) (rest : List ℕ) (upper : Option Key) (s : S)
        → StandsAt nodes deep path pos rest
        → All Readable (pos ∷ rest)
        → length rest < rounds
        → ascend_from_path records fn rounds deep nodes path upper s
          ≡ (walk (at_upper upper) (pos ∷ rest) s, ok tt)
    unfolding ascend_from_path
    ascend_from_path-walk zero path pos rest upper s at (read, reads) low = absurd (omega arith)
    ascend_from_path-walk (suc rounds) path pos rest upper s at (read, reads) low =
        let more : (path.len == 0) ≡ false =
          ground (arith, len-Shows path at.stop at.stops at.shows) in
        let item = current_record-StandsAt path pos rest at read in
        let next = next_path-Reaches nodes deep path at.stop at.stops at.shows at.valid in
        elim (Bool-cases (at_upper upper (keys pos))) [
          | inl out ↦ rw (ascend_from_path, more, item, visit, out, walk) refl
          | inr inside ↦ elim (Bool-cases (fn s (keys pos) pos).1) [
            | inr stop ↦ rw (ascend_from_path, more, item, visit, inside, stop, walk) refl
            | inl go ↦
                rw (ascend_from_path, more, item, visit, inside, go, walk)
                  (continue (at_upper upper) (next_path deep nodes path) rest
                    (fn s (keys pos) pos).0
                    (λ moved.
                      ascend_from_path records fn rounds deep nodes moved upper
                        (fn s (keys pos) pos).0)
                    (subst (Reaches nodes deep (next_path deep nodes path)) at.before next) reads
                    (λ path2 pos2 rest2 at2 reads2 low2.
                      ascend_from_path-walk rounds path2 pos2 rest2 upper (fn s (keys pos) pos).0
                        at2 reads2 (omega arith)))
          ]
        ]

pub new_path-Shows : Shows (reset new_path) []
unfolding reset
new_path-Shows = record {
  full = refl;
  len = refl;
  over = omega arith;
  unused = new_path.stack;
  both = append-nil new_path.stack;
}

-- `Ascend` and `AscendLessThan` show the callback these records, in this order.
abbrev pub AscendAnswer {ℓ} :
    {S : Type ℓ}
    → (ℕ → Result Key)
    → (ℕ → Key)
    → (S → Key → ℕ → S × Bool)
    → ℕ
    → ℕ
    → Index
    → List ℕ
    → S
    → Type ℓ
AscendAnswer records keys fn rounds deep index all s =
    (ascend records fn rounds deep index s ≡ (walk records keys fn (at_upper none) all s, ok tt))
    × ((pivot : Key)
        → check_key_size pivot ≡ ok tt
        → ascend_less_than records fn rounds deep index pivot s
          ≡ (walk records keys fn (at_upper (some pivot)) all s, ok tt))

module _ {ℓ} {S : Type ℓ} (records : ℕ → Result Key) (fn : S → Key → ℕ → S × Bool) (index : Index)
    (t : Tree) (f : Forest) (rounds deep : ℕ) (w : Holds records index t f) where
  leftmost_root-Reaches :
      depth f ≤ deep
      → Reaches index.nodes deep (leftmost_root deep index new_path) (positions f ++ [])
  unfolding leftmost_root
  leftmost_root-Reaches low =
      let is = w.root_page in
      let here = is.here in
      let size = size-IsPage index.nodes index.root_id t f is in
      let full : (is.page.size == 0) ≡ false = ground (arith, is.count, one-le-leaves t) in
      rw (here, ◌>>=◌, full)
        (leftmost_record-Reaches index.nodes deep deep (reset new_path) [] index.root_id t f
          new_path-Shows tt is w.held low (omega arith))

  readable : All (Readable records w.keys fn) (positions f)
  unfolding key_at
  readable = All-positions (Readable records w.keys fn) f (λ s pos u.
      let e = w.stored s pos u in let fits = w.short s pos u in rw (e, ◌>>=◌, fits) refl)

  from_leftmost :
      (upper : Option Key) (s : S)
      → depth f ≤ deep
      → length (positions f) ≤ rounds
      → from_path
          (leftmost_root deep index new_path)
          s
          (λ path. ascend_from_path records fn rounds deep index.nodes path upper s)
        ≡ (walk records w.keys fn (at_upper upper) (positions f) s, ok tt)
  from_leftmost upper s low enough =
      let found = leftmost_root deep index new_path in
      continue records w.keys fn index.nodes deep (at_upper upper) found (positions f) s
        (λ path. ascend_from_path records fn rounds deep index.nodes path upper s)
        (subst (Reaches index.nodes deep found) (append-nil (positions f))
          (leftmost_root-Reaches low))
        readable
        (λ path pos rest at reads fewer.
          ascend_from_path-walk records w.keys fn index.nodes deep rounds path pos rest upper s at
            reads (omega arith))

-- On an index whose pages form a tree `Ascend` and `AscendLessThan` end without an error, with one
-- round for each record and one for each page on a way down. The callback is shown the records of the
-- pages from left to right, each once, until it says stop; `AscendLessThan` ends before the first key
-- that is not below the pivot, which is a key of a size the index takes.
pub ascend_lem {ℓ} :
    {S : Type ℓ} (records : ℕ → Result Key) (fn : S → Key → ℕ → S × Bool) (index : Index) (t : Tree)
    (f : Forest) (rounds deep : ℕ) (s : S)
    → (w : Holds records index t f) → depth f ≤ deep
    → length (positions f) ≤ rounds
    → AscendAnswer records w.keys fn rounds deep index (positions f) s
unfolding ascend ascend_less_than
ascend_lem records fn index t f rounds deep s w low enough = (
  from_leftmost records fn index t f rounds deep w none s low enough,
  λ pivot fits.
      rw fits (from_leftmost records fn index t f rounds deep w (some pivot) s low enough),
)
