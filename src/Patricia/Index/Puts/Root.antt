-- ===== src/Patricia/Index/Puts/Root.antt =====
-- index.h, `Put` of a new key whose way ends in the root page: the steps on that page.
use Prim.Native.Nat.{Ordering}
use minweight_store_cpp.Base.{ℕ, zero, suc, ◌≤◌, ◌<◌, ltb, ◌==◌, ◌&&◌, arith}
use minweight_store_cpp.Base.{
  some, List, [], ◌∷◌, get_elem?, ◌≡◌, ◌≢◌, sym, ap, ◌∙◌, refl, inl, inr, Bool-cases, true, false,
}
use minweight_store_cpp.Patricia.Status.{Result, ok, ◌>>=◌}
use minweight_store_cpp.Patricia.Key.{Key, max_diff, check_key_size, compare_keys, find_diff_bit}
use minweight_store_cpp.Patricia.Key.Parting.{IsKey, PartsAt, compare_and_diff_bit-PartsAt}
use minweight_store_cpp.Patricia.Key.Order.{
  compare_and_diff_bit-DiffResult, too_large, same, differ,
}
use minweight_store_cpp.Patricia.Route
use minweight_store_cpp.Patricia.Route.{child_tag}
use minweight_store_cpp.Patricia.Route.Reps.{record_rep}
use minweight_store_cpp.Patricia.Page.{NodePage, max_node_reps}
use minweight_store_cpp.Patricia.Page.Tree.{Tree, leaves, tree_lookup, insert_slot, one-le-leaves}
use minweight_store_cpp.Patricia.Page.Lookup.{lookup-tree}
use minweight_store_cpp.Patricia.Nodes.{HeapNodeStore, get_node}
use minweight_store_cpp.Patricia.Index.{PutFrame}
use minweight_store_cpp.Patricia.Index.Act.{set_page, follow, follow_ok, read_ok}
use minweight_store_cpp.Patricia.Index.Read.{key_at}
use minweight_store_cpp.Patricia.Index.Gets.{is_eq-ne}
use minweight_store_cpp.Patricia.Index.Writes.{
  propagate_boundary, propagate_loop, insert_at_incremental, insert_at_path,
}
use minweight_store_cpp.Patricia.Index.Puts.{inserted, put_at_record, insert_or_replace}
use minweight_store_cpp.Patricia.Index.Puts.Slots.{frame_at, insert_slot_from_path-root}
use minweight_store_cpp.Patricia.Index.Walk.Trails.{rep_at-IsPage}
use minweight_store_cpp.Patricia.Index.Forest.{
  Forest, no_more, record_then, child_then, reps_of, IsPage, Held, Under,
}
use minweight_store_cpp.Patricia.Index.Forest.Insertion.{PartsFrom}

-- The entry is the record at this position.
abbrev pub EndsAt : Forest → ℕ → ℕ → Type 0
EndsAt no_more s pos = ⊥
EndsAt (record_then p rest) zero pos = p ≡ pos
EndsAt (child_then id t child rest) zero pos = ⊥
EndsAt (record_then p rest) (suc s) pos = EndsAt rest s pos
EndsAt (child_then id t child rest) (suc s) pos = EndsAt rest s pos

pub record_there :
    (nodes : HeapNodeStore) (f : Forest) (s pos : ℕ)
    → Held nodes f
    → EndsAt f s pos
    → (pos < child_tag)
      × (get_elem? (reps_of f) s ≡ some pos)
      × Under f s pos
      × ((q : ℕ) → Under f s q → q ≡ pos)
record_there nodes no_more s pos h e = absurd e
record_there nodes (record_then p rest) zero pos (small, h) e =
    (rw (← e) small, ap some e, e, λ q u. sym u ∙ e)
record_there nodes (child_then id t child rest) zero pos h e = absurd e
record_there nodes (record_then p rest) (suc s) pos (small, h) e = record_there nodes rest s pos h e
record_there nodes (child_then id t child rest) (suc s) pos (small, is, hc, h) e =
    record_there nodes rest s pos h e

-- Two different keys have a diff bit.
pub find_diff_bit-PartsAt :
    (a b : Key)
    → IsKey a
    → IsKey b
    → a ≢ b
    → (d : ℕ) × (find_diff_bit a b ≡ ok d) × PartsAt (compare_keys a b) a b d × (d ≤ max_diff)
unfolding find_diff_bit
find_diff_bit-PartsAt a b ka kb ne = elim (compare_and_diff_bit-DiffResult a b) [
  | too_large big r ↦ absurd (omega (arith, big, ka.1, kb.1))
  | same short e r ↦ absurd (ne e)
  | differ short d r other o ↦
      let (parts, fits) = compare_and_diff_bit-PartsAt a b d ka kb r in
      (d.diff, rw r refl, rw (← o) parts, fits)
]

pub PartsFrom-PartsAt :
    (o : Ordering) (key other : Key) (d : ℕ) → PartsAt o key other d → PartsFrom key other d
PartsFrom-PartsAt Ordering.lt key other d c = record {
  differ = inl (c.low, c.high);
  agree = c.agree;
}
PartsFrom-PartsAt Ordering.eq key other d c = absurd c
PartsFrom-PartsAt Ordering.gt key other d c = record {
  differ = inr (c.high, c.low);
  agree = λ f h. sym (c.agree f h);
}

-- The root page has no parents to be told of its bounds.
propagate_boundary-root :
    (nodes : HeapNodeStore) (id leaf_at first last : ℕ) (page : NodePage)
    → get_node nodes id ≡ ok page
    → propagate_boundary (frame_at id leaf_at ∷ []) 0 first last nodes ≡ (nodes, ok tt)
unfolding propagate_boundary propagate_loop
propagate_boundary-root nodes id leaf_at first last page here =
    elim (Bool-cases (page.first_pos == first && page.last_pos == last)) [
      | inl kept ↦ rw (here, follow, kept) refl
      | inr changed ↦ rw (here, follow, changed) refl
    ]

module _ (records : ℕ → Result Key) (nodes : HeapNodeStore) (id : ℕ) (t : Tree) (f : Forest)
    (is : IsPage nodes id t f) (key : Key) (pos d : ℕ) (room : leaves t < max_node_reps)
    (page : NodePage)
    (run : insert_at_incremental records id (insert_slot key d t) pos key d nodes
      ≡ (set_page nodes id page, ok tt))
    (kept : NodePage) (now : get_node (set_page nodes id page) id ≡ ok kept) where
  abbrev frames : List PutFrame
  frames = frame_at id (tree_lookup key t) ∷ []

  insert_at_path-root :
      insert_at_path records frames 0 (insert_slot key d t) pos key d nodes
      ≡ (set_page nodes id page, ok tt)
  unfolding insert_at_path
  insert_at_path-root =
      let fits_page : ltb is.page.size max_node_reps ≡ true = ground (arith, is.encodes.size) in
      read_ok nodes _ is.here (
        rw fits_page (
          follow_ok _ run (
            propagate_boundary-root (set_page nodes id page) id (tree_lookup key t)
              is.page.first_pos is.page.last_pos kept now)))

  put_at_record-root :
      (p0 : ℕ) (other : Key)
      → key_at records p0 ≡ ok other
      → key ≢ other
      → find_diff_bit key other ≡ ok d
      → PartsAt (compare_keys key other) key other d
      → put_at_record records frames is.page id (tree_lookup key t) p0 key pos nodes
        ≡ (set_page nodes id page, ok inserted)
  unfolding put_at_record
  put_at_record-root p0 other read ne found parts =
      let differs = is_eq-ne key other ne in
      let slot =
        insert_slot_from_path-root nodes id t f is key other (compare_keys key other) d parts in
      read_ok nodes _ read (
        rw differs
          (read_ok nodes _ found (read_ok nodes _ slot (follow_ok _ insert_at_path-root refl))))

  pub insert_or_replace-root :
      (rounds p0 : ℕ) (other : Key)
      → Held nodes f
      → EndsAt f (tree_lookup key t) p0
      → key_at records p0 ≡ ok other
      → key ≢ other
      → find_diff_bit key other ≡ ok d
      → PartsAt (compare_keys key other) key other d
      → insert_or_replace records (suc rounds) [] id key pos nodes
        ≡ (set_page nodes id page, ok inserted)
  unfolding insert_or_replace
  insert_or_replace-root rounds p0 other held ends read ne found parts =
      let full : (is.page.size == 0) ≡ false = ground (arith, is.encodes.size, one-le-leaves t) in
      let looked = lookup-tree is.page t is.pad key is.encodes in
      let (low, there, under, only) = record_there nodes f (tree_lookup key t) p0 held ends in
      let reads = rep_at-IsPage nodes id t f is (tree_lookup key t) p0 there in
      let (plain, at) = record_rep p0 low in
      read_ok nodes _ is.here (
        rw full (
          read_ok nodes _ looked (
            read_ok nodes _ reads
              (rw (plain, at) (put_at_record-root p0 other read ne found parts)))))

pub key_at-stored :
    (records : ℕ → Result Key) (pos : ℕ) (key : Key)
    → records pos ≡ ok key
    → check_key_size key ≡ ok tt
    → key_at records pos ≡ ok key
unfolding key_at
key_at-stored records pos key read fits = rw read (rw (◌>>=◌, fits) refl)

pub make_record_fits : (pos : ℕ) → pos < child_tag → Route.make_record pos ≡ ok pos
unfolding Route.make_record
make_record_fits pos small = let t : Route.tagged pos ≡ false = ground arith in rw t refl
