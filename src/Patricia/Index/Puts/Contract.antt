-- ===== src/Patricia/Index/Puts/Contract.antt =====
-- index.h, `Put` of a new key whose way ends in the root page.
use minweight_store_cpp.Base.{ℕ, suc, ◌+◌, ◌≤◌, ◌<◌, ◌==◌, arith}
use minweight_store_cpp.Base.{◌≡◌, ◌≢◌, sym, ap, ◌∙◌, refl, inl, inr, true, false, if◌then◌else◌}
use native.Mathlib.Decide.{ℕ_discrete}
use minweight_store_cpp.Patricia.Status.{Result, ok, ok-injective}
use minweight_store_cpp.Patricia.Key.{Key, get_diff_bit, check_key_size, compare_keys}
use minweight_store_cpp.Patricia.Key.Parting.{IsKey, check_key_size_fits}
use minweight_store_cpp.Patricia.Route.{child_tag}
use minweight_store_cpp.Patricia.Page.{NodePage, max_node_reps}
use minweight_store_cpp.Patricia.Page.Tree.{Tree, leaves, tree_lookup, insert_slot, insert_leaf}
use minweight_store_cpp.Patricia.Index.{Index}
use minweight_store_cpp.Patricia.Index.Act.{set_page, read_ok}
use minweight_store_cpp.Patricia.Index.Puts.{on_nodes, count_put, inserted, put}
use minweight_store_cpp.Patricia.Index.Puts.Pages.{grow_page}
use minweight_store_cpp.Patricia.Index.Forest.{Forest, entries, IsPage, Under, Holds}
use minweight_store_cpp.Patricia.Index.Forest.Insertion.{PartsFrom, insert_slot-le}
use minweight_store_cpp.Patricia.Index.Forest.Leaves.{insert_leaf-Splits}
use minweight_store_cpp.Patricia.Index.Forest.Growth.{
  insert_record, Apart, Held-set_ne, Held-insert_record, Inserted-insert_record,
  Sorted-insert_record, Under-insert_record,
}
use minweight_store_cpp.Patricia.Index.Puts.Root.{
  EndsAt, record_there, find_diff_bit-PartsAt, PartsFrom-PartsAt, key_at-stored, make_record_fits,
  insert_or_replace-root,
}

-- The index with the new key holds one record more, at the slot at which its key belongs.
abbrev pub PutAnswer : ℕ → (ℕ → Result Key) → Index → Tree → Forest → Key → ℕ → Type 0
PutAnswer rounds records index t f key pos =
    (after : Index) × (d : ℕ) × (put records rounds index key pos ≡ (after, ok inserted))
    × (after.count ≡ index.count + 1)
    × Holds records after (insert_leaf key d t) (insert_record (insert_slot key d t) pos f)

-- The keys with that of the new record.
abbrev keys_with : (ℕ → Key) → Key → ℕ → ℕ → Key
keys_with keys key pos p = if p == pos then key else keys p

keys_with-new : (keys : ℕ → Key) (key : Key) (pos : ℕ) → keys_with keys key pos pos ≡ key
keys_with-new keys key pos = let e : (pos == pos) ≡ true = ground arith in rw e refl

module _ (records : ℕ → Result Key) (index : Index) (t : Tree) (f : Forest)
    (w : Holds records index t f) (key : Key) (pos : ℕ) (read : records pos ≡ ok key) where
  keys_with-old : (s p : ℕ) → Under f s p → keys_with w.keys key pos p ≡ w.keys p
  keys_with-old s p u = elim (ℕ_discrete p pos) [
    | no ne ↦ let e : (p == pos) ≡ false = ground arith in rw e refl
    | yes equal ↦
        let e : (p == pos) ≡ true = ground arith in
        let its : records pos ≡ ok (w.keys p) = rw (← equal) (w.stored s p u) in
        rw e (ok-injective (sym read ∙ its))
  ]

  -- The routes with the new leaf lead every key to its record.
  grown_Holds :
      (d p0 : ℕ) (page : NodePage)
      → IsPage
          (set_page index.nodes index.root_id page)
          index.root_id
          (insert_leaf key d t)
          (insert_record (insert_slot key d t) pos f)
      → Apart index.root_id f
      → pos < child_tag
      → check_key_size key ≡ ok tt
      → EndsAt f (tree_lookup key t) p0
      → PartsFrom key (w.keys p0) d
      → Holds records
          (record index {
            nodes = set_page index.nodes index.root_id page;
            count = index.count + 1;
          })
          (insert_leaf key d t)
          (insert_record (insert_slot key d t) pos f)
  grown_Holds d p0 page now apart small fits ends parts =
      let slot = insert_slot key d t in
      let le : slot ≤ entries f = omega (arith, insert_slot-le key d t, w.root_page.count) in
      let keys = keys_with w.keys key pos in
      let (low, there, under, only) =
        record_there index.nodes f (tree_lookup key t) p0 w.held ends in
      let new_keys =
        Inserted-insert_record w.keys keys slot pos key f le keys_with-old
          (keys_with-new w.keys key pos) in
      let zero_add : 0 + tree_lookup key t ≡ tree_lookup key t = omega arith in
      record {
        root_page = now;
        held =
            Held-insert_record (set_page index.nodes index.root_id page) slot pos f small
              (Held-set_ne index.nodes index.root_id page f apart w.held);
        keys = keys;
        stored = λ s p u. elim (Under-insert_record slot pos s p f le u) [
          | inl new ↦ rw (← new) (read ∙ ap ok (sym (keys_with-new w.keys key pos)))
          | inr (s', v) ↦ w.stored s' p v ∙ ap ok (sym (keys_with-old s' p v))
        ];
        short = λ s p u. elim (Under-insert_record slot pos s p f le u) [
          | inl new ↦ rw (← new) (ap check_key_size (keys_with-new w.keys key pos) ∙ fits)
          | inr (s', v) ↦ ap check_key_size (keys_with-old s' p v) ∙ w.short s' p v
        ];
        routes =
            insert_leaf-Splits new_keys (w.keys p0) d parts 0 t w.routes
              (rw zero_add (p0, under, refl))
              (λ k e (p, u, its) small_bit.
                let its_p : p ≡ p0 = only p (rw zero_add at u) in
                ap (λ (q : Key). get_diff_bit q e) (sym its ∙ ap w.keys its_p))
              (omega arith);
        sorted = Sorted-insert_record w.keys keys slot pos f keys_with-old w.sorted;
      }

-- `Put` of a new key on an index whose pages form a tree, where the way of the key ends at a record of
-- the root page, and that page has room. The record store has the key at the new position, all keys
-- are strings of bytes that the index takes, and the position is below 2^63. `Put` succeeds, says that
-- nothing was replaced, counts the key, and the pages hold the old records and the new one, each
-- where its key leads.
pub put_lem :
    (records : ℕ → Result Key) (index : Index) (t : Tree) (f : Forest) (rounds : ℕ) (key : Key)
    (pos p0 : ℕ)
    → (w : Holds records index t f) → Apart index.root_id f
    → leaves t < max_node_reps
    → EndsAt f (tree_lookup key t) p0
    → key ≢ w.keys p0
    → IsKey key
    → IsKey (w.keys p0)
    → records pos ≡ ok key
    → pos < child_tag
    → PutAnswer (suc rounds) records index t f key pos
unfolding put
put_lem records index t f rounds key pos p0 w apart room ends ne ka kb read small =
    let (d, found, parts, fits) = find_diff_bit-PartsAt key (w.keys p0) ka kb ne in
    let from = PartsFrom-PartsAt (compare_keys key (w.keys p0)) key (w.keys p0) d parts in
    let is = w.root_page in
    let (page, run, now) =
      grow_page records index.nodes index.root_id t f key d pos is room small fits in
    let (low, there, under, only) = record_there index.nodes f (tree_lookup key t) p0 w.held ends in
    let reads = key_at-stored records p0 (w.keys p0) (w.stored _ p0 under) (w.short _ p0 under) in
    let placed =
      insert_or_replace-root records index.nodes index.root_id t f is key pos d room page run
        now.page now.here rounds p0 (w.keys p0) w.held ends reads ne found parts in
    let size = check_key_size_fits key ka.1 in
    let made = make_record_fits pos small in
    (
      record index { nodes = set_page index.nodes index.root_id page; count = index.count + 1 },
      d,
      ap (λ x. count_put records (on_nodes index x))
          (read_ok index.nodes _ size (read_ok index.nodes _ made placed)),
      refl,
      grown_Holds records index t f w key pos read d p0 page now apart small size ends from,
    )
