-- ===== src/Store/Records/Rolling.antt =====
-- store.cc, `SegmentedRecordStore::Append` and `DeleteRecord`: appends across segments.
use minweight_store_cpp.Base.{ℕ, ◌≤◌, ◌<◌, false}
use minweight_store_cpp.Base.{[], none, some, Bool}
use minweight_store_cpp.Base.{◌≡◌, ◌≢◌, sym, ap, ◌∙◌}
use mathlib.Core.Path.{subst}
use native.Mathlib.Decide.{ℕ_discrete}
use minweight_store_cpp.Store.Segment.{WalSegment, record_at_offset}
use minweight_store_cpp.Store.Position.{record_offset_limit}
use minweight_store_cpp.Store.Segment.Append.{IsSegment}
use minweight_store_cpp.Store.Segment.Contract.{Keeps}
use minweight_store_cpp.Store.Records.{SegmentedRecordStore, find, update, segment, put_segment}
use minweight_store_cpp.Store.Records.Find.{find-update_self, find-update_ne}

-- The store is open: every segment is well formed, of the store's size and under its own number, the
-- active one is there and takes records, and the numbers from the next one on are unused.
pub record IsOpen (store : SegmentedRecordStore) : Type 0 where
  pub size_low : 4109 ≤ store.wal_size
  pub size_high : store.wal_size ≤ record_offset_limit
  pub active :
      (seg : WalSegment) × (segment store store.active_file_no ≡ some seg) × (seg.sealed ≡ false)
  pub formed :
      (n : ℕ) (seg : WalSegment)
      → segment store n ≡ some seg
      → IsSegment seg × (seg.file_no ≡ n) × (seg.size ≡ store.wal_size)
  pub unused : (n : ℕ) → store.next_file_no ≤ n → (segment store n ≡ none) × (store.files n ≡ [])
  pub next_low : 0 < store.next_file_no

-- What can be read at a position is read there later too.
abbrev pub StillReads : SegmentedRecordStore → SegmentedRecordStore → Type 0
StillReads store store' =
    (n : ℕ) (seg : WalSegment)
    → segment store n ≡ some seg
    → (seg' : WalSegment) × (segment store' n ≡ some seg') × Keeps seg seg'

pub reseal-IsSegment :
    (seg : WalSegment) (b : Bool) → IsSegment seg → IsSegment (record seg { sealed = b })
reseal-IsSegment seg b w = record {
  mapped_size = w.mapped_size;
  size_limit = w.size_limit;
  used_start = w.used_start;
  used_limit = w.used_limit;
  file_no_start = w.file_no_start;
  file_no_limit = w.file_no_limit;
  in_bytes = w.in_bytes;
  magic = w.magic;
  version = w.version;
  used_stored = w.used_stored;
}

pub reseal-Keeps : (seg : WalSegment) (b : Bool) → Keeps seg (record seg { sealed = b })
unfolding record_at_offset
reseal-Keeps seg b o verify rec h = h

pub some_injective : {a b : WalSegment} → some a ≡ some b → a ≡ b
some_injective e = cc

pub some-ne-none : {s : WalSegment} → some s ≢ none
some-ne-none e = cc

module _ (store : SegmentedRecordStore) (w : IsOpen store) (n : ℕ) (old seg : WalSegment)
    (there : segment store n ≡ some old) (formed : IsSegment seg) (number : seg.file_no ≡ n)
    (size : seg.size ≡ store.wal_size) where
  abbrev after : SegmentedRecordStore
  after = put_segment store n seg

  -- What the fields of the invariant say after a segment was replaced.
  pub put-formed :
      (k : ℕ) (s : WalSegment)
      → segment after k ≡ some s
      → IsSegment s × (s.file_no ≡ k) × (s.size ≡ store.wal_size)
  put-formed k s h = elim (ℕ_discrete n k) [
    | yes e ↦
        let here = ap (λ (x : ℕ). find (update store.segments n seg) x) e ∙ h in
        let same = some_injective (sym (find-update_self store.segments n old seg there) ∙ here) in
        subst (λ x. IsSegment x × (x.file_no ≡ k) × (x.size ≡ store.wal_size)) same
          (formed, number ∙ e, size)
    | no ne ↦ w.formed k s (sym (find-update_ne store.segments n k seg ne) ∙ h)
  ]

  pub put-unused :
      (k : ℕ) → store.next_file_no ≤ k → (segment after k ≡ none) × (store.files k ≡ [])
  put-unused k h =
      let (none_there, no_file) = w.unused k h in
      let ne : n ≢ k =
        λ e. some-ne-none (sym there ∙ ap (λ (x : ℕ). find store.segments x) e ∙ none_there) in
      (find-update_ne store.segments n k seg ne ∙ none_there, no_file)

  pub put-StillReads : Keeps old seg → StillReads store after
  put-StillReads keeps k s h = elim (ℕ_discrete n k) [
    | yes e ↦
        let same = some_injective (sym there ∙ ap (λ (x : ℕ). find store.segments x) e ∙ h) in
        (
          seg,
          ap (λ (x : ℕ). find (update store.segments n seg) x) (sym e)
              ∙ find-update_self store.segments n old seg there,
          subst (λ x. Keeps x seg) same keeps,
        )
    | no ne ↦ (s, find-update_ne store.segments n k seg ne ∙ h, λ o verify rec r. r)
  ]

-- A segment that takes the active one's place.
pub put_active-IsOpen :
    (store : SegmentedRecordStore) (old seg : WalSegment)
    → IsOpen store
    → segment store store.active_file_no ≡ some old
    → IsSegment seg
    → seg.file_no ≡ store.active_file_no
    → seg.size ≡ store.wal_size
    → seg.sealed ≡ false
    → IsOpen (put_segment store store.active_file_no seg)
put_active-IsOpen store old seg w there formed number size unsealed = record {
  size_low = w.size_low;
  size_high = w.size_high;
  active = (seg, find-update_self store.segments store.active_file_no old seg there, unsealed);
  formed = put-formed store w store.active_file_no old seg there formed number size;
  unused = put-unused store w store.active_file_no old seg there formed number size;
  next_low = w.next_low;
}
