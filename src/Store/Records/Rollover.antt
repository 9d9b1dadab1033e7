-- ===== src/Store/Records/Rollover.antt =====
-- store.cc, `SegmentedRecordStore::Rollover` on an open store.
use minweight_store_cpp.Base.{ℕ, ◌+◌, ◌≤◌, ◌<◌, true, false}
use minweight_store_cpp.Base.{[], none, some, arith}
use minweight_store_cpp.Base.{◌≡◌, ◌≢◌, refl, sym, ap, ◌∙◌}
use mathlib.Core.Path.{subst}
use native.Mathlib.Decide.{ℕ_discrete}
use minweight_store_cpp.Store.Status.{ok}
use minweight_store_cpp.Store.Segment.{WalSegment, open_segment}
use minweight_store_cpp.Store.Position.{record_file_no_limit}
use minweight_store_cpp.Store.Segment.Append.{IsSegment}
use minweight_store_cpp.Store.Segment.Open.{open_segment-fresh}
use minweight_store_cpp.Store.Records.{
  SegmentedRecordStore, find, emplace, segment, put_segment, rollover,
}
use minweight_store_cpp.Store.Records.Find.{find-emplace_self, find-emplace_ne}
use minweight_store_cpp.Store.Segment.{wal_header_size}
use minweight_store_cpp.Store.Records.Rolling.{
  IsOpen, StillReads, reseal-IsSegment, reseal-Keeps, some_injective, some-ne-none, put-formed,
  put-unused, put-StillReads,
}

module _ (store : SegmentedRecordStore) (w : IsOpen store) (old fresh : WalSegment)
    (there : segment store store.active_file_no ≡ some old)
    (opened : open_segment [] store.wal_size store.next_file_no ≡ ok fresh)
    (formed : IsSegment fresh) (number : fresh.file_no ≡ store.next_file_no)
    (size : fresh.size ≡ store.wal_size) where
  abbrev sealed_old : WalSegment
  sealed_old = record old { sealed = true }

  abbrev sealed : SegmentedRecordStore
  sealed = put_segment store store.active_file_no sealed_old

  abbrev new : WalSegment
  new = record fresh { sealed = false }

  abbrev pub rolled : SegmentedRecordStore
  rolled = record sealed {
    active_file_no = store.next_file_no;
    next_file_no = store.next_file_no + 1;
    segments = emplace sealed.segments store.next_file_no new;
  }

  rollover-rolled : rollover store ≡ (rolled, ok tt)
  unfolding rollover
  rollover-rolled =
      let no_file = (w.unused store.next_file_no (omega arith)).1 in
      rw (there, no_file, opened, rollover) refl

  old_formed : IsSegment old × (old.file_no ≡ store.active_file_no) × (old.size ≡ store.wal_size)
  old_formed = w.formed store.active_file_no old there

  sealed-formed :
      (k : ℕ) (s : WalSegment)
      → segment sealed k ≡ some s
      → IsSegment s × (s.file_no ≡ k) × (s.size ≡ store.wal_size)
  sealed-formed =
      put-formed store w store.active_file_no old sealed_old there
        (reseal-IsSegment old true old_formed.0) old_formed.1 old_formed.2

  sealed-unused :
      (k : ℕ) → store.next_file_no ≤ k → (segment sealed k ≡ none) × (store.files k ≡ [])
  sealed-unused =
      put-unused store w store.active_file_no old sealed_old there
        (reseal-IsSegment old true old_formed.0) old_formed.1 old_formed.2

  vacant : segment sealed store.next_file_no ≡ none
  vacant = (sealed-unused store.next_file_no (omega arith)).0

  pub rolled_active : segment rolled store.next_file_no ≡ some new
  rolled_active = find-emplace_self sealed.segments store.next_file_no new vacant

  rolled_other : (k : ℕ) → store.next_file_no ≢ k → segment rolled k ≡ segment sealed k
  rolled_other k ne = find-emplace_ne sealed.segments store.next_file_no k new vacant ne

  rolled-formed :
      (k : ℕ) (s : WalSegment)
      → segment rolled k ≡ some s
      → IsSegment s × (s.file_no ≡ k) × (s.size ≡ store.wal_size)
  rolled-formed k s h = elim (ℕ_discrete store.next_file_no k) [
    | yes e ↦
        let same = some_injective (
          sym rolled_active
          ∙ ap (λ (x : ℕ). find (emplace sealed.segments store.next_file_no new) x) e
          ∙ h) in
        subst (λ x. IsSegment x × (x.file_no ≡ k) × (x.size ≡ store.wal_size)) same
          (reseal-IsSegment fresh false formed, number ∙ e, size)
    | no ne ↦ sealed-formed k s (sym (rolled_other k ne) ∙ h)
  ]

  pub rolled-IsOpen : IsOpen rolled
  rolled-IsOpen = record {
    size_low = w.size_low;
    size_high = w.size_high;
    active = (new, rolled_active, refl);
    formed = rolled-formed;
    unused = λ k h.
        let (none_there, no_file) = sealed-unused k (omega arith) in
        (rolled_other k (λ e. absurd (omega arith)) ∙ none_there, no_file);
    next_low = omega arith;
  }

  pub rolled-StillReads : StillReads store rolled
  rolled-StillReads k s h =
      let ne : store.next_file_no ≢ k = λ e. some-ne-none (
        sym h
        ∙ ap (λ (x : ℕ). find store.segments x) (sym e)
        ∙ (w.unused store.next_file_no (omega arith)).0) in
      let (s', there', keeps) =
        put-StillReads store w store.active_file_no old sealed_old there
          (reseal-IsSegment old true old_formed.0) old_formed.1 old_formed.2 (reseal-Keeps old true)
          k s h in
      (s', rolled_other k ne ∙ there', keeps)

-- The answer to `Rollover` on an open store.
abbrev pub RolloverAnswer : SegmentedRecordStore → Type 0
RolloverAnswer store =
    (store' : SegmentedRecordStore) × (seg : WalSegment) × (rollover store ≡ (store', ok tt))
    × IsOpen store'
    × StillReads store store'
    × (segment store' store'.active_file_no ≡ some seg)
    × (seg.used ≡ wal_header_size)
    × (store'.wal_size ≡ store.wal_size)

-- `Rollover` of an open store, while there are file numbers left, makes a new, empty segment the active
-- one; the store is open again and all that could be read is still read.
pub rollover_lem :
    (store : SegmentedRecordStore)
    → IsOpen store
    → store.next_file_no < record_file_no_limit
    → RolloverAnswer store
rollover_lem store w limit =
    let (old, there, unsealed) = w.active in
    let (fresh, opened, formed, used, size, number, fresh_unsealed) =
      open_segment-fresh store.wal_size store.next_file_no w.size_low w.size_high w.next_low
        limit in
    (
      rolled store w old fresh there opened formed number size,
      record fresh { sealed = false },
      rollover-rolled store w old fresh there opened formed number size,
      rolled-IsOpen store w old fresh there opened formed number size,
      rolled-StillReads store w old fresh there opened formed number size,
      rolled_active store w old fresh there opened formed number size,
      used,
      refl,
    )
