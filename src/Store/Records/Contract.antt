-- ===== src/Store/Records/Contract.antt =====
-- store.cc, `SegmentedRecordStore::Append`, `Key` and `ValueView`: what is appended is read back.
use minweight_store_cpp.Base.{ℕ, ◌+◌, ◌*◌, ◌/◌, ◌^◌, ◌≤◌, ◌<◌, false}
use minweight_store_cpp.Base.{List, some, arith}
use minweight_store_cpp.Base.{◌≡◌, refl, sym, ap, ◌∙◌, inr}
use native.Mathlib.Decide.{dec_lt}
use minweight_store_cpp.Store.Status.{ok, err, wal_full}
use minweight_store_cpp.Store.Segment.{WalSegment, record_at}
use minweight_store_cpp.Store.Position.{
  record_offset_limit, record_file_no_limit, record_position_file_no,
}
use minweight_store_cpp.Store.Segment.Append.{
  record_size, append_fits, append_refused, appended, appended-IsSegment, appended-file_no,
  appended-sealed, appended-size,
}
use minweight_store_cpp.Store.Segment.Contract.{IsEntry, appended-Keeps, appended-record_at}
use minweight_store_cpp.Store.Records.{
  SegmentedRecordStore, find, update, segment, put_segment, rollover, append_to_active,
  append_or_roll,
}
use minweight_store_cpp.Store.Records.Find.{find-update_self}
use minweight_store_cpp.Patricia.Status
use minweight_store_cpp.Store.Records.{append_record, key_at, value_view, is_snapshot_position}
use minweight_store_cpp.Store.Records.Rolling.{
  IsOpen, StillReads, put_active-IsOpen, put-StillReads, some_injective,
}
use minweight_store_cpp.Store.Records.Rollover.{rollover_lem}

-- The record that an append made at `pos` stands in the segment of its file number.
abbrev pub Holds : SegmentedRecordStore → ℕ → ℕ → List ℕ → List ℕ → Type 0
Holds store pos op key value =
    (seg : WalSegment) × (end : ℕ) × (segment store (pos / 2 ^ 30) ≡ some seg)
    × (record_at seg pos false ≡ ok (record { op = op; key = key; value = value; end = end }))

-- A new record at `pos`, and the store after it.
abbrev pub Appended : SegmentedRecordStore → ℕ → List ℕ → List ℕ → SegmentedRecordStore → ℕ → Type 0
Appended store op key value store' pos =
    IsOpen store'
    × StillReads store store'
    × (record_offset_limit ≤ pos)
    × Holds store' pos op key value

StillReads-trans : (a b c : SegmentedRecordStore) → StillReads a b → StillReads b c → StillReads a c
StillReads-trans a b c f g n seg h =
    let (seg', h', keeps) = f n seg h in
    let (seg'', h'', keeps') = g n seg' h' in
    (seg'', h'', λ o verify rec r. keeps' o verify rec (keeps o verify rec r))

module _ (op : ℕ) (key value : List ℕ) (entry : IsEntry op key value) where
  active_append :
      (store : SegmentedRecordStore) (seg : WalSegment)
      → IsOpen store
      → segment store store.active_file_no ≡ some seg
      → seg.sealed ≡ false
      → seg.used + record_size key value ≤ seg.size
      → (store' : SegmentedRecordStore) × (pos : ℕ) × (append_to_active store op key value
          ≡ (store', ok pos))
        × Appended store op key value store' pos
  unfolding append_to_active
  active_append store seg w there unsealed fits =
      let (formed, number, size) = w.formed store.active_file_no seg there in
      let seg' = appended seg op key value in
      let pos = seg.file_no * 2 ^ 30 + seg.used in
      let valid = entry.op_valid in
      let lim = formed.size_limit in
      let low = formed.file_no_start in
      let formed' =
        appended-IsSegment seg op key value formed fits (omega arith) entry.key_bytes
          entry.value_bytes in
      let number' = appended-file_no seg op key value ∙ number in
      let size' = appended-size seg op key value ∙ size in
      let file : pos / 2 ^ 30 ≡ store.active_file_no = omega arith in
      (
        put_segment store store.active_file_no seg',
        pos,
        rw (there, append_fits seg op key value formed unsealed fits, append_to_active) refl,
        (
          put_active-IsOpen store seg seg' w there formed' number' size'
              (appended-sealed seg op key value ∙ unsealed),
          put-StillReads store w store.active_file_no seg seg' there formed' number' size'
              (appended-Keeps seg op key value formed fits),
          omega arith,
          (
            seg',
            seg'.used,
            ap (λ (x : ℕ). find (update store.segments store.active_file_no seg') x) file
                ∙ find-update_self store.segments store.active_file_no seg seg' there,
            appended-record_at seg op key value false formed entry fits,
          ),
        ),
      )

  active_full :
      (store : SegmentedRecordStore) (seg : WalSegment)
      → IsOpen store
      → segment store store.active_file_no ≡ some seg
      → seg.size < seg.used + record_size key value
      → append_to_active store op key value
        ≡ (put_segment store store.active_file_no seg, err wal_full)
  unfolding append_to_active
  active_full store seg w there big =
      let (formed, number, size) = w.formed store.active_file_no seg there in
      rw (there, append_refused seg op key value formed (inr big), append_to_active) refl

  roll_ok :
      (store t : SegmentedRecordStore) (pos : ℕ)
      → append_to_active store op key value ≡ (t, ok pos)
      → append_or_roll store op key value ≡ (t, ok pos)
  unfolding append_or_roll
  roll_ok store t pos e =
      let e0 : (append_to_active store op key value).0 ≡ t = ap (λ p. p.0) e in
      let e1 : (append_to_active store op key value).1 ≡ ok pos = ap (λ p. p.1) e in
      rw (e1, e0, append_or_roll) refl

  roll_full :
      (store t r : SegmentedRecordStore)
      → append_to_active store op key value ≡ (t, err wal_full)
      → rollover t ≡ (r, ok tt)
      → append_or_roll store op key value ≡ append_to_active r op key value
  unfolding append_or_roll
  roll_full store t r e f =
      let e0 : (append_to_active store op key value).0 ≡ t = ap (λ p. p.0) e in
      let e1 : (append_to_active store op key value).1 ≡ err wal_full = ap (λ p. p.1) e in
      let f0 : (rollover t).0 ≡ r = ap (λ p. p.0) f in
      let f1 : (rollover t).1 ≡ ok tt = ap (λ p. p.1) f in
      rw (e1, e0, f1, e0, f0, append_or_roll) refl

  append_or_roll_lem :
      (store : SegmentedRecordStore)
      → IsOpen store
      → 4096 + record_size key value ≤ store.wal_size
      → store.next_file_no < record_file_no_limit
      → (store' : SegmentedRecordStore) × (pos : ℕ) × (append_or_roll store op key value
          ≡ (store', ok pos))
        × Appended store op key value store' pos
  append_or_roll_lem store w room limit =
      let (seg, there, unsealed) = w.active in
      let (formed, number, size) = w.formed store.active_file_no seg there in
      elim (dec_lt seg.size (seg.used + record_size key value)) [
        | no fits ↦
            let (store', pos, run, rest) = active_append store seg w there unsealed (omega arith) in
            (store', pos, roll_ok store store' pos run, rest)
        | yes big ↦
            let t = put_segment store store.active_file_no seg in
            let wt = put_active-IsOpen store seg seg w there formed number size unsealed in
            let (r, new, rolled, wr, reads, there', empty, same) = rollover_lem t wt limit in
            let (fresh, there'', unsealed') = wr.active in
            let is_new = some_injective (sym there' ∙ there'') in
            let (formed', number', size') = wr.formed r.active_file_no fresh there'' in
            let used' : fresh.used ≡ 4096 = ap (λ (x : WalSegment). x.used) (sym is_new) ∙ empty in
            let (store', pos, run, (open', reads', low, holds)) =
              active_append r fresh wr there'' unsealed' (omega arith) in
            (
              store',
              pos,
              roll_full store t r (active_full store seg w there big) rolled ∙ run,
              (
                open',
                StillReads-trans store t store'
                    (put-StillReads store w store.active_file_no seg seg there formed number size
                      (λ o verify rec h. h))
                    (StillReads-trans t r store' reads reads'),
                low,
                holds,
              ),
            )
      ]

module _ (store : SegmentedRecordStore) (pos : ℕ) (key value : List ℕ)
    (logged : record_offset_limit ≤ pos) (holds : Holds store pos 1 key value) where
  not_snapshot : is_snapshot_position pos ≡ false
  unfolding is_snapshot_position
  not_snapshot = ground arith

  key_at-Holds : key_at store pos ≡ Status.ok key
  unfolding key_at record_position_file_no
  key_at-Holds = let (seg, end, there, read) = holds in rw (not_snapshot, there, read, key_at) refl

  value_view-Holds : value_view store pos ≡ ok value
  unfolding value_view record_position_file_no
  value_view-Holds =
      let (seg, end, there, read) = holds in rw (not_snapshot, there, read, value_view) refl

-- The answer to `Append` on an open store.
abbrev pub AppendAnswer : SegmentedRecordStore → List ℕ → List ℕ → Type 0
AppendAnswer store key value =
    (store' : SegmentedRecordStore) × (pos : ℕ) × (append_record store key value ≡ (store', ok pos))
    × IsOpen store'
    × (key_at store' pos ≡ Status.ok key)
    × (value_view store' pos ≡ ok value)
    × StillReads store store'

-- `Append` to an open store, of a put whose record fits an empty segment, succeeds while there are file
-- numbers left, in the active segment or, if that is full, after a rollover. `Key` and
-- `ValueView` at the answered position give the key and the value, the store is open again, and every
-- record that a segment had is still read.
pub append_record_lem :
    (store : SegmentedRecordStore) (key value : List ℕ)
    → IsOpen store
    → IsEntry 1 key value
    → 4096 + record_size key value ≤ store.wal_size
    → store.next_file_no < record_file_no_limit
    → AppendAnswer store key value
unfolding append_record
append_record_lem store key value w entry room limit =
    let (store', pos, run, (open', reads, logged, holds)) =
      append_or_roll_lem 1 key value entry store w room limit in
    (
      store',
      pos,
      run,
      open',
      key_at-Holds store' pos key value logged holds,
      value_view-Holds store' pos key value logged holds,
      reads,
    )
