-- ===== src/Store/Records.antt =====
-- store.cc, `SegmentedRecordStore`: the segments of one generation of the log, and the records of
-- a snapshot. The map from file numbers to segments is an association list. `files` is what the
-- generation's directory has in the files that are not mapped, nothing where there is no file.
pub mod Find
pub mod Rolling
pub mod Rollover
pub mod Contract
pub mod Runs
use minweight_store_cpp.Base.{
  ℕ, ◌+◌, ltb, leb, ◌==◌, ◌&&◌, ◌||◌, not, Bool, true, false, if◌then◌else◌,
}
use minweight_store_cpp.Base.{List, [], ◌∷◌, ◌++◌, length, get_elem?, Option, none, some}
use minweight_store_cpp.Store.Status.{
  Result, ok, err, stuck, StatusCode, wal_full, closed, corrupt_index,
}
use minweight_store_cpp.Store.Status.{corrupt_snapshot}
use minweight_store_cpp.Store.Position.{record_offset_limit, record_position_file_no}
use minweight_store_cpp.Store.Segment.{
  WalSegment, append, open_segment, record_at, wal_op_put, wal_op_delete,
}
use minweight_store_cpp.Patricia.Status

pub record OwnedRecord : Type 0 where
  pub key : List ℕ
  pub value : List ℕ
  pub live : Bool

pub record SegmentedRecordStore : Type 0 where
  pub files : ℕ → List ℕ
  pub wal_size : ℕ
  pub generation : ℕ
  pub active_file_no : ℕ
  pub next_file_no : ℕ
  pub snapshot_records : List OwnedRecord
  pub segments : List (ℕ × WalSegment)

-- `segments_.find`, the assignment to a segment that is there, and `segments_.emplace`.
abbrev pub find : List (ℕ × WalSegment) → ℕ → Option WalSegment
find [] file_no = none
find ((n, seg) ∷ segments) file_no =
    let rest = find segments file_no in if n == file_no then some seg else rest

abbrev pub update : List (ℕ × WalSegment) → ℕ → WalSegment → List (ℕ × WalSegment)
update [] file_no seg' = []
update ((n, seg) ∷ segments) file_no seg' =
    (n, if n == file_no then seg' else seg) ∷ update segments file_no seg'

abbrev pub emplace : List (ℕ × WalSegment) → ℕ → WalSegment → List (ℕ × WalSegment)
emplace segments file_no seg = elim (find segments file_no) [
  | some old ↦ segments
  | none ↦ (file_no, seg) ∷ segments
]

-- `Segment`
abbrev pub segment : SegmentedRecordStore → ℕ → Option WalSegment
segment store file_no = find store.segments file_no

abbrev pub put_segment : SegmentedRecordStore → ℕ → WalSegment → SegmentedRecordStore
put_segment store file_no seg = record store { segments = update store.segments file_no seg }

-- `Rollover`
unfoldable pub rollover : SegmentedRecordStore → SegmentedRecordStore × Result (Unit {0})
rollover store = elim (segment store store.active_file_no) [
  | none ↦ (store, err closed)
  | some old ↦
      let sealed = put_segment store store.active_file_no (record old { sealed = true }) in
      let unsealed = put_segment store store.active_file_no (record old { sealed = false }) in
      let id = store.next_file_no in
      elim (open_segment (store.files id) store.wal_size id) [
        | err e ↦ (unsealed, err e)
        | stuck ↦ (sealed, stuck)
        | ok seg ↦ (
          record sealed {
            active_file_no = id;
            next_file_no = id + 1;
            segments = emplace sealed.segments id (record seg { sealed = false });
          },
          ok tt,
        )
      ]
]

-- `Active()->Append(...)`; without an active segment the call is through a null pointer.
unfoldable pub append_to_active :
    SegmentedRecordStore → ℕ → List ℕ → List ℕ → SegmentedRecordStore × Result ℕ
append_to_active store op key value = elim (segment store store.active_file_no) [
  | none ↦ (store, stuck)
  | some seg ↦
      let (seg', result) = append seg op key value in
      (put_segment store store.active_file_no seg', result)
]

abbrev pub is_wal_full : StatusCode → Bool
is_wal_full wal_full = true
is_wal_full _ = false

-- What `Append` and `DeleteRecord` share.
unfoldable pub append_or_roll :
    SegmentedRecordStore → ℕ → List ℕ → List ℕ → SegmentedRecordStore × Result ℕ
append_or_roll store op key value =
    let (tried, result) = append_to_active store op key value in
    elim result [
      | ok pos ↦ (tried, ok pos)
      | stuck ↦ (tried, stuck)
      | err e ↦
          if is_wal_full e
          then (let (rolled, status) = rollover tried in
              elim status [
                | ok u ↦ append_to_active rolled op key value
                | err e ↦ (rolled, err e)
                | stuck ↦ (rolled, stuck)
              ])
          else (tried, err e)
    ]

-- `Append`
unfoldable pub append_record :
    SegmentedRecordStore → List ℕ → List ℕ → SegmentedRecordStore × Result ℕ
unfolding append_or_roll
append_record store key value = append_or_roll store wal_op_put key value

unfoldable pub delete_record : SegmentedRecordStore → List ℕ → SegmentedRecordStore × Result ℕ
unfolding append_or_roll
delete_record store key = append_or_roll store wal_op_delete key []

unfoldable pub add_snapshot_record :
    SegmentedRecordStore → List ℕ → List ℕ → SegmentedRecordStore × Result ℕ
add_snapshot_record store key value =
    if leb record_offset_limit (length store.snapshot_records)
    then (store, err corrupt_snapshot)
    else (
      record store {
        snapshot_records =
            store.snapshot_records ++ (record { key = key; value = value; live = true }) ∷ [];
      },
      ok (length store.snapshot_records),
    )

unfoldable pub is_snapshot_position : ℕ → Bool
is_snapshot_position pos = ltb 0 pos && ltb pos record_offset_limit

-- `SnapshotRecord`; `none` is the null pointer.
unfoldable pub snapshot_record : SegmentedRecordStore → ℕ → Option OwnedRecord
snapshot_record store pos = if pos == 0 then none else elim (get_elem? store.snapshot_records pos) [
  | none ↦ none
  | some found ↦ if not found.live then none else some found
]

-- `Key`
unfoldable pub key_at : SegmentedRecordStore → ℕ → Status.Result (List ℕ)
unfolding snapshot_record is_snapshot_position
key_at store pos =
    if is_snapshot_position pos
    then elim (snapshot_record store pos) [
      | none ↦ Status.err Status.missing_key
      | some found ↦ Status.ok found.key
    ]
    else elim (segment store (record_position_file_no pos)) [
      | none ↦ Status.err Status.missing_key
      | some seg ↦ elim (record_at seg pos false) [
        | ok rec ↦
            if not (rec.op == wal_op_put) then Status.err Status.missing_key else Status.ok rec.key
        | err e ↦ Status.err Status.missing_key
        | stuck ↦ Status.stuck
      ]
    ]

-- `ValueView`
unfoldable pub value_view : SegmentedRecordStore → ℕ → Result (List ℕ)
unfolding snapshot_record is_snapshot_position
value_view store pos =
    if is_snapshot_position pos
    then elim (snapshot_record store pos) [ none ↦ err corrupt_index | some found ↦ ok found.value ]
    else elim (segment store (record_position_file_no pos)) [
      | none ↦ err corrupt_index
      | some seg ↦ elim (record_at seg pos false) [
        | ok rec ↦ if not (rec.op == wal_op_put) then err corrupt_index else ok rec.value
        | err e ↦ err e
        | stuck ↦ stuck
      ]
    ]
