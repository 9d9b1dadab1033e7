-- ===== src/Store/Recovery.antt =====
-- store.cc, `SegmentedRecordStore`: `Open` on the files of a directory, `ReplayAll`, which puts the
-- records of all segments into the index, and `ResetToSnapshot`. The system calls are taken to
-- succeed. The file numbers that `ListWalSegmentIDs` finds, and what the files hold, are arguments.
pub mod Sorting
pub mod Whole
pub mod Changes
pub mod Outcomes
pub mod Contract
pub mod Gone
pub mod Cut
pub mod Damage
pub mod Runs
use minweight_store_cpp.Base.{
  ℕ, zero, suc, ◌+◌, ltb, leb, ◌==◌, ◌||◌, not, Bool, true, false, if◌then◌else◌, List, [], ◌∷◌,
  map, Option, none, some,
}
use minweight_store_cpp.Store.Status.{
  Result, ok, err, stuck, StatusCode, invalid_argument, corrupt_wal, corrupt_manifest,
  corrupt_index, ◌>>=◌,
}
use minweight_store_cpp.Store.Position.{record_offset_limit}
use minweight_store_cpp.Store.Segment.{
  WalSegment, WalRecord, WalReplayPolicy, replay, open_segment, wal_op_put, wal_op_delete,
  wal_header_size, wal_record_header_size,
}
use minweight_store_cpp.Store.Records.{
  OwnedRecord, SegmentedRecordStore, segment, put_segment, emplace, key_at,
}
use minweight_store_cpp.Store.Manifest.{first_wal_generation}
use minweight_store_cpp.Patricia.Status
use minweight_store_cpp.Patricia.Index.{Index}
use minweight_store_cpp.Patricia.Index.Puts.{put}
use minweight_store_cpp.Patricia.Index.Deletes.{delete}

-- `FromMinpatriciaStatus`
unfoldable pub from_minpatricia_status : Status.StatusCode → StatusCode
from_minpatricia_status Status.key_too_large = invalid_argument
from_minpatricia_status Status.position_tag = corrupt_wal
from_minpatricia_status _ = corrupt_index

-- The index after `Put` or `Delete`, where that succeeded.
unfoldable pub updated : {A : Type 0} → Index × Status.Result A → Result Index
updated (index, Status.ok a) = ok index
updated (index, Status.err e) = err (from_minpatricia_status e)
updated (index, Status.stuck) = stuck

-- The callback of `ReplayAll`. The index that an error leaves is not modelled: `Open` drops it.
unfoldable pub on_record : ℕ → SegmentedRecordStore → Index → WalRecord → ℕ → Result Index
on_record rounds store index rec pos =
    if rec.op == wal_op_put
    then updated (put (key_at store) rounds index rec.key pos)
    else if rec.op == wal_op_delete
    then updated (delete (key_at store) rounds index rec.key)
    else err corrupt_wal

-- `std::sort` of the file numbers.
unfoldable pub insert_id : ℕ → List ℕ → List ℕ
insert_id id [] = id ∷ []
insert_id id (x ∷ ids) = let rest = insert_id id ids in if leb id x then id ∷ x ∷ ids else x ∷ rest

unfoldable pub sort_ids : List ℕ → List ℕ
sort_ids [] = []
sort_ids (id ∷ ids) = insert_id id (sort_ids ids)

abbrev pub segment_ids : List (ℕ × WalSegment) → List ℕ
segment_ids segments = map (λ (entry : ℕ × WalSegment). entry.0) segments

-- `segments_.erase`
unfoldable pub erase : List (ℕ × WalSegment) → ℕ → List (ℕ × WalSegment)
erase [] id = []
erase ((n, seg) ∷ segments) id =
    let rest = erase segments id in if n == id then rest else (n, seg) ∷ rest

-- A segment that is dropped, with its file.
unfoldable pub drop_segment : SegmentedRecordStore → ℕ → SegmentedRecordStore
unfolding erase
drop_segment store id = record store {
  segments = erase store.segments id;
  files = λ n. if n == id then [] else store.files n;
}

-- What the loop of `ReplayAll` keeps.
pub record ReplayState : Type 0 where
  pub store : SegmentedRecordStore
  pub index : Index
  pub drop_remaining : Bool
  pub last_kept_file_no : ℕ

-- The loop of `ReplayAll`.
unfoldable pub replay_ids : WalReplayPolicy → ℕ → ReplayState → List ℕ → Result ReplayState
unfolding drop_segment
replay_ids policy rounds state [] = ok state
replay_ids policy rounds state (id ∷ ids) = elim state.drop_remaining [
  | true ↦ replay_ids policy rounds (record state { store = drop_segment state.store id }) ids
  | false ↦ elim (segment state.store id) [
    | none ↦ stuck
    | some seg ↦ do
      replayed ← replay policy (on_record rounds state.store) seg state.index
      let next : ReplayState = record {
        store = put_segment state.store id replayed.segment;
        index = replayed.state;
        drop_remaining = replayed.truncated;
        last_kept_file_no = id;
      }
      replay_ids policy rounds next ids
  ]
]

-- Every segment but the active one is sealed.
unfoldable pub seal_others : ℕ → List (ℕ × WalSegment) → List (ℕ × WalSegment)
seal_others active [] = []
seal_others active ((n, seg) ∷ segments) =
    (n, record seg { sealed = not (n == active) }) ∷ seal_others active segments

-- The end of `ReplayAll`.
unfoldable pub finish_replay : ReplayState → SegmentedRecordStore × Index
unfolding seal_others
finish_replay state =
    if state.drop_remaining
    then (
      record state.store {
        active_file_no = state.last_kept_file_no;
        next_file_no = state.last_kept_file_no + 1;
        segments = seal_others state.last_kept_file_no state.store.segments;
      },
      state.index,
    )
    else (state.store, state.index)

-- `ReplayAll`
unfoldable pub replay_all :
    WalReplayPolicy → ℕ → SegmentedRecordStore → Index → Result (SegmentedRecordStore × Index)
unfolding sort_ids replay_ids finish_replay
replay_all policy rounds store index = do
  let start : ReplayState = record {
    store = store;
    index = index;
    drop_remaining = false;
    last_kept_file_no = store.active_file_no;
  }
  state ← replay_ids policy rounds start (sort_ids (segment_ids store.segments))
  ok (finish_replay state)

abbrev pub last_id : ℕ → List ℕ → ℕ
last_id id [] = id
last_id id (next ∷ ids) = last_id next ids

-- The loop of `Open`.
unfoldable pub open_all :
    ℕ → ℕ → (ℕ → List ℕ) → List ℕ → List (ℕ × WalSegment) → Result (List (ℕ × WalSegment))
open_all wal_size active files [] segments = ok segments
open_all wal_size active files (id ∷ ids) segments = do
  seg ← open_segment (files id) wal_size id
  open_all wal_size active files ids
      (emplace segments id (record seg { sealed = not (id == active) }))

abbrev pub empty_record : OwnedRecord
empty_record = record { key = []; value = []; live = false }

-- `Open` of a directory with the segments `ids`, in rising order.
unfoldable pub open_store : ℕ → ℕ → (ℕ → List ℕ) → List ℕ → Result SegmentedRecordStore
unfolding open_all
open_store wal_size generation files ids =
    if ltb wal_size (wal_header_size + wal_record_header_size) || ltb record_offset_limit wal_size
    then err invalid_argument
    else if generation == 0
    then err corrupt_manifest
    else do
      let active = last_id 1 ids
      segments ←
          open_all wal_size active files (elim ids [ [] ↦ 1 ∷ [] | id ∷ rest ↦ id ∷ rest ]) []
      ok (record {
        files = files;
        wal_size = wal_size;
        generation = generation;
        active_file_no = active;
        next_file_no = active + 1;
        snapshot_records = empty_record ∷ [];
        segments = segments;
      })

-- `ResetToSnapshot`, where `files` is what the new generation's directory has.
unfoldable pub reset_to_snapshot :
    SegmentedRecordStore → ℕ → (ℕ → List ℕ) → SegmentedRecordStore × Result (Unit {0})
reset_to_snapshot store generation files =
    if generation == 0
    then (store, err corrupt_manifest)
    else let cleared : SegmentedRecordStore = record store {
      files = files;
      generation = generation;
      active_file_no = 1;
      next_file_no = 2;
      snapshot_records = empty_record ∷ [];
      segments = [];
    } in
      elim (open_segment (files 1) store.wal_size 1) [
        | err e ↦ (cleared, err e)
        | stuck ↦ (cleared, stuck)
        | ok seg ↦
            (record cleared { segments = emplace [] 1 (record seg { sealed = false }) }, ok tt)
      ]
