-- ===== src/Store/Segment.antt =====
-- store.cc, `WalSegment`: one mapped file of the log. The mapping is the list `bytes` of its bytes;
-- the path and the file descriptor are the operating system's. Offsets are uint64_t.
pub mod Fields
pub mod Log
pub mod Records
pub mod Append
pub mod Contract
pub mod Replay
pub mod Recovery
pub mod Open
pub mod History
pub mod Runs
use minweight_store_cpp.Base.{
  ℕ, zero, suc, ◌+◌, ◌-◌, ◌/◌, ◌%◌, ◌^◌, ltb, leb, ◌==◌, ◌&&◌, ◌||◌, not,
}
use minweight_store_cpp.Base.{
  Bool, true, false, if◌then◌else◌, List, [], ◌∷◌, length, set, replicate,
}
use minweight_store_cpp.Store.Status.{
  Result, ok, err, stuck, wal_full, corrupt_wal, io_error, ◌>>=◌,
}
use minweight_store_cpp.Store.Bytes.{
  byte, view, copy, load32, load64, store32, store64, is_zero_bytes,
}
use minweight_store_cpp.Store.Crc.{wal_record_crc}
use minweight_store_cpp.Store.Position.{
  record_offset_limit, make_record_position, record_position_file_no, record_position_offset,
}

-- `kWalHeaderSize`, `kWalRecordHeaderSize`
abbrev pub wal_header_size : ℕ
wal_header_size = 4096

abbrev pub wal_record_header_size : ℕ
wal_record_header_size = 13

-- `kWalOpPut`, `kWalOpDelete`
abbrev pub wal_op_put : ℕ
wal_op_put = 1

abbrev pub wal_op_delete : ℕ
wal_op_delete = 2

abbrev pub max_key_size : ℕ
max_key_size = 65535 / 9

abbrev pub u32_max : ℕ
u32_max = 2 ^ 32 - 1

-- `kWalHeaderMagic`: "MWWAL01\0"
abbrev pub wal_header_magic : List ℕ
wal_header_magic = 0x4d ∷ 0x57 ∷ 0x57 ∷ 0x41 ∷ 0x4c ∷ 0x30 ∷ 0x31 ∷ 0 ∷ []

pub record WalSegment : Type 0 where
  pub bytes : List ℕ
  pub size : ℕ
  pub used : ℕ
  pub file_no : ℕ
  pub sealed : Bool
  pub data_dirty : Bool
  pub metadata_dirty : Bool

pub record WalRecord : Type 0 where
  pub op : ℕ
  pub key : List ℕ
  pub value : List ℕ
  pub end : ℕ

pub data WalReplayPolicy : Type 0 where
  point_in_time strict : WalReplayPolicy

-- `WriteUsed`
unfoldable pub write_used : WalSegment → WalSegment
write_used seg = record seg { bytes = store64 seg.bytes 16 seg.used; data_dirty = true }

-- `Truncate`
unfoldable pub truncate : WalSegment → ℕ → WalSegment
unfolding write_used
truncate seg used = write_used (record seg { used = used })

-- `InitHeader`
unfoldable pub init_header : WalSegment → WalSegment
unfolding write_used
init_header seg =
    write_used (record seg {
      bytes = store32 (copy seg.bytes 0 wal_header_magic) 8 1;
      used = wal_header_size;
    })

-- The `memcmp` of two buffers of one length, as a test.
unfoldable pub same_bytes : List ℕ → List ℕ → Bool
same_bytes [] [] = true
same_bytes (x ∷ xs) (y ∷ ys) = if x == y then same_bytes xs ys else false
same_bytes _ _ = false

-- `LoadHeader`
unfoldable pub load_header : WalSegment → Result WalSegment
unfolding same_bytes
load_header seg =
    if not (same_bytes (view seg.bytes 0 8) wal_header_magic)
    then err corrupt_wal
    else if not (load32 seg.bytes 8 == 1)
    then err corrupt_wal
    else let used = load64 seg.bytes 16 in
      if ltb used wal_header_size || ltb seg.size used
      then err corrupt_wal
      else ok (record seg { used = used })

-- The state of a segment right after `mmap`.
unfoldable pub mapped : List ℕ → ℕ → ℕ → Bool → WalSegment
mapped bytes size file_no fresh = record {
  bytes = bytes;
  size = size;
  used = 0;
  file_no = file_no;
  sealed = false;
  data_dirty = false;
  metadata_dirty = fresh;
}

unfoldable pub open_mapped : WalSegment → Result WalSegment
unfolding init_header load_header
open_mapped seg =
    if is_zero_bytes seg.bytes wal_header_size then ok (init_header seg) else load_header seg

-- `WalSegment::Open` where the system calls succeed. `file` is what the file has, nothing for a new
-- one, which is then extended with zeros.
unfoldable pub open_segment : List ℕ → ℕ → ℕ → Result WalSegment
unfolding mapped open_mapped
open_segment file size file_no =
    if ltb size (wal_header_size + wal_record_header_size) || ltb record_offset_limit size
    then err wal_full
    else elim (make_record_position file_no wal_header_size) [
      | err e ↦ err corrupt_wal
      | stuck ↦ stuck
      | ok pos ↦
          if length file == 0
          then open_mapped (mapped (replicate size 0) size file_no true)
          else if length file == size
          then open_mapped (mapped file size file_no false)
          else err corrupt_wal
    ]

-- The bytes of a new record at `start`, all but the CRC, and then with it.
unfoldable pub write_fields : List ℕ → ℕ → ℕ → List ℕ → List ℕ → List ℕ
write_fields bytes start op key value =
    let b1 = set bytes start op in
    let b2 = store32 b1 (start + 1) (length key) in
    let b3 = store32 b2 (start + 5) (length value) in
    let b4 = copy b3 (start + 13) key in copy b4 (start + 13 + length key) value

unfoldable pub write_record : List ℕ → ℕ → ℕ → List ℕ → List ℕ → List ℕ
unfolding write_fields
write_record bytes start op key value =
    let fields = write_fields bytes start op key value in
    let total = wal_record_header_size + length key + length value in
    store32 fields (start + 9) (wal_record_crc (view fields start total))

-- `Append`: the new segment beside the position, or the error. An error leaves the segment as it
-- was, but for `make_record_position`, which comes last.
unfoldable pub append : WalSegment → ℕ → List ℕ → List ℕ → WalSegment × Result ℕ
unfolding write_record write_used
append seg op key value =
    if seg.sealed
    then (seg, err wal_full)
    else if ltb u32_max (length key) || ltb u32_max (length value)
    then (seg, err wal_full)
    else let total = wal_record_header_size + length key + length value in
      if ltb ((seg.size + 2 ^ 64 - seg.used) % 2 ^ 64) total
        || ltb record_offset_limit (seg.used + total)
      then (seg, err wal_full)
      else (
        write_used (record seg {
          bytes = write_record seg.bytes seg.used op key value;
          used = seg.used + total;
        }),
        make_record_position seg.file_no seg.used,
      )

-- `RecordAtOffset`, the test of the CRC apart.
unfoldable pub read_record : List ℕ → ℕ → ℕ → ℕ → ℕ → WalRecord
read_record bytes offset key_len value_len end = record {
  op = byte bytes offset;
  key = view bytes (offset + 13) key_len;
  value = view bytes (offset + 13 + key_len) value_len;
  end = end;
}

unfoldable pub record_at_offset : WalSegment → ℕ → Bool → Result WalRecord
unfolding read_record
record_at_offset seg offset verify_crc =
    if ltb offset wal_header_size || ltb seg.used (offset + wal_record_header_size)
    then err corrupt_wal
    else let op = byte seg.bytes offset in
      let key_len = load32 seg.bytes (offset + 1) in
      let value_len = load32 seg.bytes (offset + 5) in
      let end = (offset + wal_record_header_size + key_len + value_len) % 2 ^ 64 in
      if not (op == wal_op_put) && not (op == wal_op_delete)
      then err corrupt_wal
      else if op == wal_op_delete && not (value_len == 0)
      then err corrupt_wal
      else if ltb max_key_size key_len
      then err corrupt_wal
      else if ltb end offset || ltb seg.used end
      then err corrupt_wal
      else if verify_crc
          && not (
              wal_record_crc (view seg.bytes offset (end - offset))
              == load32 seg.bytes (offset + 9))
      then err corrupt_wal
      else ok (read_record seg.bytes offset key_len value_len end)

-- `RecordAt`
unfoldable pub record_at : WalSegment → ℕ → Bool → Result WalRecord
unfolding record_at_offset
record_at seg pos verify_crc =
    if record_position_file_no pos == seg.file_no
    then record_at_offset seg (record_position_offset pos) verify_crc
    else err corrupt_wal

-- What a replay leaves: the segment, whether it was truncated, and the callback's state.
pub record Replayed (S : Type 0) : Type 0 where
  pub segment : WalSegment
  pub truncated : Bool
  pub state : S

module _ {S : Type 0} (policy : WalReplayPolicy) (fn : S → WalRecord → ℕ → Result S) where
  abbrev stop_at : WalSegment → ℕ → S → Result (Replayed S)
  stop_at seg last_good s = elim policy [
    | point_in_time ↦ ok (record { segment = truncate seg last_good; truncated = true; state = s })
    | strict ↦ err corrupt_wal
  ]

  -- The loop of `Replay`. A record is 13 bytes at least, so `used` rounds are enough.
  unfoldable pub replay_loop : ℕ → WalSegment → ℕ → ℕ → S → Result (Replayed S)
  replay_loop zero seg offset last_good s = stuck
  replay_loop (suc rounds) seg offset last_good s = elim (ltb offset seg.used) [
    | false ↦
        if offset == seg.used
        then ok (record { segment = seg; truncated = false; state = s })
        else stop_at seg last_good s
    | true ↦ elim (record_at_offset seg offset true) [
      | err e ↦ stop_at seg last_good s
      | stuck ↦ stuck
      | ok rec ↦ do
        pos ← make_record_position seg.file_no offset
        s' ← fn s rec pos
        replay_loop rounds seg rec.end rec.end s'
    ]
  ]

  unfoldable pub replay : WalSegment → S → Result (Replayed S)
  unfolding replay_loop
  replay seg s = replay_loop seg.used seg wal_header_size wal_header_size s
