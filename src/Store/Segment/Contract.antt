-- ===== src/Store/Segment/Contract.antt =====
-- store.cc, `WalSegment::Append` and `WalSegment::RecordAt`: what the log promises its caller.
use minweight_store_cpp.Base.{ℕ, ◌+◌, ◌*◌, ◌/◌, ◌%◌, ◌^◌, ◌≤◌, ◌<◌, List, length, All, arith, ◌==◌}
use minweight_store_cpp.Base.{Bool, true, false, ◌≡◌, refl, sym, ap, ◌∙◌, ◌⊎◌, inl, inr, Bool-cases}
use native.Mathlib.Decide.{dec_lt}
use minweight_store_cpp.Store.Status.{ok, err, wal_full}
use minweight_store_cpp.Store.Bytes.{IsByte}
use minweight_store_cpp.Store.Position.{record_position_file_no, record_position_offset}
use minweight_store_cpp.Store.Segment.{
  WalSegment, WalRecord, append, record_at_offset, record_at, max_key_size,
}
use minweight_store_cpp.Store.Segment.Records.{
  record_at_offset-IsRecord, IsRecord-record_at_offset, IsRecord-cong, IsRecord-unverified,
}
use minweight_store_cpp.Store.Segment.Append.{
  IsSegment, record_size, appended, append_fits, append_refused, appended-IsSegment,
  appended-IsRecord, appended-used, appended-file_no, view-appended,
}

-- A key and value that the store hands to `Append`.
pub record IsEntry (op : ℕ) (key value : List ℕ) : Type 0 where
  pub op_valid : (op ≡ 1) ⊎ (op ≡ 2) × (length value ≡ 0)
  pub key_fits : length key ≤ max_key_size
  pub key_bytes : All IsByte key
  pub value_bytes : All IsByte value

-- What can be read in `seg` is read in `seg'` too.
abbrev pub Keeps : WalSegment → WalSegment → Type 0
Keeps seg seg' =
    (o : ℕ) (verify : Bool) (rec : WalRecord)
    → record_at_offset seg o verify ≡ ok rec
    → record_at_offset seg' o verify ≡ ok rec

pub appended-Keeps :
    (seg : WalSegment) (op : ℕ) (key value : List ℕ)
    → IsSegment seg
    → seg.used + record_size key value ≤ seg.size
    → Keeps seg (appended seg op key value)
appended-Keeps seg op key value w fits o verify rec e =
    let lim = w.size_limit in
    let (lo, hi, r) = IsRecord-record_at_offset seg o verify rec w.in_bytes (omega arith) e in
    record_at_offset-IsRecord (appended seg op key value) o verify rec lo
      (omega (arith, appended-used seg op key value w))
      (omega (arith, appended-used seg op key value w))
      (IsRecord-cong seg.bytes (appended seg op key value).bytes o verify rec
        (λ q n hq hn. view-appended seg op key value w q n (omega arith) (omega arith)) r)

record_at_of_position :
    (seg : WalSegment) (start : ℕ) (verify : Bool)
    → start < 2 ^ 30
    → record_at seg (seg.file_no * 2 ^ 30 + start) verify ≡ record_at_offset seg start verify
unfolding record_at record_position_file_no record_position_offset
record_at_of_position seg start verify h =
    let f : (seg.file_no * 2 ^ 30 + start) / 2 ^ 30 ≡ seg.file_no = omega arith in
    let o : (seg.file_no * 2 ^ 30 + start) % 2 ^ 30 ≡ start = omega arith in
    let t : (seg.file_no == seg.file_no) ≡ true = ground arith in rw (f, o, t) refl

-- The new record is what is read at its position.
pub appended-record_at :
    (seg : WalSegment) (op : ℕ) (key value : List ℕ) (verify : Bool)
    → IsSegment seg
    → IsEntry op key value
    → seg.used + record_size key value ≤ seg.size
    → record_at (appended seg op key value) (seg.file_no * 2 ^ 30 + seg.used) verify
      ≡ ok (record { op = op; key = key; value = value; end = (appended seg op key value).used })
appended-record_at seg op key value verify w entry fits =
    let seg' = appended seg op key value in
    let used = appended-used seg op key value w in
    let lim = w.size_limit in
    ap (λ n. record_at seg' (n * 2 ^ 30 + seg.used) verify)
      (sym (appended-file_no seg op key value))
    ∙ record_at_of_position seg' seg.used verify (omega arith)
    ∙ record_at_offset-IsRecord seg' seg.used verify _ w.used_start (omega arith) (omega arith) (
        IsRecord-unverified seg'.bytes seg.used verify _
          (appended-IsRecord seg op key value w fits entry.op_valid entry.key_fits))

accepted :
    (seg : WalSegment) (op : ℕ) (key value : List ℕ)
    → IsSegment seg
    → IsEntry op key value
    → seg.sealed ≡ false
    → seg.used + record_size key value ≤ seg.size
    → (seg' : WalSegment) × (pos : ℕ) × (append seg op key value ≡ (seg', ok pos))
      × IsSegment seg'
      × (seg'.used ≡ seg.used + record_size key value)
      × ((verify : Bool)
          → record_at seg' pos verify
            ≡ ok (record { op = op; key = key; value = value; end = seg'.used }))
      × Keeps seg seg'
accepted seg op key value w entry unsealed fits =
    let seg' = appended seg op key value in
    let used = appended-used seg op key value w in
    let valid = entry.op_valid in
    (
      seg',
      seg.file_no * 2 ^ 30 + seg.used,
      append_fits seg op key value w unsealed fits,
      appended-IsSegment seg op key value w fits (omega arith) entry.key_bytes entry.value_bytes,
      used,
      (λ verify. appended-record_at seg op key value verify w entry fits),
      appended-Keeps seg op key value w fits,
    )

-- The answer to an append, accepted or refused.
abbrev pub AppendAnswer : WalSegment → ℕ → List ℕ → List ℕ → Type 0
AppendAnswer seg op key value =
    (seg.sealed ≡ false)
      × (seg.used + record_size key value ≤ seg.size)
      × ((seg' : WalSegment) × (pos : ℕ) × (append seg op key value ≡ (seg', ok pos))
          × IsSegment seg'
          × (seg'.used ≡ seg.used + record_size key value)
          × ((verify : Bool)
              → record_at seg' pos verify
                ≡ ok (record { op = op; key = key; value = value; end = seg'.used }))
          × Keeps seg seg')
    ⊎ ((seg.sealed ≡ true) ⊎ (seg.size < seg.used + record_size key value))
      × (append seg op key value ≡ (seg, err wal_full))

-- `Append`, on a well-formed segment, of a put, or of a delete without a value, with a key of at most
-- `kMaxKeySize` bytes. With room in a segment that is not sealed, it answers a position from which exactly
-- the record is read, with its CRC tested or not, the segment is well formed again and all that
-- could be read before is still read. In a sealed segment, or without room, it answers `wal_full` and
-- changes nothing.
pub append_lem :
    (seg : WalSegment) (op : ℕ) (key value : List ℕ)
    → IsSegment seg
    → IsEntry op key value
    → AppendAnswer seg op key value
append_lem seg op key value w entry = elim (Bool-cases seg.sealed) [
  | inl sealed ↦ inr (inl sealed, append_refused seg op key value w (inl sealed))
  | inr unsealed ↦ elim (dec_lt seg.size (seg.used + record_size key value)) [
    | yes big ↦ inr (inr big, append_refused seg op key value w (inr big))
    | no small ↦
        inl (unsealed, omega arith, accepted seg op key value w entry unsealed (omega arith))
  ]
]
