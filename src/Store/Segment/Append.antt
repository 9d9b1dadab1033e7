-- ===== src/Store/Segment/Append.antt =====
-- store.cc, `WalSegment::Append`: the segment it leaves and what is read from it.
use minweight_store_cpp.Base.{ℕ, ◌+◌, ◌-◌, ◌*◌, ◌%◌, ◌^◌, ◌≤◌, ◌<◌, List, length, All, arith, ltb}
use minweight_store_cpp.Base.{true, false, ◌≡◌, refl, sym, ap, ◌∙◌, ◌⊎◌, inl, inr}
use minweight_store_cpp.Store.Status.{ok, err, wal_full}
use minweight_store_cpp.Store.Bytes.{IsByte, view, load32, load64, store64, bytes64}
use minweight_store_cpp.Store.Bytes.Laws.{
  Apart, view-copy_beside, view-copy, length-copy, load64-view, load32-view, load32-cong, byte-cong,
  store64-All,
}
use minweight_store_cpp.Store.Crc.{wal_record_crc, wal_record_crc-lt}
use minweight_store_cpp.Store.Position.{
  record_offset_limit, record_file_no_limit, make_record_position_in_range,
}
use minweight_store_cpp.Store.Segment.{
  WalSegment, append, write_record, write_fields, write_used, wal_header_size, wal_header_magic,
  max_key_size, u32_max, wal_record_header_size,
}
use minweight_store_cpp.Store.Segment.Fields.{
  byte-op, view-key_len, view-value_len, view-key, view-value, view-write_record,
  length-write_record, view-crc, view-beside_crc, write_record-All,
}
use minweight_store_cpp.Store.Segment.Records.{IsRecord}

-- A segment that is open: the mapping has its size, the header is the one `InitHeader` writes, with
-- the used offset, and the file number fits a position.
pub record IsSegment (seg : WalSegment) : Type 0 where
  pub mapped_size : length seg.bytes ≡ seg.size
  pub size_limit : seg.size ≤ record_offset_limit
  pub used_start : wal_header_size ≤ seg.used
  pub used_limit : seg.used ≤ seg.size
  pub file_no_start : 0 < seg.file_no
  pub file_no_limit : seg.file_no < record_file_no_limit
  pub in_bytes : All IsByte seg.bytes
  pub magic : view seg.bytes 0 8 ≡ wal_header_magic
  pub version : load32 seg.bytes 8 ≡ 1
  pub used_stored : load64 seg.bytes 16 ≡ seg.used

abbrev pub record_size : List ℕ → List ℕ → ℕ
record_size key value = wal_record_header_size + length key + length value

-- The segment after a record that fits.
unfoldable pub appended : WalSegment → ℕ → List ℕ → List ℕ → WalSegment
appended seg op key value = write_used (record seg {
  bytes = write_record seg.bytes seg.used op key value;
  used = seg.used + record_size key value;
})

pub append_fits :
    (seg : WalSegment) (op : ℕ) (key value : List ℕ)
    → IsSegment seg
    → seg.sealed ≡ false
    → seg.used + record_size key value ≤ seg.size
    → append seg op key value ≡ (appended seg op key value, ok (seg.file_no * 2 ^ 30 + seg.used))
unfolding append appended
append_fits seg op key value w hs fits =
    let e : (seg.size + 2 ^ 64 - seg.used) % 2 ^ 64 ≡ seg.size - seg.used =
      omega (arith, w.size_limit, w.used_limit, w.used_start) in
    let lim = w.size_limit in
    let k : ltb u32_max (length key) ≡ false = ground arith in
    let v : ltb u32_max (length value) ≡ false = ground arith in
    let t : ltb (seg.size - seg.used) (record_size key value) ≡ false = ground arith in
    let l : ltb record_offset_limit (seg.used + record_size key value) ≡ false = ground arith in
    rw
      (
        hs,
        k,
        v,
        e,
        t,
        l,
        make_record_position_in_range seg.file_no seg.used w.file_no_start w.file_no_limit
            (omega (arith, w.size_limit)),
      )
      refl

pub append_refused :
    (seg : WalSegment) (op : ℕ) (key value : List ℕ)
    → IsSegment seg
    → (seg.sealed ≡ true) ⊎ (seg.size < seg.used + record_size key value)
    → append seg op key value ≡ (seg, err wal_full)
unfolding append
append_refused seg op key value w (inl hs) = rw hs refl
append_refused seg op key value w (inr big) =
    let e : (seg.size + 2 ^ 64 - seg.used) % 2 ^ 64 ≡ seg.size - seg.used =
      omega (arith, w.size_limit, w.used_limit, w.used_start) in
    let u = w.used_limit in
    let t : ltb (seg.size - seg.used) (record_size key value) ≡ true = ground arith in
    rw (e, t) (ground arith)

pub appended-file_no :
    (seg : WalSegment) (op : ℕ) (key value : List ℕ)
    → (appended seg op key value).file_no ≡ seg.file_no
unfolding appended write_used
appended-file_no seg op key value = refl

module _ (seg : WalSegment) (op : ℕ) (key value : List ℕ) (w : IsSegment seg) where
  abbrev after : List ℕ
  after = write_record seg.bytes seg.used op key value

  view-after :
      (q n : ℕ) → Apart q n 16 8 → view (appended seg op key value).bytes q n ≡ view after q n
  unfolding appended write_used store64
  view-after q n h16 = view-copy_beside n (bytes64 _) after 16 q h16

  -- Only the used offset and the new record are written.
  pub view-appended :
      (q n : ℕ)
      → Apart q n 16 8
      → Apart q n seg.used (record_size key value)
      → view (appended seg op key value).bytes q n ≡ view seg.bytes q n
  view-appended q n h16 hr =
      view-after q n h16 ∙ view-write_record seg.bytes seg.used op key value q n hr

  pub appended-used : (appended seg op key value).used ≡ seg.used + record_size key value
  unfolding appended write_used
  appended-used = refl

  module _ (fits : seg.used + record_size key value ≤ seg.size) where
    stored : load64 (appended seg op key value).bytes 16 ≡ (appended seg op key value).used
    unfolding appended write_used store64
    stored =
        let room = w.used_start in
        let top = w.used_limit in
        load64-view (store64 after 16 (seg.used + record_size key value)) 16
          (seg.used + record_size key value) (omega (arith, w.size_limit))
          (view-copy (bytes64 (seg.used + record_size key value)) after 16
            (omega (arith, w.mapped_size, length-write_record seg.bytes seg.used op key value)))

    pub appended-IsSegment :
        op < 256 → All IsByte key → All IsByte value → IsSegment (appended seg op key value)
    unfolding appended write_used store64
    appended-IsSegment hop hk hv = record {
      mapped_size =
          length-copy (bytes64 (seg.used + record_size key value)) after 16
          ∙ length-write_record seg.bytes seg.used op key value
          ∙ w.mapped_size;
      size_limit = w.size_limit;
      used_start = omega (arith, w.used_start);
      used_limit = fits;
      file_no_start = w.file_no_start;
      file_no_limit = w.file_no_limit;
      in_bytes =
          store64-All after 16 (seg.used + record_size key value)
            (write_record-All seg.bytes seg.used op key value hop w.in_bytes hk hv);
      magic = view-appended 0 8 (omega arith) (omega (arith, w.used_start)) ∙ w.magic;
      version =
          load32-cong (appended seg op key value).bytes seg.bytes 8
            (view-appended 8 4 (omega arith) (omega (arith, w.used_start)))
          ∙ w.version;
      used_stored = stored;
    }

    pub appended-IsRecord :
        (op ≡ 1) ⊎ (op ≡ 2) × (length value ≡ 0)
        → length key ≤ max_key_size
        → IsRecord
            (appended seg op key value).bytes
            seg.used
            true
            (record { op = op; key = key; value = value; end = (appended seg op key value).used })
    appended-IsRecord valid kle =
        let lo = w.used_start in
        let lim = w.size_limit in
        let room : seg.used + 13 + length key + length value ≤ length seg.bytes =
          omega (arith, w.mapped_size) in
        let used' = appended-used in
        let fields = write_fields seg.bytes seg.used op key value in
        let bytes' = (appended seg op key value).bytes in
        let at = λ (q n : ℕ) (h : Apart q n 16 8) (hc : Apart q n (seg.used + 9) 4).
          view-after q n h ∙ view-beside_crc seg.bytes seg.used op key value q n hc in
        record {
          op_read =
              byte-cong bytes' fields seg.used (at seg.used 1 (omega arith) (omega arith))
              ∙ byte-op seg.bytes seg.used op key value room;
          op_valid = valid;
          key_len =
              load32-view bytes' (seg.used + 1) (length key) (
                at (seg.used + 1) 4 (omega arith) (omega arith)
                ∙ view-key_len seg.bytes seg.used op key value room)
              ∙ omega arith;
          value_len =
              load32-view bytes' (seg.used + 5) (length value) (
                at (seg.used + 5) 4 (omega arith) (omega arith)
                ∙ view-value_len seg.bytes seg.used op key value room)
              ∙ omega arith;
          key_fits = kle;
          key_read =
              at (seg.used + 13) (length key) (omega arith) (omega arith)
              ∙ view-key seg.bytes seg.used op key value room;
          value_read =
              at (seg.used + 13 + length key) (length value) (omega arith) (omega arith)
              ∙ view-value seg.bytes seg.used op key value room;
          ends = used' ∙ omega arith;
          crc = λ h.
              ap (λ n. wal_record_crc (view bytes' seg.used n)) (omega (arith, used'))
              ∙ ap wal_record_crc (view-after seg.used (record_size key value) (omega arith))
              ∙ (let c = wal_record_crc (view after seg.used (record_size key value)) in
                  let lt : c < 2 ^ 32 =
                    wal_record_crc-lt (view after seg.used (record_size key value)) in
                  sym (
                    load32-view bytes' (seg.used + 9) c (
                      view-after (seg.used + 9) 4 (omega arith)
                      ∙ view-crc seg.bytes seg.used op key value (omega (arith, w.mapped_size)))
                    ∙ omega arith));
        }

pub appended-sealed :
    (seg : WalSegment) (op : ℕ) (key value : List ℕ)
    → (appended seg op key value).sealed ≡ seg.sealed
unfolding appended write_used
appended-sealed seg op key value = refl

pub appended-size :
    (seg : WalSegment) (op : ℕ) (key value : List ℕ) → (appended seg op key value).size ≡ seg.size
unfolding appended write_used
appended-size seg op key value = refl
