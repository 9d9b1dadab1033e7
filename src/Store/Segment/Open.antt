-- ===== src/Store/Segment/Open.antt =====
-- store.cc, `WalSegment::Open`: new files, and files that a segment left.
use minweight_store_cpp.Base.{ℕ, zero, suc, ◌≤◌, ◌<◌, List, [], ◌∷◌, length, All, arith, ltb, ◌==◌}
use minweight_store_cpp.Base.{replicate, length-replicate, true, false, ◌≡◌, refl, ap, ◌∙◌}
use minweight_store_cpp.Store.Status.{ok}
use minweight_store_cpp.Store.Bytes.{
  IsByte, byte, view, copy, load32, load64, store32, store64, bytes32, bytes64, is_zero_bytes,
}
use minweight_store_cpp.Store.Bytes.Laws.{
  view-copy_beside, view-copy, length-copy, load64-view, load32-view, copy-All, store32-All,
  store64-All,
}
use minweight_store_cpp.Store.Position.{
  record_offset_limit, record_file_no_limit, make_record_position_in_range,
}
use minweight_store_cpp.Store.Segment.{
  WalSegment, open_segment, open_mapped, mapped, init_header, load_header, write_used, same_bytes,
  wal_header_size, wal_header_magic,
}
use minweight_store_cpp.Store.Segment.Append.{IsSegment}

is_zero_bytes-replicate : (n m : ℕ) → is_zero_bytes (replicate n 0) m ≡ true
unfolding is_zero_bytes
is_zero_bytes-replicate n zero = refl
is_zero_bytes-replicate zero (suc m) = refl
is_zero_bytes-replicate (suc n) (suc m) = is_zero_bytes-replicate n m

is_zero_bytes-first : (buf : List ℕ) (n : ℕ) → 0 < byte buf 0 → is_zero_bytes buf (suc n) ≡ false
unfolding is_zero_bytes
is_zero_bytes-first [] n h = absurd (omega arith)
is_zero_bytes-first (b ∷ buf) n h = let t : (b == 0) ≡ false = ground arith in rw t refl

replicate-All : (n : ℕ) → All IsByte (replicate n 0)
replicate-All zero = tt
replicate-All (suc n) = (omega arith, replicate-All n)

header_bytes : All IsByte wal_header_magic
header_bytes = (
  omega arith,
  (
    omega arith,
    (omega arith, (omega arith, (omega arith, (omega arith, (omega arith, (omega arith, tt)))))),
  ),
)

abbrev zeros : ℕ → List ℕ
zeros n = replicate n 0

length-zeros : (n : ℕ) → length (zeros n) ≡ n
length-zeros n = length-replicate {A = ℕ} n 0

module _ (size file_no : ℕ) (lo : 4109 ≤ size) (hi : size ≤ record_offset_limit) where
  abbrev b1 : List ℕ
  b1 = copy (replicate size 0) 0 wal_header_magic

  abbrev b2 : List ℕ
  b2 = store32 b1 8 1

  length-b1 : length b1 ≡ size
  length-b1 = length-copy wal_header_magic (replicate size 0) 0 ∙ length-zeros size

  length-b2 : length b2 ≡ size
  unfolding store32
  length-b2 = length-copy (bytes32 1) b1 8 ∙ length-b1

  pub init_header-IsSegment :
      0 < file_no
      → file_no < record_file_no_limit
      → IsSegment (init_header (mapped (replicate size 0) size file_no true))
  unfolding init_header mapped write_used store64 store32
  init_header-IsSegment h0 hf = record {
    mapped_size = length-copy (bytes64 4096) b2 16 ∙ length-b2;
    size_limit = hi;
    used_start = omega arith;
    used_limit = omega arith;
    file_no_start = h0;
    file_no_limit = hf;
    in_bytes = store64-All b2 16 4096 (
        store32-All b1 8 1
          (copy-All wal_header_magic (replicate size 0) 0 (replicate-All size) header_bytes));
    magic =
        view-copy_beside 8 (bytes64 4096) b2 16 0 (omega arith)
        ∙ view-copy_beside 8 (bytes32 1) b1 8 0 (omega arith)
        ∙ view-copy wal_header_magic (replicate size 0) 0 (omega (arith, length-zeros size));
    version = load32-view (store64 b2 16 4096) 8 1 (
        view-copy_beside 4 (bytes64 4096) b2 16 8 (omega arith)
        ∙ view-copy (bytes32 1) b1 8 (omega (arith, length-b1)));
    used_stored =
        load64-view (store64 b2 16 4096) 16 4096 (omega arith)
          (view-copy (bytes64 4096) b2 16 (omega (arith, length-b2)));
  }

first_byte : (buf : List ℕ) → view buf 0 8 ≡ wal_header_magic → 0 < byte buf 0
unfolding view
first_byte buf h = let e : byte buf 0 ≡ 0x4d = ap (λ l. byte l 0) h in omega arith

zero_mapping :
    (seg : WalSegment)
    → is_zero_bytes seg.bytes wal_header_size ≡ true
    → open_mapped seg ≡ ok (init_header seg)
unfolding open_mapped
zero_mapping seg h = rw h refl

used_mapping :
    (seg : WalSegment) (used : ℕ)
    → is_zero_bytes seg.bytes wal_header_size ≡ false
    → view seg.bytes 0 8 ≡ wal_header_magic
    → load32 seg.bytes 8 ≡ 1
    → load64 seg.bytes 16 ≡ used
    → wal_header_size ≤ used
    → used ≤ seg.size
    → open_mapped seg ≡ ok (record seg { used = used })
unfolding open_mapped load_header same_bytes
used_mapping seg used z m v u lo hi =
    let t1 : ltb used wal_header_size ≡ false = ground arith in
    let t2 : ltb seg.size used ≡ false = ground arith in rw (z, m, v, u, t1, t2) refl

-- `Open` gives an empty segment that is well formed.
abbrev pub OpensEmpty : ℕ → ℕ → Type 0
OpensEmpty size file_no =
    (seg : WalSegment) × (open_segment [] size file_no ≡ ok seg)
    × IsSegment seg
    × (seg.used ≡ wal_header_size)
    × (seg.size ≡ size)
    × (seg.file_no ≡ file_no)
    × (seg.sealed ≡ false)

-- `Open` of a new file, of a legal size and for a legal file number, gives an empty segment that is
-- well formed.
pub open_segment-fresh :
    (size file_no : ℕ)
    → 4109 ≤ size
    → size ≤ record_offset_limit
    → 0 < file_no
    → file_no < record_file_no_limit
    → OpensEmpty size file_no
unfolding open_segment mapped
open_segment-fresh size file_no lo hi h0 hf =
    let s1 : ltb size 4109 ≡ false = ground arith in
    let s2 : ltb record_offset_limit size ≡ false = ground arith in
    let p = make_record_position_in_range file_no 4096 h0 hf (omega arith) in
    (
      init_header (mapped (replicate size 0) size file_no true),
      rw (s1, s2, p)
          (zero_mapping (mapped (replicate size 0) size file_no true)
            (is_zero_bytes-replicate size 4096)),
      init_header-IsSegment size file_no lo hi h0 hf,
      refl,
      refl,
      refl,
      refl,
    )

-- `Open` of the bytes that a segment has in its file gives that segment again, unsealed.
pub open_segment-bytes :
    (seg : WalSegment)
    → IsSegment seg
    → 4109 ≤ seg.size
    → open_segment seg.bytes seg.size seg.file_no
      ≡ ok (record seg { sealed = false; data_dirty = false; metadata_dirty = false })
unfolding open_segment mapped
open_segment-bytes seg w lo =
    let lim = w.size_limit in
    let top = w.used_limit in
    let low = w.used_start in
    let s1 : ltb seg.size 4109 ≡ false = ground arith in
    let s2 : ltb record_offset_limit seg.size ≡ false = ground arith in
    let p =
      make_record_position_in_range seg.file_no 4096 w.file_no_start w.file_no_limit
        (omega arith) in
    let n : (length seg.bytes == 0) ≡ false = ground (arith, w.mapped_size) in
    let m : (length seg.bytes == seg.size) ≡ true = ground (arith, w.mapped_size) in
    rw (s1, s2, p, n, m)
      (used_mapping (mapped seg.bytes seg.size seg.file_no false) seg.used
        (is_zero_bytes-first seg.bytes 4095 (first_byte seg.bytes w.magic)) w.magic w.version
        w.used_stored low top)
