-- ===== src/Store/Segment/Records.antt =====
-- store.cc, `WalSegment::RecordAtOffset`: what a record in the log is, and that it is what is read.
use minweight_store_cpp.Base.{
  ℕ, ◌+◌, ◌-◌, ◌%◌, ◌^◌, ◌≤◌, ◌<◌, List, length, All, arith, ltb, ◌==◌, ◌&&◌,
}
use minweight_store_cpp.Base.{Bool, true, false, ◌≡◌, refl, sym, ap, ◌∙◌, ◌⊎◌}
use minweight_store_cpp.Base.{if◌then◌else◌, ◌||◌, not}
use mathlib.Core.Path.{subst}
use minweight_store_cpp.Store.Status.{ok, err, ok-injective, corrupt_wal}
use minweight_store_cpp.Store.Bytes.{IsByte, byte, view, load32}
use minweight_store_cpp.Store.Bytes.Laws.{length-view, load32-lt, load32-cong, byte-cong}
use minweight_store_cpp.Store.Crc.{wal_record_crc}
use minweight_store_cpp.Store.Segment.{
  WalSegment, WalRecord, record_at_offset, read_record, wal_header_size, max_key_size,
  wal_record_header_size, wal_op_put, wal_op_delete,
}

-- The record that stands at `o`: a put, or a delete without a value, with its two lengths, its
-- contents, and, where `verify` asks for it, its CRC.
pub record IsRecord (buf : List ℕ) (o : ℕ) (verify : Bool) (rec : WalRecord) : Type 0 where
  pub op_read : byte buf o ≡ rec.op
  pub op_valid : (rec.op ≡ 1) ⊎ (rec.op ≡ 2) × (length rec.value ≡ 0)
  pub key_len : load32 buf (o + 1) ≡ length rec.key
  pub value_len : load32 buf (o + 5) ≡ length rec.value
  pub key_fits : length rec.key ≤ max_key_size
  pub key_read : view buf (o + 13) (length rec.key) ≡ rec.key
  pub value_read : view buf (o + 13 + length rec.key) (length rec.value) ≡ rec.value
  pub ends : rec.end ≡ o + 13 + length rec.key + length rec.value
  pub crc : verify ≡ true → wal_record_crc (view buf o (rec.end - o)) ≡ load32 buf (o + 9)

-- The answer on stuck fields that are known by equations.
record_at_offset_of_fields :
    (seg : WalSegment) (o : ℕ) (verify : Bool) (op kl vl : ℕ)
    → wal_header_size ≤ o
    → o + 13 + kl + vl ≤ seg.used
    → seg.used < 2 ^ 64
    → byte seg.bytes o ≡ op
    → load32 seg.bytes (o + 1) ≡ kl
    → load32 seg.bytes (o + 5) ≡ vl
    → (op ≡ 1) ⊎ (op ≡ 2) × (vl ≡ 0)
    → kl ≤ max_key_size
    → (verify ≡ true
        → wal_record_crc (view seg.bytes o (o + 13 + kl + vl - o)) ≡ load32 seg.bytes (o + 9))
    → record_at_offset seg o verify ≡ ok (read_record seg.bytes o kl vl (o + 13 + kl + vl))
unfolding record_at_offset
record_at_offset_of_fields seg o false op kl vl h4 hu h64 eo ek ev hop hk hc =
    let e : (o + 13 + kl + vl) % 2 ^ 64 ≡ o + 13 + kl + vl = omega arith in
    rw (eo, ek, ev, e) (ground arith)
record_at_offset_of_fields seg o true op kl vl h4 hu h64 eo ek ev hop hk hc =
    let e : (o + 13 + kl + vl) % 2 ^ 64 ≡ o + 13 + kl + vl = omega arith in
    let c = hc refl in rw (eo, ek, ev, e) (ground arith)

-- A record inside the used part is what is read at its offset.
pub record_at_offset-IsRecord :
    (seg : WalSegment) (o : ℕ) (verify : Bool) (rec : WalRecord)
    → wal_header_size ≤ o
    → rec.end ≤ seg.used
    → seg.used < 2 ^ 64
    → IsRecord seg.bytes o verify rec
    → record_at_offset seg o verify ≡ ok rec
unfolding read_record
record_at_offset-IsRecord seg o verify rec h4 hu h64 r =
    record_at_offset_of_fields seg o verify rec.op (length rec.key) (length rec.value) h4
      (omega (arith, r.ends)) h64 r.op_read r.key_len r.value_len r.op_valid r.key_fits crc
    ∙ ap ok (
        rw (r.op_read, r.key_read, r.value_read)
          (ap (λ n. record { op = rec.op; key = rec.key; value = rec.value; end = n })
            (sym r.ends)))
  where
    crc :
        verify ≡ true
        → wal_record_crc (view seg.bytes o (o + 13 + length rec.key + length rec.value - o))
          ≡ load32 seg.bytes (o + 9)
    crc h = ap (λ n. wal_record_crc (view seg.bytes o (n - o))) (sym r.ends) ∙ r.crc h

guards_passed :
    {r rec : WalRecord} (c1 c2 c3 c4 c5 c6 : Bool)
    → (if c1
        then err corrupt_wal
        else if c2
        then err corrupt_wal
        else if c3
        then err corrupt_wal
        else if c4
        then err corrupt_wal
        else if c5
        then err corrupt_wal
        else if c6
        then err corrupt_wal
        else ok r)
      ≡ ok rec
    → (c1 ≡ false)
      × (c2 ≡ false)
      × (c3 ≡ false)
      × (c4 ≡ false)
      × (c5 ≡ false)
      × (c6 ≡ false)
      × (r ≡ rec)
guards_passed true c2 c3 c4 c5 c6 e = absurd (cc)
guards_passed false true c3 c4 c5 c6 e = absurd (cc)
guards_passed false false true c4 c5 c6 e = absurd (cc)
guards_passed false false false true c5 c6 e = absurd (cc)
guards_passed false false false false true c6 e = absurd (cc)
guards_passed false false false false false true e = absurd (cc)
guards_passed false false false false false false e =
    (refl, refl, refl, refl, refl, refl, ok-injective e)

-- The record of the fields that are read.
read_record-IsRecord :
    (buf : List ℕ) (o : ℕ) (verify : Bool) (kl vl end : ℕ)
    → (byte buf o ≡ 1) ⊎ (byte buf o ≡ 2) × (vl ≡ 0)
    → load32 buf (o + 1) ≡ kl
    → load32 buf (o + 5) ≡ vl
    → kl ≤ max_key_size
    → end ≡ o + 13 + kl + vl
    → (verify ≡ true → wal_record_crc (view buf o (end - o)) ≡ load32 buf (o + 9))
    → IsRecord buf o verify (read_record buf o kl vl end)
unfolding read_record
read_record-IsRecord buf o verify kl vl end valid ek ev kle ends crc =
    let lk = length-view kl buf (o + 13) in
    let lv = length-view vl buf (o + 13 + kl) in
    record {
      op_read = refl;
      op_valid = rw lv valid;
      key_len = ek ∙ sym lk;
      value_len = ev ∙ sym lv;
      key_fits = rw lk kle;
      key_read = ap (view buf (o + 13)) lk;
      value_read = rw (lk, lv) refl;
      ends = rw (lk, lv) ends;
      crc = crc;
    }

passed : (verify : Bool) (x y : ℕ) → verify ≡ true → (verify && not (x == y)) ≡ false → x ≡ y
passed true x y h e = ground arith
passed false x y h e = absurd (cc)

-- What is read is a record inside the used part.
pub IsRecord-record_at_offset :
    (seg : WalSegment) (o : ℕ) (verify : Bool) (rec : WalRecord)
    → All IsByte seg.bytes
    → seg.used < 2 ^ 63
    → record_at_offset seg o verify ≡ ok rec
    → (wal_header_size ≤ o) × (rec.end ≤ seg.used) × IsRecord seg.bytes o verify rec
unfolding record_at_offset read_record
IsRecord-record_at_offset seg o verify rec hb h63 e =
    let op = byte seg.bytes o in
    let kl = load32 seg.bytes (o + 1) in
    let vl = load32 seg.bytes (o + 5) in
    let end = (o + wal_record_header_size + kl + vl) % 2 ^ 64 in
    let (c1, c2, c3, c4, c5, c6, r) =
      guards_passed (ltb o wal_header_size || ltb seg.used (o + wal_record_header_size))
        (not (op == wal_op_put) && not (op == wal_op_delete)) (op == wal_op_delete && not (vl == 0))
        (ltb max_key_size kl) (ltb end o || ltb seg.used end)
        (verify && not (wal_record_crc (view seg.bytes o (end - o)) == load32 seg.bytes (o + 9)))
        e in
    let lo : wal_header_size ≤ o = ground arith in
    let u13 : o + 13 ≤ seg.used = ground arith in
    let kle : kl ≤ max_key_size = ground arith in
    let vlt : vl < 2 ^ 32 = load32-lt seg.bytes (o + 5) hb in
    let ends : end ≡ o + 13 + kl + vl = omega arith in
    let fits : end ≤ seg.used = ground arith in
    let valid : (op ≡ 1) ⊎ (op ≡ 2) × (vl ≡ 0) = ground arith in
    subst (λ x. (wal_header_size ≤ o) × (x.end ≤ seg.used) × IsRecord seg.bytes o verify x) r
      (
        lo,
        fits,
        read_record-IsRecord seg.bytes o verify kl vl end valid refl refl kle ends
            (λ h. passed verify _ _ h c6),
      )

-- A record stays where no byte of it changes.
pub IsRecord-cong :
    (buf buf' : List ℕ) (o : ℕ) (verify : Bool) (rec : WalRecord)
    → ((q n : ℕ) → o ≤ q → q + n ≤ rec.end → view buf' q n ≡ view buf q n)
    → IsRecord buf o verify rec
    → IsRecord buf' o verify rec
IsRecord-cong buf buf' o verify rec same r =
    let ends = r.ends in
    record {
      op_read = byte-cong buf' buf o (same o 1 (omega arith) (omega arith)) ∙ r.op_read;
      op_valid = r.op_valid;
      key_len =
          load32-cong buf' buf (o + 1) (same (o + 1) 4 (omega arith) (omega arith)) ∙ r.key_len;
      value_len =
          load32-cong buf' buf (o + 5) (same (o + 5) 4 (omega arith) (omega arith)) ∙ r.value_len;
      key_fits = r.key_fits;
      key_read = same (o + 13) (length rec.key) (omega arith) (omega arith) ∙ r.key_read;
      value_read =
          same (o + 13 + length rec.key) (length rec.value) (omega arith) (omega arith)
          ∙ r.value_read;
      ends = r.ends;
      crc = λ h.
          ap wal_record_crc (same o (rec.end - o) (omega arith) (omega arith))
          ∙ r.crc h
          ∙ sym (load32-cong buf' buf (o + 9) (same (o + 9) 4 (omega arith) (omega arith)));
    }

-- What passes the test of the CRC is read without the test too.
pub IsRecord-unverified :
    (buf : List ℕ) (o : ℕ) (verify : Bool) (rec : WalRecord)
    → IsRecord buf o true rec
    → IsRecord buf o verify rec
IsRecord-unverified buf o verify rec r = record {
  op_read = r.op_read;
  op_valid = r.op_valid;
  key_len = r.key_len;
  value_len = r.value_len;
  key_fits = r.key_fits;
  key_read = r.key_read;
  value_read = r.value_read;
  ends = r.ends;
  crc = λ h. r.crc refl;
}
