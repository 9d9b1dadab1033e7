-- ===== src/Store/Segment/Fields.antt =====
-- store.cc, `WalSegment::Append`: the fields of a record that was written, and the bytes around it.
use minweight_store_cpp.Base.{
  ℕ, zero, suc, ◌+◌, ◌≤◌, ◌<◌, List, ◌∷◌, length, set, arith, length-set, All,
}
use minweight_store_cpp.Base.{◌≡◌, refl, sym, ap, ◌∙◌}
use mathlib.Core.Path.{ap₂}
use minweight_store_cpp.Store.Bytes.{IsByte, byte, view, copy, store32, bytes32}
use minweight_store_cpp.Store.Bytes.Laws.{
  byte-set_self, byte-set_ne, byte-copy_beside, view-copy_beside, view-copy, length-copy, Apart,
  take-view, set-All, copy-All, store32-All, drop-view,
}
use minweight_store_cpp.Store.Crc.{wal_record_crc, crc32_update}
use minweight_store_cpp.Store.Segment.{write_fields, write_record}

pub view-set_beside :
    (n : ℕ) (buf : List ℕ) (i v o : ℕ) → Apart o n i 1 → view (set buf i v) o n ≡ view buf o n
unfolding view
view-set_beside zero buf i v o h = refl
view-set_beside (suc n) buf i v o h =
    ap₂ (λ b t. b ∷ t) (byte-set_ne buf i o v (λ e. absurd (omega arith)))
      (view-set_beside n buf i v (o + 1) (omega arith))

-- The CRC of a record reads its first 9 bytes and what is behind the header.
pub wal_record_crc-view :
    (buf : List ℕ) (o n : ℕ)
    → wal_record_crc (view buf o (13 + n))
      ≡ crc32_update (crc32_update 0 (view buf o 9)) (view buf (o + 13) n)
unfolding wal_record_crc
wal_record_crc-view buf o n =
    ap₂ (λ a b. crc32_update (crc32_update 0 a) b) (take-view 9 (13 + n) buf o (omega arith))
      (drop-view 13 n buf o)

module _ (buf : List ℕ) (o op : ℕ) (key value : List ℕ) where
  abbrev lk : ℕ
  lk = length key

  abbrev lv : ℕ
  lv = length value

  abbrev b1 : List ℕ
  b1 = set buf o op

  abbrev b2 : List ℕ
  b2 = store32 b1 (o + 1) lk

  abbrev b3 : List ℕ
  b3 = store32 b2 (o + 5) lv

  abbrev b4 : List ℕ
  b4 = copy b3 (o + 13) key

  -- Nothing but the record's bytes is written.
  pub view-write_fields :
      (q n : ℕ)
      → Apart q n o (13 + lk + lv)
      → view (write_fields buf o op key value) q n ≡ view buf q n
  unfolding write_fields store32
  view-write_fields q n h =
      view-copy_beside n value b4 (o + 13 + lk) q (omega arith)
      ∙ view-copy_beside n key b3 (o + 13) q (omega arith)
      ∙ view-copy_beside n (bytes32 lv) b2 (o + 5) q (omega arith)
      ∙ view-copy_beside n (bytes32 lk) b1 (o + 1) q (omega arith)
      ∙ view-set_beside n buf o op q (omega arith)

  pub length-write_fields : length (write_fields buf o op key value) ≡ length buf
  unfolding write_fields store32
  length-write_fields =
      length-copy value b4 (o + 13 + lk)
      ∙ length-copy key b3 (o + 13)
      ∙ length-copy (bytes32 lv) b2 (o + 5)
      ∙ length-copy (bytes32 lk) b1 (o + 1)
      ∙ length-set buf o op

  module _ (room : o + 13 + lk + lv ≤ length buf) where
    length-b2 : length b2 ≡ length buf
    unfolding store32
    length-b2 = length-copy (bytes32 lk) b1 (o + 1) ∙ length-set buf o op

    length-b3 : length b3 ≡ length buf
    unfolding store32
    length-b3 = length-copy (bytes32 lv) b2 (o + 5) ∙ length-b2

    pub byte-op : byte (write_fields buf o op key value) o ≡ op
    unfolding write_fields store32
    byte-op =
        byte-copy_beside value b4 (o + 13 + lk) o (omega arith)
        ∙ byte-copy_beside key b3 (o + 13) o (omega arith)
        ∙ byte-copy_beside (bytes32 lv) b2 (o + 5) o (omega arith)
        ∙ byte-copy_beside (bytes32 lk) b1 (o + 1) o (omega arith)
        ∙ byte-set_self buf o op (omega arith)

    pub view-key_len : view (write_fields buf o op key value) (o + 1) 4 ≡ bytes32 lk
    unfolding write_fields store32
    view-key_len =
        view-copy_beside 4 value b4 (o + 13 + lk) (o + 1) (omega arith)
        ∙ view-copy_beside 4 key b3 (o + 13) (o + 1) (omega arith)
        ∙ view-copy_beside 4 (bytes32 lv) b2 (o + 5) (o + 1) (omega arith)
        ∙ view-copy (bytes32 lk) b1 (o + 1) (omega (arith, length-set buf o op))

    pub view-value_len : view (write_fields buf o op key value) (o + 5) 4 ≡ bytes32 lv
    unfolding write_fields store32
    view-value_len =
        view-copy_beside 4 value b4 (o + 13 + lk) (o + 5) (omega arith)
        ∙ view-copy_beside 4 key b3 (o + 13) (o + 5) (omega arith)
        ∙ view-copy (bytes32 lv) b2 (o + 5) (omega (arith, length-b2))

    pub view-key : view (write_fields buf o op key value) (o + 13) lk ≡ key
    unfolding write_fields
    view-key =
        view-copy_beside lk value b4 (o + 13 + lk) (o + 13) (omega arith)
        ∙ view-copy key b3 (o + 13) (omega (arith, length-b3))

    pub view-value : view (write_fields buf o op key value) (o + 13 + lk) lv ≡ value
    unfolding write_fields
    view-value =
        view-copy value b4 (o + 13 + lk) (omega (arith, length-b3, length-copy key b3 (o + 13)))

-- The CRC field is outside all the others.
module _ (buf : List ℕ) (o op : ℕ) (key value : List ℕ) where
  abbrev crc : ℕ
  crc = wal_record_crc (view (write_fields buf o op key value) o (13 + length key + length value))

  abbrev total : ℕ
  total = 13 + length key + length value

  abbrev written : List ℕ
  written = write_record buf o op key value

  pub view-beside_crc :
      (q n : ℕ)
      → Apart q n (o + 9) 4
      → view written q n ≡ view (write_fields buf o op key value) q n
  unfolding write_record store32
  view-beside_crc q n h =
      view-copy_beside n (bytes32 crc) (write_fields buf o op key value) (o + 9) q h

  pub length-write_record : length written ≡ length buf
  unfolding write_record store32
  length-write_record =
      length-copy (bytes32 crc) (write_fields buf o op key value) (o + 9)
      ∙ length-write_fields buf o op key value

  pub view-write_record : (q n : ℕ) → Apart q n o total → view written q n ≡ view buf q n
  view-write_record q n h =
      view-beside_crc q n (omega arith) ∙ view-write_fields buf o op key value q n h

  -- The CRC that was written is the one of the record.
  pub view-crc :
      o + total ≤ length buf
      → view written (o + 9) 4 ≡ bytes32 (wal_record_crc (view written o total))
  unfolding write_record store32
  view-crc room =
      view-copy (bytes32 crc) (write_fields buf o op key value) (o + 9)
        (omega (arith, length-write_fields buf o op key value))
      ∙ ap bytes32 (sym same)
    where
      same : wal_record_crc (view written o total) ≡ crc
      same =
          let e : total ≡ 13 + (length key + length value) = omega arith in
          ap (λ n. wal_record_crc (view written o n)) e
          ∙ wal_record_crc-view written o (length key + length value)
          ∙ ap₂ (λ a b. crc32_update (crc32_update 0 a) b) (view-beside_crc o 9 (omega arith))
              (view-beside_crc (o + 13) (length key + length value) (omega arith))
          ∙ sym
              (wal_record_crc-view (write_fields buf o op key value) o (length key + length value))
          ∙ ap (λ n. wal_record_crc (view (write_fields buf o op key value) o n)) (sym e)

  pub write_record-All :
      op < 256 → All IsByte buf → All IsByte key → All IsByte value → All IsByte written
  unfolding write_record write_fields
  write_record-All hop hb hk hv = store32-All (write_fields buf o op key value) (o + 9) crc (
      copy-All value _ (o + 13 + length key)
        (copy-All key _ (o + 13)
          (store32-All _ (o + 5) (length value)
            (store32-All _ (o + 1) (length key) (set-All buf o op hb hop)))
          hk)
        hv)
