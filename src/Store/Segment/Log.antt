-- ===== src/Store/Segment/Log.antt =====
-- store.cc, `WalSegment`: the records of a segment, one behind the other from the header on.
use minweight_store_cpp.Base.{ℕ, ◌+◌, ◌*◌, ◌^◌, ◌≤◌, List, [], ◌∷◌, ◌++◌, arith}
use minweight_store_cpp.Base.{Bool, true, ◌≡◌, refl, sym, ◌∙◌}
use mathlib.Core.Path.{subst}
use minweight_store_cpp.Store.Status.{Result, ok, ◌>>=◌}
use minweight_store_cpp.Store.Bytes.{view, store64, bytes64, load64}
use minweight_store_cpp.Store.Bytes.Laws.{
  Apart, view-copy_beside, view-copy, length-copy, load64-view, load32-cong, store64-All,
}
use minweight_store_cpp.Store.Segment.{
  WalSegment, WalRecord, record_at_offset, wal_header_size, truncate, write_used,
}
use minweight_store_cpp.Store.Segment.Records.{
  record_at_offset-IsRecord, IsRecord-record_at_offset, IsRecord-cong,
}
use minweight_store_cpp.Store.Segment.Append.{IsSegment}
use minweight_store_cpp.Store.Segment.Contract.{Keeps}

-- From `o` on stand the records `recs`, each where the one before it ends, and the last ends at `e`.
abbrev pub Chain : WalSegment → ℕ → List WalRecord → ℕ → Type 0
Chain seg o [] e = o ≡ e
Chain seg o (rec ∷ recs) e = (record_at_offset seg o true ≡ ok rec) × Chain seg rec.end recs e

-- A callback that is handed the records of a chain in order, each with its position.
unfoldable pub hand_over :
    {S : Type 0} → (S → WalRecord → ℕ → Result S) → ℕ → ℕ → List WalRecord → S → Result S
hand_over fn file_no o [] s = ok s
hand_over fn file_no o (rec ∷ recs) s = do
  s' ← fn s rec (file_no * 2 ^ 30 + o)
  hand_over fn file_no rec.end recs s'

pub Chain-append :
    (seg : WalSegment) (xs ys : List WalRecord) (o m e : ℕ)
    → Chain seg o xs m
    → Chain seg m ys e
    → Chain seg o (xs ++ ys) e
Chain-append seg [] ys o m e h k = subst (λ x. Chain seg x ys e) (sym h) k
Chain-append seg (rec ∷ xs) ys o m e (h, hs) k = (h, Chain-append seg xs ys rec.end m e hs k)

pub Keeps-Chain :
    (seg seg' : WalSegment) (recs : List WalRecord) (o e : ℕ)
    → Keeps seg seg'
    → Chain seg o recs e
    → Chain seg' o recs e
Keeps-Chain seg seg' [] o e keeps h = h
Keeps-Chain seg seg' (rec ∷ recs) o e keeps (h, hs) =
    (keeps o true rec h, Keeps-Chain seg seg' recs rec.end e keeps hs)

module _ (seg : WalSegment) (w : IsSegment seg) where
  pub record_bounds :
      (o : ℕ) (verify : Bool) (rec : WalRecord)
      → record_at_offset seg o verify ≡ ok rec
      → (wal_header_size ≤ o) × (o + 13 ≤ rec.end) × (rec.end ≤ seg.used) × (rec.end ≤ 2 ^ 30)
  record_bounds o verify rec e =
      let lim = w.size_limit in
      let top = w.used_limit in
      let (lo, hi, r) = IsRecord-record_at_offset seg o verify rec w.in_bytes (omega arith) e in
      let ends = r.ends in (lo, omega arith, hi, omega arith)

  pub Chain-le : (recs : List WalRecord) (o e : ℕ) → Chain seg o recs e → o ≤ e
  Chain-le [] o e h = omega arith
  Chain-le (rec ∷ recs) o e (h, hs) =
      let (lo, grows, hi, top) = record_bounds o true rec h in
      omega (arith, Chain-le recs rec.end e hs)

  view-truncate :
      (e q n : ℕ) → Apart q n 16 8 → view (truncate seg e).bytes q n ≡ view seg.bytes q n
  unfolding truncate write_used store64
  view-truncate e q n h = view-copy_beside n (bytes64 e) seg.bytes 16 q h

  pub truncate-used : (e : ℕ) → (truncate seg e).used ≡ e
  unfolding truncate write_used
  truncate-used e = refl

  pub truncate-file_no : (e : ℕ) → (truncate seg e).file_no ≡ seg.file_no
  unfolding truncate write_used
  truncate-file_no e = refl

  module _ (e : ℕ) (lo : wal_header_size ≤ e) (hi : e ≤ seg.used) where
    stored : load64 (truncate seg e).bytes 16 ≡ (truncate seg e).used
    unfolding truncate write_used store64
    stored =
        let top = w.used_limit in
        let room = w.used_start in
        let lim = w.size_limit in
        load64-view (store64 seg.bytes 16 e) 16 e (omega arith)
          (view-copy (bytes64 e) seg.bytes 16 (omega (arith, w.mapped_size)))

    -- A truncated segment is well formed.
    pub truncate-IsSegment : IsSegment (truncate seg e)
    unfolding truncate write_used store64
    truncate-IsSegment = record {
      mapped_size = length-copy (bytes64 e) seg.bytes 16 ∙ w.mapped_size;
      size_limit = w.size_limit;
      used_start = lo;
      used_limit = omega (arith, w.used_limit);
      file_no_start = w.file_no_start;
      file_no_limit = w.file_no_limit;
      in_bytes = store64-All seg.bytes 16 e w.in_bytes;
      magic = view-truncate e 0 8 (omega arith) ∙ w.magic;
      version =
          load32-cong (truncate seg e).bytes seg.bytes 8 (view-truncate e 8 4 (omega arith))
          ∙ w.version;
      used_stored = stored;
    }

    record-truncate :
        (o : ℕ) (verify : Bool) (rec : WalRecord)
        → rec.end ≤ e
        → record_at_offset seg o verify ≡ ok rec
        → record_at_offset (truncate seg e) o verify ≡ ok rec
    record-truncate o verify rec le h =
        let used = truncate-used e in
        let top = w.used_limit in
        let lim = w.size_limit in
        let (lo', hi', r) = IsRecord-record_at_offset seg o verify rec w.in_bytes (omega arith) h in
        record_at_offset-IsRecord (truncate seg e) o verify rec lo' (omega arith) (omega arith) (
          IsRecord-cong seg.bytes (truncate seg e).bytes o verify rec
            (λ q n hq hn. view-truncate e q n (omega arith)) r)

    -- The records before the cut stay.
    pub truncate-Chain :
        (recs : List WalRecord) (o : ℕ) → Chain seg o recs e → Chain (truncate seg e) o recs e
    truncate-Chain [] o h = h
    truncate-Chain (rec ∷ recs) o (h, hs) =
        (record-truncate o true rec (Chain-le recs rec.end e hs) h, truncate-Chain recs rec.end hs)
