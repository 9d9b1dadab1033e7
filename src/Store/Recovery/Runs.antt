-- ===== src/Store/Recovery/Runs.antt =====
-- store.cc, `ReplayAll` of a store with one segment that holds one record, and of one with a damaged
-- segment between two others.
use minweight_store_cpp.Base.{
  ℕ, ◌<◌, ◌==◌, List, [], ◌∷◌, ◌++◌, replicate, set, length-set, true, ◌≡◌, ◌∙◌, none, some, refl,
  sym, ap, inl, inr, arith, Bool-cases, if◌then◌else◌,
}
use mathlib.Core.Path.{subst}
use minweight_store_cpp.Store.Status.{ok, err, corrupt_wal}
use minweight_store_cpp.Store.Bytes.{store32, store64, load32, load64, copy, view}
use minweight_store_cpp.Store.Bytes.Laws.{set-All, view-copy_beside, load32-cong}
use minweight_store_cpp.Store.Crc.{wal_record_crc, crc32_update}
use minweight_store_cpp.Store.Segment.{
  WalSegment, WalRecord, point_in_time, init_header, mapped, write_used, append, write_record,
  write_fields, record_at_offset, read_record,
}
use minweight_store_cpp.Store.Segment.Append.{IsSegment}
use minweight_store_cpp.Store.Segment.Open.{init_header-IsSegment}
use minweight_store_cpp.Store.Segment.Contract.{append_lem}
use minweight_store_cpp.Store.Records.{SegmentedRecordStore, segment}
use minweight_store_cpp.Store.Recovery.{sort_ids, segment_ids, insert_id}
use minweight_store_cpp.Store.Recovery.Damage.{CutAnswer, cut_store_lem}
use minweight_store_cpp.Store.Recovery.Whole.{IsWhole}
use minweight_store_cpp.Store.Recovery.Contract.{ReplayAllAnswer, replay_all_lem}
use minweight_store_cpp.Patricia.Nodes.{empty_nodes, root}
use minweight_store_cpp.Patricia.Index.{Index}

-- A new segment.
abbrev new_segment : ℕ → WalSegment
new_segment n = init_header (mapped (replicate 5000 0) 5000 n true)

new_segment-IsSegment : (n : ℕ) → 0 < n → n < 10 → IsSegment (new_segment n)
new_segment-IsSegment n low high =
    init_header-IsSegment 5000 n (omega arith) (omega arith) (omega arith) (omega arith)

-- A segment after a put of "a".
filled_segment : ℕ → WalSegment
filled_segment n = (append (new_segment n) 1 (97 ∷ []) (5 ∷ 6 ∷ [])).0

abbrev put_a : WalRecord
put_a = record { op = 1; key = 97 ∷ []; value = 5 ∷ 6 ∷ []; end = 4112 }

filled_segment-IsSegment : (n : ℕ) → 0 < n → n < 10 → IsSegment (filled_segment n)
unfolding filled_segment
filled_segment-IsSegment n low high =
    elim (append_lem (new_segment n) 1 (97 ∷ []) (5 ∷ 6 ∷ []) (new_segment-IsSegment n low high)
      (record {
        op_valid = inl refl;
        key_fits = omega arith;
        key_bytes = (omega arith, tt);
        value_bytes = (omega arith, (omega arith, tt));
      })) [
        | inl (unsealed, room, (seg, pos, run, is, used, reads, keeps)) ↦
            subst IsSegment (sym (ap (λ p. p.0) run)) is
        | inr (refused, run) ↦
            subst IsSegment (sym (ap (λ p. p.0) run)) (new_segment-IsSegment n low high)
      ]

filled_segment-number : (n : ℕ) → (filled_segment n).file_no ≡ n
unfolding filled_segment append init_header mapped write_used write_record write_fields
filled_segment-number n = refl

filled_segment-used : (n : ℕ) → (filled_segment n).used ≡ 4112
unfolding filled_segment append init_header mapped write_used write_record write_fields
filled_segment-used n = refl

filled_segment-reads : (n : ℕ) → record_at_offset (filled_segment n) 4096 true ≡ ok put_a
unfolding filled_segment append init_header mapped write_used write_record write_fields
    record_at_offset read_record store64 store32 load32 view wal_record_crc crc32_update
filled_segment-reads n = refl

-- A segment whose only record has a first byte that is no operation.
damaged_segment : WalSegment
damaged_segment = record (filled_segment 2) { bytes = set (filled_segment 2).bytes 4096 9 }

damaged_segment-stored : load64 damaged_segment.bytes 16 ≡ 4112
unfolding damaged_segment filled_segment append init_header mapped write_used write_record
    write_fields store64 store32 load64 copy
damaged_segment-stored = refl

damaged_segment-IsSegment : IsSegment damaged_segment
unfolding damaged_segment copy
damaged_segment-IsSegment =
    let w = filled_segment-IsSegment 2 (omega arith) (omega arith) in
    let bytes = (filled_segment 2).bytes in
    record {
      mapped_size = length-set bytes 4096 9 ∙ w.mapped_size;
      size_limit = w.size_limit;
      used_start = w.used_start;
      used_limit = w.used_limit;
      file_no_start = w.file_no_start;
      file_no_limit = w.file_no_limit;
      in_bytes = set-All bytes 4096 9 w.in_bytes (omega arith);
      magic = view-copy_beside 8 (9 ∷ []) bytes 4096 0 (inl (omega arith)) ∙ w.magic;
      version =
          load32-cong (set bytes 4096 9) bytes 8
            (view-copy_beside 4 (9 ∷ []) bytes 4096 8 (inl (omega arith)))
          ∙ w.version;
      used_stored = damaged_segment-stored ∙ sym (filled_segment-used 2);
    }

damaged_segment-number : damaged_segment.file_no ≡ 2
unfolding damaged_segment
damaged_segment-number = filled_segment-number 2

damaged_segment-used : damaged_segment.used ≡ 4112
unfolding damaged_segment
damaged_segment-used = filled_segment-used 2

damaged_segment-reads : record_at_offset damaged_segment 4096 true ≡ err corrupt_wal
unfolding damaged_segment filled_segment append init_header mapped write_used write_record
    write_fields record_at_offset read_record store64 store32 load32 view wal_record_crc
    crc32_update
damaged_segment-reads = refl

abbrev one_segment : SegmentedRecordStore
one_segment = record {
  files = λ n. [];
  wal_size = 5000;
  generation = 1;
  active_file_no = 1;
  next_file_no = 2;
  snapshot_records = [];
  segments = (1, filled_segment 1) ∷ [];
}

abbrev log : ℕ → List WalRecord
log n = if n == 1 then put_a ∷ [] else []

one_segment-IsWhole :
    (id : ℕ) (seg : WalSegment) → segment one_segment id ≡ some seg → IsWhole id seg (log id)
one_segment-IsWhole id seg h = elim (Bool-cases (1 == id)) [
  | inl e ↦
      let at : 1 ≡ id = ground arith in
      subst (λ n. IsWhole n seg (log n)) at
        (subst (λ s. IsWhole 1 s (put_a ∷ [])) (some_injective (rw e at h))
          (
            filled_segment-IsSegment 1 (omega arith) (omega arith),
            filled_segment-number 1,
            (filled_segment-reads 1, sym (filled_segment-used 1)),
          ))
  | inr e ↦ absurd (let found : none ≡ some seg = rw e at h in cc)
]
  where
    some_injective : {a b : WalSegment} → some a ≡ some b → a ≡ b
    some_injective e = cc

abbrev empty_index : Index
empty_index = record { nodes = empty_nodes; root_id = root; count = 0 }

replay_all_lem_example : ReplayAllAnswer point_in_time 1 one_segment log empty_index
replay_all_lem_example =
    replay_all_lem point_in_time 1 one_segment log empty_index (refl, tt) one_segment-IsWhole

-- The second of three segments is damaged.
abbrev three_segments : SegmentedRecordStore
three_segments = record {
  files = λ n. [];
  wal_size = 5000;
  generation = 1;
  active_file_no = 3;
  next_file_no = 4;
  snapshot_records = [];
  segments = (3, new_segment 3) ∷ (2, damaged_segment) ∷ (1, filled_segment 1) ∷ [];
}

sorted_numbers : sort_ids (segment_ids three_segments.segments) ≡ (1 ∷ []) ++ 2 ∷ 3 ∷ []
unfolding sort_ids insert_id
sorted_numbers = refl

cut_store_lem_example :
    CutAnswer 1 three_segments log empty_index (1 ∷ []) 2 4096 (3 ∷ []) damaged_segment
cut_store_lem_example =
    cut_store_lem 1 three_segments log empty_index (1 ∷ []) 2 4096 (3 ∷ []) damaged_segment
      (refl, (refl, (refl, tt))) sorted_numbers ((λ e. omega (arith, e)), tt)
      (
        (
          filled_segment 1,
          refl,
          (
            filled_segment-IsSegment 1 (omega arith) (omega arith),
            filled_segment-number 1,
            (filled_segment-reads 1, sym (filled_segment-used 1)),
          ),
        ),
        tt,
      )
      refl damaged_segment-IsSegment damaged_segment-number
      (refl, omega (arith, damaged_segment-used), inr damaged_segment-reads)
      (λ e. omega (arith, e, damaged_segment-used))
