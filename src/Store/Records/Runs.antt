-- ===== src/Store/Records/Runs.antt =====
-- store.cc, `SegmentedRecordStore`, with one new segment of 5000 bytes.
use minweight_store_cpp.Base.{
  ℕ, [], ◌∷◌, ◌≤◌, replicate, true, ◌==◌, ◌≡◌, none, some, refl, inl, arith,
}
use minweight_store_cpp.Base.{Bool-cases, inr, false}
use mathlib.Core.Path.{subst}
use minweight_store_cpp.Store.Segment.{WalSegment, init_header, mapped, write_used}
use minweight_store_cpp.Store.Segment.Open.{init_header-IsSegment}
use minweight_store_cpp.Store.Segment.Contract.{IsEntry}
use minweight_store_cpp.Store.Segment.Append.{IsSegment}
use minweight_store_cpp.Store.Records.{SegmentedRecordStore, segment}
use minweight_store_cpp.Store.Records.Rolling.{IsOpen, some_injective}
use minweight_store_cpp.Store.Records.Rollover.{RolloverAnswer, rollover_lem}
use minweight_store_cpp.Store.Records.Contract.{AppendAnswer, append_record_lem}

abbrev first_segment : WalSegment
first_segment = init_header (mapped (replicate 5000 0) 5000 1 true)

abbrev new_store : SegmentedRecordStore
new_store = record {
  files = λ n. [];
  wal_size = 5000;
  generation = 1;
  active_file_no = 1;
  next_file_no = 2;
  snapshot_records = [];
  segments = (1, first_segment) ∷ [];
}

Formed : ℕ → WalSegment → Type 0
Formed n seg = IsSegment seg × (seg.file_no ≡ n) × (seg.size ≡ 5000)

first_segment-Formed : Formed 1 first_segment
unfolding Formed init_header mapped write_used
first_segment-Formed = (
  init_header-IsSegment 5000 1 (omega arith) (omega arith) (omega arith) (omega arith),
  refl,
  refl,
)

new_store-Formed : (n : ℕ) (seg : WalSegment) → segment new_store n ≡ some seg → Formed n seg
new_store-Formed n seg h = elim (Bool-cases (1 == n)) [
  | inl e ↦
      let at : n ≡ 1 = ground arith in
      let same : first_segment ≡ seg = some_injective (rw e at h) in
      rw at (subst (Formed 1) same first_segment-Formed)
  | inr e ↦ absurd (let found : none ≡ some seg = rw e at h in cc)
]

new_store-IsOpen : IsOpen new_store
unfolding Formed init_header mapped write_used
new_store-IsOpen = record {
  size_low = omega arith;
  size_high = omega arith;
  active = (first_segment, refl, refl);
  formed = new_store-Formed;
  unused = λ n h. (absent n h, refl);
  next_low = omega arith;
}
  where
    absent : (n : ℕ) → 2 ≤ n → segment new_store n ≡ none
    absent n h = let t : (1 == n) ≡ false = ground arith in rw t refl

rollover_lem_example : RolloverAnswer new_store
rollover_lem_example = rollover_lem new_store new_store-IsOpen (omega arith)

append_record_lem_example : AppendAnswer new_store (97 ∷ []) (5 ∷ 6 ∷ [])
append_record_lem_example =
    append_record_lem new_store (97 ∷ []) (5 ∷ 6 ∷ []) new_store-IsOpen put_a-IsEntry (omega arith)
      (omega arith)
  where
    put_a-IsEntry : IsEntry 1 (97 ∷ []) (5 ∷ 6 ∷ [])
    put_a-IsEntry = record {
      op_valid = inl refl;
      key_fits = omega arith;
      key_bytes = (omega arith, tt);
      value_bytes = (omega arith, (omega arith, tt));
    }
