-- ===== src/Patricia/Records/Runs.antt =====
-- record_store.h, `HeapRecordStore`, on a store with one record.
use minweight_store_cpp.Base.{ℕ, [], ◌∷◌, true, refl, arith}
use minweight_store_cpp.Patricia.Records.{HeapRecordStore, blank_record}
use minweight_store_cpp.Patricia.Records.Invariant.{IsStore}
use minweight_store_cpp.Patricia.Records.Adds.{AddAnswer, add_lem}
use minweight_store_cpp.Patricia.Records.Frees.{FreeAnswer, free_lem}

-- Slot 1 has a record, slot 2 is free.
abbrev one_record : HeapRecordStore ℕ
one_record = record {
  records =
      blank_record 0 ∷ (record { key = 97 ∷ []; value = 5; live = true }) ∷ blank_record 0 ∷ [];
  free_list = 2 ∷ [];
  live_count = 1;
}

one_record-IsStore : IsStore 0 one_record
one_record-IsStore = record {
  nonempty = omega arith;
  first_unused = refl;
  free_slots = ((omega arith, omega arith, refl), tt, tt);
  counted = refl;
}

add_lem_example : AddAnswer 0 one_record (98 ∷ []) 6
add_lem_example = add_lem 0 one_record (98 ∷ []) 6 one_record-IsStore

free_lem_example : FreeAnswer 0 one_record 1
free_lem_example = free_lem 0 one_record 1 one_record-IsStore
