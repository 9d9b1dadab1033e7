-- ===== src/Patricia/Records/Invariant.antt =====
-- record_store.h, `HeapRecordStore`: its invariant, and what a position gives.
use minweight_store_cpp.Base.{ℕ, ◌+◌, ◌≤◌, ◌<◌, leb, ◌==◌, ◌||◌, Bool, true, false, arith}
use minweight_store_cpp.Base.{List, length, get_or}
use minweight_store_cpp.Base.{◌≡◌, refl, inl, inr, ◌≢◌, Bool-cases}
use minweight_store_cpp.Base.Slots.{count, Free}
use minweight_store_cpp.Patricia.Status.{ok, err, missing_key}
use minweight_store_cpp.Patricia.Records.{
  HeapRecord, HeapRecordStore, blank_record, empty_store, find_record,
}

abbrev pub is_live {ℓ} : {V : Type ℓ} → HeapRecord V → Bool
is_live r = r.live

module _ {ℓ} {V : Type ℓ} (initial : V) where
  -- The table has its first, unused record; the free list has each free slot at most once; `live_`
  -- counts the live records.
  pub record IsStore (store : HeapRecordStore V) : Type ℓ where
    pub nonempty : 0 < length store.records
    pub first_unused : (get_or store.records 0 (blank_record initial)).live ≡ false
    pub free_slots : Free is_live (blank_record initial) store.records store.free_list
    pub counted : store.live_count ≡ count is_live (blank_record initial) store.records

  pub empty_store-IsStore : IsStore (empty_store initial)
  empty_store-IsStore = record {
    nonempty = omega arith;
    first_unused = refl;
    free_slots = tt;
    counted = omega arith;
  }

  pub find_live :
      (store : HeapRecordStore V) (pos : ℕ) (r : HeapRecord V)
      → 0 < pos
      → pos < length store.records
      → get_or store.records pos (blank_record initial) ≡ r
      → r.live ≡ true
      → find_record initial store pos ≡ ok r
  unfolding find_record
  find_live store pos r h0 hl e live =
      let t1 : (pos == 0) ≡ false = ground arith in
      let t2 : leb (length store.records) pos ≡ false = ground arith in rw (t1, t2, e, live) refl

  pub find_same :
      (store store' : HeapRecordStore V) (pos : ℕ)
      → leb (length store'.records) pos ≡ leb (length store.records) pos
      → get_or store'.records pos (blank_record initial)
        ≡ get_or store.records pos (blank_record initial)
      → find_record initial store' pos ≡ find_record initial store pos
  unfolding find_record
  find_same store store' pos e f = rw (e, f) refl

  -- What a new record at `pos` promises.
  abbrev pub Added : HeapRecordStore V → List ℕ → V → HeapRecordStore V → ℕ → Type ℓ
  Added store key value store' pos =
      (0 < pos)
      × (find_record initial store pos ≡ err missing_key)
      × IsStore store'
      × (store'.live_count ≡ store.live_count + 1)
      × (find_record initial store' pos ≡ ok (record { key = key; value = value; live = true }))
      × ((p : ℕ) → p ≢ pos → find_record initial store' p ≡ find_record initial store p)

  pub find_out_of_range :
      (store : HeapRecordStore V) (pos : ℕ)
      → length store.records ≤ pos
      → find_record initial store pos ≡ err missing_key
  unfolding find_record
  find_out_of_range store pos h =
      let t : leb (length store.records) pos ≡ true = ground arith in
      elim (Bool-cases (pos == 0)) [ inl z ↦ rw z refl | inr z ↦ rw (z, t) refl ]

  pub find_unused :
      (store : HeapRecordStore V) (pos : ℕ)
      → (get_or store.records pos (blank_record initial)).live ≡ false
      → find_record initial store pos ≡ err missing_key
  unfolding find_record
  find_unused store pos h = elim (Bool-cases (pos == 0 || leb (length store.records) pos)) [
    | inl z ↦ rw z refl
    | inr z ↦ rw (z, h) refl
  ]
