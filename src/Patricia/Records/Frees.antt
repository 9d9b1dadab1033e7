-- ===== src/Patricia/Records/Frees.antt =====
-- record_store.h, `HeapRecordStore::Free`.
use minweight_store_cpp.Base.{ℕ, ◌+◌, ◌-◌, ◌≤◌, ◌<◌, leb, ◌==◌, ◌||◌, true, false, arith}
use minweight_store_cpp.Base.{◌∷◌, length, get_or, set, length-set}
use minweight_store_cpp.Base.{◌≡◌, refl, sym, ap, ◌∙◌, ◌⊎◌, inl, inr, ◌≢◌, Bool-cases}
use native.Mathlib.Decide.{dec_lt}
use minweight_store_cpp.Base.Slots.{
  count-set, Free-set, Free-apart, get_or-set_self, get_or-set_ne, weight,
}
use minweight_store_cpp.Patricia.Status.{ok, err, missing_key}
use minweight_store_cpp.Patricia.Records.{
  HeapRecord, HeapRecordStore, blank_record, find_record, free,
}
use minweight_store_cpp.Patricia.Records.Invariant.{
  is_live, IsStore, find_live, find_same, find_out_of_range, find_unused,
}

module _ {ℓ} {V : Type ℓ} (initial : V) where
  first_live :
      (store : HeapRecordStore V) (pos : ℕ)
      → IsStore initial store
      → (get_or store.records pos (blank_record initial)).live ≡ true
      → pos ≢ 0
  first_live store pos w live z =
      let e = ap (λ p. (get_or store.records p (blank_record initial)).live) (sym z) ∙ live in
      let f = w.first_unused in cc

  free_used :
      (store : HeapRecordStore V) (pos : ℕ)
      → IsStore initial store
      → 0 < pos
      → pos < length store.records
      → (get_or store.records pos (blank_record initial)).live ≡ true
      → (store' : HeapRecordStore V) × (free initial store pos ≡ (store', ok tt))
        × IsStore initial store'
        × (store.live_count ≡ store'.live_count + 1)
        × (find_record initial store' pos ≡ err missing_key)
        × ((p : ℕ) → p ≢ pos → find_record initial store' p ≡ find_record initial store p)
  unfolding free
  free_used store pos w low high live =
      let blank = blank_record initial in
      let store' : HeapRecordStore V = record {
        records = set store.records pos blank;
        free_list = pos ∷ store.free_list;
        live_count = store.live_count - 1;
      } in
      let t1 : (pos == 0) ≡ false = ground arith in
      let t2 : leb (length store.records) pos ≡ false = ground arith in
      let len = length-set store.records pos blank in
      let c = w.counted in
      let n = w.nonempty in
      let counts = count-set is_live blank store.records pos blank high in
      let one : weight (get_or store.records pos blank).live ≡ 1 = ap weight live in
      let gone = get_or-set_self store.records pos blank blank high in
      let apart = Free-apart is_live blank store.records pos store.free_list live w.free_slots in
      (
        store',
        rw (t1, t2, live) refl,
        record {
          nonempty = omega arith;
          first_unused =
              ap is_live (get_or-set_ne store.records pos 0 blank blank (λ z. absurd (omega arith)))
              ∙ w.first_unused;
          free_slots = (
            (low, omega arith, ap is_live gone),
            apart,
            Free-set is_live blank store.records pos blank store.free_list apart w.free_slots,
          );
          counted = omega arith;
        },
        omega arith,
        find_unused initial store' pos (ap is_live gone),
        λ p ne.
            find_same initial store store' p (ap (λ l. leb l p) len)
              (get_or-set_ne store.records pos p blank blank (λ z. ne (sym z))),
      )

  free_refused :
      (store : HeapRecordStore V) (pos : ℕ)
      → (pos ≡ 0)
        ⊎ (length store.records ≤ pos)
        ⊎ ((get_or store.records pos (blank_record initial)).live ≡ false)
      → free initial store pos ≡ (store, err missing_key)
  unfolding free
  free_refused store pos (inl z) = let t : (pos == 0) ≡ true = ground arith in rw t refl
  free_refused store pos (inr (inl big)) =
      let t : leb (length store.records) pos ≡ true = ground arith in
      elim (Bool-cases (pos == 0)) [ inl z ↦ rw z refl | inr z ↦ rw (z, t) refl ]
  free_refused store pos (inr (inr unused)) =
      elim (Bool-cases (pos == 0 || leb (length store.records) pos)) [
        | inl z ↦ rw z refl
        | inr z ↦ rw (z, unused) refl
      ]

  -- The answer to a call of `Free`, accepted or refused.
  abbrev pub FreeAnswer : HeapRecordStore V → ℕ → Type ℓ
  FreeAnswer store pos =
      ((r : HeapRecord V) × (store' : HeapRecordStore V) × (find_record initial store pos ≡ ok r)
        × (free initial store pos ≡ (store', ok tt))
        × IsStore initial store'
        × (store.live_count ≡ store'.live_count + 1)
        × (find_record initial store' pos ≡ err missing_key)
        × ((p : ℕ) → p ≢ pos → find_record initial store' p ≡ find_record initial store p))
      ⊎ (find_record initial store pos ≡ err missing_key)
        × (free initial store pos ≡ (store, err missing_key))

  -- `Free` of a position with a record empties it, and nothing else; of any other position it is
  -- refused and changes nothing.
  pub free_lem :
      (store : HeapRecordStore V) (pos : ℕ) → IsStore initial store → FreeAnswer store pos
  free_lem store pos w = elim (Bool-cases (get_or store.records pos (blank_record initial)).live) [
    | inr unused ↦
        inr (find_unused initial store pos unused, free_refused store pos (inr (inr unused)))
    | inl live ↦ elim (dec_lt pos (length store.records)) [
      | no big ↦ inr (
        find_out_of_range initial store pos (omega arith),
        free_refused store pos (inr (inl (omega arith))),
      )
      | yes high ↦
          let low : 0 < pos = elim (dec_lt 0 pos) [
            | yes low ↦ low
            | no zero ↦ absurd (first_live store pos w live (omega arith))
          ] in
          let (store', run, w', counts, gone, others) = free_used store pos w low high live in
          inl (
            get_or store.records pos (blank_record initial),
            store',
            find_live initial store pos _ low high refl live,
            run,
            w',
            counts,
            gone,
            others,
          )
    ]
  ]
