-- ===== src/Patricia/Records/Adds.antt =====
-- record_store.h, `HeapRecordStore::Add`.
use minweight_store_cpp.Base.{ℕ, ◌+◌, leb, true, arith}
use minweight_store_cpp.Base.{
  List, [], ◌∷◌, ◌++◌, length, get_or, set, length-append, length-set, get_or-append,
}
use minweight_store_cpp.Base.{◌≡◌, refl, sym, ap, ◌∙◌, ◌⊎◌, inl, inr}
use mathlib.Core.Path.{subst}
use native.Mathlib.Decide.{dec_lt}
use minweight_store_cpp.Base.Slots.{
  Free, count-append, count-set, Free-set, Free-append, get_or-set_self, get_or-set_ne,
  get_or-append_lt, weight,
}
use minweight_store_cpp.Patricia.Records.{HeapRecord, HeapRecordStore, blank_record, add}
use minweight_store_cpp.Patricia.Records.Invariant.{
  is_live, IsStore, find_live, find_same, find_out_of_range, find_unused, Added,
}

List-cases : (xs : List ℕ) → (xs ≡ []) ⊎ ((x : ℕ) × (ys : List ℕ) × (xs ≡ x ∷ ys))
List-cases [] = inl refl
List-cases (x ∷ xs) = inr (x, xs, refl)

module _ {ℓ} {V : Type ℓ} (initial : V) where
  add_at_end :
      (store : HeapRecordStore V) (key : List ℕ) (value : V)
      → IsStore initial store
      → store.free_list ≡ []
      → (store' : HeapRecordStore V) × (pos : ℕ) × (add initial store key value ≡ (store', pos))
        × Added initial store key value store' pos
  unfolding add
  add_at_end store key value w e =
      let new : HeapRecord V = record { key = key; value = value; live = true } in
      let store' : HeapRecordStore V = record store {
        records = store.records ++ (new ∷ []);
        live_count = store.live_count + 1;
      } in
      let n = length store.records in
      let at_end = get_or-append store.records [] new (blank_record initial) in
      let len = length-append store.records (new ∷ []) in
      let nonempty = w.nonempty in
      let c = w.counted in
      (
        store',
        n,
        rw e refl,
        (
          nonempty,
          find_out_of_range initial store n (omega arith),
          record {
            nonempty = omega arith;
            first_unused =
                ap is_live
                  (get_or-append_lt store.records (new ∷ []) 0 (blank_record initial) nonempty)
                ∙ w.first_unused;
            free_slots =
                Free-append is_live (blank_record initial) store.records new store.free_list
                  w.free_slots;
            counted = omega (arith, count-append is_live (blank_record initial) store.records new);
          },
          refl,
          find_live initial store' n new nonempty (omega arith) at_end refl,
          λ p ne. elim (dec_lt p n) [
            | yes lt ↦
                let old : leb (length store'.records) p ≡ leb n p = ground arith in
                find_same initial store store' p old
                  (get_or-append_lt store.records (new ∷ []) p (blank_record initial) lt)
            | no ge ↦
                find_out_of_range initial store' p (omega (arith, ne))
                ∙ sym (find_out_of_range initial store p (omega arith))
          ],
        ),
      )

  add_reused :
      (store : HeapRecordStore V) (key : List ℕ) (value : V) (pos : ℕ) (rest : List ℕ)
      → IsStore initial store
      → store.free_list ≡ pos ∷ rest
      → (store' : HeapRecordStore V) × (pos : ℕ) × (add initial store key value ≡ (store', pos))
        × Added initial store key value store' pos
  unfolding add
  add_reused store key value pos rest w e =
      let new : HeapRecord V = record { key = key; value = value; live = true } in
      let blank = blank_record initial in
      let store' : HeapRecordStore V = record {
        records = set store.records pos new;
        free_list = rest;
        live_count = store.live_count + 1;
      } in
      let ((low, high, unused), apart, others) =
        subst (Free is_live blank store.records) e w.free_slots in
      let len = length-set store.records pos new in
      let c = w.counted in
      let n = w.nonempty in
      let counts = count-set is_live blank store.records pos new high in
      let one : weight (get_or store.records pos blank).live ≡ 0 = ap weight unused in
      (
        store',
        pos,
        rw e refl,
        (
          low,
          find_unused initial store pos unused,
          record {
            nonempty = omega arith;
            first_unused =
                ap is_live (get_or-set_ne store.records pos 0 new blank (λ z. absurd (omega arith)))
                ∙ w.first_unused;
            free_slots = Free-set is_live blank store.records pos new rest apart others;
            counted = omega arith;
          },
          refl,
          find_live initial store' pos new low (omega arith)
              (get_or-set_self store.records pos new blank high) refl,
          λ p ne.
              find_same initial store store' p (ap (λ l. leb l p) len)
                (get_or-set_ne store.records pos p new blank (λ z. ne (sym z))),
        ),
      )

  -- The answer to a call of `Add`.
  abbrev pub AddAnswer : HeapRecordStore V → List ℕ → V → Type ℓ
  AddAnswer store key value =
      (store' : HeapRecordStore V) × (pos : ℕ) × (add initial store key value ≡ (store', pos))
      × Added initial store key value store' pos

  -- `Add` answers a position that no record had. From it the new record is read, every other position
  -- gives what it gave, one more record is live and the store is well formed again.
  pub add_lem :
      (store : HeapRecordStore V) (key : List ℕ) (value : V)
      → IsStore initial store
      → AddAnswer store key value
  add_lem store key value w = elim (List-cases store.free_list) [
    | inl e ↦ add_at_end store key value w e
    | inr (pos, rest, e) ↦ add_reused store key value pos rest w e
  ]
