-- ===== src/Patricia/Records.antt =====
-- src/minpatricia/include/minpatricia/record_store.h, `HeapRecordStore`. A key is the list of its
-- bytes. The back of the vector `free_` is the head of the list `free_list`.
pub mod Invariant
pub mod Adds
pub mod Frees
pub mod Runs
use minweight_store_cpp.Base.{
  ℕ, ◌+◌, ◌-◌, ltb, leb, ◌==◌, ◌||◌, not, Bool, true, false, if◌then◌else◌,
}
use minweight_store_cpp.Base.{List, [], ◌∷◌, ◌++◌, length, get_or, set}
use minweight_store_cpp.Patricia.Status.{Result, ok, err, missing_key}

pub record HeapRecord {ℓ} (V : Type ℓ) : Type ℓ where
  pub key : List ℕ
  pub value : V
  pub live : Bool

pub record HeapRecordStore {ℓ} (V : Type ℓ) : Type ℓ where
  pub records : List (HeapRecord V)
  pub free_list : List ℕ
  pub live_count : ℕ

-- `initial` is the value that `V{}` makes.
module _ {ℓ} {V : Type ℓ} (initial : V) where
  -- `HeapRecord<V>{}`
  abbrev pub blank_record : HeapRecord V
  blank_record = record { key = []; value = initial; live = false }

  -- The constructor.
  abbrev pub empty_store : HeapRecordStore V
  empty_store = record { records = blank_record ∷ []; free_list = []; live_count = 0 }

  -- `Add`
  unfoldable pub add : HeapRecordStore V → List ℕ → V → HeapRecordStore V × ℕ
  add store key value =
      let new : HeapRecord V = record { key = key; value = value; live = true } in
      elim store.free_list [
        | [] ↦ (
          record store { records = store.records ++ (new ∷ []); live_count = store.live_count + 1 },
          length store.records,
        )
        | pos ∷ rest ↦ (
          record {
            records = set store.records pos new;
            free_list = rest;
            live_count = store.live_count + 1;
          },
          pos,
        )
      ]

  -- `Record`, on which `Key` and `Value` are built alike.
  unfoldable pub find_record : HeapRecordStore V → ℕ → Result (HeapRecord V)
  find_record store pos =
      if pos == 0 || leb (length store.records) pos
      then err missing_key
      else let found = get_or store.records pos blank_record in
        if not found.live then err missing_key else ok found

  -- `Free`
  unfoldable pub free : HeapRecordStore V → ℕ → HeapRecordStore V × Result (Unit {0})
  free store pos =
      if pos == 0
        || leb (length store.records) pos
        || not (get_or store.records pos blank_record).live
      then (store, err missing_key)
      else (
        record {
          records = set store.records pos blank_record;
          free_list = pos ∷ store.free_list;
          live_count = store.live_count - 1;
        },
        ok tt,
      )
