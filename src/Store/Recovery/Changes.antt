-- ===== src/Store/Recovery/Changes.antt =====
-- store.cc, the callback of `ReplayAll`: a log as the calls of `Put` and `Delete` that it stands for.
use minweight_store_cpp.Base.{ℕ, ◌+◌, ◌*◌, ◌^◌, List, [], ◌∷◌, ◌++◌, ◌≡◌, ◌≢◌, ◌⊎◌}
use minweight_store_cpp.Store.Status.{
  Result, ok, err, stuck, StatusCode, invalid_argument, corrupt_wal, corrupt_index,
}
use minweight_store_cpp.Store.Segment.{WalRecord, wal_op_put, wal_op_delete, wal_header_size}
use minweight_store_cpp.Store.Records.{SegmentedRecordStore, key_at}
use minweight_store_cpp.Patricia.Status
use minweight_store_cpp.Patricia.Index.{Index, PutResult, DeleteResult}
use minweight_store_cpp.Patricia.Index.Puts.{put}
use minweight_store_cpp.Patricia.Index.Deletes.{delete}

-- The records of a segment, each with its position: the file number and the offset.
abbrev pub entries_of : ℕ → ℕ → List WalRecord → List (WalRecord × ℕ)
entries_of id o [] = []
entries_of id o (rec ∷ recs) = (rec, id * 2 ^ 30 + o) ∷ entries_of id rec.end recs

abbrev pub log_entries : (ℕ → List WalRecord) → List ℕ → List (WalRecord × ℕ)
log_entries log [] = []
log_entries log (id ∷ ids) = entries_of id wal_header_size (log id) ++ log_entries log ids

-- The store's code for an error of the index.
abbrev pub Translates : Status.StatusCode → StatusCode → Type 0
Translates e code =
    (e ≡ Status.key_too_large) × (code ≡ invalid_argument)
    ⊎ ((e ≡ Status.position_tag) × (code ≡ corrupt_wal)
        ⊎ (e ≢ Status.key_too_large) × (e ≢ Status.position_tag) × (code ≡ corrupt_index))

-- A call on the index that does not succeed ends the replay with the translated error.
abbrev pub Aborts : {A : Type 0} → Index × Status.Result A → Result Index → Type 0
Aborts update result =
    ((e : Status.StatusCode) × (code : StatusCode) × (update.1 ≡ Status.err e)
      × Translates e code
      × (result ≡ err code))
    ⊎ (update.1 ≡ Status.stuck) × (result ≡ stuck)

module _ (rounds : ℕ) (store : SegmentedRecordStore) where
  -- A put calls `Put` with the record's key and position, a delete calls `Delete` with its key.
  abbrev pub Succeeds : Index → WalRecord × ℕ → Index → Type 0
  Succeeds index (rec, pos) next =
      (rec.op ≡ wal_op_put)
        × ((r : PutResult) × (put (key_at store) rounds index rec.key pos ≡ (next, Status.ok r)))
      ⊎ (rec.op ≡ wal_op_delete)
        × ((r : DeleteResult) × (delete (key_at store) rounds index rec.key ≡ (next, Status.ok r)))

  abbrev pub Stops : Index → WalRecord × ℕ → Result Index → Type 0
  Stops index (rec, pos) result =
      (rec.op ≡ wal_op_put) × Aborts (put (key_at store) rounds index rec.key pos) result
      ⊎ (rec.op ≡ wal_op_delete) × Aborts (delete (key_at store) rounds index rec.key) result

  -- What the calls for the entries, one after the other, make of an index: all succeed and give the
  -- last index, or the first that does not ends the replay.
  abbrev pub Outcome : List (WalRecord × ℕ) → Index → Result Index → Type 0
  Outcome [] index result = result ≡ ok index
  Outcome (entry ∷ entries) index result =
      ((next : Index) × Succeeds index entry next × Outcome entries next result)
      ⊎ Stops index entry result
