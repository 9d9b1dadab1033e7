-- ===== src/Store/Recovery/Contract.antt =====
-- store.cc: what `ReplayAll` makes of a log.
use minweight_store_cpp.Base.{ℕ, List, [], ◌∷◌, All, some, append-nil, ◌≡◌, refl, sym, ap, ◌∙◌}
use minweight_store_cpp.Store.Status.{Result, ok, err, stuck, ◌>>=◌}
use minweight_store_cpp.Store.Segment.{WalSegment, WalRecord, WalReplayPolicy, wal_header_size}
use minweight_store_cpp.Store.Records.{SegmentedRecordStore, segment}
use minweight_store_cpp.Store.Recovery.{
  ReplayState, on_record, sort_ids, segment_ids, replay_ids, finish_replay, replay_all, last_id,
}
use mathlib.Core.List.{Perm}
use minweight_store_cpp.Store.Recovery.Sorting.{
  Rising, sort_ids-All, sort_ids-Rising, sort_ids_perm,
}
use minweight_store_cpp.Store.Recovery.Whole.{
  IsMap, IsWhole, IsKept, hand_log, Found, segment_ids-Found, state_of, replay_ids-append,
}
use minweight_store_cpp.Store.Recovery.Changes.{Outcome, log_entries}
use minweight_store_cpp.Store.Recovery.Outcomes.{IsChange, Chain-IsChange, Outcome-log}
use minweight_store_cpp.Patricia.Index.{Index}

-- `ReplayAll` of a log that is whole, with the records of each segment: the numbers of all segments in
-- rising order, what the calls of `Put` and `Delete` make of the index, and the same from `ReplayAll`.
abbrev pub ReplayAllAnswer :
    WalReplayPolicy → ℕ → SegmentedRecordStore → (ℕ → List WalRecord) → Index → Type 0
ReplayAllAnswer policy rounds store log index =
    (ids : List ℕ) × Rising ids
    × Perm ids (segment_ids store.segments)
    × (result : Result Index) × Outcome rounds store (log_entries log ids) index result
    × (replay_all policy rounds store index ≡ (result >>= λ index'. ok (store, index')))

-- Let the segments of a store have different numbers and each be whole. `ReplayAll` under either policy
-- goes through all segments in rising order of their numbers, and through the records of each in the
-- order of the log: it calls `Put` with the key and the position of a put, and `Delete` with the key of
-- a delete. If all calls succeed, it ends with the last index and with the store as it was;
-- the first call that fails ends it with that call's error in the store's codes, and one that is
-- stuck leaves it stuck.
pub replay_all_lem :
    (policy : WalReplayPolicy) (rounds : ℕ) (store : SegmentedRecordStore)
    (log : ℕ → List WalRecord) (index : Index)
    → IsMap store.segments
    → ((id : ℕ) (seg : WalSegment) → segment store id ≡ some seg → IsWhole id seg (log id))
    → ReplayAllAnswer policy rounds store log index
unfolding replay_all replay_ids finish_replay
replay_all_lem policy rounds store log index unique whole =
    let ids = sort_ids (segment_ids store.segments) in
    let found =
      sort_ids-All (Found store.segments) (segment_ids store.segments)
        (segment_ids-Found store.segments) in
    let run =
      replay_ids-append policy rounds store log unique ids [] store.active_file_no index
        (kept ids found) in
    (
      ids,
      sort_ids-Rising (segment_ids store.segments),
      sort_ids_perm (segment_ids store.segments),
      hand_log (on_record rounds store) log ids index,
      Outcome-log rounds store log ids index (changes ids found),
      ap (λ (r : Result ReplayState). r >>= λ state. ok (finish_replay state))
            (ap (replay_ids policy rounds (state_of store index store.active_file_no))
                (sym (append-nil ids))
              ∙ run)
          ∙ done ids (hand_log (on_record rounds store) log ids index),
    )
  where
    kept : (ids : List ℕ) → All (Found store.segments) ids → All (IsKept store log) ids
    kept [] h = tt
    kept (id ∷ ids) ((seg, there), h) = ((seg, there, whole id seg there), kept ids h)

    changes :
        (ids : List ℕ) → All (Found store.segments) ids → All (λ id. All IsChange (log id)) ids
    changes [] h = tt
    changes (id ∷ ids) ((seg, there), h) =
        let is = whole id seg there in
        (Chain-IsChange seg (log id) wal_header_size seg.used is.0 is.2, changes ids h)

    done :
        (ids : List ℕ) (result : Result Index)
        → ((result >>= λ index'. ok (state_of store index' (last_id store.active_file_no ids)))
            >>= λ state. ok (finish_replay state))
          ≡ (result >>= λ index'. ok (store, index'))
    done ids (ok index') = refl
    done ids (err e) = refl
    done ids stuck = refl
