-- ===== src/Store/Recovery/Damage.antt =====
-- store.cc: what `ReplayAll` with `point_in_time` makes of a log that is damaged in one segment.
use minweight_store_cpp.Base.{
  ℕ, ◌+◌, ◌==◌, not, true, false, List, [], ◌∷◌, ◌++◌, All, some, ◌≡◌, ◌≢◌, refl, ap, ◌∙◌, arith,
}
use minweight_store_cpp.Store.Status.{Result, ok, ◌>>=◌}
use minweight_store_cpp.Store.Segment.{
  WalSegment, WalRecord, point_in_time, wal_header_size, truncate,
}
use minweight_store_cpp.Store.Segment.Append.{IsSegment}
use minweight_store_cpp.Store.Segment.Log.{hand_over}
use minweight_store_cpp.Store.Segment.Replay.{Readable}
use minweight_store_cpp.Store.Records.{SegmentedRecordStore, segment, put_segment}
use minweight_store_cpp.Store.Records.Find.{find-update_self, find-update_ne}
use minweight_store_cpp.Store.Recovery.{
  ReplayState, on_record, sort_ids, segment_ids, replay_ids, finish_replay, replay_all, last_id,
}
use mathlib.Core.List.{Perm}
use mathlib.Core.Path.{subst, sym}
use minweight_store_cpp.Store.Recovery.Sorting.{Rising, sort_ids-Rising, sort_ids_perm}
use minweight_store_cpp.Store.Recovery.Changes.{Outcome, log_entries, entries_of}
use minweight_store_cpp.Store.Recovery.Outcomes.{
  IsChange, Chain-IsChange, Outcome-log_part, bind_assoc,
}
use minweight_store_cpp.Store.Recovery.Whole.{IsMap, IsKept, hand_log, state_of, replay_ids-append}
use minweight_store_cpp.Store.Recovery.Gone.{
  find-seal_others, find-seal_others-none, IsGone, dropped-IsGone, dropped_others,
}
use minweight_store_cpp.Store.Recovery.Cut.{cut_segments, cut_store, replay_ids-cut, finished}
use minweight_store_cpp.Patricia.Index.{Index}

-- What the store is after the segment `id` was cut at `e` and the segments `after` were dropped.
abbrev pub IsCut :
    SegmentedRecordStore → SegmentedRecordStore → ℕ → ℕ → List ℕ → WalSegment → Type 0
IsCut store store' id e after seg =
    (store'.active_file_no ≡ id)
    × (store'.next_file_no ≡ id + 1)
    × (segment store' id ≡ some (record (truncate seg e) { sealed = false }))
    × All (IsGone store') after
    × ((n : ℕ) (other : WalSegment)
        → id ≢ n
        → All (λ k. k ≢ n) after
        → segment store n ≡ some other
        → segment store' n ≡ some (record other { sealed = true }))

-- `ReplayAll` of such a log: the numbers rise and are those of all segments; the calls of `Put` and
-- `Delete` for the records before the damage give the result.
abbrev pub CutAnswer :
    ℕ
    → SegmentedRecordStore
    → (ℕ → List WalRecord)
    → Index
    → List ℕ
    → ℕ
    → ℕ
    → List ℕ
    → WalSegment
    → Type 0
CutAnswer rounds store log index before id e after seg =
    Rising (before ++ id ∷ after)
    × Perm (before ++ id ∷ after) (segment_ids store.segments)
    × (store' : SegmentedRecordStore) × (result : Result Index) × Outcome rounds store
        (log_entries log before ++ entries_of id wal_header_size (log id)) index result
    × (replay_all point_in_time rounds store index ≡ (result >>= λ index'. ok (store', index')))
    × IsCut store store' id e after seg

module _ (store : SegmentedRecordStore) (id e : ℕ) (after : List ℕ) (seg : WalSegment)
    (there : segment store id ≡ some seg) (once : All (λ k. k ≢ id) after) where
  gone :
      (ids : List ℕ)
      → All (IsGone (cut_segments store id e after seg)) ids
      → All (IsGone (cut_store store id e after seg)) ids
  gone [] h = tt
  gone (n ∷ ids) ((absent, empty), h) = (
    (find-seal_others-none (cut_segments store id e after seg).segments id n absent, empty),
    gone ids h,
  )

  cut_store-IsCut : IsCut store (cut_store store id e after seg) id e after seg
  cut_store-IsCut =
      let written = put_segment store id (truncate seg e) in
      let kept = (cut_segments store id e after seg).segments in
      let here =
        dropped_others written after id once
        ∙ find-update_self store.segments id seg (truncate seg e) there in
      let same : (id == id) ≡ true = ground arith in
      (
        refl,
        refl,
        find-seal_others kept id id (truncate seg e) here
            ∙ ap (λ b. some (record (truncate seg e) { sealed = not b })) same,
        gone after (dropped-IsGone written after),
        λ n other ne beside found.
            let there_n =
              dropped_others written after n beside
              ∙ find-update_ne store.segments id n (truncate seg e) ne
              ∙ found in
            let differs : (n == id) ≡ false = ground (arith, ne) in
            find-seal_others kept id n other there_n
            ∙ ap (λ b. some (record other { sealed = not b })) differs,
      )

-- In a store whose segments have different numbers, let these be `before`, `id` and `after` in the order in
-- which `ReplayAll` sorts them, the segments of `before` whole, and the segment `id` well formed and
-- readable up to an offset before its used offset. The order rises. `ReplayAll` with `point_in_time` calls
-- `Put` and `Delete`, as the records say, for the records of `before` and then for those of `id` that can
-- be read; the first call that fails ends it with that call's error in the store's codes, and
-- one that is stuck leaves it stuck. If all succeed, it ends with the last index; the segment `id` is cut there, not sealed and the active one, the
-- next number is the one behind it, the segments of `after` are gone with their files, and every other
-- segment is as it was, and sealed.
pub cut_store_lem :
    (rounds : ℕ) (store : SegmentedRecordStore) (log : ℕ → List WalRecord) (index : Index)
    (before : List ℕ) (id e : ℕ) (after : List ℕ) (seg : WalSegment)
    → IsMap store.segments
    → sort_ids (segment_ids store.segments) ≡ before ++ id ∷ after
    → All (λ k. k ≢ id) after
    → All (IsKept store log) before
    → segment store id ≡ some seg
    → IsSegment seg
    → seg.file_no ≡ id
    → Readable seg wal_header_size (log id) e
    → e ≢ seg.used
    → CutAnswer rounds store log index before id e after seg
unfolding replay_all
cut_store_lem rounds store log index before id e after seg unique sorted once kept there w number
      readable short =
    let start = state_of store index store.active_file_no in
    let run =
      replay_ids-append point_in_time rounds store log unique before (id ∷ after)
        store.active_file_no index kept in
    let before_cut = hand_log (on_record rounds store) log before index in
    let in_segment = hand_over (on_record rounds store) id wal_header_size (log id) in
    (
      subst Rising sorted (sort_ids-Rising (segment_ids store.segments)),
      subst (λ ids. Perm ids (segment_ids store.segments)) sorted
          (sort_ids_perm (segment_ids store.segments)),
      cut_store store id e after seg,
      before_cut >>= in_segment,
      Outcome-log_part rounds store log before id (log id) index (changes before kept)
          (Chain-IsChange seg (log id) wal_header_size e w readable.0),
      ap (λ (r : Result ReplayState). r >>= λ state. ok (finish_replay state))
            (ap (replay_ids point_in_time rounds start) sorted ∙ run)
          ∙ finished rounds store log id e after seg before_cut
              (λ index'.
                replay_ids point_in_time rounds
                  (state_of store index' (last_id store.active_file_no before)) (id ∷ after))
              in_segment
              (λ index'.
                replay_ids-cut rounds store log id e after seg index'
                  (last_id store.active_file_no before) there w number readable short)
          ∙ sym (
              bind_assoc before_cut in_segment
                (λ index'. ok (cut_store store id e after seg, index'))),
      cut_store-IsCut store id e after seg there once,
    )
  where
    changes : (ids : List ℕ) → All (IsKept store log) ids → All (λ id. All IsChange (log id)) ids
    changes [] h = tt
    changes (id ∷ ids) ((seg, there, is), h) =
        (Chain-IsChange seg (log id) wal_header_size seg.used is.0 is.2, changes ids h)
