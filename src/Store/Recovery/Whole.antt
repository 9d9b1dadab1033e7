-- ===== src/Store/Recovery/Whole.antt =====
-- store.cc, `ReplayAll` of a log whose segments are all whole.
use minweight_store_cpp.Base.{
  ℕ, ◌==◌, Bool-cases, true, false, inl, inr, List, [], ◌∷◌, ◌++◌, All, none, some,
}
use minweight_store_cpp.Base.{◌≡◌, refl, ap, ◌∙◌, arith}
use minweight_store_cpp.Store.Status.{Result, ok, err, stuck, ◌>>=◌}
use minweight_store_cpp.Store.Segment.{
  WalSegment, WalRecord, WalReplayPolicy, wal_header_size, replay, Replayed,
}
use minweight_store_cpp.Store.Segment.Append.{IsSegment}
use minweight_store_cpp.Store.Segment.Log.{Chain, hand_over}
use minweight_store_cpp.Store.Segment.Recovery.{replay-Chain}
use minweight_store_cpp.Store.Records.{SegmentedRecordStore, find, update, segment, put_segment}
use minweight_store_cpp.Store.Recovery.{ReplayState, on_record, segment_ids, replay_ids, last_id}
use minweight_store_cpp.Patricia.Index.{Index}

-- No number stands twice in the map of segments.
abbrev pub IsMap : List (ℕ × WalSegment) → Type 0
IsMap [] = Unit {0}
IsMap ((n, seg) ∷ segments) = (find segments n ≡ none) × IsMap segments

update-absent :
    (segments : List (ℕ × WalSegment)) (n : ℕ) (seg : WalSegment)
    → find segments n ≡ none
    → update segments n seg ≡ segments
update-absent [] n seg h = refl
update-absent ((m, s) ∷ segments) n seg h = elim (Bool-cases (m == n)) [
  | inl e ↦ absurd (let found : some s ≡ none = rw e at h in cc)
  | inr e ↦
      rw e
        (ap (λ (l : List (ℕ × WalSegment)). (m, s) ∷ l) (update-absent segments n seg (rw e at h)))
]

-- A segment that is written back unchanged.
update-same :
    (segments : List (ℕ × WalSegment)) (n : ℕ) (seg : WalSegment)
    → IsMap segments
    → find segments n ≡ some seg
    → update segments n seg ≡ segments
update-same [] n seg w h = refl
update-same ((m, s) ∷ segments) n seg (alone, w) h = elim (Bool-cases (m == n)) [
  | inl e ↦
      let at : m ≡ n = ground arith in
      let same : s ≡ seg = some_injective (rw e at h) in
      let others = update-absent segments n seg (rw at at alone) in rw (e, others, same) refl
  | inr e ↦
      rw e
        (ap (λ (l : List (ℕ × WalSegment)). (m, s) ∷ l) (update-same segments n seg w (rw e at h)))
]
  where
    some_injective : {a b : WalSegment} → some a ≡ some b → a ≡ b
    some_injective e = cc

-- The callback is handed the records of the segments in the order of `ids`.
unfoldable pub hand_log :
    (Index → WalRecord → ℕ → Result Index) → (ℕ → List WalRecord) → List ℕ → Index → Result Index
hand_log fn log [] index = ok index
hand_log fn log (id ∷ ids) index = do
  index' ← hand_over fn id wal_header_size (log id) index
  hand_log fn log ids index'

-- A segment that holds exactly the records `recs`, up to its used offset.
abbrev pub IsWhole : ℕ → WalSegment → List WalRecord → Type 0
IsWhole id seg recs = IsSegment seg × (seg.file_no ≡ id) × Chain seg wal_header_size recs seg.used

-- Every number of the map is found.
abbrev pub Found : List (ℕ × WalSegment) → ℕ → Type 0
Found segments id = (seg : WalSegment) × (find segments id ≡ some seg)

pub segment_ids-Found :
    (segments : List (ℕ × WalSegment)) → All (Found segments) (segment_ids segments)
segment_ids-Found [] = tt
segment_ids-Found ((n, seg) ∷ segments) = (
  (seg, let e : (n == n) ≡ true = ground arith in rw e refl),
  later (segment_ids segments) (segment_ids-Found segments),
)
  where
    later : (ids : List ℕ) → All (Found segments) ids → All (Found ((n, seg) ∷ segments)) ids
    later [] ps = tt
    later (id ∷ ids) ((s, h), ps) = (
      elim (Bool-cases (n == id)) [ inl e ↦ (seg, rw e refl) | inr e ↦ (s, rw e h) ],
      later ids ps,
    )

-- A segment of the store that is whole.
abbrev pub IsKept : SegmentedRecordStore → (ℕ → List WalRecord) → ℕ → Type 0
IsKept store log id = (seg : WalSegment) × (segment store id ≡ some seg) × IsWhole id seg (log id)

abbrev pub state_of : SegmentedRecordStore → Index → ℕ → ReplayState
state_of store index last = record {
  store = store;
  index = index;
  drop_remaining = false;
  last_kept_file_no = last;
}

module _ (policy : WalReplayPolicy) (rounds : ℕ) (store : SegmentedRecordStore)
    (log : ℕ → List WalRecord) (unique : IsMap store.segments) where
  -- One segment is replayed and stays as it is.
  replay_one :
      (seg : WalSegment) (id : ℕ) (index : Index)
      → IsWhole id seg (log id)
      → replay policy (on_record rounds store) seg index ≡ (
          hand_over (on_record rounds store) id wal_header_size (log id) index >>= λ index'.
          ok (record { segment = seg; truncated = false; state = index' }))
  replay_one seg id index is =
      let run = replay-Chain policy (on_record rounds store) seg (log id) index is.0 is.2 in
      run
      ∙ ap
          (λ (n : ℕ).
            hand_over (on_record rounds store) n wal_header_size (log id) index >>= λ index'.
            ok (record { segment = seg; truncated = false; state = index' }))
          is.1

  -- The whole segments are replayed, and the loop goes on with the others.
  pub replay_ids-append :
      (ids rest : List ℕ) (last : ℕ) (index : Index)
      → All (IsKept store log) ids
      → replay_ids policy rounds (state_of store index last) (ids ++ rest) ≡ (
          hand_log (on_record rounds store) log ids index >>= λ index'.
          replay_ids policy rounds (state_of store index' (last_id last ids)) rest)
  unfolding replay_ids hand_log
  replay_ids-append [] rest last index h = refl
  replay_ids-append (id ∷ ids) rest last index ((seg, there, is), h) =
      rw (there, replay_one seg id index is)
        (next (λ index'. replay_ids-append ids rest id index' h)
          (hand_over (on_record rounds store) id wal_header_size (log id) index))
    where
      same : put_segment store id seg ≡ store
      same =
          ap (λ (l : List (ℕ × WalSegment)). record store { segments = l })
            (update-same store.segments id seg unique there)

      state_after : Replayed Index → ReplayState
      state_after replayed = record {
        store = put_segment store id replayed.segment;
        index = replayed.state;
        drop_remaining = replayed.truncated;
        last_kept_file_no = id;
      }

      next :
          ((index' : Index)
            → replay_ids policy rounds (state_of store index' id) (ids ++ rest) ≡ (
                hand_log (on_record rounds store) log ids index' >>= λ last_index.
                replay_ids policy rounds (state_of store last_index (last_id id ids)) rest))
          → (result : Result Index)
          → ((result >>= λ index'. ok (record { segment = seg; truncated = false; state = index' }))
              >>= λ replayed. replay_ids policy rounds (state_after replayed) (ids ++ rest))
            ≡ ((result >>= λ index'. hand_log (on_record rounds store) log ids index') >>= λ index'.
                replay_ids policy rounds (state_of store index' (last_id id ids)) rest)
      next others (ok index') = rw same (others index')
      next others (err e) = refl
      next others stuck = refl
