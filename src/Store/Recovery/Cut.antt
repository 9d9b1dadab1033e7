-- ===== src/Store/Recovery/Cut.antt =====
-- store.cc, `ReplayAll` with `point_in_time` of a log that is damaged in one segment.
use minweight_store_cpp.Base.{ℕ, ◌+◌, ◌==◌, true, false, List, [], ◌∷◌, some, if◌then◌else◌}
use minweight_store_cpp.Base.{◌≡◌, ◌≢◌, refl, ap, ◌∙◌, arith}
use minweight_store_cpp.Store.Status.{Result, ok, err, stuck, ◌>>=◌}
use minweight_store_cpp.Store.Segment.{
  WalSegment, WalRecord, point_in_time, wal_header_size, replay, truncate, Replayed,
}
use minweight_store_cpp.Store.Segment.Append.{IsSegment}
use minweight_store_cpp.Store.Segment.Log.{hand_over}
use minweight_store_cpp.Store.Segment.Replay.{Readable, replay-Readable}
use minweight_store_cpp.Store.Records.{SegmentedRecordStore, segment, put_segment}
use minweight_store_cpp.Store.Recovery.{
  ReplayState, on_record, replay_ids, finish_replay, drop_segment, seal_others,
}
use minweight_store_cpp.Store.Recovery.Gone.{dropped}
use minweight_store_cpp.Store.Recovery.Whole.{state_of}
use minweight_store_cpp.Patricia.Index.{Index}

module _ (store : SegmentedRecordStore) (id e : ℕ) (after : List ℕ) (seg : WalSegment) where
  -- The store after the cut, before the segments are sealed.
  abbrev pub cut_segments : SegmentedRecordStore
  cut_segments = dropped (put_segment store id (truncate seg e)) after

  abbrev pub cut_state : Index → ReplayState
  cut_state index = record {
    store = cut_segments;
    index = index;
    drop_remaining = true;
    last_kept_file_no = id;
  }

  abbrev pub cut_store : SegmentedRecordStore
  cut_store = record cut_segments {
    active_file_no = id;
    next_file_no = id + 1;
    segments = seal_others id cut_segments.segments;
  }

module _ (rounds : ℕ) (store : SegmentedRecordStore) (log : ℕ → List WalRecord) (id e : ℕ)
    (after : List ℕ) (seg : WalSegment) where
  replay_cut :
      (index : Index)
      → IsSegment seg
      → seg.file_no ≡ id
      → Readable seg wal_header_size (log id) e
      → e ≢ seg.used
      → replay point_in_time (on_record rounds store) seg index ≡ (
          hand_over (on_record rounds store) id wal_header_size (log id) index >>= λ index'.
          ok (record { segment = truncate seg e; truncated = true; state = index' }))
  replay_cut index w number readable short =
      let t : (e == seg.used) ≡ false = ground (arith, short) in
      replay-Readable point_in_time (on_record rounds store) seg w (log id) e index readable
      ∙ ap
          (λ b.
            hand_over (on_record rounds store) seg.file_no wal_header_size (log id) index >>= λ s.
            if b
            then ok (record { segment = seg; truncated = false; state = s })
            else ok (record { segment = truncate seg e; truncated = true; state = s }))
          t
      ∙ ap
          (λ (n : ℕ).
            hand_over (on_record rounds store) n wal_header_size (log id) index >>= λ index'.
            ok (record { segment = truncate seg e; truncated = true; state = index' }))
          number

  drop_rest :
      (dropping : SegmentedRecordStore) (index : Index) (ids : List ℕ)
      → replay_ids point_in_time rounds
          (record {
            store = dropping;
            index = index;
            drop_remaining = true;
            last_kept_file_no = id;
          })
          ids
        ≡ ok (record {
          store = dropped dropping ids;
          index = index;
          drop_remaining = true;
          last_kept_file_no = id;
        })
  unfolding replay_ids dropped
  drop_rest dropping index [] = refl
  drop_rest dropping index (n ∷ ids) = drop_rest (drop_segment dropping n) index ids

  -- The damaged segment is cut, and the rest is dropped.
  pub replay_ids-cut :
      (index : Index) (last : ℕ)
      → segment store id ≡ some seg
      → IsSegment seg
      → seg.file_no ≡ id
      → Readable seg wal_header_size (log id) e
      → e ≢ seg.used
      → replay_ids point_in_time rounds (state_of store index last) (id ∷ after) ≡ (
          hand_over (on_record rounds store) id wal_header_size (log id) index >>= λ index'.
          ok (cut_state store id e after seg index'))
  unfolding replay_ids
  replay_ids-cut index last there w number readable short =
      rw (there, replay_cut index w number readable short)
        (next (hand_over (on_record rounds store) id wal_header_size (log id) index))
    where
      state_after : Replayed Index → ReplayState
      state_after replayed = record {
        store = put_segment store id replayed.segment;
        index = replayed.state;
        drop_remaining = replayed.truncated;
        last_kept_file_no = id;
      }

      next :
          (result : Result Index)
          → ((result >>= λ index'.
                ok (record { segment = truncate seg e; truncated = true; state = index' }))
              >>= λ replayed. replay_ids point_in_time rounds (state_after replayed) after)
            ≡ (result >>= λ index'. ok (cut_state store id e after seg index'))
      next (ok index') = drop_rest (put_segment store id (truncate seg e)) index' after
      next (err code) = refl
      next stuck = refl

  pub finished :
      (result : Result Index) (f : Index → Result ReplayState) (g : Index → Result Index)
      → ((index : Index)
          → f index ≡ (g index >>= λ index'. ok (cut_state store id e after seg index')))
      → ((result >>= f) >>= λ state. ok (finish_replay state))
        ≡ (result >>= λ index. g index >>= λ index'. ok (cut_store store id e after seg, index'))
  unfolding finish_replay
  finished (ok index) f g h =
      ap (λ (r : Result ReplayState). r >>= λ state. ok (finish_replay state)) (h index)
      ∙ last (g index)
    where
      last :
          (result : Result Index)
          → ((result >>= λ index'. ok (cut_state store id e after seg index')) >>= λ state.
              ok (finish_replay state))
            ≡ (result >>= λ index'. ok (cut_store store id e after seg, index'))
      last (ok index') = refl
      last (err code) = refl
      last stuck = refl
  finished (err code) f g h = refl
  finished stuck f g h = refl
