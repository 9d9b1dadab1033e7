-- ===== src/Store/Segment/Runs.antt =====
-- store.cc, `WalSegment`, on a new segment of 5000 bytes.
use minweight_store_cpp.Base.{
  ℕ, ◌+◌, List, [], ◌∷◌, replicate, true, false, ◌≡◌, refl, inl, inr, sym, arith,
}
use minweight_store_cpp.Store.Status.{Result, ok}
use minweight_store_cpp.Store.Segment.{
  WalSegment, WalRecord, point_in_time, strict, replay, init_header, mapped, write_used,
  open_segment,
}
use minweight_store_cpp.Store.Segment.Append.{IsSegment}
use minweight_store_cpp.Store.Segment.Contract.{IsEntry, AppendAnswer, append_lem}
use minweight_store_cpp.Store.Segment.Log.{hand_over}
use minweight_store_cpp.Store.Segment.Recovery.{
  ReplayAnswer, replay_lem, Settled, replay-recovered, replay-Chain,
}
use minweight_store_cpp.Store.Segment.History.{Entry, Entries, Replays, append_all-replay}
use minweight_store_cpp.Store.Segment.Open.{
  OpensEmpty, open_segment-fresh, open_segment-bytes, init_header-IsSegment,
}

abbrev new_segment : WalSegment
new_segment = init_header (mapped (replicate 5000 0) 5000 1 true)

new_segment-IsSegment : IsSegment new_segment
new_segment-IsSegment =
    init_header-IsSegment 5000 1 (omega arith) (omega arith) (omega arith) (omega arith)

new_segment-size : new_segment.size ≡ 5000
unfolding init_header mapped write_used
new_segment-size = refl

new_segment-used : new_segment.used ≡ 4096
unfolding init_header mapped write_used
new_segment-used = refl

new_segment-sealed : new_segment.sealed ≡ false
unfolding init_header mapped write_used
new_segment-sealed = refl

put_a-IsEntry : IsEntry 1 (97 ∷ []) (5 ∷ 6 ∷ [])
put_a-IsEntry = record {
  op_valid = inl refl;
  key_fits = omega arith;
  key_bytes = (omega arith, tt);
  value_bytes = (omega arith, (omega arith, tt));
}

-- A callback that counts the records.
abbrev count_records : ℕ → WalRecord → ℕ → Result ℕ
count_records n rec pos = ok (n + 1)

open_segment-fresh_example : OpensEmpty 5000 1
open_segment-fresh_example =
    open_segment-fresh 5000 1 (omega arith) (omega arith) (omega arith) (omega arith)

open_segment-bytes_example :
    open_segment new_segment.bytes new_segment.size new_segment.file_no
    ≡ ok (record new_segment { sealed = false; data_dirty = false; metadata_dirty = false })
open_segment-bytes_example =
    open_segment-bytes new_segment new_segment-IsSegment (omega (arith, new_segment-size))

append_lem_example : AppendAnswer new_segment 1 (97 ∷ []) (5 ∷ 6 ∷ [])
append_lem_example =
    append_lem new_segment 1 (97 ∷ []) (5 ∷ 6 ∷ []) new_segment-IsSegment put_a-IsEntry

replay_lem_example : ReplayAnswer count_records new_segment
replay_lem_example = replay_lem count_records new_segment new_segment-IsSegment

-- A put and a delete.
abbrev two_entries : List Entry
two_entries = (1, 97 ∷ [], 5 ∷ 6 ∷ []) ∷ (2, 97 ∷ [], []) ∷ []

two_entries-Entries : Entries two_entries
two_entries-Entries = (
  put_a-IsEntry,
  (
    record {
      op_valid = inr (refl, refl);
      key_fits = omega arith;
      key_bytes = (omega arith, tt);
      value_bytes = tt;
    },
    tt,
  ),
)

append_all-replay_example : Replays strict count_records 0 new_segment two_entries []
append_all-replay_example =
    append_all-replay strict count_records 0 new_segment two_entries [] new_segment-IsSegment
      new_segment-sealed (sym new_segment-used) two_entries-Entries
      (omega (arith, new_segment-used, new_segment-size))

new_segment-replay :
    replay point_in_time count_records new_segment 0
    ≡ ok (record { segment = new_segment; truncated = false; state = 0 })
unfolding hand_over
new_segment-replay =
    replay-Chain point_in_time count_records new_segment [] 0 new_segment-IsSegment
      (sym new_segment-used)

replay-recovered_example :
    Settled strict count_records 0 (record { segment = new_segment; truncated = false; state = 0 })
replay-recovered_example =
    replay-recovered strict count_records new_segment 0
      (record { segment = new_segment; truncated = false; state = 0 }) new_segment-IsSegment
      new_segment-replay
