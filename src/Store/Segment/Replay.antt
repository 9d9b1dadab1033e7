-- ===== src/Store/Segment/Replay.antt =====
-- store.cc, `WalSegment::Replay`: what a replay hands over and what it leaves.
use minweight_store_cpp.Base.{
  ℕ, zero, suc, ◌+◌, ◌*◌, ◌^◌, ◌≤◌, ◌<◌, ltb, ◌==◌, List, [], ◌∷◌, arith,
}
use minweight_store_cpp.Base.{
  Bool, true, false, if◌then◌else◌, ◌≡◌, refl, sym, ap, ◌∙◌, ◌⊎◌, inl, inr,
}
use mathlib.Core.Path.{subst}
use native.Mathlib.Decide.{dec_lt}
use minweight_store_cpp.Store.Status.{Result, ok, err, stuck, corrupt_wal, ◌>>=◌}
use minweight_store_cpp.Store.Position.{make_record_position_in_range}
use minweight_store_cpp.Store.Segment.{
  WalSegment, WalRecord, WalReplayPolicy, Replayed, stop_at, replay_loop, replay, record_at_offset,
  wal_header_size,
}
use minweight_store_cpp.Store.Segment.Append.{IsSegment}
use minweight_store_cpp.Store.Segment.Log.{Chain, Chain-le, hand_over, record_bounds}

-- Reading at an offset ends, in a record or in an error.
pub record_at_offset-cases :
    (seg : WalSegment) (o : ℕ) (verify : Bool)
    → ((rec : WalRecord) × (record_at_offset seg o verify ≡ ok rec))
      ⊎ (record_at_offset seg o verify ≡ err corrupt_wal)
unfolding record_at_offset
record_at_offset-cases seg o verify = ground arith

-- What is done where the records end at `e`.
abbrev pub finish : {S : Type 0} → WalReplayPolicy → WalSegment → ℕ → S → Result (Replayed S)
finish policy seg e s =
    if e == seg.used
    then ok (record { segment = seg; truncated = false; state = s })
    else stop_at policy (λ s rec pos. ok s) seg e s

-- The records from `o` on up to `e`, behind which there is no other.
abbrev pub Readable : WalSegment → ℕ → List WalRecord → ℕ → Type 0
Readable seg o recs e =
    Chain seg o recs e
    × (e ≤ seg.used)
    × ((e ≡ seg.used) ⊎ (record_at_offset seg e true ≡ err corrupt_wal))

module _ {S : Type 0} (policy : WalReplayPolicy) (fn : S → WalRecord → ℕ → Result S) where
  bind_cong :
      (f : S → Result (Replayed S)) (g : S → Result S) (k : S → Result (Replayed S)) (m : Result S)
      → ((s : S) → f s ≡ (g s >>= k))
      → (m >>= f) ≡ ((m >>= g) >>= k)
  bind_cong f g k (ok s) h = h s
  bind_cong f g k (err c) h = refl
  bind_cong f g k stuck h = refl

  module _ (seg : WalSegment) (w : IsSegment seg) where
    -- One round of the loop on a record.
    round :
        (rounds o : ℕ) (s : S) (rec : WalRecord)
        → record_at_offset seg o true ≡ ok rec
        → replay_loop policy fn (suc rounds) seg o o s ≡ (
            fn s rec (seg.file_no * 2 ^ 30 + o) >>= λ s'.
            replay_loop policy fn rounds seg rec.end rec.end s')
    unfolding replay_loop
    round rounds o s rec e =
        let (lo, grows, hi, top) = record_bounds seg w o true rec e in
        let t : ltb o seg.used ≡ true = ground arith in
        rw
          (
            t,
            e,
            make_record_position_in_range seg.file_no o w.file_no_start w.file_no_limit
                (omega arith),
            replay_loop,
          )
          refl

    -- The round that ends the loop.
    last_round :
        (rounds o : ℕ) (s : S)
        → o ≤ seg.used
        → (o ≡ seg.used) ⊎ (record_at_offset seg o true ≡ err corrupt_wal)
        → replay_loop policy fn (suc rounds) seg o o s ≡ finish policy seg o s
    unfolding replay_loop
    last_round rounds o s le (inl e) =
        let t : ltb o seg.used ≡ false = ground arith in rw (t, replay_loop) refl
    last_round rounds o s le (inr e) = elim (dec_lt o seg.used) [
      | yes lt ↦
          let t : ltb o seg.used ≡ true = ground arith in
          let f : (o == seg.used) ≡ false = ground arith in rw (t, e, f, replay_loop) refl
      | no ge ↦ let t : ltb o seg.used ≡ false = ground arith in rw (t, replay_loop) refl
    ]

    loop-Chain :
        (recs : List WalRecord) (rounds o e : ℕ) (s : S)
        → seg.used < rounds + o
        → Readable seg o recs e
        → replay_loop policy fn rounds seg o o s
          ≡ (hand_over fn seg.file_no o recs s >>= finish policy seg e)
    unfolding hand_over
    loop-Chain recs zero o e s enough (h, le, end) =
        absurd (omega (arith, Chain-le seg w recs o e h))
    loop-Chain [] (suc rounds) o e s enough (h, le, end) =
        last_round rounds o s (omega arith) (
          subst (λ x. (x ≡ seg.used) ⊎ (record_at_offset seg x true ≡ err corrupt_wal)) (sym h) end)
        ∙ ap (λ x. finish policy seg x s) h
    loop-Chain (rec ∷ recs) (suc rounds) o e s enough ((h, hs), le, end) =
        let (lo, grows, hi, top) = record_bounds seg w o true rec h in
        round rounds o s rec h
        ∙ bind_cong (replay_loop policy fn rounds seg rec.end rec.end)
            (hand_over fn seg.file_no rec.end recs) (finish policy seg e)
            (fn s rec (seg.file_no * 2 ^ 30 + o))
            (λ s'. loop-Chain recs rounds rec.end e s' (omega arith) (hs, le, end))

    pub replay-Readable :
        (recs : List WalRecord) (e : ℕ) (s : S)
        → Readable seg wal_header_size recs e
        → replay policy fn seg s
          ≡ (hand_over fn seg.file_no wal_header_size recs s >>= finish policy seg e)
    unfolding replay
    replay-Readable recs e s h =
        loop-Chain recs seg.used wal_header_size e s (omega (arith, w.used_start)) h

-- Every segment has readable records up to some offset.
module _ (seg : WalSegment) (w : IsSegment seg) where
  records_from :
      (rounds o : ℕ)
      → seg.used < rounds + o
      → o ≤ seg.used
      → (recs : List WalRecord) × (e : ℕ) × Readable seg o recs e
  records_from zero o enough le = absurd (omega arith)
  records_from (suc rounds) o enough le = elim (record_at_offset-cases seg o true) [
    | inr bad ↦ ([], o, (refl, le, inr bad))
    | inl (rec, good) ↦
        let (lo, grows, hi, top) = record_bounds seg w o true rec good in
        let (recs, e, (h, le', end)) = records_from rounds rec.end (omega arith) hi in
        (rec ∷ recs, e, ((good, h), le', end))
  ]

  pub readable : (recs : List WalRecord) × (e : ℕ) × Readable seg wal_header_size recs e
  readable = records_from seg.used wal_header_size (omega (arith, w.used_start)) w.used_start
