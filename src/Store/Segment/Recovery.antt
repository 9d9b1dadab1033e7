-- ===== src/Store/Segment/Recovery.antt =====
-- store.cc, `WalSegment::Replay` after `Append`s, and on a damaged log.
use minweight_store_cpp.Base.{ℕ, ◌≤◌, ◌==◌, List, arith, Bool-cases}
use minweight_store_cpp.Base.{
  Bool, true, false, if◌then◌else◌, ◌≡◌, refl, sym, ap, ◌∙◌, ◌⊎◌, inl, inr,
}
use mathlib.Core.Path.{subst}
use minweight_store_cpp.Store.Status.{Result, ok, err, stuck, corrupt_wal, ◌>>=◌, ok-injective}
use minweight_store_cpp.Store.Segment.{
  WalSegment, WalRecord, WalReplayPolicy, point_in_time, strict, Replayed, replay, truncate,
  wal_header_size, stop_at,
}
use minweight_store_cpp.Store.Segment.Append.{IsSegment}
use minweight_store_cpp.Store.Segment.Log.{
  Chain, hand_over, truncate-IsSegment, truncate-Chain, truncate-used, truncate-file_no, Chain-le,
}
use minweight_store_cpp.Store.Segment.Replay.{Readable, readable, replay-Readable}

-- What the two policies do on the readable records.
abbrev pub ReplayAnswer : {S : Type 0} → (S → WalRecord → ℕ → Result S) → WalSegment → Type 0
ReplayAnswer {S} fn seg =
    (recs : List WalRecord) × (e : ℕ) × Readable seg wal_header_size recs e
    × ((s : S)
        → (replay strict fn seg s ≡ (
            hand_over fn seg.file_no wal_header_size recs s >>= λ s'.
            if e == seg.used
            then ok (record { segment = seg; truncated = false; state = s' })
            else err corrupt_wal))
          × (replay point_in_time fn seg s ≡ (
              hand_over fn seg.file_no wal_header_size recs s >>= λ s'.
              if e == seg.used
              then ok (record { segment = seg; truncated = false; state = s' })
              else ok (record { segment = truncate seg e; truncated = true; state = s' }))))

-- A replay under the strict policy hands over the readable records in order, and then accepts the
-- segment as it is if they end at the used offset, and refuses it as corrupt otherwise; with
-- `point_in_time` it cuts the segment there instead. An error of the callback ends the replay with that error.
pub replay_lem :
    {S : Type 0} (fn : S → WalRecord → ℕ → Result S) (seg : WalSegment)
    → IsSegment seg
    → ReplayAnswer fn seg
replay_lem fn seg w =
    let (recs, e, h) = readable seg w in
    (
      recs,
      e,
      h,
      λ s. (
        replay-Readable strict fn seg w recs e s h,
        replay-Readable point_in_time fn seg w recs e s h,
      ),
    )

-- The records of a segment that is whole are handed over in order under either policy.
pub replay-Chain :
    {S : Type 0} (policy : WalReplayPolicy) (fn : S → WalRecord → ℕ → Result S) (seg : WalSegment)
    (recs : List WalRecord) (s : S)
    → IsSegment seg
    → Chain seg wal_header_size recs seg.used
    → replay policy fn seg s ≡ (
        hand_over fn seg.file_no wal_header_size recs s >>= λ s'.
        ok (record { segment = seg; truncated = false; state = s' }))
replay-Chain policy fn seg recs s w h =
    let t : (seg.used == seg.used) ≡ true = ground arith in
    replay-Readable policy fn seg w recs seg.used s (h, omega arith, inl refl)
    ∙ ap
        (λ b. hand_over fn seg.file_no wal_header_size recs s >>= λ s'.
          if b
          then ok (record { segment = seg; truncated = false; state = s' })
          else stop_at policy (λ s rec pos. ok s) seg seg.used s')
        t

bind-ok :
    {A B : Type 0} (f : A → B) (m : Result A) (b : B)
    → (m >>= λ a. ok (f a)) ≡ ok b
    → (a : A) × (m ≡ ok a) × (f a ≡ b)
bind-ok f (ok a) b e = (a, refl, ok-injective e)
bind-ok f (err c) b e = absurd (cc)
bind-ok f stuck b e = absurd (cc)

replay-whole :
    {S : Type 0} (policy : WalReplayPolicy) (fn : S → WalRecord → ℕ → Result S) (seg : WalSegment)
    (recs : List WalRecord) (s s' : S)
    → IsSegment seg
    → Chain seg wal_header_size recs seg.used
    → hand_over fn seg.file_no wal_header_size recs s ≡ ok s'
    → replay policy fn seg s ≡ ok (record { segment = seg; truncated = false; state = s' })
replay-whole policy fn seg recs s s' w h done =
    replay-Chain policy fn seg recs s w h
    ∙ ap (λ m. m >>= λ s'. ok (record { segment = seg; truncated = false; state = s' })) done

-- The two ways in which a `point_in_time` replay ends well.
point_in_time-cases :
    {S : Type 0} (fn : S → WalRecord → ℕ → Result S) (seg : WalSegment) (s : S)
    (result : Replayed S)
    → IsSegment seg
    → replay point_in_time fn seg s ≡ ok result
    → (recs : List WalRecord) × (s' : S) × (hand_over fn seg.file_no wal_header_size recs s ≡ ok s')
      × (Chain seg wal_header_size recs seg.used
            × (record { segment = seg; truncated = false; state = s' } ≡ result)
          ⊎ ((e : ℕ) × (wal_header_size ≤ e)
              × (e ≤ seg.used)
              × Chain seg wal_header_size recs e
              × (record { segment = truncate seg e; truncated = true; state = s' } ≡ result)))
point_in_time-cases fn seg s result w h =
    let (recs, e, (chain, le, end)) = readable seg w in
    let run = sym (replay-Readable point_in_time fn seg w recs e s (chain, le, end)) ∙ h in
    let handed = hand_over fn seg.file_no wal_header_size recs s in
    elim (Bool-cases (e == seg.used)) [
      | inl same ↦
          let at_end : e ≡ seg.used = ground arith in
          let (s', hs, hr) =
            bind-ok (λ s'. record { segment = seg; truncated = false; state = s' }) handed result
              (ap (λ b. handed >>= λ s'. ended b seg e s') (sym same) ∙ run) in
          (recs, s', hs, inl (subst (Chain seg wal_header_size recs) at_end chain, hr))
      | inr differs ↦
          let (s', hs, hr) =
            bind-ok (λ s'. record { segment = truncate seg e; truncated = true; state = s' }) handed
              result (ap (λ b. handed >>= λ s'. ended b seg e s') (sym differs) ∙ run) in
          (recs, s', hs, inr (e, Chain-le seg w recs wal_header_size e chain, le, chain, hr))
    ]
  where
    ended : {S : Type 0} → Bool → WalSegment → ℕ → S → Result (Replayed S)
    ended b seg e s' =
        if b
        then ok (record { segment = seg; truncated = false; state = s' })
        else ok (record { segment = truncate seg e; truncated = true; state = s' })

-- A further replay finds the segment well formed and whole, and ends in the same state.
abbrev pub Settled :
    {S : Type 0} → WalReplayPolicy → (S → WalRecord → ℕ → Result S) → S → Replayed S → Type 0
Settled policy fn s result =
    IsSegment result.segment
    × (replay policy fn result.segment s
        ≡ ok (record { segment = result.segment; truncated = false; state = result.state }))

-- A `point_in_time` replay that ends well leaves a well-formed segment on which a further replay,
-- under either policy, ends in the same state and truncates nothing.
pub replay-recovered :
    {S : Type 0} (policy : WalReplayPolicy) (fn : S → WalRecord → ℕ → Result S) (seg : WalSegment)
    (s : S) (result : Replayed S)
    → IsSegment seg
    → replay point_in_time fn seg s ≡ ok result
    → Settled policy fn s result
replay-recovered {S} policy fn seg s result w h =
    let (recs, s', done, how) = point_in_time-cases fn seg s result w h in
    let P : Replayed S → Type 0 = Settled policy fn s in
    elim how [
      | inl (chain, hr) ↦ subst P hr (w, replay-whole policy fn seg recs s s' w chain done)
      | inr (e, lo, hi, chain, hr) ↦
          let cut = truncate seg e in
          let w' = truncate-IsSegment seg w e lo hi in
          let chain' =
            subst (Chain cut wal_header_size recs) (sym (truncate-used seg w e))
              (truncate-Chain seg w e lo hi recs wal_header_size chain) in
          subst P hr (
            w',
            replay-whole policy fn cut recs s s' w' chain'
                (ap (λ n. hand_over fn n wal_header_size recs s) (truncate-file_no seg w e) ∙ done),
          )
    ]
