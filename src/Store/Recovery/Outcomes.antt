-- ===== src/Store/Recovery/Outcomes.antt =====
-- store.cc, the callback of `ReplayAll` makes the calls that the records of a log stand for.
use minweight_store_cpp.Base.{
  ℕ, ◌+◌, ◌*◌, ◌^◌, ◌==◌, true, false, List, [], ◌∷◌, ◌++◌, All, ◌≡◌, ◌⊎◌, inl, inr, refl, ap,
  append_assoc, append-nil, arith,
}
use mathlib.Core.Path.{subst}
use minweight_store_cpp.Store.Status.{Result, ok, err, stuck, ◌>>=◌}
use minweight_store_cpp.Store.Segment.{
  WalSegment, WalRecord, wal_op_put, wal_op_delete, wal_header_size,
}
use minweight_store_cpp.Store.Segment.Append.{IsSegment}
use minweight_store_cpp.Store.Segment.Records.{IsRecord-record_at_offset}
use minweight_store_cpp.Store.Segment.Log.{Chain, hand_over}
use minweight_store_cpp.Store.Records.{SegmentedRecordStore, key_at}
use minweight_store_cpp.Store.Recovery.{from_minpatricia_status, updated, on_record}
use minweight_store_cpp.Store.Recovery.Whole.{hand_log}
use minweight_store_cpp.Patricia.Status
use minweight_store_cpp.Patricia.Index.{Index}
use minweight_store_cpp.Patricia.Index.Puts.{put}
use minweight_store_cpp.Patricia.Index.Deletes.{delete}
use minweight_store_cpp.Store.Recovery.Changes.{
  entries_of, log_entries, Translates, Aborts, Succeeds, Stops, Outcome,
}

-- A record of a log is a put or a delete.
abbrev pub IsChange : WalRecord → Type 0
IsChange rec = (rec.op ≡ wal_op_put) ⊎ (rec.op ≡ wal_op_delete)

pub Chain-IsChange :
    (seg : WalSegment) (recs : List WalRecord) (o e : ℕ)
    → IsSegment seg
    → Chain seg o recs e
    → All IsChange recs
Chain-IsChange seg [] o e w h = tt
Chain-IsChange seg (rec ∷ recs) o e w (h, hs) =
    let top = w.used_limit in
    let lim = w.size_limit in
    let (lo, hi, r) = IsRecord-record_at_offset seg o true rec w.in_bytes (omega arith) h in
    (
      elim r.op_valid [ inl is ↦ inl is | inr (is, no_value) ↦ inr is ],
      Chain-IsChange seg recs rec.end e w hs,
    )

translated : (e : Status.StatusCode) → Translates e (from_minpatricia_status e)
unfolding from_minpatricia_status
translated Status.key_too_large = inl (refl, refl)
translated Status.position_tag = inr (inl (refl, refl))
translated Status.equal_keys = inr (inr ((λ e. cc), (λ e. cc), refl))
translated Status.unsorted_keys = inr (inr ((λ e. cc), (λ e. cc), refl))
translated Status.missing_key = inr (inr ((λ e. cc), (λ e. cc), refl))
translated Status.position_mismatch = inr (inr ((λ e. cc), (λ e. cc), refl))
translated Status.duplicate_key = inr (inr ((λ e. cc), (λ e. cc), refl))
translated Status.corrupt_layout = inr (inr ((λ e. cc), (λ e. cc), refl))
translated Status.nil_record_store = inr (inr ((λ e. cc), (λ e. cc), refl))
translated Status.nil_node_store = inr (inr ((λ e. cc), (λ e. cc), refl))

updated-cases :
    {A : Type 0} (update : Index × Status.Result A)
    → ((next : Index) × (r : A) × (update ≡ (next, Status.ok r)) × (updated update ≡ ok next))
      ⊎ Aborts update (updated update)
unfolding updated
updated-cases (index, Status.ok r) = inl (index, r, refl, refl)
updated-cases (index, Status.err e) =
    inr (inl (e, from_minpatricia_status e, refl, translated e, refl))
updated-cases (index, Status.stuck) = inr (inr (refl, refl))

-- What follows is skipped.
Aborts-bind :
    {A : Type 0} (update : Index × Status.Result A) (result : Result Index)
    (k : Index → Result Index)
    → Aborts update result
    → Aborts update (result >>= k)
Aborts-bind update result k (inl (e, code, failed, same, is)) =
    inl (e, code, failed, same, ap (λ (r : Result Index). r >>= k) is)
Aborts-bind update result k (inr (failed, is)) = inr (failed, ap (λ (r : Result Index). r >>= k) is)

bind_ok : (result : Result Index) → (result >>= λ index. ok index) ≡ result
bind_ok (ok index) = refl
bind_ok (err e) = refl
bind_ok stuck = refl

pub bind_assoc :
    {A : Type 0} (result : Result Index) (f : Index → Result Index) (g : Index → Result A)
    → ((result >>= f) >>= g) ≡ (result >>= λ index. f index >>= g)
bind_assoc (ok index) f g = refl
bind_assoc (err e) f g = refl
bind_assoc stuck f g = refl

module _ (rounds : ℕ) (store : SegmentedRecordStore) where
  Stops-bind :
      (index : Index) (entry : WalRecord × ℕ) (result : Result Index) (k : Index → Result Index)
      → Stops rounds store index entry result
      → Stops rounds store index entry (result >>= k)
  Stops-bind index (rec, pos) result k (inl (is, h)) =
      inl (is, Aborts-bind (put (key_at store) rounds index rec.key pos) result k h)
  Stops-bind index (rec, pos) result k (inr (is, h)) =
      inr (is, Aborts-bind (delete (key_at store) rounds index rec.key) result k h)

  -- The callback makes the call that its record stands for.
  on_record-cases :
      (index : Index) (rec : WalRecord) (pos : ℕ)
      → IsChange rec
      → ((next : Index) × Succeeds rounds store index (rec, pos) next
          × (on_record rounds store index rec pos ≡ ok next))
        ⊎ Stops rounds store index (rec, pos) (on_record rounds store index rec pos)
  unfolding on_record
  on_record-cases index rec pos (inl is) =
      let t : (rec.op == wal_op_put) ≡ true = ground arith in
      rw t (elim (updated-cases (put (key_at store) rounds index rec.key pos)) [
        | inl (next, r, run, same) ↦ inl (next, inl (is, (r, run)), same)
        | inr h ↦ inr (inl (is, h))
      ])
  on_record-cases index rec pos (inr is) =
      let t : (rec.op == wal_op_put) ≡ false = ground arith in
      let u : (rec.op == wal_op_delete) ≡ true = ground arith in
      rw (t, u)
        (elim (updated-cases (delete (key_at store) rounds index rec.key)) [
          | inl (next, r, run, same) ↦ inl (next, inr (is, (r, run)), same)
          | inr h ↦ inr (inr (is, h))
        ])

  Outcome-hand_over :
      (id : ℕ) (recs : List WalRecord) (o : ℕ) (rest : List (WalRecord × ℕ)) (index : Index)
      (k : Index → Result Index)
      → All IsChange recs
      → ((next : Index) → Outcome rounds store rest next (k next))
      → Outcome rounds store
          (entries_of id o recs ++ rest)
          index
          (hand_over (on_record rounds store) id o recs index >>= k)
  unfolding hand_over
  Outcome-hand_over id [] o rest index k valid h = h index
  Outcome-hand_over id (rec ∷ recs) o rest index k (is, valid) h =
      elim (on_record-cases index rec (id * 2 ^ 30 + o) is) [
        | inl (next, done, run) ↦
            inl (next, done, rw run (Outcome-hand_over id recs rec.end rest next k valid h))
        | inr stops ↦
            let pos = id * 2 ^ 30 + o in
            let called = on_record rounds store index rec pos in
            let others = hand_over (on_record rounds store) id rec.end recs in
            inr (
              Stops-bind index (rec, pos) (called >>= others) k
                (Stops-bind index (rec, pos) called others stops))
      ]

  Outcome-hand_log :
      (log : ℕ → List WalRecord) (ids : List ℕ) (rest : List (WalRecord × ℕ)) (index : Index)
      (k : Index → Result Index)
      → All (λ id. All IsChange (log id)) ids
      → ((next : Index) → Outcome rounds store rest next (k next))
      → Outcome rounds store
          (log_entries log ids ++ rest)
          index
          (hand_log (on_record rounds store) log ids index >>= k)
  unfolding hand_log
  Outcome-hand_log log [] rest index k valid h = h index
  Outcome-hand_log log (id ∷ ids) rest index k (is, valid) h =
      let later = λ (next : Index). hand_log (on_record rounds store) log ids next in
      rw
        (
          append_assoc (entries_of id wal_header_size (log id)) (log_entries log ids) rest,
          bind_assoc (hand_over (on_record rounds store) id wal_header_size (log id) index) later k,
        )
        (Outcome-hand_over id (log id) wal_header_size (log_entries log ids ++ rest) index
          (λ next. later next >>= k) is (λ next. Outcome-hand_log log ids rest next k valid h))

  -- The calls for a whole log.
  pub Outcome-log :
      (log : ℕ → List WalRecord) (ids : List ℕ) (index : Index)
      → All (λ id. All IsChange (log id)) ids
      → Outcome rounds store
          (log_entries log ids)
          index
          (hand_log (on_record rounds store) log ids index)
  Outcome-log log ids index valid =
      let result = hand_log (on_record rounds store) log ids index in
      subst (λ entries. Outcome rounds store entries index result)
        (append-nil (log_entries log ids))
        (subst (Outcome rounds store (log_entries log ids ++ []) index) (bind_ok result)
          (Outcome-hand_log log ids [] index (λ next. ok next) valid (λ next. refl)))

  -- The calls for some segments and for a part of the next one.
  pub Outcome-log_part :
      (log : ℕ → List WalRecord) (ids : List ℕ) (id : ℕ) (recs : List WalRecord) (index : Index)
      → All (λ id. All IsChange (log id)) ids
      → All IsChange recs
      → Outcome rounds store (log_entries log ids ++ entries_of id wal_header_size recs) index (
          hand_log (on_record rounds store) log ids index
          >>= hand_over (on_record rounds store) id wal_header_size recs)
  Outcome-log_part log ids id recs index valid is =
      let entries = entries_of id wal_header_size recs in
      Outcome-hand_log log ids entries index
        (hand_over (on_record rounds store) id wal_header_size recs) valid
        (λ next.
          let result = hand_over (on_record rounds store) id wal_header_size recs next in
          subst (λ all. Outcome rounds store all next result) (append-nil entries)
            (subst (Outcome rounds store (entries ++ []) next) (bind_ok result) (
              Outcome-hand_over id recs wal_header_size [] next (λ last. ok last) is
                (λ last. refl))))
