-- ===== src/Store/Segment/History.antt =====
-- store.cc, `WalSegment`: a series of appends, and the replay of the segment after them.
use minweight_store_cpp.Base.{ℕ, ◌+◌, ◌*◌, ◌^◌, ◌≤◌, List, [], ◌∷◌, ◌++◌, map, All, arith}
use minweight_store_cpp.Base.{true, false, ◌≡◌, refl, sym, ap, ◌∙◌}
use mathlib.Core.Path.{subst}
use mathlib.Core.List.{append-nil, append_assoc}
use minweight_store_cpp.Store.Status.{Result, ok, err, stuck, ◌>>=◌}
use minweight_store_cpp.Store.Segment.{
  WalSegment, WalRecord, WalReplayPolicy, replay, append, wal_header_size,
}
use minweight_store_cpp.Store.Segment.Append.{
  IsSegment, record_size, appended, append_fits, appended-IsSegment, appended-IsRecord,
  appended-used, appended-sealed, appended-size,
}
use minweight_store_cpp.Store.Segment.Records.{record_at_offset-IsRecord}
use minweight_store_cpp.Store.Segment.Contract.{IsEntry, appended-Keeps}
use minweight_store_cpp.Store.Segment.Log.{Chain, Chain-append, Keeps-Chain, hand_over}
use minweight_store_cpp.Store.Segment.Recovery.{replay-Chain}

-- What one call of `Append` is given.
abbrev pub Entry : Type 0
Entry = ℕ × List ℕ × List ℕ

-- The calls one after the other, up to the first error.
unfoldable pub append_all : WalSegment → List Entry → WalSegment × Result (List ℕ)
append_all seg [] = (seg, ok [])
append_all seg ((op, key, value) ∷ entries) =
    let (seg', result) = append seg op key value in
    elim result [
      | ok pos ↦
          let (seg'', rest) = append_all seg' entries in
          (seg'', rest >>= λ positions. ok (pos ∷ positions))
      | err e ↦ (seg', err e)
      | stuck ↦ (seg', stuck)
    ]

abbrev pub total_size : List Entry → ℕ
total_size [] = 0
total_size ((op, key, value) ∷ entries) = record_size key value + total_size entries

abbrev pub Entries : List Entry → Type 0
Entries = All (λ (op, key, value). IsEntry op key value)

abbrev pub contents : WalRecord → Entry
contents rec = (rec.op, rec.key, rec.value)

-- One append makes the chain of records one longer.
append-Chain :
    (seg : WalSegment) (op : ℕ) (key value : List ℕ) (recs : List WalRecord)
    → IsSegment seg
    → IsEntry op key value
    → seg.used + record_size key value ≤ seg.size
    → Chain seg wal_header_size recs seg.used
    → Chain
        (appended seg op key value)
        wal_header_size
        (recs
          ++ (record { op = op; key = key; value = value; end = (appended seg op key value).used }
              ∷ []))
        (appended seg op key value).used
append-Chain seg op key value recs w entry fits chain =
    let seg' = appended seg op key value in
    let lim = w.size_limit in
    let used = appended-used seg op key value w in
    Chain-append seg' recs _ wal_header_size seg.used seg'.used
      (Keeps-Chain seg seg' recs wal_header_size seg.used (appended-Keeps seg op key value w fits)
        chain)
      (
        record_at_offset-IsRecord seg' seg.used true _ w.used_start (omega arith) (omega arith)
            (appended-IsRecord seg op key value w fits entry.op_valid entry.key_fits),
        refl,
      )

append_all-cons :
    (seg seg1 seg' : WalSegment) (op : ℕ) (key value : List ℕ) (entries : List Entry) (pos : ℕ)
    (positions : List ℕ)
    → append seg op key value ≡ (seg1, ok pos)
    → append_all seg1 entries ≡ (seg', ok positions)
    → append_all seg ((op, key, value) ∷ entries) ≡ (seg', ok (pos ∷ positions))
unfolding append_all
append_all-cons seg seg1 seg' op key value entries pos positions e f =
    let e0 : (append seg op key value).0 ≡ seg1 = ap (λ p. p.0) e in
    let e1 : (append seg op key value).1 ≡ ok pos = ap (λ p. p.1) e in
    rw (e1, e0, f, append_all) refl

append_all-Chain :
    (seg : WalSegment) (entries : List Entry) (old : List WalRecord)
    → IsSegment seg
    → seg.sealed ≡ false
    → Chain seg wal_header_size old seg.used
    → Entries entries
    → seg.used + total_size entries ≤ seg.size
    → (seg' : WalSegment) × (positions : List ℕ) × (new : List WalRecord) × (append_all seg entries
        ≡ (seg', ok positions))
      × IsSegment seg'
      × (map contents new ≡ entries)
      × Chain seg' wal_header_size (old ++ new) seg'.used
unfolding append_all
append_all-Chain seg [] old w unsealed chain es fits = (
  seg,
  [],
  [],
  refl,
  w,
  refl,
  subst (λ l. Chain seg wal_header_size l seg.used) (sym (append-nil old)) chain,
)
append_all-Chain seg ((op, key, value) ∷ entries) old w unsealed chain (e, es) fits =
    let room : seg.used + record_size key value ≤ seg.size = omega arith in
    let valid = e.op_valid in
    let seg1 = appended seg op key value in
    let used = appended-used seg op key value w in
    let size = appended-size seg op key value in
    let rec : WalRecord = record { op = op; key = key; value = value; end = seg1.used } in
    let (seg', positions, new, run, w', same, chain') =
      append_all-Chain seg1 entries (old ++ (rec ∷ []))
        (appended-IsSegment seg op key value w room (omega arith) e.key_bytes e.value_bytes)
        (appended-sealed seg op key value ∙ unsealed)
        (append-Chain seg op key value old w e room chain) es (omega arith) in
    (
      seg',
      (seg.file_no * 2 ^ 30 + seg.used) ∷ positions,
      rec ∷ new,
      append_all-cons seg seg1 seg' op key value entries _ positions
          (append_fits seg op key value w unsealed room) run,
      w',
      ap (λ l. (op, key, value) ∷ l) same,
      subst (λ l. Chain seg' wal_header_size l seg'.used) (append_assoc old (rec ∷ []) new) chain',
    )

-- The appends are accepted, and a replay hands over `old` and then the new records.
abbrev pub Replays :
    {S : Type 0}
    → WalReplayPolicy
    → (S → WalRecord → ℕ → Result S)
    → S
    → WalSegment
    → List Entry
    → List WalRecord
    → Type 0
Replays policy fn s seg entries old =
    (seg' : WalSegment) × (positions : List ℕ) × (new : List WalRecord) × (append_all seg entries
      ≡ (seg', ok positions))
    × (map contents new ≡ entries)
    × (replay policy fn seg' s ≡ (
        hand_over fn seg'.file_no wal_header_size (old ++ new) s >>= λ s'.
        ok (record { segment = seg'; truncated = false; state = s' })))

-- Let a well-formed segment not be sealed, and its records `old` be readable up to the used offset.
-- Appends of puts, and of deletes without a value, with keys of at most `kMaxKeySize` bytes, for which
-- there is room, are all accepted, and a replay of the segment then, under either policy, hands over
-- the old records and behind them exactly the appended ones, in the order of the appends, and truncates
-- nothing.
pub append_all-replay :
    {S : Type 0} (policy : WalReplayPolicy) (fn : S → WalRecord → ℕ → Result S) (s : S)
    (seg : WalSegment) (entries : List Entry) (old : List WalRecord)
    → IsSegment seg
    → seg.sealed ≡ false
    → Chain seg wal_header_size old seg.used
    → Entries entries
    → seg.used + total_size entries ≤ seg.size
    → Replays policy fn s seg entries old
append_all-replay policy fn s seg entries old w unsealed chain es fits =
    let (seg', positions, new, run, w', same, chain') =
      append_all-Chain seg entries old w unsealed chain es fits in
    (seg', positions, new, run, same, replay-Chain policy fn seg' (old ++ new) s w' chain')
