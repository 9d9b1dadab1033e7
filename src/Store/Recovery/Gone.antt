-- ===== src/Store/Recovery/Gone.antt =====
-- store.cc, the end of `ReplayAll`: the segments behind a cut one are dropped, and the others sealed.
use minweight_store_cpp.Base.{
  ℕ, ◌==◌, not, Bool-cases, true, false, inl, inr, List, [], ◌∷◌, All, none, some,
}
use minweight_store_cpp.Base.{◌≡◌, ◌≢◌, refl, ◌∙◌, arith}
use minweight_store_cpp.Store.Segment.{WalSegment}
use minweight_store_cpp.Store.Records.{SegmentedRecordStore, find, segment}
use minweight_store_cpp.Store.Recovery.{erase, drop_segment, seal_others}

find-erase_self : (segments : List (ℕ × WalSegment)) (n : ℕ) → find (erase segments n) n ≡ none
unfolding erase
find-erase_self [] n = refl
find-erase_self ((m, s) ∷ segments) n = elim (Bool-cases (m == n)) [
  | inl e ↦ rw e (find-erase_self segments n)
  | inr e ↦ rw (e, e) (find-erase_self segments n)
]

find-erase_ne :
    (segments : List (ℕ × WalSegment)) (n k : ℕ)
    → n ≢ k
    → find (erase segments n) k ≡ find segments k
unfolding erase
find-erase_ne [] n k h = refl
find-erase_ne ((m, s) ∷ segments) n k h = elim (Bool-cases (m == n)) [
  | inl e ↦ let f : (m == k) ≡ false = ground (arith, h) in rw (e, f) (find-erase_ne segments n k h)
  | inr e ↦ rw e (elim (Bool-cases (m == k)) [
    | inl f ↦ rw f refl
    | inr f ↦ rw f (find-erase_ne segments n k h)
  ])
]

pub find-seal_others :
    (segments : List (ℕ × WalSegment)) (active n : ℕ) (seg : WalSegment)
    → find segments n ≡ some seg
    → find (seal_others active segments) n ≡ some (record seg { sealed = not (n == active) })
unfolding seal_others
find-seal_others [] active n seg h = absurd (cc)
find-seal_others ((m, s) ∷ segments) active n seg h = elim (Bool-cases (m == n)) [
  | inl e ↦
      let at : m ≡ n = ground arith in
      let same : s ≡ seg = some_injective (rw e at h) in rw (e, at, same) refl
  | inr e ↦ rw e (find-seal_others segments active n seg (rw e at h))
]
  where
    some_injective : {a b : WalSegment} → some a ≡ some b → a ≡ b
    some_injective e = cc

pub find-seal_others-none :
    (segments : List (ℕ × WalSegment)) (active n : ℕ)
    → find segments n ≡ none
    → find (seal_others active segments) n ≡ none
unfolding seal_others
find-seal_others-none [] active n h = refl
find-seal_others-none ((m, s) ∷ segments) active n h = elim (Bool-cases (m == n)) [
  | inl e ↦ absurd (let found : some s ≡ none = rw e at h in cc)
  | inr e ↦ rw e (find-seal_others-none segments active n (rw e at h))
]

-- The store without the segments `ids`.
unfoldable pub dropped : SegmentedRecordStore → List ℕ → SegmentedRecordStore
dropped store [] = store
dropped store (id ∷ ids) = dropped (drop_segment store id) ids

-- A segment that is gone, with its file.
abbrev pub IsGone : SegmentedRecordStore → ℕ → Type 0
IsGone store n = (segment store n ≡ none) × (store.files n ≡ [])

drop_segment-IsGone : (store : SegmentedRecordStore) (id : ℕ) → IsGone (drop_segment store id) id
unfolding drop_segment
drop_segment-IsGone store id =
    let e : (id == id) ≡ true = ground arith in (find-erase_self store.segments id, rw e refl)

drop_segment_other :
    (store : SegmentedRecordStore) (id n : ℕ)
    → id ≢ n
    → segment (drop_segment store id) n ≡ segment store n
unfolding drop_segment
drop_segment_other store id n h = find-erase_ne store.segments id n h

drop_segment-keeps_IsGone :
    (store : SegmentedRecordStore) (id n : ℕ) → IsGone store n → IsGone (drop_segment store id) n
unfolding drop_segment
drop_segment-keeps_IsGone store id n (h, f) = elim (Bool-cases (id == n)) [
  | inl e ↦ let at : id ≡ n = ground arith in rw at (drop_segment-IsGone store n)
  | inr e ↦
      let ne : id ≢ n = λ at. ground (arith, at) in
      let other : (n == id) ≡ false = ground arith in
      (find-erase_ne store.segments id n ne ∙ h, rw other f)
]

dropped-keeps_IsGone :
    (store : SegmentedRecordStore) (ids : List ℕ) (n : ℕ)
    → IsGone store n
    → IsGone (dropped store ids) n
unfolding dropped
dropped-keeps_IsGone store [] n h = h
dropped-keeps_IsGone store (id ∷ ids) n h =
    dropped-keeps_IsGone (drop_segment store id) ids n (drop_segment-keeps_IsGone store id n h)

pub dropped-IsGone :
    (store : SegmentedRecordStore) (ids : List ℕ) → All (IsGone (dropped store ids)) ids
unfolding dropped
dropped-IsGone store [] = tt
dropped-IsGone store (id ∷ ids) = (
  dropped-keeps_IsGone (drop_segment store id) ids id (drop_segment-IsGone store id),
  dropped-IsGone (drop_segment store id) ids,
)

pub dropped_others :
    (store : SegmentedRecordStore) (ids : List ℕ) (n : ℕ)
    → All (λ k. k ≢ n) ids
    → segment (dropped store ids) n ≡ segment store n
unfolding dropped
dropped_others store [] n h = refl
dropped_others store (id ∷ ids) n (ne, h) =
    dropped_others (drop_segment store id) ids n h ∙ drop_segment_other store id n ne
