-- ===== src/Store/Records/Find.antt =====
-- store.cc, `SegmentedRecordStore`: the map from file numbers to segments.
use minweight_store_cpp.Base.{
  ℕ, ◌==◌, if◌then◌else◌, true, false, List, [], ◌∷◌, Option, none, some,
}
use minweight_store_cpp.Base.{◌≡◌, ◌≢◌, refl, ap, ◌∙◌, Bool-cases, inl, inr, arith}
use minweight_store_cpp.Store.Segment.{WalSegment}
use minweight_store_cpp.Store.Records.{find, update, emplace}

pub find-update_self :
    (segments : List (ℕ × WalSegment)) (n : ℕ) (old seg : WalSegment)
    → find segments n ≡ some old
    → find (update segments n seg) n ≡ some seg
find-update_self [] n old seg h = absurd (cc)
find-update_self ((m, s) ∷ rest) n old seg h = elim (Bool-cases (m == n)) [
  | inl e ↦ rw e refl
  | inr e ↦ rw e (find-update_self rest n old seg (rw e at h))
]

pub find-update_ne :
    (segments : List (ℕ × WalSegment)) (n k : ℕ) (seg : WalSegment)
    → n ≢ k
    → find (update segments n seg) k ≡ find segments k
find-update_ne [] n k seg h = refl
find-update_ne ((m, s) ∷ rest) n k seg h = elim (Bool-cases (m == k)) [
  | inl e ↦ let f : (m == n) ≡ false = ground (arith, h) in rw (e, f) refl
  | inr e ↦ rw e (find-update_ne rest n k seg h)
]

emplace_new :
    (segments : List (ℕ × WalSegment)) (n : ℕ) (seg : WalSegment)
    → find segments n ≡ none
    → emplace segments n seg ≡ (n, seg) ∷ segments
emplace_new segments n seg h =
    ap
      (λ (found : Option WalSegment). elim found [
        | some old ↦ segments
        | none ↦ (n, seg) ∷ segments
      ])
      h

pub find-emplace_self :
    (segments : List (ℕ × WalSegment)) (n : ℕ) (seg : WalSegment)
    → find segments n ≡ none
    → find (emplace segments n seg) n ≡ some seg
find-emplace_self segments n seg h =
    let t : (n == n) ≡ true = ground arith in
    ap (λ l. find l n) (emplace_new segments n seg h)
    ∙ ap (λ b. if b then some seg else find segments n) t

pub find-emplace_ne :
    (segments : List (ℕ × WalSegment)) (n k : ℕ) (seg : WalSegment)
    → find segments n ≡ none
    → n ≢ k
    → find (emplace segments n seg) k ≡ find segments k
find-emplace_ne segments n k seg h ne =
    let t : (n == k) ≡ false = ground (arith, ne) in
    ap (λ l. find l k) (emplace_new segments n seg h)
    ∙ ap (λ b. if b then some seg else find segments k) t
