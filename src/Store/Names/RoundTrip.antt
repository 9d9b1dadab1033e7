-- ===== src/Store/Names/RoundTrip.antt =====
-- store.cc: the name of a log segment gives its number back.
use minweight_store_cpp.Base.{
  ℕ, zero, suc, ◌+◌, ◌-◌, ◌*◌, ◌/◌, ◌%◌, ◌^◌, ◌<◌, ltb, ◌==◌, ◌||◌, if◌then◌else◌,
}
use minweight_store_cpp.Base.{
  List, [], ◌∷◌, ◌++◌, length, take, drop, length-append, take-length, drop-length,
}
use minweight_store_cpp.Base.{none, some, true, false, ◌≡◌, refl, ap, ◌∙◌, arith, inl, inr}
use minweight_store_cpp.Base.{Bool-cases}
use mathlib.Core.Path.{subst}
use native.Mathlib.Nat.{pow-suc}
use minweight_store_cpp.Store.Status.{ok, err, invalid_argument}
use minweight_store_cpp.Store.Segment.{same_bytes}
use minweight_store_cpp.Store.Names.{
  wal_segment_suffix, padded_digits, fixed_width_id, wal_segment_name, parse_digits,
  parse_wal_segment_name, snapshot_prefix, snapshot_file_name, parse_snapshot_file_name,
}

length-padded_digits : (width id : ℕ) → length (padded_digits width id) ≡ width
unfolding padded_digits
length-padded_digits zero id = refl
length-padded_digits (suc width) id = omega (
  arith,
  length-append (padded_digits width (id / 10)) ((0x30 + id % 10) ∷ []),
  length-padded_digits width (id / 10),
)

-- A digit behind the others multiplies what they give by ten.
parse_digits-snoc :
    (xs : List ℕ) (v u d : ℕ)
    → parse_digits v xs ≡ some u
    → d < 10
    → parse_digits v (xs ++ (0x30 + d) ∷ []) ≡ some ((u * 10 + d) % 2 ^ 64)
unfolding parse_digits
parse_digits-snoc [] v u d e h =
    let t1 : ltb (0x30 + d) 0x30 ≡ false = ground arith in
    let t2 : ltb 0x39 (0x30 + d) ≡ false = ground arith in
    let m : 0x30 + d - 0x30 ≡ d = omega arith in
    rw (t1, t2, m) (ap (λ x. some ((x * 10 + d) % 2 ^ 64)) (some_injective e))
  where
    some_injective : {a b : ℕ} → some a ≡ some b → a ≡ b
    some_injective e = cc
parse_digits-snoc (c ∷ xs) v u d e h = elim (Bool-cases (ltb c 0x30 || ltb 0x39 c)) [
  | inl bad ↦ absurd (let found : none ≡ some u = rw bad at e in cc)
  | inr good ↦ rw good (parse_digits-snoc xs ((v * 10 + (c - 0x30)) % 2 ^ 64) u d (rw good at e) h)
]

parse_digits-padded_digits :
    (width id : ℕ)
    → id < 10 ^ width
    → id < 2 ^ 64
    → parse_digits 0 (padded_digits width id) ≡ some id
unfolding padded_digits parse_digits
parse_digits-padded_digits zero id h small = ap some (omega arith)
parse_digits-padded_digits (suc width) id h small =
    let rest =
      parse_digits-padded_digits width (id / 10) (omega (arith, pow-suc 10 width)) (omega arith) in
    parse_digits-snoc (padded_digits width (id / 10)) 0 (id / 10) (id % 10) rest (omega arith)
    ∙ ap some (omega arith)

-- `ParseWalSegmentName` of the name that `WalSegmentName` makes of a 64-bit number gives the number
-- back, except for 0, which is refused.
pub parse_wal_segment_name_lem :
    (file_no : ℕ)
    → file_no < 2 ^ 64
    → parse_wal_segment_name (wal_segment_name file_no)
      ≡ (if file_no == 0 then err invalid_argument else ok file_no)
unfolding parse_wal_segment_name wal_segment_name fixed_width_id same_bytes
parse_wal_segment_name_lem file_no h =
    let digits = padded_digits 20 file_no in
    let len : length digits ≡ 20 = length-padded_digits 20 file_no in
    let total : (length (digits ++ wal_segment_suffix) == 24) ≡ true =
      ground (arith, length-append digits wal_segment_suffix) in
    let behind : drop 20 (digits ++ wal_segment_suffix) ≡ wal_segment_suffix =
      subst (λ n. drop n (digits ++ wal_segment_suffix) ≡ wal_segment_suffix) len
        (drop-length digits wal_segment_suffix) in
    let front : take 20 (digits ++ wal_segment_suffix) ≡ digits =
      subst (λ n. take n (digits ++ wal_segment_suffix) ≡ digits) len
        (take-length digits wal_segment_suffix) in
    let value = parse_digits-padded_digits 20 file_no (omega arith) h in
    rw (total, behind, front, value) refl

-- `ParseSnapshotFileName` of the name that `SnapshotFileName` makes of a 64-bit generation gives the
-- generation back, except for 0, which is refused. The name of a log segment is never taken for a
-- snapshot's, nor a snapshot's for a segment's.
pub parse_snapshot_file_name_lem :
    (g : ℕ)
    → g < 2 ^ 64
    → (parse_snapshot_file_name (snapshot_file_name g)
        ≡ (if g == 0 then err invalid_argument else ok g))
      × (parse_snapshot_file_name (wal_segment_name g) ≡ err invalid_argument)
      × (parse_wal_segment_name (snapshot_file_name g) ≡ err invalid_argument)
unfolding parse_snapshot_file_name snapshot_file_name parse_wal_segment_name wal_segment_name
    fixed_width_id same_bytes
parse_snapshot_file_name_lem g h =
    let digits = padded_digits 20 g in
    let len : length digits ≡ 20 = length-padded_digits 20 g in
    let total : (length (snapshot_prefix ++ digits) == 29) ≡ true =
      ground (arith, length-append snapshot_prefix digits) in
    let value = parse_digits-padded_digits 20 g (omega arith) h in
    let short : (length (digits ++ wal_segment_suffix) == 29) ≡ false =
      ground (arith, length-append digits wal_segment_suffix) in
    let long : (length (snapshot_prefix ++ digits) == 24) ≡ false =
      ground (arith, length-append snapshot_prefix digits) in
    (rw (total, value) refl, rw short refl, rw long refl)
