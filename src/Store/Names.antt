-- ===== src/Store/Names.antt =====
-- store.cc: the names of the log's files and directories. A name is the list of its characters.
pub mod RoundTrip
pub mod Runs
use minweight_store_cpp.Base.{
  ℕ, zero, suc, ◌+◌, ◌-◌, ◌*◌, ◌/◌, ◌%◌, ◌^◌, ltb, ◌==◌, ◌||◌, not, if◌then◌else◌,
}
use minweight_store_cpp.Base.{List, [], ◌∷◌, ◌++◌, length, take, drop, Option, none, some}
use minweight_store_cpp.Store.Status.{Result, ok, err, invalid_argument}
use minweight_store_cpp.Store.Segment.{same_bytes}

-- `kWalSegmentSuffix`: ".wal"
abbrev pub wal_segment_suffix : List ℕ
wal_segment_suffix = 0x2e ∷ 0x77 ∷ 0x61 ∷ 0x6c ∷ []

-- The decimal digits of a number that has at most `width` of them, padded with '0'.
unfoldable pub padded_digits : ℕ → ℕ → List ℕ
padded_digits zero id = []
padded_digits (suc width) id = padded_digits width (id / 10) ++ (0x30 + id % 10) ∷ []

-- `FixedWidthID`; a uint64_t has at most 20 digits.
unfoldable pub fixed_width_id : ℕ → List ℕ
fixed_width_id id = padded_digits 20 id

-- `WalSegmentName`
unfoldable pub wal_segment_name : ℕ → List ℕ
wal_segment_name file_no = fixed_width_id file_no ++ wal_segment_suffix

-- `kSnapshotName` and a dot: "SNAPSHOT."
abbrev pub snapshot_prefix : List ℕ
snapshot_prefix = 0x53 ∷ 0x4e ∷ 0x41 ∷ 0x50 ∷ 0x53 ∷ 0x48 ∷ 0x4f ∷ 0x54 ∷ 0x2e ∷ []

-- `SnapshotFileName`
unfoldable pub snapshot_file_name : ℕ → List ℕ
snapshot_file_name generation = snapshot_prefix ++ fixed_width_id generation

-- The loop of `ParseWalSegmentName` and of `ParseSnapshotFileName`; `none` is a character that is no digit.
unfoldable pub parse_digits : ℕ → List ℕ → Option ℕ
parse_digits value [] = some value
parse_digits value (c ∷ name) =
    let rest = parse_digits ((value * 10 + (c - 0x30)) % 2 ^ 64) name in
    if ltb c 0x30 || ltb 0x39 c then none else rest

-- `ParseWalSegmentName`
unfoldable pub parse_wal_segment_name : List ℕ → Result ℕ
parse_wal_segment_name name =
    if not (length name == 24) || not (same_bytes (drop 20 name) wal_segment_suffix)
    then err invalid_argument
    else elim (parse_digits 0 (take 20 name)) [
      | none ↦ err invalid_argument
      | some value ↦ if value == 0 then err invalid_argument else ok value
    ]

-- `ParseSnapshotFileName`
unfoldable pub parse_snapshot_file_name : List ℕ → Result ℕ
parse_snapshot_file_name name =
    if not (length name == 29) || not (same_bytes (take 9 name) snapshot_prefix)
    then err invalid_argument
    else elim (parse_digits 0 (drop 9 name)) [
      | none ↦ err invalid_argument
      | some value ↦ if value == 0 then err invalid_argument else ok value
    ]
