-- ===== src/Store/Names/Runs.antt =====
-- store.cc, the name of segment 7, and a name whose number does not fit 64 bits.
use minweight_store_cpp.Base.{◌≡◌, ◌==◌, if◌then◌else◌, arith, ◌∷◌, [], ◌++◌, refl}
use minweight_store_cpp.Store.Status.{ok, err, invalid_argument}
use minweight_store_cpp.Store.Names.{
  wal_segment_name, parse_wal_segment_name, parse_digits, wal_segment_suffix,
  parse_snapshot_file_name, snapshot_file_name,
}
use minweight_store_cpp.Store.Segment.{same_bytes}
use minweight_store_cpp.Store.Names.RoundTrip.{
  parse_wal_segment_name_lem, parse_snapshot_file_name_lem,
}

parse_wal_segment_name_lem_example :
    parse_wal_segment_name (wal_segment_name 7) ≡ (if 7 == 0 then err invalid_argument else ok 7)
parse_wal_segment_name_lem_example = parse_wal_segment_name_lem 7 (omega arith)

-- "18446744073709551617.wal", which is 2 ^ 64 + 1, is taken for segment 1.
wrapped_name :
    parse_wal_segment_name (
      (0x31 ∷ 0x38 ∷ 0x34 ∷ 0x34 ∷ 0x36 ∷ 0x37 ∷ 0x34 ∷ 0x34 ∷ 0x30 ∷ 0x37 ∷ 0x33 ∷ 0x37 ∷ 0x30
        ∷ 0x39 ∷ 0x35 ∷ 0x35 ∷ 0x31 ∷ 0x36 ∷ 0x31 ∷ 0x37 ∷ [])
      ++ wal_segment_suffix)
    ≡ ok 1
unfolding parse_wal_segment_name parse_digits same_bytes
wrapped_name = refl

parse_snapshot_file_name_lem_example :
    (parse_snapshot_file_name (snapshot_file_name 3)
      ≡ (if 3 == 0 then err invalid_argument else ok 3))
    × (parse_snapshot_file_name (wal_segment_name 3) ≡ err invalid_argument)
    × (parse_wal_segment_name (snapshot_file_name 3) ≡ err invalid_argument)
parse_snapshot_file_name_lem_example = parse_snapshot_file_name_lem 3 (omega arith)
