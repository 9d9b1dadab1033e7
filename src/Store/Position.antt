-- ===== src/Store/Position.antt =====
-- src/minweight_store/store.cc: a record position packs a file number and an offset.
use minweight_store_cpp.Base.{ℕ, ◌+◌, ◌*◌, ◌/◌, ◌%◌, ◌^◌, ◌≤◌, ◌<◌, bit_or, leb, ◌==◌, ◌||◌, arith}
use minweight_store_cpp.Base.{if◌then◌else◌, ◌≡◌, ◌⊎◌, inl, inr}
use minweight_store_cpp.Base.Bits.{bit_or_high}
use native.Mathlib.Decide.{dec_lt}
use minweight_store_cpp.Store.Status.{Result, ok, err, corrupt_wal}

-- `kRecordOffsetLimit` and `kRecordFileNoLimit`
abbrev pub record_offset_limit : ℕ
record_offset_limit = 2 ^ 30

abbrev pub record_file_no_limit : ℕ
record_file_no_limit = 2 ^ 33

unfoldable pub make_record_position : ℕ → ℕ → Result ℕ
make_record_position file_no offset =
    if file_no == 0 || leb record_file_no_limit file_no || leb record_offset_limit offset
    then err corrupt_wal
    else let pos = bit_or (file_no * 2 ^ 30 % 2 ^ 64) offset in
      if pos / 2 ^ 63 % 2 == 1 then err corrupt_wal else ok pos

unfoldable pub record_position_file_no : ℕ → ℕ
record_position_file_no pos = pos / 2 ^ 30

unfoldable pub record_position_offset : ℕ → ℕ
record_position_offset pos = pos % 2 ^ 30

pack :
    (file_no offset : ℕ)
    → file_no < 2 ^ 33
    → offset < 2 ^ 30
    → bit_or (file_no * 2 ^ 30 % 2 ^ 64) offset ≡ file_no * 2 ^ 30 + offset
pack file_no offset hf ho =
    let e : file_no * 2 ^ 30 % 2 ^ 64 ≡ file_no * 2 ^ 30 = omega arith in
    rw e (bit_or_high 30 file_no offset ho)

pub make_record_position_in_range :
    (file_no offset : ℕ)
    → 0 < file_no
    → file_no < record_file_no_limit
    → offset < record_offset_limit
    → make_record_position file_no offset ≡ ok (file_no * 2 ^ 30 + offset)
unfolding make_record_position
make_record_position_in_range file_no offset h0 hf ho =
    rw (pack file_no offset hf ho) (ground arith)

-- What `MakeRecordPosition` answers, on every pair of numbers.
abbrev pub PositionAnswer : ℕ → ℕ → Type 0
PositionAnswer file_no offset =
    (0 < file_no)
      × (file_no < record_file_no_limit)
      × (offset < record_offset_limit)
      × ((pos : ℕ) × (make_record_position file_no offset ≡ ok pos)
          × (pos < 2 ^ 63)
          × (record_offset_limit ≤ pos)
          × (record_position_file_no pos ≡ file_no)
          × (record_position_offset pos ≡ offset))
    ⊎ ((file_no ≡ 0) ⊎ (record_file_no_limit ≤ file_no) ⊎ (record_offset_limit ≤ offset))
      × (make_record_position file_no offset ≡ err corrupt_wal)

-- `MakeRecordPosition` succeeds exactly on a file number from 1 below 2 ^ 33 and an offset below
-- 2 ^ 30; the position is then below the child tag, is no snapshot position, and gives both back.
-- Anything else is refused as a corrupt log.
pub make_record_position_lem : (file_no offset : ℕ) → PositionAnswer file_no offset
unfolding make_record_position record_position_file_no record_position_offset
make_record_position_lem file_no offset = elim (dec_lt 0 file_no) [
  | yes h0 ↦ elim (dec_lt file_no record_file_no_limit) [
    | yes hf ↦ elim (dec_lt offset record_offset_limit) [
      | yes ho ↦ inl (
        h0,
        hf,
        ho,
        (
          file_no * 2 ^ 30 + offset,
          make_record_position_in_range file_no offset h0 hf ho,
          omega arith,
          omega arith,
          omega arith,
          omega arith,
        ),
      )
      | no ho ↦ inr (inr (inr (omega arith)), ground arith)
    ]
    | no hf ↦ inr (inr (inl (omega arith)), ground arith)
  ]
  | no h0 ↦ inr (inl (omega arith), ground arith)
]
