-- ===== src/Store/Crc.antt =====
-- src/minweight_store/store.cc: the CRC32 of log records, manifest and snapshot.
use minweight_store_cpp.Base.{ℕ, zero, suc, ◌+◌, ◌-◌, ◌/◌, ◌%◌, ◌^◌, ◌<◌, bit_and, bit_xor, ◌==◌}
use minweight_store_cpp.Base.{if◌then◌else◌, List, [], ◌∷◌, get_or, take, drop, ◌≡◌, refl, arith}

-- One of the 8 rounds on a table entry.
crc_round : ℕ → ℕ
crc_round crc = if bit_and crc 1 == 0 then crc / 2 else bit_xor (crc / 2) 0xedb88320

crc_rounds : ℕ → ℕ → ℕ
crc_rounds zero crc = crc
crc_rounds (suc j) crc = crc_rounds j (crc_round crc)

crc_entries : ℕ → ℕ → List ℕ
unfolding crc_rounds crc_round
crc_entries zero i = []
crc_entries (suc n) i = crc_rounds 8 i ∷ crc_entries n (i + 1)

-- `MakeCRC32Table`
unfoldable pub make_crc32_table : List ℕ
unfolding crc_entries
make_crc32_table = crc_entries 256 0

-- `~crc` in uint32_t
abbrev pub complement32 : ℕ → ℕ
complement32 crc = 2 ^ 32 - 1 - crc % 2 ^ 32

crc_loop : List ℕ → ℕ → List ℕ → ℕ
crc_loop table crc [] = crc
crc_loop table crc (p ∷ bytes) =
    crc_loop table (bit_xor (get_or table (bit_and (bit_xor crc p) 0xff) 0) (crc / 2 ^ 8)) bytes

-- `CRC32Update` over a view of bytes.
unfoldable pub crc32_update : ℕ → List ℕ → ℕ
unfolding make_crc32_table crc_loop
crc32_update crc bytes = complement32 (crc_loop make_crc32_table (complement32 crc) bytes)

-- `WalRecordCRC`: the 9 bytes before the CRC field, and all behind the header of 13.
unfoldable pub wal_record_crc : List ℕ → ℕ
wal_record_crc rec = crc32_update (crc32_update 0 (take 9 rec)) (drop 13 rec)

-- `BytesCRC`
unfoldable pub bytes_crc : List ℕ → ℕ
bytes_crc value = crc32_update 0 value

-- A CRC is a number of 32 bits.
pub crc32_update-lt : (crc : ℕ) (bytes : List ℕ) → crc32_update crc bytes < 2 ^ 32
unfolding crc32_update
crc32_update-lt crc bytes = omega arith

pub wal_record_crc-lt : (rec : List ℕ) → wal_record_crc rec < 2 ^ 32
unfolding wal_record_crc
wal_record_crc-lt rec = crc32_update-lt (crc32_update 0 (take 9 rec)) (drop 13 rec)

-- The check value of CRC-32 for the text "123456789".
crc_check_value :
    bytes_crc (0x31 ∷ 0x32 ∷ 0x33 ∷ 0x34 ∷ 0x35 ∷ 0x36 ∷ 0x37 ∷ 0x38 ∷ 0x39 ∷ []) ≡ 0xcbf43926
unfolding bytes_crc crc32_update
crc_check_value = refl
