-- ===== src/Store/Snapshot.antt =====
-- store.cc, `WriteSnapshot` and `ReadSnapshot`: the file of all keys and values that a checkpoint
-- makes. A file that is read is the list of the bytes that are still to be read. The system calls are
-- taken to succeed.
pub mod Items
pub mod RoundTrip
pub mod Runs
use minweight_store_cpp.Base.{ℕ, zero, suc, ◌+◌, ◌-◌, ◌^◌, ltb, ◌==◌, Bool, true, false, not, ◌||◌}
use minweight_store_cpp.Base.{if◌then◌else◌, List, [], ◌∷◌, ◌++◌, length, replicate, take, drop}
use minweight_store_cpp.Base.{Option, none, some}
use minweight_store_cpp.Store.Status.{Result, ok, err, stuck, corrupt_snapshot, io_error, ◌>>=◌}
use minweight_store_cpp.Store.Bytes.{copy, load32, load64, store32, store64}
use minweight_store_cpp.Store.Crc.{crc32_update}
use minweight_store_cpp.Store.Position.{record_offset_limit}
use minweight_store_cpp.Store.Segment.{same_bytes, u32_max, max_key_size}

-- `Item`
pub record Item : Type 0 where
  pub key : List ℕ
  pub value : List ℕ

-- `kSnapshotMagic`: "MWSNAP1\0"
abbrev pub snapshot_magic : List ℕ
snapshot_magic = 0x4d ∷ 0x57 ∷ 0x53 ∷ 0x4e ∷ 0x41 ∷ 0x50 ∷ 0x31 ∷ 0 ∷ []

abbrev pub snapshot_version : ℕ
snapshot_version = 1

-- The header of a file of `count` items.
unfoldable pub snapshot_header : ℕ → ℕ → List ℕ
unfolding store32 store64 copy
snapshot_header count generation =
    let magic = copy (replicate 32 0) 0 snapshot_magic in
    let version = store32 magic 8 snapshot_version in
    let counted = store64 version 16 count in store64 counted 24 generation

-- The header of an item before its CRC is stored.
unfoldable pub item_sizes : Item → List ℕ
unfolding store32 copy
item_sizes item = store32 (store32 (replicate 12 0) 0 (length item.key)) 4 (length item.value)

-- The CRC of the first 8 bytes of an item's header, its key and its value.
unfoldable pub item_crc : List ℕ → Item → ℕ
item_crc header item =
    crc32_update (crc32_update (crc32_update 0 (take 8 header)) item.key) item.value

-- The bytes that one round of `WriteSnapshot` writes.
unfoldable pub item_bytes : Item → List ℕ
unfolding item_sizes item_crc store32 copy
item_bytes item =
    let header = item_sizes item in
    store32 header 8 (item_crc header item) ++ (item.key ++ item.value)

-- The loop of `WriteSnapshot`, on the bytes written so far.
unfoldable pub write_items : List ℕ → List Item → Result (List ℕ)
unfolding item_bytes
write_items file [] = ok file
write_items file (item ∷ entries) =
    if ltb u32_max (length item.key) || ltb u32_max (length item.value)
    then err corrupt_snapshot
    else write_items (file ++ item_bytes item) entries

-- `WriteSnapshot`, with the bytes of the file that it renames into place.
unfoldable pub write_snapshot : ℕ → List Item → Result (List ℕ)
unfolding snapshot_header write_items
write_snapshot generation entries =
    if generation == 0
    then err corrupt_snapshot
    else write_items (snapshot_header (length entries) generation) entries

-- `ReadAll`: the bytes read and the rest of the file, which may be too short. Nothing is read where
-- `size` is 0.
unfoldable pub read_all : ℕ → List ℕ → Result (List ℕ × List ℕ)
read_all size file =
    if ltb (length file) size then err io_error else ok (take size file, drop size file)

-- The checks of an item once its key and its value are read.
unfoldable pub check_item : List ℕ → Item → Result Item
unfolding item_crc load32 store32 copy
check_item header item =
    if item_crc (store32 header 8 0) item == load32 header 8 then ok item else err corrupt_snapshot

-- One round of the loop of `ReadSnapshot`.
unfoldable pub read_item : List ℕ → Result (Item × List ℕ)
unfolding load32
read_item file = do
  head ← read_all 12 file
  let key_size = load32 head.0 0
  elim (ltb max_key_size key_size) [
    | true ↦ err corrupt_snapshot
    | false ↦ do
      key ← read_all key_size head.1
      value ← read_all (load32 head.0 4) key.1
      item ← check_item head.0 (record { key = key.0; value = value.0 })
      ok (item, value.1)
  ]

-- The loop of `ReadSnapshot`, with `count` items to read.
unfoldable pub read_items : ℕ → List ℕ → Result (List Item)
read_items zero file = ok []
read_items (suc count) file = do
  first ← read_item file
  entries ← read_items count first.1
  ok (first.0 ∷ entries)

-- `ReadSnapshot` once its header is read.
unfoldable pub read_body : ℕ → List ℕ → List ℕ → Result (List Item)
unfolding same_bytes load32 load64
read_body generation header file =
    if not (same_bytes (take 8 header) snapshot_magic)
    then err corrupt_snapshot
    else if not (load32 header 8 == snapshot_version)
    then err corrupt_snapshot
    else if not (load64 header 24 == generation)
    then err corrupt_snapshot
    else if ltb (record_offset_limit - 1) (load64 header 16)
    then err corrupt_snapshot
    else read_items (load64 header 16) file

-- `ReadSnapshot` of a file, if there is one.
unfoldable pub read_snapshot : ℕ → Option (List ℕ) → Result (List Item)
read_snapshot generation none = err corrupt_snapshot
read_snapshot generation (some bytes) =
    if generation == 0
    then err corrupt_snapshot
    else do head ← read_all 32 bytes; read_body generation head.0 head.1
