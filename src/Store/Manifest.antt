-- ===== src/Store/Manifest.antt =====
-- store.cc, `ReadManifest` and `WriteManifest`: the 32 bytes of the manifest file, which names the
-- current generation of the log. The system calls are taken to succeed.
pub mod RoundTrip
pub mod Runs
use minweight_store_cpp.Base.{ℕ, ◌+◌, ltb, ◌==◌, Bool, true, false, not, if◌then◌else◌}
use minweight_store_cpp.Base.{List, [], ◌∷◌, length, replicate, Option, none, some}
use minweight_store_cpp.Store.Status.{Result, ok, err, corrupt_manifest, io_error}
use minweight_store_cpp.Store.Bytes.{view, copy, load32, load64, store32, store64}
use minweight_store_cpp.Store.Crc.{bytes_crc}
use minweight_store_cpp.Store.Segment.{same_bytes}

-- `kManifestMagic`: "MWMAN01\0"
abbrev pub manifest_magic : List ℕ
manifest_magic = 0x4d ∷ 0x57 ∷ 0x4d ∷ 0x41 ∷ 0x4e ∷ 0x30 ∷ 0x31 ∷ 0 ∷ []

abbrev pub manifest_version : ℕ
manifest_version = 1

abbrev pub first_wal_generation : ℕ
first_wal_generation = 1

pub record ManifestState : Type 0 where
  pub valid : Bool
  pub wal_generation : ℕ

-- The checks of `ReadManifest` on the bytes it has read.
unfoldable pub decode_manifest : List ℕ → Result ManifestState
unfolding same_bytes store32
decode_manifest bytes =
    if not (same_bytes (view bytes 0 8) manifest_magic)
    then err corrupt_manifest
    else if not (load32 bytes 8 == manifest_version)
    then err corrupt_manifest
    else if load64 bytes 16 == 0
    then err corrupt_manifest
    else if not (bytes_crc (store32 bytes 28 0) == load32 bytes 28)
    then err corrupt_manifest
    else ok (record { valid = true; wal_generation = load64 bytes 16 })

-- `ReadManifest` of a file, if there is one; a file of fewer than 32 bytes is a short read.
unfoldable pub read_manifest : Option (List ℕ) → Result ManifestState
unfolding decode_manifest
read_manifest file = elim file [
  | none ↦ ok (record { valid = false; wal_generation = first_wal_generation })
  | some bytes ↦ if ltb (length bytes) 32 then err io_error else decode_manifest (view bytes 0 32)
]

-- The bytes of `WriteManifest` before the CRC is stored.
unfoldable pub manifest_fields : ℕ → List ℕ
unfolding store32 store64 copy
manifest_fields wal_generation =
    let magic = copy (replicate 32 0) 0 manifest_magic in
    let version = store32 magic 8 manifest_version in
    let generation = store64 version 16 wal_generation in store32 generation 28 0

-- `WriteManifest`, with the bytes of the file that it renames into place.
unfoldable pub write_manifest : ℕ → Result (List ℕ)
unfolding manifest_fields store32 copy
write_manifest wal_generation =
    if wal_generation == 0
    then err corrupt_manifest
    else let fields = manifest_fields wal_generation in ok (store32 fields 28 (bytes_crc fields))
