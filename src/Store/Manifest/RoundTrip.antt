-- ===== src/Store/Manifest/RoundTrip.antt =====
-- store.cc: a manifest that was written is read back.
use minweight_store_cpp.Base.{ℕ, ◌^◌, ◌<◌, ltb, ◌==◌, true, false, List, length, some}
use minweight_store_cpp.Base.{◌≡◌, refl, ◌∙◌, arith, ◌⊎◌, inl, inr}
use native.Mathlib.Decide.{dec_lt}
use minweight_store_cpp.Store.Status.{ok, err, corrupt_manifest}
use minweight_store_cpp.Store.Bytes.{view, copy, load32, load64, store32, store64, bytes32, bytes64}
use minweight_store_cpp.Store.Bytes.Laws.{load32-view, load64-view}
use minweight_store_cpp.Store.Crc.{bytes_crc, crc32_update-lt}
use minweight_store_cpp.Store.Segment.{same_bytes}
use minweight_store_cpp.Store.Manifest.{
  manifest_magic, decode_manifest, read_manifest, manifest_fields, write_manifest,
}

abbrev file_bytes : ℕ → List ℕ
file_bytes generation =
    store32 (manifest_fields generation) 28 (bytes_crc (manifest_fields generation))

bytes_crc-lt : (bytes : List ℕ) → bytes_crc bytes < 2 ^ 32
unfolding bytes_crc
bytes_crc-lt bytes = crc32_update-lt 0 bytes

module _ (g : ℕ) where
  view_all : view (file_bytes g) 0 32 ≡ file_bytes g
  unfolding view store32 store64 copy manifest_fields
  view_all = refl

  length_all : length (file_bytes g) ≡ 32
  unfolding store32 store64 copy manifest_fields
  length_all = refl

  magic_part : view (file_bytes g) 0 8 ≡ manifest_magic
  unfolding view store32 store64 copy manifest_fields
  magic_part = refl

  version_part : view (file_bytes g) 8 4 ≡ bytes32 1
  unfolding view store32 store64 copy manifest_fields
  version_part = refl

  generation_part : view (file_bytes g) 16 8 ≡ bytes64 g
  unfolding view store32 store64 copy manifest_fields
  generation_part = refl

  crc_part : view (file_bytes g) 28 4 ≡ bytes32 (bytes_crc (manifest_fields g))
  unfolding view store32 store64 copy manifest_fields
  crc_part = refl

  cleared : store32 (file_bytes g) 28 0 ≡ manifest_fields g
  unfolding store32 store64 copy manifest_fields
  cleared = refl

  decoded :
      0 < g
      → g < 2 ^ 64
      → decode_manifest (file_bytes g) ≡ ok (record { valid = true; wal_generation = g })
  unfolding decode_manifest same_bytes
  decoded h0 h64 =
      let v : load32 (file_bytes g) 8 ≡ 1 = load32-view (file_bytes g) 8 1 version_part in
      let n : load64 (file_bytes g) 16 ≡ g = load64-view (file_bytes g) 16 g h64 generation_part in
      let some_generation : (g == 0) ≡ false = ground arith in
      let c = bytes_crc (manifest_fields g) in
      let small : c < 2 ^ 32 = bytes_crc-lt (manifest_fields g) in
      let want : load32 (file_bytes g) 28 ≡ c =
        load32-view (file_bytes g) 28 c crc_part ∙ omega arith in
      let same : (c == c) ≡ true = ground arith in
      rw (magic_part, v, n, some_generation, cleared, want, same) refl

written : (g : ℕ) → 0 < g → write_manifest g ≡ ok (file_bytes g)
unfolding write_manifest
written g h = let t : (g == 0) ≡ false = ground arith in rw t refl

refused : (g : ℕ) → g ≡ 0 → write_manifest g ≡ err corrupt_manifest
unfolding write_manifest
refused g h = let t : (g == 0) ≡ true = ground arith in rw t refl

read_back :
    (g : ℕ)
    → 0 < g
    → g < 2 ^ 64
    → read_manifest (some (file_bytes g)) ≡ ok (record { valid = true; wal_generation = g })
unfolding read_manifest
read_back g low h =
    let t : ltb (length (file_bytes g)) 32 ≡ false = ground (arith, length_all g) in
    rw (t, view_all g) (decoded g low h)

-- What `WriteManifest` makes of a generation, and `ReadManifest` of its file.
abbrev pub ManifestAnswer : ℕ → Type 0
ManifestAnswer g =
    (0 < g)
      × ((bytes : List ℕ) × (write_manifest g ≡ ok bytes)
          × (length bytes ≡ 32)
          × (read_manifest (some bytes) ≡ ok (record { valid = true; wal_generation = g })))
    ⊎ (g ≡ 0) × (write_manifest g ≡ err corrupt_manifest)

-- A generation of 64 bits other than 0 is written as 32 bytes, from which `ReadManifest` reads
-- it back with all its checks passed; generation 0 is refused.
pub manifest_lem : (g : ℕ) → g < 2 ^ 64 → ManifestAnswer g
manifest_lem g h = elim (dec_lt 0 g) [
  | no zero ↦ inr (omega arith, refused g (omega arith))
  | yes low ↦ inl (low, (file_bytes g, written g low, length_all g, read_back g low h))
]
