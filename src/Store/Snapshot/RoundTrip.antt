-- ===== src/Store/Snapshot/RoundTrip.antt =====
-- store.cc: a snapshot that was written is read back, and one that is cut short is refused.
use minweight_store_cpp.Base.{
  ℕ, ◌-◌, ◌^◌, ◌<◌, ltb, ◌==◌, true, false, List, [], ◌∷◌, ◌++◌, length, take, some, append_assoc,
  append-nil, length-append, length-take, All,
}
use minweight_store_cpp.Base.{◌≡◌, ◌≢◌, refl, sym, ap, ◌∙◌, arith}
use native.Mathlib.Decide.{dec_lt}
use minweight_store_cpp.Base.Prefixes.{take-append_le}
use minweight_store_cpp.Store.Status.{ok, err, corrupt_snapshot, io_error, ◌>>=◌}
use minweight_store_cpp.Store.Bytes.{view, copy, load32, load64, store32, store64, bytes32, bytes64}
use minweight_store_cpp.Store.Bytes.Laws.{load32-view, load64-view}
use minweight_store_cpp.Store.Position.{record_offset_limit}
use minweight_store_cpp.Store.Segment.{u32_max, same_bytes}
use minweight_store_cpp.Store.Snapshot.{
  Item, item_bytes, snapshot_header, snapshot_magic, write_items, write_snapshot, read_items,
  read_body, read_snapshot,
}
use minweight_store_cpp.Store.Snapshot.Items.{
  Fits, take-append_ge, read_all-append, read_all_short, read_item_lem, read_item_cut,
}

-- What the loop of `WriteSnapshot` writes.
abbrev all_bytes : List Item → List ℕ
all_bytes [] = []
all_bytes (item ∷ entries) = item_bytes item ++ all_bytes entries

write_items_lem :
    (file : List ℕ) (entries : List Item)
    → All Fits entries
    → write_items file entries ≡ ok (file ++ all_bytes entries)
unfolding write_items
write_items_lem file [] h = ap ok (sym (append-nil file))
write_items_lem file (item ∷ entries) (fits, h) =
    let small_key : ltb u32_max (length item.key) ≡ false = ground (arith, fits.0) in
    let small_value : ltb u32_max (length item.value) ≡ false = ground (arith, fits.1) in
    rw (small_key, small_value)
      (write_items_lem (file ++ item_bytes item) entries h
        ∙ ap ok (append_assoc file (item_bytes item) (all_bytes entries)))

read_items_lem :
    (entries : List Item) (rest : List ℕ)
    → All Fits entries
    → read_items (length entries) (all_bytes entries ++ rest) ≡ ok entries
unfolding read_items
read_items_lem [] rest h = refl
read_items_lem (item ∷ entries) rest (fits, h) =
    let first = read_item_lem item (all_bytes entries ++ rest) fits in
    rw
      (
        append_assoc (item_bytes item) (all_bytes entries) rest,
        first,
        ◌>>=◌,
        read_items_lem entries rest h,
        ◌>>=◌,
      )
      refl

-- Where the file ends inside the items.
read_items_cut :
    (entries : List Item) (n : ℕ)
    → All Fits entries
    → n < length (all_bytes entries)
    → read_items (length entries) (take n (all_bytes entries)) ≡ err io_error
unfolding read_items
read_items_cut [] n h lt = absurd (omega arith)
read_items_cut (item ∷ entries) n (fits, h) lt =
    let long = length-append (item_bytes item) (all_bytes entries) in
    elim (dec_lt n (length (item_bytes item))) [
      | yes low ↦
          let same = take-append_le n (item_bytes item) (all_bytes entries) (omega arith) in
          rw (same, read_item_cut item n fits low, ◌>>=◌) refl
      | no past ↦
          let cut = take-append_ge n (item_bytes item) (all_bytes entries) (omega arith) in
          let first =
            read_item_lem item (take (n - length (item_bytes item)) (all_bytes entries)) fits in
          let others = read_items_cut entries (n - length (item_bytes item)) h (omega arith) in
          rw (cut, first, ◌>>=◌, others, ◌>>=◌) refl
    ]

module _ (count g : ℕ) where
  magic_part : take 8 (snapshot_header count g) ≡ snapshot_magic
  unfolding store32 store64 copy snapshot_header
  magic_part = refl

  version_part : view (snapshot_header count g) 8 4 ≡ bytes32 1
  unfolding view store32 store64 copy snapshot_header
  version_part = refl

  count_part : view (snapshot_header count g) 16 8 ≡ bytes64 count
  unfolding view store32 store64 copy snapshot_header
  count_part = refl

  generation_part : view (snapshot_header count g) 24 8 ≡ bytes64 g
  unfolding view store32 store64 copy snapshot_header
  generation_part = refl

  length-snapshot_header : length (snapshot_header count g) ≡ 32
  unfolding store32 store64 copy snapshot_header
  length-snapshot_header = refl

  -- The checks of `ReadSnapshot` on the header that was written.
  read_body_lem :
      (file : List ℕ)
      → g < 2 ^ 64
      → count < 2 ^ 30
      → read_body g (snapshot_header count g) file ≡ read_items count file
  unfolding read_body same_bytes
  read_body_lem file h64 h30 =
      let header = snapshot_header count g in
      let v : load32 header 8 ≡ 1 = load32-view header 8 1 version_part in
      let gen : load64 header 24 ≡ g = load64-view header 24 g h64 generation_part in
      let c : load64 header 16 ≡ count = load64-view header 16 count (omega arith) count_part in
      let same : (g == g) ≡ true = ground arith in
      let few : ltb (record_offset_limit - 1) count ≡ false = ground arith in
      rw (magic_part, v, gen, same, c, few) refl

  -- The header of another generation.
  read_body_other :
      (file : List ℕ) (other : ℕ)
      → g < 2 ^ 64
      → other ≢ g
      → read_body other (snapshot_header count g) file ≡ err corrupt_snapshot
  unfolding read_body same_bytes
  read_body_other file other h64 ne =
      let header = snapshot_header count g in
      let v : load32 header 8 ≡ 1 = load32-view header 8 1 version_part in
      let gen : load64 header 24 ≡ g = load64-view header 24 g h64 generation_part in
      let differs : (g == other) ≡ false = ground (arith, ne) in
      rw (magic_part, v, gen, differs) refl

-- `ReadSnapshot` of a file that starts with the header that was written.
read_header :
    (count g other : ℕ) (file : List ℕ)
    → 0 < other
    → read_snapshot other (some (snapshot_header count g ++ file))
      ≡ read_body other (snapshot_header count g) file
unfolding read_snapshot
read_header count g other file h =
    let some_generation : (other == 0) ≡ false = ground arith in
    let head = read_all-append 32 (snapshot_header count g) file (length-snapshot_header count g) in
    rw (some_generation, head, ◌>>=◌) refl

abbrev file_bytes : ℕ → List Item → List ℕ
file_bytes g entries = snapshot_header (length entries) g ++ all_bytes entries

written :
    (g : ℕ) (entries : List Item)
    → 0 < g
    → All Fits entries
    → write_snapshot g entries ≡ ok (file_bytes g entries)
unfolding write_snapshot
written g entries h fits =
    let some_generation : (g == 0) ≡ false = ground arith in
    rw some_generation (write_items_lem (snapshot_header (length entries) g) entries fits)

module _ (g : ℕ) (entries : List Item) (h0 : 0 < g) (h64 : g < 2 ^ 64)
    (few : length entries < 2 ^ 30) (fits : All Fits entries) where
  read_back : (rest : List ℕ) → read_snapshot g (some (file_bytes g entries ++ rest)) ≡ ok entries
  read_back rest =
      let header = snapshot_header (length entries) g in
      rw (append_assoc header (all_bytes entries) rest) (
        read_header (length entries) g g (all_bytes entries ++ rest) h0
        ∙ read_body_lem (length entries) g (all_bytes entries ++ rest) h64 few
        ∙ read_items_lem entries rest fits)

  read_cut :
      (n : ℕ)
      → n < length (file_bytes g entries)
      → read_snapshot g (some (take n (file_bytes g entries))) ≡ err io_error
  unfolding read_snapshot
  read_cut n lt =
      let header = snapshot_header (length entries) g in
      let sized = length-snapshot_header (length entries) g in
      let long = length-append header (all_bytes entries) in
      elim (dec_lt n 32) [
        | yes low ↦
            let some_generation : (g == 0) ≡ false = ground arith in
            let short =
              read_all_short 32 (take n (file_bytes g entries))
                (omega (arith, length-take n (file_bytes g entries))) in
            rw (some_generation, short, ◌>>=◌) refl
        | no past ↦
            let m : n - length header ≡ n - 32 = omega arith in
            let left = take (n - 32) (all_bytes entries) in
            let cut : take n (file_bytes g entries) ≡ header ++ left =
              take-append_ge n header (all_bytes entries) (omega arith)
              ∙ ap (λ (k : ℕ). header ++ take k (all_bytes entries)) m in
            ap (λ (file : List ℕ). read_snapshot g (some file)) cut
            ∙ read_header (length entries) g g left h0
            ∙ read_body_lem (length entries) g left h64 few
            ∙ read_items_cut entries (n - 32) fits (omega arith)
      ]

  read_other :
      (other : ℕ)
      → 0 < other
      → other ≢ g
      → read_snapshot other (some (file_bytes g entries)) ≡ err corrupt_snapshot
  read_other other low ne =
      read_header (length entries) g other (all_bytes entries) low
      ∙ read_body_other (length entries) g (all_bytes entries) other h64 ne

-- What `WriteSnapshot` makes of a generation and its items, and `ReadSnapshot` of the file, of the
-- file with bytes behind it, of a part of it and of the file under the number of another generation.
abbrev pub SnapshotAnswer : ℕ → List Item → Type 0
SnapshotAnswer g entries =
    (bytes : List ℕ) × (write_snapshot g entries ≡ ok bytes)
    × ((rest : List ℕ) → read_snapshot g (some (bytes ++ rest)) ≡ ok entries)
    × ((n : ℕ) → n < length bytes → read_snapshot g (some (take n bytes)) ≡ err io_error)
    × ((other : ℕ)
        → 0 < other
        → other ≢ g
        → read_snapshot other (some bytes) ≡ err corrupt_snapshot)

-- `WriteSnapshot` of a 64-bit generation other than 0 and of fewer than 2^30 items with keys of at
-- most `kMaxKeySize` bytes and values below 2^32 bytes succeeds. `ReadSnapshot` gives back exactly these
-- items from the file, whatever stands behind them; it refuses the file cut short at any byte as a
-- short read, and refuses it as corrupt for every other generation.
pub snapshot_lem :
    (g : ℕ) (entries : List Item)
    → 0 < g
    → g < 2 ^ 64
    → length entries < 2 ^ 30
    → All Fits entries
    → SnapshotAnswer g entries
snapshot_lem g entries h0 h64 few fits = (
  file_bytes g entries,
  written g entries h0 fits,
  read_back g entries h0 h64 few fits,
  read_cut g entries h0 h64 few fits,
  read_other g entries h0 h64 few fits,
)
