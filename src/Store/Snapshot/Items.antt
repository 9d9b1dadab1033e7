-- ===== src/Store/Snapshot/Items.antt =====
-- store.cc: an item of a snapshot is read back, and one that is cut short is refused.
use minweight_store_cpp.Base.{
  ℕ, ◌+◌, ◌-◌, ◌^◌, ◌≤◌, ◌<◌, min, ltb, ◌==◌, true, false, List, [], ◌∷◌, ◌++◌, length, take, drop,
  append_assoc, append-nil, length-append, length-take,
}
use minweight_store_cpp.Base.{◌≡◌, refl, ap, ◌∙◌, arith}
use minweight_store_cpp.Base.Prefixes.{take-append, take-all}
use native.Mathlib.Decide.{dec_lt}
use minweight_store_cpp.Store.Status.{ok, err, io_error, ◌>>=◌}
use minweight_store_cpp.Store.Bytes.{view, copy, load32, store32, bytes32}
use minweight_store_cpp.Store.Bytes.Laws.{load32-view}
use minweight_store_cpp.Store.Crc.{crc32_update, crc32_update-lt}
use minweight_store_cpp.Store.Segment.{max_key_size, u32_max}
use minweight_store_cpp.Store.Snapshot.{
  Item, item_sizes, item_crc, item_bytes, read_all, check_item, read_item,
}

-- A key and a value of sizes that the store takes.
abbrev pub Fits : Item → Type 0
Fits item = (length item.key ≤ max_key_size) × (length item.value ≤ u32_max)

pub take-append_ge :
    (n : ℕ) (xs ys : List ℕ) → length xs ≤ n → take n (xs ++ ys) ≡ xs ++ take (n - length xs) ys
take-append_ge n xs ys h =
    let all = take-all (min n (length xs)) xs (omega arith) in
    take-append n xs ys ∙ ap (λ (l : List ℕ). l ++ take (n - length xs) ys) all

drop-append : (xs ys : List ℕ) → drop (length xs) (xs ++ ys) ≡ ys
drop-append [] ys = refl
drop-append (x ∷ xs) ys = drop-append xs ys

pub read_all-append : (n : ℕ) (xs ys : List ℕ) → length xs ≡ n → read_all n (xs ++ ys) ≡ ok (xs, ys)
unfolding read_all
read_all-append n xs ys e =
    let enough : ltb (length (xs ++ ys)) n ≡ false = ground (arith, length-append xs ys) in
    let over : n - length xs ≡ 0 = omega arith in
    let taken : take n (xs ++ ys) ≡ xs =
      take-append_ge n xs ys (omega arith) ∙ rw over (append-nil xs) in
    let left : drop n (xs ++ ys) ≡ ys = rw (← e) (drop-append xs ys) in
    rw (enough, taken, left) refl

pub read_all_short : (n : ℕ) (file : List ℕ) → length file < n → read_all n file ≡ err io_error
unfolding read_all
read_all_short n file h = let short : ltb (length file) n ≡ true = ground arith in rw short refl

-- The header that is written before an item.
abbrev written_header : Item → List ℕ
written_header item = store32 (item_sizes item) 8 (item_crc (item_sizes item) item)

module _ (item : Item) where
  key_part : view (written_header item) 0 4 ≡ bytes32 (length item.key)
  unfolding view store32 copy item_sizes
  key_part = refl

  value_part : view (written_header item) 4 4 ≡ bytes32 (length item.value)
  unfolding view store32 copy item_sizes
  value_part = refl

  crc_part : view (written_header item) 8 4 ≡ bytes32 (item_crc (item_sizes item) item)
  unfolding view store32 copy item_sizes
  crc_part = refl

  length_header : length (written_header item) ≡ 12
  unfolding store32 copy item_sizes
  length_header = refl

  same_sizes : take 8 (store32 (written_header item) 8 0) ≡ take 8 (item_sizes item)
  unfolding store32 copy item_sizes
  same_sizes = refl

  same_crc : item_crc (store32 (written_header item) 8 0) item ≡ item_crc (item_sizes item) item
  unfolding item_crc
  same_crc = rw same_sizes refl

  crc-lt : (header : List ℕ) → item_crc header item < 2 ^ 32
  unfolding item_crc
  crc-lt header =
      crc32_update-lt (crc32_update (crc32_update 0 (take 8 header)) item.key) item.value

  checked : check_item (written_header item) item ≡ ok item
  unfolding check_item
  checked =
      let c = item_crc (item_sizes item) item in
      let small : c < 2 ^ 32 = crc-lt (item_sizes item) in
      let want : load32 (written_header item) 8 ≡ c =
        load32-view (written_header item) 8 c crc_part ∙ omega arith in
      let same : (c == c) ≡ true = ground arith in rw (same_crc, want, same) refl

  key_size : Fits item → load32 (written_header item) 0 ≡ length item.key
  key_size fits =
      load32-view (written_header item) 0 (length item.key) key_part ∙ omega (arith, fits.0)

  value_size : Fits item → load32 (written_header item) 4 ≡ length item.value
  value_size fits =
      load32-view (written_header item) 4 (length item.value) value_part ∙ omega (arith, fits.1)

  small_key : Fits item → ltb max_key_size (length item.key) ≡ false
  small_key fits = ground (arith, fits.0)

  item_split :
      (rest : List ℕ)
      → item_bytes item ++ rest ≡ written_header item ++ (item.key ++ (item.value ++ rest))
  unfolding item_bytes
  item_split rest =
      append_assoc (written_header item) (item.key ++ item.value) rest
      ∙ ap (λ (l : List ℕ). written_header item ++ l) (append_assoc item.key item.value rest)

  parts : item_bytes item ≡ written_header item ++ (item.key ++ item.value)
  unfolding item_bytes
  parts = refl

  pub length-item_bytes : length (item_bytes item) ≡ 12 + length item.key + length item.value
  unfolding item_bytes
  length-item_bytes =
      let a = length-append (written_header item) (item.key ++ item.value) in
      let b = length-append item.key item.value in let c = length_header in omega (arith, a, b, c)

  pub read_item_lem :
      (rest : List ℕ) → Fits item → read_item (item_bytes item ++ rest) ≡ ok (item, rest)
  unfolding read_item
  read_item_lem rest fits =
      let head =
        read_all-append 12 (written_header item) (item.key ++ (item.value ++ rest)) length_header in
      let key = read_all-append (length item.key) item.key (item.value ++ rest) refl in
      let value = read_all-append (length item.value) item.value rest refl in
      rw
        (
          item_split rest,
          head,
          ◌>>=◌,
          key_size fits,
          small_key fits,
          key_size fits,
          key,
          ◌>>=◌,
          value_size fits,
          value,
          ◌>>=◌,
          checked,
          ◌>>=◌,
        )
        refl

  -- Where the file ends inside the item.
  pub read_item_cut :
      (n : ℕ)
      → Fits item
      → n < length (item_bytes item)
      → read_item (take n (item_bytes item)) ≡ err io_error
  unfolding read_item
  read_item_cut n fits h =
      let long = length-item_bytes in
      let sized = length_header in
      elim (dec_lt n 12) [
        | yes low ↦
            let short =
              read_all_short 12 (take n (item_bytes item))
                (omega (arith, length-take n (item_bytes item))) in
            rw (short, ◌>>=◌) refl
        | no past ↦
            let cut =
              take-append_ge n (written_header item) (item.key ++ item.value) (omega arith) in
            let m : n - length (written_header item) ≡ n - 12 = omega arith in
            let head =
              read_all-append 12 (written_header item) (take (n - 12) (item.key ++ item.value))
                sized in
            elim (dec_lt (n - 12) (length item.key)) [
              | yes low ↦
                  let short =
                    read_all_short (length item.key) (take (n - 12) (item.key ++ item.value))
                      (omega (arith, length-take (n - 12) (item.key ++ item.value))) in
                  rw
                    (
                      parts,
                      cut,
                      m,
                      head,
                      ◌>>=◌,
                      key_size fits,
                      small_key fits,
                      key_size fits,
                      short,
                      ◌>>=◌,
                    )
                    refl
              | no more ↦
                  let cut_value = take-append_ge (n - 12) item.key item.value (omega arith) in
                  let key =
                    read_all-append (length item.key) item.key
                      (take (n - 12 - length item.key) item.value) refl in
                  let short =
                    read_all_short (length item.value) (take (n - 12 - length item.key) item.value)
                      (omega (arith, length-take (n - 12 - length item.key) item.value)) in
                  rw
                    (
                      parts,
                      cut,
                      m,
                      head,
                      ◌>>=◌,
                      key_size fits,
                      small_key fits,
                      key_size fits,
                      cut_value,
                      key,
                      ◌>>=◌,
                      value_size fits,
                      short,
                      ◌>>=◌,
                    )
                    refl
            ]
      ]
