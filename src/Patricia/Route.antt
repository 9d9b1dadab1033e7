-- ===== src/Patricia/Route.antt =====
-- node_page.h, `Rep` and `Route`: a page's entries and routing words, packed in 64 and 32 bits.
pub mod Laws
pub mod Reps
pub mod Runs
use minweight_store_cpp.Base.{ℕ, ◌+◌, ◌-◌, ◌*◌, ◌/◌, ◌%◌, ◌^◌, bit_and, bit_or, ltb, leb, ◌==◌}
use minweight_store_cpp.Base.{Bool, true, false, if◌then◌else◌, Option, none, some, get_elem?}
use minweight_store_cpp.Patricia.Status.{Result, ok, err, position_tag}
use minweight_store_cpp.Patricia.Key.{Key, bit_at}

-- A `Position` and the bits of a `Rep` are 64-bit numbers. `kChildTag` is bit 63.
abbrev pub child_tag : ℕ
child_tag = 2 ^ 63

-- `(x & kChildTag) != 0`
abbrev pub tagged : ℕ → Bool
tagged x = x / child_tag % 2 == 1

-- `x & ~kChildTag`
abbrev pub untagged : ℕ → ℕ
untagged x = x % child_tag

unfoldable pub make_record : ℕ → Result ℕ
make_record pos = if tagged pos then err position_tag else ok pos

unfoldable pub make_child : ℕ → Result ℕ
make_child id = if tagged id then err position_tag else ok (bit_or child_tag id)

unfoldable pub is_child : ℕ → Bool
is_child rep = tagged rep

unfoldable pub position : ℕ → ℕ
position rep = untagged rep

unfoldable pub child_id : ℕ → ℕ
child_id rep = untagged rep

-- `Route`: 13 bits of byte index, 4 of bit operation, 15 of left count.
abbrev pub term_bit_op : ℕ
term_bit_op = 8

unfoldable pub make : ℕ → ℕ → ℕ
make diff left_count =
    let byte_idx = diff / 9 in
    let bit_idx = diff % 9 in
    let bit_op = if bit_idx == 0 then term_bit_op else 8 - bit_idx in
    bit_or (bit_or byte_idx (bit_op * 2 ^ 13)) (left_count * 2 ^ 17 % 2 ^ 32)

unfoldable pub bit_op : ℕ → ℕ
bit_op route = route / 2 ^ 13 % 2 ^ 4

-- The subtraction is in uint32_t and the result in uint16_t.
unfoldable pub diff : ℕ → ℕ
unfolding bit_op
diff route =
    let byte_idx = route % 2 ^ 13 in
    if bit_op route == term_bit_op
    then byte_idx * 9 % 2 ^ 16
    else (byte_idx * 9 + 8 + 2 ^ 32 - bit_op route) % 2 ^ 32 % 2 ^ 16

unfoldable pub left_count : ℕ → ℕ
left_count route = route / 2 ^ 17 % 2 ^ 16

unfoldable pub inc_left_count : ℕ → ℕ
inc_left_count route = (route + 2 ^ 17) % 2 ^ 32

unfoldable pub dec_left_count : ℕ → ℕ
dec_left_count route = (route + 2 ^ 32 - 2 ^ 17) % 2 ^ 32

-- `(bit_op >> 3) | ((byte >> (bit_op & 7)) & 1)` on the byte, or 0 past the key's end.
abbrev pub read_bit : Option ℕ → ℕ → ℕ
read_bit none op = 0
read_bit (some byte) op = bit_or (op / 2 ^ 3) (bit_at byte (op % 8))

unfoldable pub bit : ℕ → Key → ℕ
unfolding bit_op
bit route key = read_bit (get_elem? key (route % 2 ^ 13)) (bit_op route)
