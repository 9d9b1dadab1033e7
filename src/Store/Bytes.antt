-- ===== src/Store/Bytes.antt =====
-- src/minweight_store/store.cc: little-endian words in a buffer. A buffer is the list of its bytes.
pub mod Laws
use minweight_store_cpp.Base.{ℕ, zero, suc, ◌+◌, ◌*◌, ◌/◌, ◌%◌, ◌^◌, ◌<◌, bit_or, ◌==◌}
use minweight_store_cpp.Base.{if◌then◌else◌, Bool, true, false, List, [], ◌∷◌, get_or, set}

abbrev pub IsByte : ℕ → Type 0
IsByte b = b < 256

-- `data[i]`; the callers stay inside the buffer.
abbrev pub byte : List ℕ → ℕ → ℕ
byte buf i = get_or buf i 0

-- The `n` bytes from `off` on, as a `ByteView` of them has.
unfoldable pub view : List ℕ → ℕ → ℕ → List ℕ
view buf off zero = []
view buf off (suc n) = byte buf off ∷ view buf (off + 1) n

-- `memcpy` of `bytes` to `off`.
unfoldable pub copy : List ℕ → ℕ → List ℕ → List ℕ
copy buf off [] = buf
copy buf off (b ∷ bytes) = copy (set buf off b) (off + 1) bytes

unfoldable pub load32 : List ℕ → ℕ → ℕ
load32 buf off =
    bit_or
      (bit_or (bit_or (byte buf off) (byte buf (off + 1) * 2 ^ 8)) (byte buf (off + 2) * 2 ^ 16))
      (byte buf (off + 3) * 2 ^ 24)

-- The loop of `Load64`, with `rounds` bytes to go.
unfoldable pub load64_loop : List ℕ → ℕ → ℕ → ℕ → ℕ
load64_loop buf off zero value = value
load64_loop buf off (suc i) value =
    load64_loop buf off i (bit_or (value * 2 ^ 8 % 2 ^ 64) (byte buf (off + i)))

unfoldable pub load64 : List ℕ → ℕ → ℕ
unfolding load64_loop
load64 buf off = load64_loop buf off 8 0

-- The bytes that `Store32` writes, in the order in which it writes them.
abbrev pub bytes32 : ℕ → List ℕ
bytes32 v = v % 256 ∷ v / 2 ^ 8 % 256 ∷ v / 2 ^ 16 % 256 ∷ v / 2 ^ 24 % 256 ∷ []

unfoldable pub store32 : List ℕ → ℕ → ℕ → List ℕ
unfolding copy
store32 buf off v = copy buf off (bytes32 v)

-- The bytes that the loop of `Store64` writes.
abbrev pub bytes64 : ℕ → List ℕ
bytes64 v =
    v % 256
    ∷ v / 2 ^ 8 % 256
    ∷ v / 2 ^ 16 % 256
    ∷ v / 2 ^ 24 % 256
    ∷ v / 2 ^ 32 % 256
    ∷ v / 2 ^ 40 % 256
    ∷ v / 2 ^ 48 % 256
    ∷ v / 2 ^ 56 % 256
    ∷ []

unfoldable pub store64 : List ℕ → ℕ → ℕ → List ℕ
unfolding copy
store64 buf off v = copy buf off (bytes64 v)

-- `IsZeroBytes` of the first `size` bytes.
unfoldable pub is_zero_bytes : List ℕ → ℕ → Bool
is_zero_bytes buf zero = true
is_zero_bytes [] (suc n) = true
is_zero_bytes (b ∷ buf) (suc n) = if b == 0 then is_zero_bytes buf n else false
