-- ===== src/Store/Bytes/Laws.antt =====
-- What is read back from a buffer after a write, inside it and beside it.
use minweight_store_cpp.Base.{ℕ, zero, suc, ◌+◌, ◌*◌, ◌/◌, ◌%◌, ◌^◌, ◌≤◌, ◌<◌, bit_or, arith}
use minweight_store_cpp.Base.{List, [], ◌∷◌, set, length, take, drop, All, length-set}
use minweight_store_cpp.Base.{◌≡◌, ◌≢◌, ◌⊎◌, refl, sym, ap, ◌∙◌}
use minweight_store_cpp.Base.Bits.{bit_or_low, bit_or_high}
use mathlib.Core.Path.{ap₂}
use native.Mathlib.Nat.{pow-suc, div-one, div-div-eq-div-mul, div-le_self}
use minweight_store_cpp.Store.Bytes.{IsByte, byte, view, copy, bytes32, bytes64}
use minweight_store_cpp.Store.Bytes.{load32, load64, load64_loop, store32, store64}

pub byte-set_self : (buf : List ℕ) (i v : ℕ) → i < length buf → byte (set buf i v) i ≡ v
byte-set_self [] i v h = absurd (omega arith)
byte-set_self (b ∷ buf) zero v h = refl
byte-set_self (b ∷ buf) (suc i) v h = byte-set_self buf i v (omega arith)

pub byte-set_ne : (buf : List ℕ) (i j v : ℕ) → i ≢ j → byte (set buf i v) j ≡ byte buf j
byte-set_ne [] i j v h = refl
byte-set_ne (b ∷ buf) zero zero v h = absurd (h refl)
byte-set_ne (b ∷ buf) zero (suc j) v h = refl
byte-set_ne (b ∷ buf) (suc i) zero v h = refl
byte-set_ne (b ∷ buf) (suc i) (suc j) v h = byte-set_ne buf i j v (λ e. h (ap suc e))

pub length-copy : (bytes buf : List ℕ) (off : ℕ) → length (copy buf off bytes) ≡ length buf
unfolding copy
length-copy [] buf off = refl
length-copy (b ∷ bytes) buf off = length-copy bytes (set buf off b) (off + 1) ∙ length-set buf off b

-- `[off, off + n)` and `[o, o + m)` have no byte in common.
abbrev pub Apart : ℕ → ℕ → ℕ → ℕ → Type 0
Apart o m off n = (o + m ≤ off) ⊎ (off + n ≤ o)

pub byte-copy_beside :
    (bytes buf : List ℕ) (off i : ℕ)
    → Apart i 1 off (length bytes)
    → byte (copy buf off bytes) i ≡ byte buf i
unfolding copy
byte-copy_beside [] buf off i h = refl
byte-copy_beside (b ∷ bytes) buf off i h =
    byte-copy_beside bytes (set buf off b) (off + 1) i (omega arith)
    ∙ byte-set_ne buf off i b (omega arith)

pub view-copy_beside :
    (n : ℕ) (bytes buf : List ℕ) (off o : ℕ)
    → Apart o n off (length bytes)
    → view (copy buf off bytes) o n ≡ view buf o n
unfolding view
view-copy_beside zero bytes buf off o h = refl
view-copy_beside (suc n) bytes buf off o h =
    ap₂ (λ b t. b ∷ t) (byte-copy_beside bytes buf off o (omega arith))
      (view-copy_beside n bytes buf off (o + 1) (omega arith))

-- What was copied is read back.
pub view-copy :
    (bytes buf : List ℕ) (off : ℕ)
    → off + length bytes ≤ length buf
    → view (copy buf off bytes) off (length bytes) ≡ bytes
unfolding view copy
view-copy [] buf off h = refl
view-copy (b ∷ bytes) buf off h =
    ap₂ (λ c t. c ∷ t)
      (byte-copy_beside bytes (set buf off b) (off + 1) off (omega arith)
        ∙ byte-set_self buf off b (omega arith))
      (view-copy bytes (set buf off b) (off + 1) (omega (arith, length-set buf off b)))

pub length-view : (n : ℕ) (buf : List ℕ) (off : ℕ) → length (view buf off n) ≡ n
unfolding view
length-view zero buf off = refl
length-view (suc n) buf off = ap suc (length-view n buf (off + 1))

pub take-view :
    (k n : ℕ) (buf : List ℕ) (off : ℕ) → k ≤ n → take k (view buf off n) ≡ view buf off k
unfolding view
take-view zero n buf off h = refl
take-view (suc k) zero buf off h = absurd (omega arith)
take-view (suc k) (suc n) buf off h =
    ap (λ t. byte buf off ∷ t) (take-view k n buf (off + 1) (omega arith))

pub drop-view :
    (k n : ℕ) (buf : List ℕ) (off : ℕ) → drop k (view buf off (k + n)) ≡ view buf (off + k) n
unfolding view
drop-view zero n buf off =
    let e : 0 + n ≡ n = omega arith in let f : off + 0 ≡ off = omega arith in rw (e, f)
drop-view (suc k) n buf off =
    let e : suc k + n ≡ suc (k + n) = omega arith in
    let f : off + suc k ≡ off + 1 + k = omega arith in rw (e, f) (drop-view k n buf (off + 1))

-- Byte `k` of a view.
byte-view :
    (k n : ℕ) (buf : List ℕ) (off : ℕ) → k < n → byte (view buf off n) k ≡ byte buf (off + k)
unfolding view
byte-view k zero buf off h = absurd (omega arith)
byte-view zero (suc n) buf off h = let e : off + 0 ≡ off = omega arith in rw e
byte-view (suc k) (suc n) buf off h =
    let e : off + suc k ≡ off + 1 + k = omega arith in
    rw e (byte-view k n buf (off + 1) (omega arith))

or_bytes :
    (a b c d : ℕ)
    → a < 256
    → b < 256
    → c < 256
    → bit_or (bit_or (bit_or a (b * 2 ^ 8)) (c * 2 ^ 16)) (d * 2 ^ 24)
      ≡ a + b * 2 ^ 8 + c * 2 ^ 16 + d * 2 ^ 24
or_bytes a b c d ha hb hc =
    rw (bit_or_low 8 a b ha, bit_or_low 16 (a + b * 2 ^ 8) c (omega arith))
      (bit_or_low 24 (a + b * 2 ^ 8 + c * 2 ^ 16) d (omega arith))

-- A word of 32 bits is read back as it was written.
pub load32-view :
    (buf : List ℕ) (off v : ℕ) → view buf off 4 ≡ bytes32 v → load32 buf off ≡ v % 2 ^ 32
unfolding load32
load32-view buf off v e =
    let at = λ (k : ℕ) (h : k < 4). sym (byte-view k 4 buf off h) ∙ ap (λ l. byte l k) e in
    let off_0 : off + 0 ≡ off = omega arith in
    rw
      (rw off_0 at (at 0 (omega arith)), at 1 (omega arith), at 2 (omega arith), at 3 (omega arith))
      (or_bytes _ _ _ _ (omega arith) (omega arith) (omega arith) ∙ omega arith)

shift_in : (x b : ℕ) → x < 2 ^ 56 → b < 256 → bit_or (x * 2 ^ 8 % 2 ^ 64) b ≡ x * 256 + b
shift_in x b hx hb =
    let e : x * 2 ^ 8 % 2 ^ 64 ≡ x * 2 ^ 8 = omega arith in rw e (bit_or_high 8 x b hb)

pow_byte : (i : ℕ) → 2 ^ (8 * suc i) ≡ 2 ^ (8 * i) * 256
pow_byte i =
    let e : 8 * suc i ≡ suc (suc (suc (suc (suc (suc (suc (suc (8 * i)))))))) = omega arith in
    rw e (simp pow-suc (omega arith))

-- The loop of `Load64` on `i` bytes of a number that is read from its high end.
load64_loop-shift :
    (i : ℕ) (buf : List ℕ) (off v x : ℕ)
    → i ≤ 8
    → v < 2 ^ 64
    → ((k : ℕ) → k < i → byte buf (off + k) ≡ v / 2 ^ (8 * k) % 256)
    → x ≡ v / 2 ^ (8 * i)
    → load64_loop buf off i x ≡ v
unfolding load64_loop
load64_loop-shift zero buf off v x h hv at e = omega (arith, div-one v)
load64_loop-shift (suc i) buf off v x h hv at e =
    let w : ℕ = v / 2 ^ (8 * i) in
    let high : x ≡ w / 256 = e ∙ rw (pow_byte i) (sym (div-div-eq-div-mul v (2 ^ (8 * i)) 256)) in
    let low : byte buf (off + i) ≡ w % 256 = at i (omega arith) in
    let le : w ≤ v = div-le_self v (2 ^ (8 * i)) in
    rw (low, shift_in x (w % 256) (omega arith) (omega arith))
      (load64_loop-shift i buf off v (x * 256 + w % 256) (omega arith) hv
        (λ k hk. at k (omega arith)) (omega arith))

-- A word of 64 bits is read back as it was written.
pub load64-view :
    (buf : List ℕ) (off v : ℕ) → v < 2 ^ 64 → view buf off 8 ≡ bytes64 v → load64 buf off ≡ v
unfolding load64
load64-view buf off v hv e = load64_loop-shift 8 buf off v 0 (omega arith) hv at (omega arith)
  where
    at : (k : ℕ) → k < 8 → byte buf (off + k) ≡ v / 2 ^ (8 * k) % 256
    at k h = sym (byte-view k 8 buf off h) ∙ ap (λ l. byte l k) e ∙ word k h
      where
        word : (k : ℕ) → k < 8 → byte (bytes64 v) k ≡ v / 2 ^ (8 * k) % 256
        word zero h = omega (arith, div-one v)
        word (suc zero) h = refl
        word (suc (suc zero)) h = refl
        word (suc (suc (suc zero))) h = refl
        word (suc (suc (suc (suc zero)))) h = refl
        word (suc (suc (suc (suc (suc zero))))) h = refl
        word (suc (suc (suc (suc (suc (suc zero)))))) h = refl
        word (suc (suc (suc (suc (suc (suc (suc zero))))))) h = refl
        word (suc (suc (suc (suc (suc (suc (suc (suc k)))))))) h = absurd (omega arith)

-- Buffers of bytes.
pub byte-lt : (buf : List ℕ) (i : ℕ) → All IsByte buf → byte buf i < 256
byte-lt [] i h = omega arith
byte-lt (b ∷ buf) zero (h, hs) = h
byte-lt (b ∷ buf) (suc i) (h, hs) = byte-lt buf i hs

pub load32-lt : (buf : List ℕ) (off : ℕ) → All IsByte buf → load32 buf off < 2 ^ 32
unfolding load32
load32-lt buf off h =
    let b0 = byte-lt buf off h in
    let b1 = byte-lt buf (off + 1) h in
    let b2 = byte-lt buf (off + 2) h in
    let b3 = byte-lt buf (off + 3) h in rw (or_bytes _ _ _ _ b0 b1 b2) (omega arith)

pub set-All : (buf : List ℕ) (i v : ℕ) → All IsByte buf → v < 256 → All IsByte (set buf i v)
set-All [] i v h hv = tt
set-All (b ∷ buf) zero v (h, hs) hv = (hv, hs)
set-All (b ∷ buf) (suc i) v (h, hs) hv = (h, set-All buf i v hs hv)

pub copy-All :
    (bytes buf : List ℕ) (off : ℕ)
    → All IsByte buf
    → All IsByte bytes
    → All IsByte (copy buf off bytes)
unfolding copy
copy-All [] buf off h hs = h
copy-All (b ∷ bytes) buf off h (hb, hs) =
    copy-All bytes (set buf off b) (off + 1) (set-All buf off b h hb) hs

pub store32-All : (buf : List ℕ) (off v : ℕ) → All IsByte buf → All IsByte (store32 buf off v)
unfolding store32
store32-All buf off v h =
    copy-All (bytes32 v) buf off h (omega arith, (omega arith, (omega arith, (omega arith, tt))))

pub store64-All : (buf : List ℕ) (off v : ℕ) → All IsByte buf → All IsByte (store64 buf off v)
unfolding store64
store64-All buf off v h = copy-All (bytes64 v) buf off h (
  omega arith,
  (
    omega arith,
    (omega arith, (omega arith, (omega arith, (omega arith, (omega arith, (omega arith, tt)))))),
  ),
)

-- A word is a function of its bytes.
load32-via : (buf : List ℕ) (off : ℕ) → load32 buf off ≡ load32 (view buf off 4) 0
unfolding load32 view
load32-via buf off =
    let e2 : off + 1 + 1 ≡ off + 2 = omega arith in
    let e3 : off + 2 + 1 ≡ off + 3 = omega arith in rw (e2, e3) refl

pub load32-cong :
    (buf buf' : List ℕ) (off : ℕ)
    → view buf off 4 ≡ view buf' off 4
    → load32 buf off ≡ load32 buf' off
load32-cong buf buf' off e = load32-via buf off ∙ ap (λ l. load32 l 0) e ∙ sym (load32-via buf' off)

pub byte-cong :
    (buf buf' : List ℕ) (off : ℕ) → view buf off 1 ≡ view buf' off 1 → byte buf off ≡ byte buf' off
unfolding view
byte-cong buf buf' off e = ap (λ l. byte l 0) e
