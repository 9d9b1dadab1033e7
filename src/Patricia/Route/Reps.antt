-- ===== src/Patricia/Route/Reps.antt =====
-- node_page.h, `Rep`: an entry of a page is a record position or a tagged node id.
use minweight_store_cpp.Base.{ℕ, ◌+◌, ◌^◌, ◌≤◌, ◌<◌, bit_or, true, false}
use minweight_store_cpp.Base.{◌≡◌, refl, ◌∙◌, arith, ◌⊎◌, inl, inr}
use minweight_store_cpp.Base.Bits.{bit_or_high}
use native.Mathlib.Decide.{dec_lt}
use minweight_store_cpp.Patricia.Status.{ok, err, position_tag}
use minweight_store_cpp.Patricia.Route.{
  child_tag, tagged, untagged, make_record, make_child, is_child, position, child_id,
}

-- An entry made from a number of 64 bits tells records and children apart and gives the number
-- back; a number with bit 63 set is refused in both forms.
pub rep_lem :
    (x : ℕ)
    → x < 2 ^ 64
    → (x < child_tag)
        × (make_record x ≡ ok x)
        × (is_child x ≡ false)
        × (position x ≡ x)
        × ((rep : ℕ) × (make_child x ≡ ok rep)
            × (rep < 2 ^ 64)
            × (is_child rep ≡ true)
            × (child_id rep ≡ x))
      ⊎ (child_tag ≤ x) × (make_record x ≡ err position_tag) × (make_child x ≡ err position_tag)
unfolding make_record make_child is_child position child_id
rep_lem x h = elim (dec_lt x child_tag) [
  | yes low ↦
      let t : tagged x ≡ false = ground arith in
      let u : untagged x ≡ x = omega arith in
      let sum : bit_or child_tag x ≡ x + 2 ^ 63 = bit_or_high 63 1 x low ∙ omega arith in
      let t' : tagged (x + 2 ^ 63) ≡ true = ground arith in
      let u' : untagged (x + 2 ^ 63) ≡ x = omega arith in
      inl (low, rw t refl, t, u, (x + 2 ^ 63, rw (t, sum) refl, omega arith, t', u'))
  | no high ↦ let t : tagged x ≡ true = ground arith in inr (omega arith, rw t refl, rw t refl)
]

-- The entry of a record, and that of a child.
pub record_rep : (pos : ℕ) → pos < child_tag → (is_child pos ≡ false) × (position pos ≡ pos)
unfolding is_child position
record_rep pos h =
    let t : tagged pos ≡ false = ground arith in let u : untagged pos ≡ pos = omega arith in (t, u)

pub child_rep :
    (id : ℕ)
    → id < child_tag
    → (is_child (bit_or child_tag id) ≡ true) × (child_id (bit_or child_tag id) ≡ id)
unfolding is_child child_id
child_rep id h =
    let sum : bit_or child_tag id ≡ id + 2 ^ 63 = bit_or_high 63 1 id h ∙ omega arith in
    let t : tagged (id + 2 ^ 63) ≡ true = ground arith in
    let u : untagged (id + 2 ^ 63) ≡ id = omega arith in rw sum (t, u)
