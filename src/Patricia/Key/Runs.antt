-- ===== src/Patricia/Key/Runs.antt =====
-- diff.h on sample keys.
use minweight_store_cpp.Base.{◌≤◌, [], ◌∷◌, ◌≡◌, refl, ◌↔◌, arith}
use minweight_store_cpp.Patricia.Status.{ok}
use minweight_store_cpp.Patricia.Key.{
  Key, compare_keys, compare_and_diff_bit, max_diff, check_key_size, diff_from,
  count_leading_zero_bits8,
}
use Prim.Native.Nat.{Ordering}
use minweight_store_cpp.Patricia.Key.Parting.{
  Critical, PartsAt, IsKey, compare_and_diff_bit-PartsAt,
}
use minweight_store_cpp.Patricia.Key.Order.{
  lex, compare_keys-lex, DiffResult, compare_and_diff_bit-DiffResult,
  compare_and_diff_bit-iff-Critical,
}

-- "car" and "cat"
abbrev car : Key
car = 99 ∷ 97 ∷ 114 ∷ []

abbrev cat : Key
cat = 99 ∷ 97 ∷ 116 ∷ []

car-IsKey : IsKey car
car-IsKey = ((omega arith, (omega arith, (omega arith, tt))), omega arith)

cat-IsKey : IsKey cat
cat-IsKey = ((omega arith, (omega arith, (omega arith, tt))), omega arith)

compare_keys-lex_example : compare_keys car cat ≡ lex car cat
compare_keys-lex_example = compare_keys-lex car cat

compare_and_diff_bit-DiffResult_example : DiffResult car cat (compare_and_diff_bit car cat)
compare_and_diff_bit-DiffResult_example = compare_and_diff_bit-DiffResult car cat

compare_and_diff_bit-iff-Critical_example :
    (compare_and_diff_bit car cat ≡ ok (record { order = Ordering.lt; diff = 24 }))
    ↔ Critical car cat 24
compare_and_diff_bit-iff-Critical_example =
    compare_and_diff_bit-iff-Critical car cat 24 car-IsKey cat-IsKey

compared : compare_and_diff_bit car cat ≡ ok (record { order = Ordering.lt; diff = 24 })
unfolding compare_and_diff_bit check_key_size diff_from count_leading_zero_bits8
compared = refl

compare_and_diff_bit-PartsAt_example : PartsAt Ordering.lt car cat 24 × (24 ≤ max_diff)
compare_and_diff_bit-PartsAt_example =
    compare_and_diff_bit-PartsAt car cat (record { order = Ordering.lt; diff = 24 }) car-IsKey
      cat-IsKey compared
