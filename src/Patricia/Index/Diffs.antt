-- ===== src/Patricia/Index/Diffs.antt =====
-- index.h, `DiffBetweenReps` and `BuildDiffs`: the diffs between neighbouring entries.
use minweight_store_cpp.Base.{ℕ, List, [], ◌∷◌}
use minweight_store_cpp.Patricia.Status.{
  Result, ok, err, stuck, duplicate_key, unsorted_keys, equal_keys, ◌>>=◌,
}
use minweight_store_cpp.Patricia.Key.{Key, compare_and_diff_bit, CompareDiff}
use minweight_store_cpp.Patricia.Nodes.{HeapNodeStore}
use minweight_store_cpp.Patricia.Index.Read.{key_at, min_pos, max_pos}
use Prim.Native.Nat.{Ordering}

-- What `DiffBetweenReps` makes of the outcome of `CompareAndDiffBit`.
unfoldable pub sorted_diff : Result CompareDiff → Result ℕ
sorted_diff (ok d) = elim d.order [
  | Ordering.lt ↦ ok d.diff
  | Ordering.eq ↦ ok d.diff
  | Ordering.gt ↦ err unsorted_keys
]
sorted_diff (err equal_keys) = err duplicate_key
sorted_diff (err e) = err e
sorted_diff stuck = stuck

module _ (records : ℕ → Result Key) (nodes : HeapNodeStore) where
  unfoldable pub diff_between_reps : ℕ → ℕ → Result ℕ
  unfolding sorted_diff
  diff_between_reps left right = do
    left_pos ← max_pos nodes left
    right_pos ← min_pos nodes right
    left_key ← key_at records left_pos
    right_key ← key_at records right_pos
    sorted_diff (compare_and_diff_bit left_key right_key)

  unfoldable pub build_diffs : List ℕ → Result (List ℕ)
  unfolding diff_between_reps
  build_diffs [] = ok []
  build_diffs (left ∷ []) = ok []
  build_diffs (left ∷ right ∷ reps) = do
    diff ← diff_between_reps left right
    diffs ← build_diffs (right ∷ reps)
    ok (diff ∷ diffs)
