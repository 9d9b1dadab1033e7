-- ===== src/Patricia/Route/Runs.antt =====
-- node_page.h, `Rep` and `Route` on sample words.
use minweight_store_cpp.Base.{ℕ, ◌^◌, ◌≤◌, ◌<◌, true, false, ◌≡◌, ◌⊎◌, arith}
use minweight_store_cpp.Patricia.Status.{ok, err, position_tag}
use minweight_store_cpp.Patricia.Key.{Key, get_diff_bit}
use minweight_store_cpp.Patricia.Route.{
  child_tag, make_record, make_child, is_child, position, child_id, make, diff, left_count, bit,
}
use minweight_store_cpp.Patricia.Route.Laws.{make_lem}
use minweight_store_cpp.Patricia.Route.Reps.{rep_lem}

-- Diff bit 24 with 3 entries on the left.
make_lem_example :
    (make 24 3 < 2 ^ 32)
    × (diff (make 24 3) ≡ 24)
    × (left_count (make 24 3) ≡ 3)
    × ((key : Key) → bit (make 24 3) key ≡ get_diff_bit key 24)
make_lem_example = make_lem 24 3 (omega arith) (omega arith)

rep_lem_example :
    (7 < child_tag)
      × (make_record 7 ≡ ok 7)
      × (is_child 7 ≡ false)
      × (position 7 ≡ 7)
      × ((rep : ℕ) × (make_child 7 ≡ ok rep)
          × (rep < 2 ^ 64)
          × (is_child rep ≡ true)
          × (child_id rep ≡ 7))
    ⊎ (child_tag ≤ 7) × (make_record 7 ≡ err position_tag) × (make_child 7 ≡ err position_tag)
rep_lem_example = rep_lem 7 (omega arith)
