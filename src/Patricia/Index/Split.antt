-- ===== src/Patricia/Index/Split.antt =====
-- index.h: how a page that is too full is split.
use minweight_store_cpp.Base.{
  ℕ, zero, suc, ◌+◌, ◌-◌, ◌*◌, ◌/◌, ◌==◌, ltb, leb, ◌&&◌, ◌||◌, Bool, true, if◌then◌else◌,
}
use minweight_store_cpp.Base.{Option, none, some, List, [], ◌∷◌, length}
use minweight_store_cpp.Patricia.Status.{Result, ok, err, stuck, corrupt_layout, ◌>>=◌}
use minweight_store_cpp.Patricia.Key.{Key}
use minweight_store_cpp.Patricia.Page.{RouteFrame}
use minweight_store_cpp.Patricia.Nodes.{HeapNodeStore}
use minweight_store_cpp.Patricia.Index.{SplitRange}
use minweight_store_cpp.Patricia.Index.Diffs.{build_diffs}
use minweight_store_cpp.Patricia.Index.Routing.{build_cartesian, push_both}

-- `RemapInsertSlotAfterSplit`; `none` is a negative slot.
unfoldable pub remap_insert_slot_after_split : Option ℕ → ℕ → ℕ → ℕ → Option ℕ
remap_insert_slot_after_split none start stop count = none
remap_insert_slot_after_split (some slot) start stop count =
    if ltb slot start
    then some slot
    else if ltb slot stop
    then some start
    else some (slot - count + 1)

-- The ranges of leaves that the frames of a cartesian tree stand for, in the order in which the loops
-- of `ChooseSplitRange` and `ChooseEdgeSplitRange` meet them.
unfoldable pub frame_ranges :
    ℕ → List (Option ℕ) → List (Option ℕ) → List RouteFrame → Result (List SplitRange)
frame_ranges rounds left right [] = ok []
frame_ranges zero left right (frame ∷ stack) = stuck
frame_ranges (suc rounds) left right (frame ∷ stack) = do
  ranges ← frame_ranges rounds left right (push_both left right frame stack)
  ok (record { start = frame.leaf_l; count = frame.leaf_r - frame.leaf_l } ∷ ranges)

-- `count >= 2 && count <= rep_count - 2`
abbrev pub can_split : ℕ → SplitRange → Bool
can_split rep_count range = leb 2 range.count && leb range.count (rep_count - 2)

-- `AbsInt(count - target)`
abbrev pub distance : ℕ → ℕ → ℕ
distance count target = count - target + (target - count)

-- `best_start == -1 || count > best_count`
abbrev pub is_larger : SplitRange → Option SplitRange → Bool
is_larger range none = true
is_larger range (some best) = ltb best.count range.count

-- `best_start == -1 || score < best_score`
abbrev pub is_nearer : ℕ → SplitRange → Option SplitRange → Bool
is_nearer target range none = true
is_nearer target range (some best) = ltb (distance range.count target) (distance best.count target)

abbrev pub when : Bool → SplitRange → Option SplitRange → Option SplitRange
when test range best = if test then some range else best

-- The best and the preferred range.
unfoldable pub choose_ranges :
    ℕ
    → List SplitRange
    → Option SplitRange
    → Option SplitRange
    → Option SplitRange × Option SplitRange
choose_ranges rep_count [] best preferred = (best, preferred)
choose_ranges rep_count (range ∷ ranges) best preferred =
    let target = rep_count / 2 in
    let min_preferred_count = (rep_count * 1 + 3 - 1) / 3 in
    let fits = can_split rep_count range in
    choose_ranges rep_count ranges (when (fits && is_nearer target range best) range best) (
      when
        (fits
          && (leb min_preferred_count range.count && leb range.count target)
          && is_larger range preferred)
        range preferred)

abbrev pub chosen_range : ℕ → Option SplitRange × Option SplitRange → SplitRange
chosen_range rep_count (none, preferred) =
    let count = rep_count / 2 in record { start = (rep_count - count) / 2; count = count }
chosen_range rep_count (some best, none) = best
chosen_range rep_count (some best, some preferred) = preferred

abbrev pub whole : ℕ → ℕ → RouteFrame
whole root rep_count = record { node = root; leaf_l = 0; leaf_r = rep_count }

-- The loop of `ChooseEdgeSplitRange`: the largest range without the inserted entry.
unfoldable pub choose_edge : ℕ → ℕ → List SplitRange → Option SplitRange → Option SplitRange
choose_edge rep_count insert_slot [] best = best
choose_edge rep_count insert_slot (range ∷ ranges) best = choose_edge rep_count insert_slot ranges (
    when
      (can_split rep_count range
        && (ltb insert_slot range.start || leb (range.start + range.count) insert_slot)
        && is_larger range best)
      range best)

-- The ranges of the cartesian tree of `diffs`. One round for each diff.
unfoldable pub split_ranges : List ℕ → ℕ → Result (List SplitRange)
unfolding build_cartesian frame_ranges
split_ranges diffs rep_count = do
  cartesian ← build_cartesian diffs
  frame_ranges (length diffs) cartesian.left cartesian.right (whole cartesian.root rep_count ∷ [])

-- `ChooseEdgeSplitRange`, `none` where it returns `kMissingKey`.
unfoldable pub choose_edge_split_range : List ℕ → ℕ → ℕ → Result (Option SplitRange)
unfolding split_ranges choose_edge
choose_edge_split_range diffs rep_count insert_slot = do
  ranges ← split_ranges diffs rep_count
  ok (choose_edge rep_count insert_slot ranges none)

-- `insert_slot == 0 || insert_slot == rep_count - 1`
abbrev pub edge_of : ℕ → Option ℕ → Option ℕ
edge_of rep_count none = none
edge_of rep_count (some slot) = if slot == 0 || slot == rep_count - 1 then some slot else none

abbrev pub edge_range : List ℕ → ℕ → Option ℕ → Result (Option SplitRange)
edge_range diffs rep_count none = ok none
edge_range diffs rep_count (some slot) = choose_edge_split_range diffs rep_count slot

-- `ChooseSplitRange` once the diffs are there.
unfoldable pub choose_range_of : List ℕ → ℕ → Option ℕ → Result SplitRange
unfolding split_ranges choose_edge_split_range choose_ranges
choose_range_of diffs rep_count insert_slot = do
  edge ← edge_range diffs rep_count (edge_of rep_count insert_slot)
  elim edge [
    | some range ↦ ok range
    | none ↦ do
      ranges ← split_ranges diffs rep_count
      ok (chosen_range rep_count (choose_ranges rep_count ranges none none))
  ]

unfoldable pub choose_split_range :
    (ℕ → Result Key) → HeapNodeStore → List ℕ → Option ℕ → Result SplitRange
unfolding build_diffs choose_range_of
choose_split_range records nodes reps insert_slot =
    if ltb (length reps) 4
    then err corrupt_layout
    else do diffs ← build_diffs records nodes reps; choose_range_of diffs (length reps) insert_slot
