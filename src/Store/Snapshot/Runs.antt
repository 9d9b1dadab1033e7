-- ===== src/Store/Snapshot/Runs.antt =====
-- store.cc, the snapshot of generation 3 with two items, one of them with an empty value.
use minweight_store_cpp.Base.{arith, List, [], ◌∷◌}
use minweight_store_cpp.Store.Snapshot.{Item}
use minweight_store_cpp.Store.Snapshot.RoundTrip.{SnapshotAnswer, snapshot_lem}

abbrev two_items : List Item
two_items =
    record { key = 97 ∷ []; value = 1 ∷ 2 ∷ [] } ∷ record { key = 98 ∷ 99 ∷ []; value = [] } ∷ []

snapshot_lem_example : SnapshotAnswer 3 two_items
snapshot_lem_example =
    snapshot_lem 3 two_items (omega arith) (omega arith) (omega arith)
      ((omega arith, omega arith), ((omega arith, omega arith), tt))
