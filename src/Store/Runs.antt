-- ===== src/Store/Runs.antt =====
-- store.cc on sample positions.
use minweight_store_cpp.Store.Position.{PositionAnswer, make_record_position_lem}

make_record_position_lem_example : PositionAnswer 3 4096
make_record_position_lem_example = make_record_position_lem 3 4096
