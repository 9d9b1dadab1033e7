-- ===== src/Patricia/Page/Runs.antt =====
-- node_page.h on a sample page of three entries.
use minweight_store_cpp.Base.{◌==◌, if◌then◌else◌, [], ◌∷◌, ◌++◌, replicate}
use minweight_store_cpp.Base.{◌≡◌, refl, arith, true}
use minweight_store_cpp.Patricia.Status.{ok, err, corrupt_layout}
use minweight_store_cpp.Patricia.Key.{Key}
use minweight_store_cpp.Patricia.Page.{NodePage, lookup}
use minweight_store_cpp.Patricia.Page.Edit.{insert_slot_above_path, insert_route, delete_route}
use minweight_store_cpp.Patricia.Page.Tree.{
  Tree, leaf, fork, encode, Encodes, tree_lookup, above_slot, insert_slot, insert_leaf, delete_leaf,
}
use minweight_store_cpp.Patricia.Page.Lookup.{lookup-tree}
use minweight_store_cpp.Patricia.Page.Slots.{slot_answer, insert_slot_above_path-tree}
use minweight_store_cpp.Patricia.Page.Inserts.{insert_route-tree}
use minweight_store_cpp.Patricia.Page.Deletes.{delete_route-tree}

abbrev three : Tree
three = fork 3 (fork 24 leaf leaf) leaf

abbrev three_page : NodePage
three_page = record {
  size = 3;
  first_pos = 1;
  last_pos = 3;
  routes = encode three ++ replicate 336 0;
  reps = 1 ∷ 2 ∷ 3 ∷ replicate 336 0;
}

-- "cat"
abbrev cat : Key
cat = 99 ∷ 97 ∷ 116 ∷ []

three_page-Encodes : Encodes three_page three (replicate 336 0)
three_page-Encodes = record {
  size = refl;
  routes = refl;
  total = refl;
  fits = omega arith;
  range = (omega arith, (omega arith, tt, tt), tt);
}

lookup-tree_example : lookup three_page cat ≡ ok (tree_lookup cat three, true)
lookup-tree_example = lookup-tree three_page three (replicate 336 0) cat three_page-Encodes

insert_slot_above_path-tree_example :
    insert_slot_above_path three_page cat 5 1
    ≡ slot_answer 1 0 (tree_lookup cat three) (above_slot cat 5 three)
insert_slot_above_path-tree_example =
    insert_slot_above_path-tree three_page three (replicate 336 0) cat 5 1 three_page-Encodes
      (omega arith)

insert_route-tree_example : insert_route three_page 2 cat 5 ≡ (
    if 2 == insert_slot cat 5 three
    then ok (record three_page { routes = encode (insert_leaf cat 5 three) ++ replicate 335 0 })
    else err corrupt_layout)
insert_route-tree_example =
    insert_route-tree three_page three (replicate 335 0) 0 2 cat 5 three_page-Encodes (omega arith)

delete_route-tree_example :
    delete_route three_page 1
    ≡ ok (record three_page { routes = encode (delete_leaf 1 three) ++ 0 ∷ replicate 336 0 })
delete_route-tree_example =
    delete_route-tree three_page 3 (fork 24 leaf leaf) leaf (replicate 336 0) 1 three_page-Encodes
      (omega arith)
