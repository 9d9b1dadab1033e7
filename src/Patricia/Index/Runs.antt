-- ===== src/Patricia/Index/Runs.antt =====
-- index.h: an index of two pages, with the keys "a", "b" and "c". The record at position n has the
-- byte n as its key.
use Prim.Native.Nat.{Ordering}
use minweight_store_cpp.Base.{
  ℕ, zero, suc, ◌≤◌, ◌<◌, ◌==◌, Bool, true, if◌then◌else◌, bit_or, arith, replicate, some, List, [],
  ◌∷◌, ◌≡◌, ◌≢◌, ◌⊎◌, inl, inr, refl, sym, ap, ◌∙◌, length-replicate, get_or,
}
use native.Mathlib.Decide.{ℕ_discrete}
use minweight_store_cpp.Patricia.Status.{Result, ok, err, missing_key}
use minweight_store_cpp.Patricia.Key.{Key, get_diff_bit, compare_keys}
use minweight_store_cpp.Patricia.Key.Parting.{IsKey, check_key_size_fits}
use minweight_store_cpp.Patricia.Route
use minweight_store_cpp.Patricia.Route.{child_tag}
use minweight_store_cpp.Patricia.Page.{NodePage}
use minweight_store_cpp.Patricia.Page.Tree.{Tree, leaf, fork, Encodes, tree_lookup}
use minweight_store_cpp.Patricia.Nodes.{get_node}
use minweight_store_cpp.Patricia.Index.{Index, PutFrame}
use minweight_store_cpp.Patricia.Index.Path.{push_frame, reset, new_path}
use minweight_store_cpp.Patricia.Index.Path.Frames.{PathAnswer, path_lem, push_frame-Shows}
use minweight_store_cpp.Patricia.Index.Gets.{GetAnswer, get_lem}
use minweight_store_cpp.Patricia.Index.Walk.Ascents.{AscendAnswer, ascend_lem, new_path-Shows}
use minweight_store_cpp.Patricia.Index.Puts.Contract.{PutAnswer, put_lem}
use minweight_store_cpp.Patricia.Index.Puts.Root.{EndsAt}
use minweight_store_cpp.Patricia.Index.Forest.Order.{Pairwise, positions-Pairwise}
use minweight_store_cpp.Patricia.Index.Forest.{
  Forest, no_more, record_then, child_then, IsPage, Under, Splits, Below, Holds,
}

abbrev byte_key : ℕ → Result Key
byte_key pos = if pos == 0 then err missing_key else ok (pos ∷ [])

abbrev key_of : ℕ → Key
key_of pos = pos ∷ []

abbrev root_tree : Tree
root_tree = fork 7 leaf leaf

abbrev child_tree : Tree
child_tree = fork 8 leaf leaf

abbrev child_forest : Forest
child_forest = record_then 98 (record_then 99 no_more)

abbrev root_forest : Forest
root_forest = record_then 97 (child_then 1 child_tree child_forest no_more)

abbrev page_of : ℕ → ℕ → ℕ → NodePage
page_of d first second = record {
  size = 2;
  first_pos = 97;
  last_pos = 99;
  routes = Route.make d 1 ∷ replicate 337 0;
  reps = first ∷ second ∷ replicate 337 0;
}

abbrev root_page : NodePage
root_page = page_of 7 97 (bit_or child_tag 1)

abbrev child_page : NodePage
child_page = page_of 8 98 99

abbrev small_index : Index
small_index = record {
  nodes = record { nodes = some root_page ∷ some child_page ∷ []; free_list = []; live_count = 2 };
  root_id = 0;
  count = 3;
}

page_of-Encodes :
    (d first second : ℕ)
    → d ≤ 65535
    → Encodes (page_of d first second) (fork d leaf leaf) (replicate 337 0)
page_of-Encodes d first second h = record {
  size = refl;
  routes = refl;
  total = ap suc (length-replicate {A = ℕ} 337 0);
  fits = omega arith;
  range = (h, tt, tt);
}

root_page-IsPage : IsPage small_index.nodes 0 root_tree root_forest
unfolding get_node
root_page-IsPage = record {
  page = root_page;
  here = refl;
  pad = replicate 337 0;
  encodes = page_of-Encodes 7 97 (bit_or child_tag 1) (omega arith);
  count = refl;
  rest = replicate 337 0;
  reps = refl;
  room = ap (λ (n : ℕ). suc (suc n)) (length-replicate {A = ℕ} 337 0);
}

child_page-IsPage : IsPage small_index.nodes 1 child_tree child_forest
unfolding get_node
child_page-IsPage = record {
  page = child_page;
  here = refl;
  pad = replicate 337 0;
  encodes = page_of-Encodes 8 98 99 (omega arith);
  count = refl;
  rest = replicate 337 0;
  reps = refl;
  room = ap (λ (n : ℕ). suc (suc n)) (length-replicate {A = ℕ} 337 0);
}

-- The bits before the last two are those of "a".
first_bits :
    (f : ℕ)
    → f < 7
    → (get_diff_bit (key_of 98) f ≡ get_diff_bit (key_of 97) f)
      × (get_diff_bit (key_of 99) f ≡ get_diff_bit (key_of 97) f)
unfolding get_diff_bit
first_bits zero h = (refl, refl)
first_bits (suc zero) h = (refl, refl)
first_bits (suc (suc zero)) h = (refl, refl)
first_bits (suc (suc (suc zero))) h = (refl, refl)
first_bits (suc (suc (suc (suc zero)))) h = (refl, refl)
first_bits (suc (suc (suc (suc (suc zero))))) h = (refl, refl)
first_bits (suc (suc (suc (suc (suc (suc zero)))))) h = (refl, refl)
first_bits (suc (suc (suc (suc (suc (suc (suc f))))))) h = absurd (omega arith)

abbrev IsOneOfThree : Key → Type 0
IsOneOfThree k = (k ≡ key_of 97) ⊎ ((k ≡ key_of 98) ⊎ (k ≡ key_of 99))

same_bits :
    (k : Key) (f : ℕ) → IsOneOfThree k → f < 7 → get_diff_bit k f ≡ get_diff_bit (key_of 97) f
same_bits k f (inl e) h = rw e refl
same_bits k f (inr (inl e)) h = rw e (first_bits f h).0
same_bits k f (inr (inr e)) h = rw e (first_bits f h).1

Below-child :
    (s : ℕ) (k : Key)
    → Below key_of child_forest s k
    → ((s ≡ 0) × (k ≡ key_of 98)) ⊎ ((s ≡ 1) × (k ≡ key_of 99))
Below-child zero k (pos, u, e) = inl (refl, sym e ∙ ap key_of (sym u))
Below-child (suc zero) k (pos, u, e) = inr (refl, sym e ∙ ap key_of (sym u))
Below-child (suc (suc s)) k (pos, u, e) = absurd u

Below-root :
    (s : ℕ) (k : Key)
    → Below key_of root_forest s k
    → ((s ≡ 0) × (k ≡ key_of 97)) ⊎ ((s ≡ 1) × ((k ≡ key_of 98) ⊎ (k ≡ key_of 99)))
Below-root zero k (pos, u, e) = inl (refl, sym e ∙ ap key_of (sym u))
Below-root (suc zero) k (pos, (s, u), e) = elim (Below-child s k (pos, u, e)) [
  | inl (at, is) ↦ inr (refl, inl is)
  | inr (at, is) ↦ inr (refl, inr is)
]
Below-root (suc (suc s)) k (pos, u, e) = absurd u

three_keys : (s : ℕ) (k : Key) → Below key_of root_forest s k → IsOneOfThree k
three_keys s k b = elim (Below-root s k b) [ inl (at, is) ↦ inl is | inr (at, is) ↦ inr is ]

last_bits :
    (get_diff_bit (key_of 97) 7 ≡ 0)
    × (get_diff_bit (key_of 98) 7 ≡ 1)
    × (get_diff_bit (key_of 99) 7 ≡ 1)
    × (get_diff_bit (key_of 98) 8 ≡ 0)
    × (get_diff_bit (key_of 99) 8 ≡ 1)
unfolding get_diff_bit
last_bits = (refl, refl, refl, refl, refl)

root_tree-Splits : Splits (Below key_of root_forest) 0 root_tree
root_tree-Splits = (
  λ s k lo hi b. elim (Below-root s k b) [
    | inl (at, is) ↦ rw is last_bits.0
    | inr (at, is) ↦ absurd (omega arith)
  ],
  λ s k lo hi b. elim (Below-root s k b) [
    | inl (at, is) ↦ absurd (omega arith)
    | inr (at, inl is) ↦ rw is last_bits.1
    | inr (at, inr is) ↦ rw is last_bits.2
  ],
  λ s s' k k' f lo hi lo' hi' b b' h.
      same_bits k f (three_keys s k b) h ∙ sym (same_bits k' f (three_keys s' k' b') h),
  tt,
  tt,
)

child_tree-Splits : Splits (Below key_of child_forest) 0 child_tree
child_tree-Splits = (
  λ s k lo hi b. elim (Below-child s k b) [
    | inl (at, is) ↦ rw is last_bits.3
    | inr (at, is) ↦ absurd (omega arith)
  ],
  λ s k lo hi b. elim (Below-child s k b) [
    | inl (at, is) ↦ absurd (omega arith)
    | inr (at, is) ↦ rw is last_bits.4
  ],
  λ s s' k k' f lo hi lo' hi' b b' h.
      bits_8 f k h (child_keys s k b) ∙ sym (bits_8 f k' h (child_keys s' k' b')),
  tt,
  tt,
)
  where
    child_keys :
        (s : ℕ) (k : Key) → Below key_of child_forest s k → (k ≡ key_of 98) ⊎ (k ≡ key_of 99)
    child_keys s k b = elim (Below-child s k b) [ inl (at, is) ↦ inl is | inr (at, is) ↦ inr is ]

    bits_8 :
        (f : ℕ) (k : Key)
        → f < 8
        → (k ≡ key_of 98) ⊎ (k ≡ key_of 99)
        → get_diff_bit k f ≡ get_diff_bit (key_of 98) f
    bits_8 f k h (inl e) = rw e refl
    bits_8 f k h (inr e) = elim (ℕ_discrete f 7) [
      | yes at ↦ rw (e, at) (last_bits.2 ∙ sym last_bits.1)
      | no other ↦ rw e ((first_bits f (omega arith)).1 ∙ sym (first_bits f (omega arith)).0)
    ]

stored_keys : (s pos : ℕ) → Under root_forest s pos → byte_key pos ≡ ok (key_of pos)
stored_keys zero pos u = rw (← u) refl
stored_keys (suc zero) pos (zero, u) = rw (← u) refl
stored_keys (suc zero) pos (suc zero, u) = rw (← u) refl
stored_keys (suc zero) pos (suc (suc s), u) = absurd u
stored_keys (suc (suc s)) pos u = absurd u

-- The two pages hold the three records.
abbrev small_index_held : Holds byte_key small_index root_tree root_forest
small_index_held = record {
  root_page = root_page-IsPage;
  held = (omega arith, (omega arith, child_page-IsPage, (omega arith, (omega arith, tt)), tt));
  keys = key_of;
  stored = stored_keys;
  short = λ s pos u. check_key_size_fits (key_of pos) (omega arith);
  routes = root_tree-Splits;
  sorted = (child_tree-Splits, tt, tt);
}

byte-IsKey : (s pos : ℕ) → Under root_forest s pos → IsKey (key_of pos)
byte-IsKey zero pos u = ((omega arith, tt), omega arith)
byte-IsKey (suc zero) pos (zero, u) = ((omega arith, tt), omega arith)
byte-IsKey (suc zero) pos (suc zero, u) = ((omega arith, tt), omega arith)
byte-IsKey (suc zero) pos (suc (suc s), u) = absurd u
byte-IsKey (suc (suc s)) pos u = absurd u

-- A callback that collects the positions and always goes on.
abbrev collect : List ℕ → Key → ℕ → List ℕ × Bool
collect seen key pos = (pos ∷ seen, true)

abbrev first_frame : PutFrame
first_frame = record { id = 0; node = some 0; leaf = 1 }

path_lem_example : PathAnswer (push_frame (reset new_path) first_frame) (first_frame ∷ [])
path_lem_example =
    path_lem (push_frame (reset new_path) first_frame) (first_frame ∷ [])
      (push_frame-Shows (reset new_path) [] new_path-Shows first_frame)

get_lem_example : GetAnswer 2 byte_key small_index root_forest (key_of 98)
get_lem_example =
    get_lem byte_key small_index root_tree root_forest 2 (key_of 98) small_index_held (omega arith)

ascend_lem_example : AscendAnswer byte_key key_of collect 3 2 small_index (97 ∷ 98 ∷ 99 ∷ []) []
ascend_lem_example =
    ascend_lem byte_key collect small_index root_tree root_forest 3 2 [] small_index_held
      (omega arith) (omega arith)

positions-Pairwise_example :
    Pairwise (λ p q. compare_keys (key_of p) (key_of q) ≡ Ordering.lt) (97 ∷ 98 ∷ 99 ∷ [])
positions-Pairwise_example =
    positions-Pairwise byte_key small_index root_tree root_forest small_index_held byte-IsKey

-- The key "x" has a clear bit 7, as "a" has, and leads to it.
leads_to_first : EndsAt root_forest (tree_lookup (key_of 120) root_tree) 97
unfolding tree_lookup get_diff_bit
leads_to_first = refl

put_lem_example : PutAnswer 1 byte_key small_index root_tree root_forest (key_of 120) 120
put_lem_example =
    put_lem byte_key small_index root_tree root_forest 0 (key_of 120) 120 97 small_index_held
      ((λ e. omega (arith, e)), tt, tt) (omega arith) leads_to_first (λ e. other_byte e)
      ((omega arith, tt), omega arith) ((omega arith, tt), omega arith) refl (omega arith)
  where
    other_byte : key_of 120 ≢ key_of 97
    other_byte e = let h : 120 ≡ 97 = ap (λ (k : Key). get_or k 0 0) e in omega (arith, h)
