-- ===== src/Patricia/Index/Gets.antt =====
-- index.h: `Probe` and `Get` on a tree of pages.
use Prim.Native.Nat.{Ordering}
use minweight_store_cpp.Base.{ℕ, zero, suc, ◌+◌, ◌≤◌, ◌<◌, ltb, ltb→lt, ltb→le, bit_or, arith}
use minweight_store_cpp.Base.{some, get_elem?, get_elem?-eq_some, ◌≡◌, ◌≢◌, sym, ap, ◌∙◌}
use minweight_store_cpp.Base.{refl, true, false, inl, inr, Bool-cases}
use minweight_store_cpp.Base.Prefixes.{get_elem?-append_lt}
use minweight_store_cpp.Patricia.Status.{Result, ok, err, StatusCode, ok-injective}
use minweight_store_cpp.Patricia.Key.{Key, check_key_size, compare_keys}
use minweight_store_cpp.Patricia.Key.Order.{compare_keys-lex, lex_refl, lex_injective}
use minweight_store_cpp.Patricia.Route
use minweight_store_cpp.Patricia.Route.{child_tag}
use minweight_store_cpp.Patricia.Route.Reps.{record_rep, child_rep}
use minweight_store_cpp.Patricia.Page.Tree.{Tree, leaf, fork, leaves, tree_lookup}
use minweight_store_cpp.Patricia.Page.Lookup.{lookup-tree, tree_lookup-lt}
use minweight_store_cpp.Patricia.Nodes.{HeapNodeStore}
use minweight_store_cpp.Patricia.Index.{Index, ProbeResult}
use minweight_store_cpp.Patricia.Index.Read.{probe_from, probe, key_at, get, is_eq}
use minweight_store_cpp.Patricia.Index.Forest.{
  Forest, no_more, record_then, child_then, entries, reps_of, depth, one-le-depth, IsPage, Held,
  find_in, Under, Under-lt, Splits, Below, Sorted, Holds,
}

-- A key below a leaf leads to that leaf.
tree_lookup-Splits :
    (In : ℕ → Key → Type 0) (base : ℕ) (t : Tree) (s : ℕ) (key : Key)
    → Splits In base t
    → base ≤ s
    → s < base + leaves t
    → In s key
    → base + tree_lookup key t ≡ s
unfolding tree_lookup
tree_lookup-Splits In base leaf s key w lo hi h = omega arith
tree_lookup-Splits In base (fork d l r) s key (left, right, agree, wl, wr) lo hi h =
    elim (Bool-cases (ltb s (base + leaves l))) [
      | inl low ↦
          let lt = ltb→lt s _ low in
          let clear = left s key lo lt h in rw clear (tree_lookup-Splits In base l s key wl lo lt h)
      | inr high ↦
          let ge = ltb→le s _ high in
          let is_set = right s key ge hi h in
          rw is_set
            (omega (arith, tree_lookup-Splits In (base + leaves l) r s key wr ge (omega arith) h))
    ]

-- The search for the key of a record below a page leads to the record.
find_in-Under :
    (nodes : HeapNodeStore) (keys : ℕ → Key) (f : Forest) (s pos : ℕ)
    → Held nodes f
    → Sorted keys f
    → Under f s pos
    → find_in (keys pos) s f ≡ some pos
find_in-Under nodes keys no_more s pos h w u = absurd u
find_in-Under nodes keys (record_then p rest) zero pos h w u = ap some u
find_in-Under nodes keys (record_then p rest) (suc s) pos h w u =
    find_in-Under nodes keys rest s pos h.1 w u
find_in-Under nodes keys (child_then id t child rest) zero pos (lt, is, h, hr) (split, below, w)
      (s, u) =
    let inside = Under-lt child s pos u in
    let to : 0 + tree_lookup (keys pos) t ≡ s =
      tree_lookup-Splits (Below keys child) 0 t s (keys pos) split (omega arith)
        (omega (arith, is.count)) (pos, u, refl) in
    let there : tree_lookup (keys pos) t ≡ s = omega arith in
    rw there (find_in-Under nodes keys child s pos h below u)
find_in-Under nodes keys (child_then id t child rest) (suc s) pos (lt, is, h, hr) (split, below, w)
      u =
    find_in-Under nodes keys rest s pos hr w u

abbrev pub found_at : ℕ → ProbeResult
found_at pos = record { pos = pos; found = true }

-- What `Probe` does at an entry.
abbrev pub at_rep : ℕ → HeapNodeStore → Key → ℕ → Result ProbeResult
at_rep rounds nodes key rep = elim (Route.is_child rep) [
  | true ↦ probe_from rounds nodes (Route.child_id rep) key
  | false ↦ ok (record { pos = Route.position rep; found = true })
]

abbrev pub Enters : ℕ → HeapNodeStore → Key → Forest → ℕ → Type 0
Enters rounds nodes key f s =
    (rep pos : ℕ) × (get_elem? (reps_of f) s ≡ some rep)
    × (find_in key s f ≡ some pos)
    × (at_rep rounds nodes key rep ≡ ok (found_at pos))

-- A page whose entries can be entered can be searched.
probe_page :
    (rounds : ℕ) (nodes : HeapNodeStore) (key : Key) (id : ℕ) (t : Tree) (f : Forest)
    → IsPage nodes id t f
    → ((s : ℕ) → s < entries f → Enters rounds nodes key f s)
    → (pos : ℕ) × (find_in key (tree_lookup key t) f ≡ some pos)
      × (probe_from (suc rounds) nodes id key ≡ ok (found_at pos))
unfolding probe_from
probe_page rounds nodes key id t f is enter =
    let slot = tree_lookup key t in
    let inside : slot < entries f = omega (arith, tree_lookup-lt key t, is.count) in
    let (rep, pos, read, to, run) = enter slot inside in
    let looked = lookup-tree is.page t is.pad key is.encodes in
    let e = is.reps in
    let here = is.here in
    let there : get_elem? is.page.reps slot ≡ some rep = rw e (
      get_elem?-append_lt (reps_of f) is.rest slot (get_elem?-eq_some (reps_of f) slot rep read)
      ∙ read) in
    (pos, to, rw (here, looked, there) run)

enter-Held :
    (rounds : ℕ) (nodes : HeapNodeStore) (key : Key) (f : Forest) (s : ℕ)
    → Held nodes f
    → depth f ≤ suc rounds
    → s < entries f
    → Enters rounds nodes key f s
enter-Held rounds nodes key no_more s h deep lt = absurd (omega arith)
enter-Held rounds nodes key (record_then pos rest) zero (small, h) deep lt =
    let (is, at) = record_rep pos small in (pos, pos, refl, refl, rw (is, at, at_rep) refl)
enter-Held rounds nodes key (record_then pos rest) (suc s) (small, h) deep lt =
    enter-Held rounds nodes key rest s h deep (omega arith)
enter-Held zero nodes key (child_then id t child rest) zero (small, is, h, hr) deep lt =
    absurd (omega (arith, one-le-depth child))
enter-Held (suc rounds) nodes key (child_then id t child rest) zero (small, is, h, hr) deep lt =
    let (tagged, at) = child_rep id small in
    let (pos, to, run) =
      probe_page rounds nodes key id t child is
        (λ s lt. enter-Held rounds nodes key child s h (omega arith) lt) in
    (bit_or child_tag id, pos, refl, to, rw (tagged, at, at_rep) run)
enter-Held rounds nodes key (child_then id t child rest) (suc s) (small, is, h, hr) deep lt =
    enter-Held rounds nodes key rest s hr (omega arith) (omega arith)

-- The record that the search finds is below the entry.
Under-find_in :
    (key : Key) (s : ℕ) (f : Forest) (pos : ℕ) → find_in key s f ≡ some pos → Under f s pos
Under-find_in key s no_more pos e = absurd cc
Under-find_in key zero (record_then p rest) pos e = cc
Under-find_in key (suc s) (record_then p rest) pos e = Under-find_in key s rest pos e
Under-find_in key zero (child_then id t child rest) pos e =
    (tree_lookup key t, Under-find_in key (tree_lookup key t) child pos e)
Under-find_in key (suc s) (child_then id t child rest) pos e = Under-find_in key s rest pos e

abbrev pub not_found : ProbeResult
not_found = record { pos = 0; found = false }

-- What `Get` answers: the error for a key that is too long; otherwise the position of the record with
-- this key, or nothing if no record has it.
abbrev pub GetAnswer : ℕ → (ℕ → Result Key) → Index → Forest → Key → Type 0
GetAnswer rounds records index f key =
    ((e : StatusCode) → check_key_size key ≡ err e → get records rounds index key ≡ err e)
    × ((s pos : ℕ)
        → Under f s pos
        → records pos ≡ ok key
        → get records rounds index key ≡ ok (found_at pos))
    × (check_key_size key ≡ ok tt
        → ((s pos : ℕ) → Under f s pos → records pos ≢ ok key)
        → get records rounds index key ≡ ok not_found)

is_eq_refl : (key : Key) → is_eq (compare_keys key key) ≡ true
is_eq_refl key = rw (compare_keys-lex key key, lex_refl key) refl

is_eq_lem : (o : Ordering) → is_eq o ≡ true → o ≡ Ordering.eq
is_eq_lem Ordering.lt h = cc
is_eq_lem Ordering.eq h = refl
is_eq_lem Ordering.gt h = cc

pub is_eq-ne : (a b : Key) → a ≢ b → is_eq (compare_keys a b) ≡ false
is_eq-ne a b ne = elim (Bool-cases (is_eq (compare_keys a b))) [
  | inr differ ↦ differ
  | inl same ↦
      absurd
        (ne (lex_injective a b (sym (compare_keys-lex a b) ∙ is_eq_lem (compare_keys a b) same)))
]

module _ (records : ℕ → Result Key) (index : Index) (t : Tree) (f : Forest) (rounds : ℕ)
    (w : Holds records index t f) (deep : depth f ≤ rounds) where
  search :
      (rounds : ℕ) (key : Key)
      → depth f ≤ rounds
      → (pos : ℕ) × (find_in key (tree_lookup key t) f ≡ some pos)
        × (probe_from rounds index.nodes index.root_id key ≡ ok (found_at pos))
  search zero key deep = absurd (omega (arith, one-le-depth f))
  search (suc rounds) key deep =
      probe_page rounds index.nodes key index.root_id t f w.root_page
        (λ s lt. enter-Held rounds index.nodes key f s w.held deep lt)

  probe-Holds :
      (key : Key)
      → check_key_size key ≡ ok tt
      → (pos : ℕ) × (find_in key (tree_lookup key t) f ≡ some pos)
        × (probe rounds index key ≡ ok (found_at pos))
  unfolding probe
  probe-Holds key fits = let (pos, to, run) = search rounds key deep in (pos, to, rw fits run)

  -- A search ends at some record of the index, whose key `Get` compares.
  get-probe :
      (key : Key) (pos : ℕ)
      → find_in key (tree_lookup key t) f ≡ some pos
      → probe rounds index key ≡ ok (found_at pos)
      → get records rounds index key ≡ elim (is_eq (compare_keys (w.keys pos) key)) [
        | true ↦ ok (found_at pos)
        | false ↦ ok not_found
      ]
  unfolding get key_at
  get-probe key pos to run =
      let under = Under-find_in key (tree_lookup key t) f pos to in
      let read = w.stored (tree_lookup key t) pos under in
      let fits = w.short (tree_lookup key t) pos under in rw (run, read, fits) refl

  -- A search for the key of a record ends there.
  hit :
      (key : Key) (s pos p : ℕ)
      → Under f s pos
      → w.keys pos ≡ key
      → find_in key (tree_lookup key t) f ≡ some p
      → p ≡ pos
  hit key s pos p under mine to =
      let is = w.root_page in
      let lt = Under-lt f s pos under in
      let leads : 0 + tree_lookup key t ≡ s =
        tree_lookup-Splits (Below w.keys f) 0 t s key w.routes (omega arith)
          (omega (arith, is.count)) (pos, under, mine) in
      let slot : tree_lookup key t ≡ s = omega arith in
      let found : find_in key s f ≡ some pos =
        rw (← mine) (find_in-Under index.nodes w.keys f s pos w.held w.sorted under) in
      let same = rw slot at to in cc

-- `Get` on an index whose pages form a tree ends, with one round for each page on the longest way
-- down, and its answer is that of a map from keys to positions.
pub get_lem :
    (records : ℕ → Result Key) (index : Index) (t : Tree) (f : Forest) (rounds : ℕ) (key : Key)
    → Holds records index t f
    → depth f ≤ rounds
    → GetAnswer rounds records index f key
unfolding get probe
get_lem records index t f rounds key w deep = (
  λ e long. rw long refl,
  λ s pos under read.
      let mine : w.keys pos ≡ key = ok-injective (sym (w.stored s pos under) ∙ read) in
      let fits : check_key_size key ≡ ok tt = rw (← mine) (w.short s pos under) in
      let (p, to, run) = probe-Holds records index t f rounds w deep key fits in
      let there : p ≡ pos = hit records index t f rounds w deep key s pos p under mine to in
      let its : w.keys p ≡ key = ap w.keys there ∙ mine in
      let same : is_eq (compare_keys (w.keys p) key) ≡ true = rw its (is_eq_refl key) in
      get-probe records index t f rounds w deep key p to run
      ∙ rw same (ap (λ q. ok (found_at q)) there),
  λ fits none_has.
      let (p, to, run) = probe-Holds records index t f rounds w deep key fits in
      let under = Under-find_in key (tree_lookup key t) f p to in
      let other : w.keys p ≢ key = λ same. none_has _ p under (w.stored _ p under ∙ ap ok same) in
      get-probe records index t f rounds w deep key p to run
      ∙ rw (is_eq-ne (w.keys p) key other) refl,
)
