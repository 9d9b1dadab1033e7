-- ===== src/Patricia/Index/Forest/Growth.antt =====
-- A page with one record more.
use minweight_store_cpp.Base.{ℕ, zero, suc, ◌+◌, ◌-◌, ◌≤◌, ◌<◌, arith}
use minweight_store_cpp.Base.{
  ◌∷◌, ◌++◌, length, take, drop, ◌≡◌, sym, ap, ◌∙◌, refl, bit_or, inl, inr, ◌≢◌, ◌⊎◌, leb, some,
  none, false, length-set,
}
use mathlib.Core.Path.{subst}
use native.Mathlib.Decide.{dec_lt, ℕ_discrete}
use minweight_store_cpp.Base.Slots.{get_or-set_self, get_or-set_ne}
use minweight_store_cpp.Patricia.Status.{ok}
use minweight_store_cpp.Patricia.Key.{Key}
use minweight_store_cpp.Patricia.Route.{child_tag}
use minweight_store_cpp.Patricia.Page.{NodePage}
use minweight_store_cpp.Patricia.Page.Tree.{Tree}
use minweight_store_cpp.Patricia.Nodes.{HeapNodeStore, get_node}
use minweight_store_cpp.Patricia.Index.Act.{set_page}
use minweight_store_cpp.Patricia.Index.Forest.{
  Forest, no_more, record_then, child_then, entries, reps_of, IsPage, Held, Under, Below, Sorted,
}
use minweight_store_cpp.Patricia.Index.Forest.Insertion.{Inserted, Splits-shift}

abbrev pub insert_record : ℕ → ℕ → Forest → Forest
insert_record zero pos f = record_then pos f
insert_record (suc n) pos no_more = record_then pos no_more
insert_record (suc n) pos (record_then p rest) = record_then p (insert_record n pos rest)
insert_record (suc n) pos (child_then id t child rest) =
    child_then id t child (insert_record n pos rest)

pub entries-insert_record :
    (n pos : ℕ) (f : Forest) → entries (insert_record n pos f) ≡ suc (entries f)
entries-insert_record zero pos f = refl
entries-insert_record (suc n) pos no_more = refl
entries-insert_record (suc n) pos (record_then p rest) = ap suc (entries-insert_record n pos rest)
entries-insert_record (suc n) pos (child_then id t child rest) =
    ap suc (entries-insert_record n pos rest)

pub length-reps_of : (f : Forest) → length (reps_of f) ≡ entries f
length-reps_of no_more = refl
length-reps_of (record_then p rest) = ap suc (length-reps_of rest)
length-reps_of (child_then id t child rest) = ap suc (length-reps_of rest)

pub reps_of-insert_record :
    (n pos : ℕ) (f : Forest)
    → n ≤ entries f
    → reps_of (insert_record n pos f) ≡ take n (reps_of f) ++ pos ∷ drop n (reps_of f)
reps_of-insert_record zero pos f h = refl
reps_of-insert_record (suc n) pos no_more h = absurd (omega arith)
reps_of-insert_record (suc n) pos (record_then p rest) h =
    ap (λ t. p ∷ t) (reps_of-insert_record n pos rest (omega arith))
reps_of-insert_record (suc n) pos (child_then id t child rest) h =
    ap (λ t. bit_or child_tag id ∷ t) (reps_of-insert_record n pos rest (omega arith))

-- The entries before the slot are as they were, and those behind it one further.
Under-before :
    (n pos s p : ℕ) (f : Forest)
    → s < n
    → n ≤ entries f
    → Under (insert_record n pos f) s p
    → Under f s p
Under-before zero pos s p f lt h u = absurd (omega arith)
Under-before (suc n) pos s p no_more lt h u = absurd (omega arith)
Under-before (suc n) pos zero p (record_then q rest) lt h u = u
Under-before (suc n) pos (suc s) p (record_then q rest) lt h u =
    Under-before n pos s p rest (omega arith) (omega arith) u
Under-before (suc n) pos zero p (child_then id t child rest) lt h u = u
Under-before (suc n) pos (suc s) p (child_then id t child rest) lt h u =
    Under-before n pos s p rest (omega arith) (omega arith) u

Under-here :
    (n pos p : ℕ) (f : Forest) → n ≤ entries f → Under (insert_record n pos f) n p → pos ≡ p
Under-here zero pos p f h u = u
Under-here (suc n) pos p no_more h u = absurd (omega arith)
Under-here (suc n) pos p (record_then q rest) h u = Under-here n pos p rest (omega arith) u
Under-here (suc n) pos p (child_then id t child rest) h u = Under-here n pos p rest (omega arith) u

Under-behind :
    (n pos s p : ℕ) (f : Forest)
    → n ≤ s
    → n ≤ entries f
    → Under (insert_record n pos f) (suc s) p
    → Under f s p
Under-behind zero pos s p f lt h u = u
Under-behind (suc n) pos s p no_more lt h u = absurd (omega arith)
Under-behind (suc n) pos zero p (record_then q rest) lt h u = absurd (omega arith)
Under-behind (suc n) pos (suc s) p (record_then q rest) lt h u =
    Under-behind n pos s p rest (omega arith) (omega arith) u
Under-behind (suc n) pos zero p (child_then id t child rest) lt h u = absurd (omega arith)
Under-behind (suc n) pos (suc s) p (child_then id t child rest) lt h u =
    Under-behind n pos s p rest (omega arith) (omega arith) u

-- Every record of the new page is the new one or was there.
pub Under-insert_record :
    (n pos s p : ℕ) (f : Forest)
    → n ≤ entries f
    → Under (insert_record n pos f) s p
    → (pos ≡ p) ⊎ ((s' : ℕ) × Under f s' p)
Under-insert_record n pos s p f h u = elim (dec_lt s n) [
  | yes low ↦ inr (s, Under-before n pos s p f low h u)
  | no ge ↦ elim (ℕ_discrete s n) [
    | yes e ↦ inl (Under-here n pos p f h (subst (λ m. Under (insert_record n pos f) m p) e u))
    | no ne ↦
        let up : s ≡ suc (s - 1) = omega arith in
        inr (
          s - 1,
          Under-behind n pos (s - 1) p f (omega arith) h
              (subst (λ m. Under (insert_record n pos f) m p) up u),
        )
  ]
]

module _ (keys keys' : ℕ → Key) where
  abbrev pub SameKeys : Forest → Type 0
  SameKeys f = (s p : ℕ) → Under f s p → keys' p ≡ keys p

  pub Inserted-insert_record :
      (n pos : ℕ) (key : Key) (f : Forest)
      → n ≤ entries f
      → SameKeys f
      → keys' pos ≡ key
      → Inserted (Below keys f) (Below keys' (insert_record n pos f)) n key
  Inserted-insert_record n pos key f h same its = record {
    before =
        λ s k lt (p, u, e). let v = Under-before n pos s p f lt h u in (p, v, sym (same s p v) ∙ e);
    here = λ k (p, u, e). sym e ∙ ap keys' (sym (Under-here n pos p f h u)) ∙ its;
    behind =
        λ s k le (p, u, e). let v = Under-behind n pos s p f le h u in (p, v, sym (same s p v) ∙ e);
  }

  Sorted-keys : (f : Forest) → SameKeys f → Sorted keys f → Sorted keys' f
  Sorted-keys no_more same w = tt
  Sorted-keys (record_then p rest) same w = Sorted-keys rest (λ s p u. same (suc s) p u) w
  Sorted-keys (child_then id t child rest) same (split, below, w) = (
    Splits-shift (Below keys child) (Below keys' child) 0 0 t
        (λ i k lt (p, u, e).
          let v : Under child (0 + i) p = u in (p, v, sym (same 0 p (0 + i, v)) ∙ e))
        split,
    Sorted-keys child (λ s p u. same 0 p (s, u)) below,
    Sorted-keys rest (λ s p u. same (suc s) p u) w,
  )

  Sorted-grown : (n pos : ℕ) (f : Forest) → Sorted keys' f → Sorted keys' (insert_record n pos f)
  Sorted-grown zero pos f w = w
  Sorted-grown (suc n) pos no_more w = tt
  Sorted-grown (suc n) pos (record_then p rest) w = Sorted-grown n pos rest w
  Sorted-grown (suc n) pos (child_then id t child rest) (split, below, w) =
      (split, below, Sorted-grown n pos rest w)

  pub Sorted-insert_record :
      (n pos : ℕ) (f : Forest) → SameKeys f → Sorted keys f → Sorted keys' (insert_record n pos f)
  Sorted-insert_record n pos f same w = Sorted-grown n pos f (Sorted-keys f same w)

-- No page below has this id.
abbrev pub Apart : ℕ → Forest → Type 0
Apart root no_more = Unit {0}
Apart root (record_then p rest) = Apart root rest
Apart root (child_then id t child rest) = (id ≢ root) × Apart root child × Apart root rest

module _ (nodes : HeapNodeStore) (root : ℕ) (page : NodePage) where
  get_node-set_ne :
      (id : ℕ) → id ≢ root → get_node (set_page nodes root page) id ≡ get_node nodes id
  unfolding get_node
  get_node-set_ne id ne =
      let l = length-set nodes.nodes root (some page) in
      let r = get_or-set_ne nodes.nodes root id (some page) none (λ e. ne (sym e)) in rw (l, r) refl

  pub get_node-set_self :
      root < length nodes.nodes → get_node (set_page nodes root page) root ≡ ok page
  unfolding get_node
  get_node-set_self lt =
      let l = length-set nodes.nodes root (some page) in
      let r = get_or-set_self nodes.nodes root (some page) none lt in
      let t : leb (length nodes.nodes) root ≡ false = ground arith in rw (l, t, r) refl

  IsPage-set_ne :
      (id : ℕ) (t : Tree) (f : Forest)
      → id ≢ root
      → IsPage nodes id t f
      → IsPage (set_page nodes root page) id t f
  IsPage-set_ne id t f ne is = record {
    page = is.page;
    here = get_node-set_ne id ne ∙ is.here;
    pad = is.pad;
    encodes = is.encodes;
    count = is.count;
    rest = is.rest;
    reps = is.reps;
    room = is.room;
  }

  pub Held-set_ne : (f : Forest) → Apart root f → Held nodes f → Held (set_page nodes root page) f
  Held-set_ne no_more a h = tt
  Held-set_ne (record_then p rest) a (small, h) = (small, Held-set_ne rest a h)
  Held-set_ne (child_then id t child rest) (ne, ac, a) (small, is, hc, h) =
      (small, IsPage-set_ne id t child ne is, Held-set_ne child ac hc, Held-set_ne rest a h)

pub Held-insert_record :
    (nodes : HeapNodeStore) (n pos : ℕ) (f : Forest)
    → pos < child_tag
    → Held nodes f
    → Held nodes (insert_record n pos f)
Held-insert_record nodes zero pos f small h = (small, h)
Held-insert_record nodes (suc n) pos no_more small h = (small, tt)
Held-insert_record nodes (suc n) pos (record_then p rest) small (lt, h) =
    (lt, Held-insert_record nodes n pos rest small h)
Held-insert_record nodes (suc n) pos (child_then id t child rest) small (lt, is, hc, h) =
    (lt, is, hc, Held-insert_record nodes n pos rest small h)
