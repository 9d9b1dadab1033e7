-- ===== src/Patricia/Index/Forest/Leaves.antt =====
-- The routes of a page with a new leaf lead every key, the new one too, to its leaf.
use minweight_store_cpp.Base.{ℕ, ◌+◌, ◌≤◌, ◌<◌, ltb, ◌==◌, if◌then◌else◌, arith}
use minweight_store_cpp.Base.{◌≡◌, sym, ◌∙◌, inl, inr, Bool-cases, ltb→lt, ltb→le, true, false}
use native.Mathlib.Decide.{ℕ_discrete}
use minweight_store_cpp.Patricia.Key.{Key, get_diff_bit}
use minweight_store_cpp.Patricia.Page.Tree.{
  Tree, leaf, fork, leaves, tree_lookup, insert_slot, insert_leaf, leaves-insert_leaf,
}
use minweight_store_cpp.Patricia.Page.Lookup.{tree_lookup-lt}
use minweight_store_cpp.Patricia.Index.Forest.{Splits}
use minweight_store_cpp.Patricia.Index.Forest.Insertion.{
  Inserted, PartsFrom, insert_slot-le, source, Splits-beyond, Splits-within,
}

module _ {Old New : ℕ → Key → Type 0} {slot : ℕ} {key : Key} (ins : Inserted Old New slot key) where
  module _ (other : Key) (d : ℕ) (parts : PartsFrom key other d) where
    -- All keys that are there agree with the other one before `n`, and so do the new ones.
    agree_before :
        (base count s : ℕ) (k : Key) (f : ℕ)
        → ((s : ℕ) (k : Key)
            → base ≤ s
            → s < base + count
            → Old s k
            → get_diff_bit k f ≡ get_diff_bit other f)
        → base ≤ slot
        → slot ≤ base + count
        → base ≤ s
        → s < base + count + 1
        → New s k
        → f < d
        → get_diff_bit k f ≡ get_diff_bit other f
    agree_before base count s k f agrees lo hi from to new small =
        elim (source ins base count s k lo hi from to new) [
          | inl (s', from', to', near, far, old) ↦ agrees s' k from' to' old
          | inr (e, is) ↦ rw is (parts.agree f small)
        ]

    module _ (base : ℕ) (t : Tree)
        (agrees : (s : ℕ) (k : Key) (f : ℕ)
          → base ≤ s
          → s < base + leaves t
          → Old s k
          → f ≤ d
          → get_diff_bit k f ≡ get_diff_bit other f)
        (w : Splits Old base t) where
      fork_agrees :
          (s s' : ℕ) (k k' : Key) (f : ℕ)
          → base ≤ slot
          → slot ≤ base + leaves t
          → base ≤ s
          → s < base + leaves t + 1
          → base ≤ s'
          → s' < base + leaves t + 1
          → New s k
          → New s' k'
          → f < d
          → get_diff_bit k f ≡ get_diff_bit k' f
      fork_agrees s s' k k' f lo hi from to from' to' new new' small =
          agree_before base (leaves t) s k f (λ s k a b o. agrees s k f a b o (omega arith)) lo hi
            from to new small
          ∙ sym (
              agree_before base (leaves t) s' k' f (λ s k a b o. agrees s k f a b o (omega arith))
                lo hi from' to' new' small)

      -- Keys that agree with the other one up to `d` stand on its side of the new fork.
      fork_left :
          slot ≡ base
          → get_diff_bit key d ≡ 0
          → get_diff_bit other d ≡ 1
          → Splits New base (fork d leaf t)
      fork_left at clear is_set = (
        λ s k from to new. let e : s ≡ slot = omega arith in rw (ins.here k (rw e at new)) clear,
        λ s k from to new.
            elim (source ins base (leaves t) s k (omega arith) (omega arith) (omega arith)
              (omega arith) new) [
                | inl (s', from', to', near, far, old) ↦
                    agrees s' k d from' to' old (omega arith) ∙ is_set
                | inr (e, is) ↦ absurd (omega arith)
              ],
        λ s s' k k' f from to from' to' new new' small.
            fork_agrees s s' k k' f (omega arith) (omega arith) from (omega arith) from'
              (omega arith) new new' small,
        tt,
        Splits-beyond ins base t (omega arith) w,
      )

      fork_right :
          slot ≡ base + leaves t
          → get_diff_bit key d ≡ 1
          → get_diff_bit other d ≡ 0
          → Splits New base (fork d t leaf)
      fork_right at is_set clear = (
        λ s k from to new.
            agrees s k d from to (ins.before s k (omega arith) new) (omega arith) ∙ clear,
        λ s k from to new. let e : s ≡ slot = omega arith in rw (ins.here k (rw e at new)) is_set,
        λ s s' k k' f from to from' to' new new' small.
            fork_agrees s s' k k' f (omega arith) (omega arith) from (omega arith) from'
              (omega arith) new new' small,
        Splits-within ins base t (omega arith) w,
        tt,
      )

      -- At the slot on the key's side.
      new_fork :
          slot ≡ base + (if get_diff_bit key d == 0 then 0 else leaves t)
          → Splits New base (if get_diff_bit key d == 0 then fork d leaf t else fork d t leaf)
      new_fork at = elim parts.differ [
        | inl (clear, is_set) ↦
            let z : (get_diff_bit key d == 0) ≡ true = ground arith in
            let here = rw z at at in rw z (fork_left (omega arith) clear is_set)
        | inr (is_set, clear) ↦
            let z : (get_diff_bit key d == 0) ≡ false = ground arith in
            let here = rw z at at in rw z (fork_right here is_set clear)
      ]

    one_leaf :
        (base : ℕ)
        → ((k : Key) (f : ℕ) → Old (base + 0) k → f ≤ d → get_diff_bit k f ≡ get_diff_bit other f)
        → (s : ℕ) (k : Key) (f : ℕ) → base ≤ s
        → s < base + 1
        → Old s k
        → f ≤ d
        → get_diff_bit k f ≡ get_diff_bit other f
    one_leaf base alike s k f from to old small =
        let e : s ≡ base + 0 = omega arith in alike k f (rw e at old) small

    -- A fork on the way tests a bit before `d`, on which the two keys agree.
    earlier : (e : ℕ) → e ≤ d → (e ≡ d → get_diff_bit key e ≡ get_diff_bit other e) → e < d
    earlier e le alike = elim (ℕ_discrete e d) [
      | no ne ↦ omega arith
      | yes same ↦
          let both : get_diff_bit key d ≡ get_diff_bit other d = rw same at (alike same) in
          absurd (omega (arith, both, parts.differ))
    ]

    both_agree :
        (base count spot e : ℕ)
        → base ≤ slot
        → slot ≤ base + count
        → base ≤ spot
        → spot < base + count
        → Old spot other
        → e < d
        → ((s s' : ℕ) (k k' : Key) (f : ℕ)
            → base ≤ s
            → s < base + count
            → base ≤ s'
            → s' < base + count
            → Old s k
            → Old s' k'
            → f < e
            → get_diff_bit k f ≡ get_diff_bit k' f)
        → (s s' : ℕ) (k k' : Key) (f : ℕ) → base ≤ s
        → s < base + count + 1
        → base ≤ s'
        → s' < base + count + 1
        → New s k
        → New s' k'
        → f < e
        → get_diff_bit k f ≡ get_diff_bit k' f
    both_agree base count spot e lo hi in_lo in_hi found early agree s s' k k' f from to from' to'
          new new' small =
        let one = λ (s : ℕ) (k : Key) (a : base ≤ s) (b : s < base + count) (old : Old s k).
          agree s spot k other f a b in_lo in_hi old found small in
        agree_before base count s k f one lo hi from to new (omega arith)
        ∙ sym (agree_before base count s' k' f one lo hi from' to' new' (omega arith))

    on_left :
        (base e : ℕ) (l r : Tree)
        → Splits Old base (fork e l r)
        → e ≤ d
        → get_diff_bit key e ≡ 0
        → Old (base + tree_lookup key l) other
        → slot ≡ base + insert_slot key d l
        → Splits New base (insert_leaf key d l)
        → Splits New base (fork e (insert_leaf key d l) r)
    on_left base e l r (left, right, agree, wl, wr) le clear found at new_l =
        let inside = tree_lookup-lt key l in
        let low = insert_slot-le key d l in
        let more = leaves-insert_leaf key d l in
        let its = left (base + tree_lookup key l) other (omega arith) (omega arith) found in
        let before = earlier e le (λ same. clear ∙ sym its) in
        (
          λ s k from to new.
              elim (source ins base (leaves l) s k (omega arith) (omega arith) from (omega arith)
                new) [
                  | inl (s', from', to', near, far, old) ↦ left s' k from' to' old
                  | inr (same, is) ↦ rw is clear
                ],
          λ s k from to new.
              elim (source ins base (leaves l + leaves r) s k (omega arith) (omega arith)
                (omega arith) (omega arith) new) [
                  | inl (s', from', to', near, far, old) ↦ right s' k (omega arith) to' old
                  | inr (same, is) ↦ absurd (omega arith)
                ],
          λ s s' k k' f from to from' to' new new' small.
              both_agree base (leaves l + leaves r) (base + tree_lookup key l) e (omega arith)
                (omega arith) (omega arith) (omega arith) found before agree s s' k k' f from
                (omega arith) from' (omega arith) new new' small,
          new_l,
          let shifted : base + leaves l + 1 ≡ base + leaves (insert_leaf key d l) = omega arith in
              rw (← shifted) (Splits-beyond ins (base + leaves l) r (omega arith) wr),
        )

    set_here : (e : ℕ) → e ≡ d → (get_diff_bit key e ≡ 0 → ⊥) → get_diff_bit key e ≡ 1
    set_here e same is_set = elim parts.differ [
      | inl (clear, high) ↦ absurd (is_set (rw same clear))
      | inr (high, clear) ↦ rw same high
    ]

    on_right :
        (base e : ℕ) (l r : Tree)
        → Splits Old base (fork e l r)
        → e ≤ d
        → Old (base + leaves l + tree_lookup key r) other
        → slot ≡ base + leaves l + insert_slot key d r
        → (get_diff_bit key e ≡ 0 → ⊥)
        → Splits New (base + leaves l) (insert_leaf key d r)
        → Splits New base (fork e l (insert_leaf key d r))
    on_right base e l r (left, right, agree, wl, wr) le found at is_set new_r =
        let inside = tree_lookup-lt key r in
        let low = insert_slot-le key d r in
        let more = leaves-insert_leaf key d r in
        let spot = base + leaves l + tree_lookup key r in
        let its = right spot other (omega arith) (omega arith) found in
        let before = earlier e le (λ same. set_here e same is_set ∙ sym its) in
        (
          λ s k from to new. left s k from to (ins.before s k (omega arith) new),
          λ s k from to new.
              elim (source ins (base + leaves l) (leaves r) s k (omega arith) (omega arith) from
                (omega arith) new) [
                  | inl (s', from', to', near, far, old) ↦ right s' k from' (omega arith) old
                  | inr (same, is) ↦ rw is (parts.agree e before ∙ its)
                ],
          λ s s' k k' f from to from' to' new new' small.
              both_agree base (leaves l + leaves r) spot e (omega arith) (omega arith) (omega arith)
                (omega arith) found before agree s s' k k' f from (omega arith) from' (omega arith)
                new new' small,
          Splits-within ins base l (omega arith) wl,
          new_r,
        )

    -- Where the key goes on the way to `other`, that is the other key's way too.
    pub insert_leaf-Splits :
        (base : ℕ) (t : Tree)
        → Splits Old base t
        → Old (base + tree_lookup key t) other
        → ((k : Key) (f : ℕ)
            → Old (base + tree_lookup key t) k
            → f ≤ d
            → get_diff_bit k f ≡ get_diff_bit other f)
        → slot ≡ base + insert_slot key d t
        → Splits New base (insert_leaf key d t)
    unfolding insert_leaf insert_slot tree_lookup
    insert_leaf-Splits base leaf w found alike at = elim parts.differ [
      | inl (clear, is_set) ↦
          let z : (get_diff_bit key d == 0) ≡ true = ground arith in
          let here = rw z at at in
          fork_left base leaf (one_leaf base alike) tt (omega arith) clear is_set
      | inr (is_set, clear) ↦
          let z : (get_diff_bit key d == 0) ≡ false = ground arith in
          let here = rw z at at in fork_right base leaf (one_leaf base alike) tt here is_set clear
    ]
    insert_leaf-Splits base (fork e l r) (left, right, agree, wl, wr) found alike at =
        let inside = tree_lookup-lt key (fork e l r) in
        elim (Bool-cases (ltb d e)) [
          | inl above ↦
              let there = rw above at at in
              rw above (
                new_fork base (fork e l r)
                  (λ s k f from to old small.
                    agree s (base + tree_lookup key (fork e l r)) k other f from to (omega arith)
                      (omega arith) old found (omega (arith, ltb→lt d e above)))
                  (left, right, agree, wl, wr) there)
          | inr below ↦ elim (Bool-cases (get_diff_bit key e == 0)) [
            | inl clear ↦
                let there = rw (below, clear) at at in
                rw (below, clear)
                  (on_left base e l r (left, right, agree, wl, wr) (ltb→le d e below) (ground arith)
                    (rw clear at found) there
                    (insert_leaf-Splits base l wl (rw clear at found)
                      (λ k f old small. alike k f (rw clear old) small) there))
            | inr is_set ↦
                let e1 : base + (leaves l + tree_lookup key r)
                    ≡ base + leaves l + tree_lookup key r =
                  omega arith in
                let there = rw (below, is_set) at at in
                let place : slot ≡ base + leaves l + insert_slot key d r = omega arith in
                let here = rw e1 at (rw is_set at found) in
                rw (below, is_set)
                  (on_right base e l r (left, right, agree, wl, wr) (ltb→le d e below) here place
                    (ground arith)
                    (insert_leaf-Splits (base + leaves l) r wr here
                      (λ k f old small. alike k f (rw (is_set, e1) old) small) place))
          ]
        ]
