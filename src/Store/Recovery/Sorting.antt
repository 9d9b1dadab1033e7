-- ===== src/Store/Recovery/Sorting.antt =====
-- store.cc, `ReplayAll`: the file numbers in rising order.
use minweight_store_cpp.Base.{ℕ, ◌≤◌, leb, leb→le, Bool-cases, inl, inr, List, [], ◌∷◌, All, arith}
use mathlib.Core.List.{Perm}
use mathlib.Core.List.Perm
use minweight_store_cpp.Store.Recovery.{insert_id, sort_ids}

module _ (P : ℕ → Type 0) where
  insert_id-All : (id : ℕ) (ids : List ℕ) → P id → All P ids → All P (insert_id id ids)
  unfolding insert_id
  insert_id-All id [] p ps = (p, tt)
  insert_id-All id (x ∷ ids) p (px, ps) = elim (Bool-cases (leb id x)) [
    | inl e ↦ rw e (p, (px, ps))
    | inr e ↦ rw e (px, insert_id-All id ids p ps)
  ]

  pub sort_ids-All : (ids : List ℕ) → All P ids → All P (sort_ids ids)
  unfolding sort_ids
  sort_ids-All [] ps = tt
  sort_ids-All (id ∷ ids) (p, ps) = insert_id-All id (sort_ids ids) p (sort_ids-All ids ps)

-- The numbers rise.
abbrev pub Rising : List ℕ → Type 0
Rising [] = Unit {0}
Rising (id ∷ ids) = All (λ x. id ≤ x) ids × Rising ids

insert_id-Rising : (id : ℕ) (ids : List ℕ) → Rising ids → Rising (insert_id id ids)
unfolding insert_id
insert_id-Rising id [] w = (tt, tt)
insert_id-Rising id (x ∷ ids) (low, w) = elim (Bool-cases (leb id x)) [
  | inl e ↦ rw e ((ground arith, All-map (λ y h. omega (arith, leb→le id x e)) ids low), (low, w))
  | inr e ↦ rw e (insert_id-All (λ y. x ≤ y) id ids (ground arith) low, insert_id-Rising id ids w)
]
  where
    All-map : {P Q : ℕ → Type 0} → ((y : ℕ) → P y → Q y) → (ys : List ℕ) → All P ys → All Q ys
    All-map f [] ps = tt
    All-map f (y ∷ ys) (p, ps) = (f y p, All-map f ys ps)

pub sort_ids-Rising : (ids : List ℕ) → Rising (sort_ids ids)
unfolding sort_ids
sort_ids-Rising [] = tt
sort_ids-Rising (id ∷ ids) = insert_id-Rising id (sort_ids ids) (sort_ids-Rising ids)

insert_id_perm : (id : ℕ) (ids : List ℕ) → Perm (insert_id id ids) (id ∷ ids)
unfolding insert_id
insert_id_perm id [] = Perm.refl (id ∷ [])
insert_id_perm id (x ∷ ids) = elim (Bool-cases (leb id x)) [
  | inl e ↦ rw e (Perm.refl (id ∷ x ∷ ids))
  | inr e ↦ rw e (Perm.trans (Perm.cons x (insert_id_perm id ids)) (Perm.swap id x ids))
]

-- The sorted numbers are the given ones.
pub sort_ids_perm : (ids : List ℕ) → Perm (sort_ids ids) ids
unfolding sort_ids
sort_ids_perm [] = Perm.refl []
sort_ids_perm (id ∷ ids) =
    Perm.trans (insert_id_perm id (sort_ids ids)) (Perm.cons id (sort_ids_perm ids))
