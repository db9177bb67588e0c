-- ===== src/Pos/Sort.antt =====
-- The order of validators (inter/pos/sort.go, sortedArray): the sorted array does not depend on
-- the order in which a Go map is read.
use mathlib.Core.List.{Perm, Permᴰ}
use mathlib.Core.List.Perm
use mathlib.Core.Logic.{∥∥₁_elim}
use lachesis_base.Base.{
  ◌≡◌, inl, inr, refl, ◌∙◌, true, false, List, [], ◌∷◌, arith, Bool-cases, All,
}
use lachesis_base.Pos.{Validator, less, insert, sort}

less_total : (a b : Validator) → less a b ≡ false → less b a ≡ false → a ≡ b
unfolding less
less_total a b h k = ground arith

less_asym : (a b : Validator) → less a b ≡ true → less b a ≡ false
unfolding less
less_asym a b h = ground arith

less_trans : (a b c : Validator) → less a b ≡ true → less b c ≡ true → less a c ≡ true
unfolding less
less_trans a b c h k = ground arith

-- Inserting in either order gives the same list.
insert_comm : (v w : Validator) (l : List Validator) → insert v (insert w l) ≡ insert w (insert v l)
unfolding insert
insert_comm v w [] = ground (arith, less_total v w, less_asym v w)
insert_comm v w (x ∷ l) = ground (
  arith,
  insert_comm v w l,
  less_total v w,
  less_asym v w,
  less_trans x v w,
  less_trans x w v,
  less_total x v,
  less_total x w,
  less_asym x v,
  less_asym x w,
)

Validators-set : IsSet (List Validator)
Validators-set = hlevel

-- Two readings of one map, in different orders, are sorted into the same list.
sort-permᴰ : {xs ys : List Validator} → Permᴰ xs ys → sort xs ≡ sort ys
unfolding sort
sort-permᴰ Permᴰ.nil = refl
sort-permᴰ (Permᴰ.cons e p) = rw (e, sort-permᴰ p)
sort-permᴰ (Permᴰ.swap {a} {b} {l = l} e f) = rw (← e, ← f) (insert_comm a b (sort l))
sort-permᴰ (Permᴰ.trans p q) = sort-permᴰ p ∙ sort-permᴰ q

pub sort-perm : {xs ys : List Validator} → Perm xs ys → sort xs ≡ sort ys
sort-perm p = ∥∥₁_elim p (Validators-set _ _) sort-permᴰ

insert-perm : (v : Validator) (l : List Validator) → Perm (insert v l) (v ∷ l)
unfolding insert
insert-perm v [] = Perm.refl (v ∷ [])
insert-perm v (w ∷ l) = elim (Bool-cases (less w v)) [
  | inl e ↦ rw e (Perm.trans (Perm.cons w (insert-perm v l)) (Perm.swap v w l))
  | inr e ↦ rw e (Perm.refl (v ∷ w ∷ l))
]

-- The sorted list has the same validators.
pub sort_is_perm : (l : List Validator) → Perm (sort l) l
unfolding sort
sort_is_perm [] = Perm.refl []
sort_is_perm (v ∷ l) = Perm.trans (insert-perm v (sort l)) (Perm.cons v (sort_is_perm l))

-- Each validator is followed by none that is less.
abbrev pub IsSorted : List Validator → Type 0
IsSorted [] = Unit
IsSorted (v ∷ l) = All (λ w. less w v ≡ false) l × IsSorted l

All-insert :
    (P : Validator → Type 0) (v : Validator) (l : List Validator)
    → P v
    → All P l
    → All P (insert v l)
unfolding insert
All-insert P v [] p h = (p, tt)
All-insert P v (w ∷ l) p h = elim (Bool-cases (less w v)) [
  | inl e ↦ rw e (h.0, All-insert P v l p h.1)
  | inr e ↦ rw e (p, h)
]

All-less_trans :
    (v w : Validator) (l : List Validator)
    → less w v ≡ false
    → All (λ x. less x w ≡ false) l
    → All (λ x. less x v ≡ false) l
All-less_trans v w [] e h = tt
All-less_trans v w (x ∷ l) e h = (step, All-less_trans v w l e h.1)
  where
    step : less x v ≡ false
    step = elim (Bool-cases (less x v)) [
      | inl t ↦ absurd (ground (arith, less_total v w, less_trans x v w, h.0))
      | inr f ↦ f
    ]

insert-IsSorted : (v : Validator) (l : List Validator) → IsSorted l → IsSorted (insert v l)
unfolding insert
insert-IsSorted v [] h = (tt, tt)
insert-IsSorted v (w ∷ l) h = elim (Bool-cases (less w v)) [
  | inl e ↦ rw e (All-insert _ v l (less_asym w v e) h.0, insert-IsSorted v l h.1)
  | inr e ↦ rw e ((e, All-less_trans v w l e h.0), h)
]

pub sort-IsSorted : (l : List Validator) → IsSorted (sort l)
unfolding sort
sort-IsSorted [] = tt
sort-IsSorted (v ∷ l) = insert-IsSorted v (sort l) (sort-IsSorted l)
