-- ===== src/Check/Basic.antt =====
-- basiccheck (eventcheck/basiccheck/basic_check.go): what an event that it accepts looks like.
use lachesis_base.Base.{
  ℕ, suc, ◌+◌, ◌≤◌, ◌<◌, ◌≡◌, ◌≢◌, ◌↔◌, ◌⊎◌, inl, inr, refl, sym, ap, ◌∙◌, arith, Bool, true, none,
  List, [], ◌∷◌, length, put, find, find-put, All, if_pos, if_neg, ℕ_discrete,
}
use lachesis_base.Dag.{Event}
use lachesis_base.Check.{
  accepted, check_limits, check_inited, check_parents, basic_validate, set_of, limit,
}

-- No element twice.
abbrev pub Nodup : List ℕ → Type 0
Nodup [] = Unit
Nodup (h ∷ hs) = All (λ j. h ≢ j) hs × Nodup hs

length-put :
    (k : ℕ) (m : List (ℕ × Bool))
    → ((find ℕ_discrete k m ≡ none) × (length (put ℕ_discrete k true m) ≡ suc (length m)))
      ⊎ ((find ℕ_discrete k m ≢ none) × (length (put ℕ_discrete k true m) ≡ length m))
unfolding find put
length-put k [] = inl (refl, refl)
length-put k ((j, b) ∷ m) = elim (ℕ_discrete j k) [
  | yes p ↦ rw (if_pos _ p, if_pos _ p) (inr (ground arith, refl))
  | no p ↦
      rw (if_neg _ p, if_neg _ p)
        (elim (length-put k m) [ inl (f, l) ↦ inl (f, ap suc l) | inr (f, l) ↦ inr (f, ap suc l) ])
]

length-set_of : (hs : List ℕ) (m : List (ℕ × Bool)) → length (set_of hs m) ≤ length m + length hs
unfolding set_of
length-set_of [] m = omega arith
length-set_of (h ∷ hs) m = elim (length-put h m) [
  | inl (f, l) ↦ omega (arith, length-set_of hs (put ℕ_discrete h true m), l)
  | inr (f, l) ↦ omega (arith, length-set_of hs (put ℕ_discrete h true m), l)
]

find-put-none :
    (h j : ℕ) (m : List (ℕ × Bool))
    → (find ℕ_discrete j (put ℕ_discrete h true m) ≡ none)
      ↔ ((h ≢ j) × (find ℕ_discrete j m ≡ none))
find-put-none h j m = elim (ℕ_discrete h j) [
  | yes p ↦
      let here = find-put ℕ_discrete h j true m ∙ if_pos (ℕ_discrete h j) p _ _ in
      (λ e. absurd (ground (arith, here, e)), λ q. absurd (q.0 p))
  | no p ↦
      let here = find-put ℕ_discrete h j true m ∙ if_neg (ℕ_discrete h j) p _ _ in
      (λ e. (p, sym here ∙ e), λ q. here ∙ q.1)
]

pub All-split :
    (h : ℕ) (m : List (ℕ × Bool)) (hs : List ℕ)
    → All (λ j. find ℕ_discrete j (put ℕ_discrete h true m) ≡ none) hs
    → All (λ j. h ≢ j) hs × All (λ j. find ℕ_discrete j m ≡ none) hs
All-split h m [] a = (tt, tt)
All-split h m (j ∷ hs) a =
    let (ne, old) = (find-put-none h j m).0 a.0 in
    let (nes, olds) = All-split h m hs a.1 in ((ne, nes), (old, olds))

pub All-join :
    (h : ℕ) (m : List (ℕ × Bool)) (hs : List ℕ)
    → All (λ j. h ≢ j) hs
    → All (λ j. find ℕ_discrete j m ≡ none) hs
    → All (λ j. find ℕ_discrete j (put ℕ_discrete h true m) ≡ none) hs
All-join h m [] a b = tt
All-join h m (j ∷ hs) a b = ((find-put-none h j m).1 (a.0, b.0), All-join h m hs a.1 b.1)

set_of-Nodup :
    (hs : List ℕ) (m : List (ℕ × Bool))
    → length (set_of hs m) ≡ length m + length hs
    → Nodup hs × All (λ j. find ℕ_discrete j m ≡ none) hs
unfolding set_of
set_of-Nodup [] m e = (tt, tt)
set_of-Nodup (h ∷ hs) m e =
    let most = length-set_of hs (put ℕ_discrete h true m) in
    elim (length-put h m) [
      | inl (f, l) ↦
          let (nodup, new) = set_of-Nodup hs (put ℕ_discrete h true m) (omega (arith, e, l)) in
          let (nes, olds) = All-split h m hs new in ((nes, nodup), (f, olds))
      | inr (f, l) ↦ absurd (omega (arith, e, l, most))
    ]

Nodup-set_of :
    (hs : List ℕ) (m : List (ℕ × Bool))
    → Nodup hs
    → All (λ j. find ℕ_discrete j m ≡ none) hs
    → length (set_of hs m) ≡ length m + length hs
unfolding set_of
Nodup-set_of [] m h a = omega arith
Nodup-set_of (h ∷ hs) m n a = elim (length-put h m) [
  | inl (f, l) ↦
      omega (arith, Nodup-set_of hs (put ℕ_discrete h true m) n.1 (All-join h m hs n.0 a.1), l)
  | inr (f, l) ↦ absurd (f a.0)
]

pub All-empty : (hs : List ℕ) → All (λ j. find {V = Bool} ℕ_discrete j [] ≡ none) hs
unfolding find
All-empty [] = tt
All-empty (h ∷ hs) = (refl, All-empty hs)

abbrev pub InLimits : ℕ → Type 0
InLimits n = (0 < n) × (n < limit)

-- The check of an event on its own accepts it exactly if its numbers are positive and below
-- 2^31 - 2, it has parents if it is not its creator's first, and no parent is named twice.
pub basic_validate_iff :
    (e : Event)
    → (basic_validate e ≡ accepted) ↔ (
        InLimits e.seq
        × InLimits e.epoch
        × InLimits e.frame
        × InLimits e.lamport
        × ((e.seq ≡ 1) ⊎ (0 < length e.parents))
        × Nodup e.parents)
unfolding check_limits check_inited check_parents
basic_validate_iff e = (
  λ h.
      let size : length (set_of e.parents []) ≡ length e.parents = ground arith in
      let (nodup, _) = set_of-Nodup e.parents [] (size ∙ omega arith) in
      (ground arith, ground arith, ground arith, ground arith, ground arith, nodup),
  λ (s, p, f, l, q, n).
      let size = Nodup-set_of e.parents [] n (All-empty e.parents) in ground (arith, size),
)
