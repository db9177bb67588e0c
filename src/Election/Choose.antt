-- ===== src/Election/Choose.antt =====
-- chooseAtropos (abft/election/sort_roots.go): which root is chosen, and that the choice is final.
use lachesis_base.Base.{
  ℕ, ◌≡◌, ◌↔◌, inl, inr, refl, ap, arith, List, [], ◌∷◌, ◌++◌, true, false, Bool-cases,
  Option-cases, All, some, find, ℕ_discrete,
}
use lachesis_base.Election.{VoteValue, Res, decided, choose_loop}

-- The validator is decided as "no".
abbrev pub IsNo : List (ℕ × VoteValue) → ℕ → Type 0
IsNo dr v = (vote : VoteValue) × (find ℕ_discrete v dr ≡ some vote) × (vote.yes_vote ≡ false)

-- The first validator of the list that is not decided as "no" is decided as "yes", for this root.
abbrev pub IsFirstYes : List (ℕ × VoteValue) → ℕ → List ℕ → Res → Type 0
IsFirstYes dr frame vs r =
    (before : List ℕ) × (v : ℕ) × (after : List ℕ) × (vote : VoteValue) × (vs
      ≡ before ++ (v ∷ after))
    × All (IsNo dr) before
    × (find ℕ_discrete v dr ≡ some vote)
    × (vote.yes_vote ≡ true)
    × (r ≡ record { frame = frame; atropos = vote.observed_root })

choose-IsFirstYes :
    (dr : List (ℕ × VoteValue)) (frame : ℕ) (vs : List ℕ) (r : Res)
    → choose_loop dr frame vs ≡ decided r
    → IsFirstYes dr frame vs r
unfolding choose_loop
choose-IsFirstYes dr frame [] r h = cc
choose-IsFirstYes dr frame (v ∷ vs) r h = elim (Option-cases (find ℕ_discrete v dr)) [
  | inl e ↦ ground arith
  | inr (vote, e) ↦ elim (Bool-cases vote.yes_vote) [
    | inl y ↦ ([], v, vs, vote, refl, tt, e, y, ground arith)
    | inr n ↦
        let (before, w, after, x, split, nos, found, positive, res) =
          choose-IsFirstYes dr frame vs r (ground arith) in
        (v ∷ before, w, after, x, ap (◌∷◌ v) split, ((vote, e, n), nos), found, positive, res)
  ]
]

IsFirstYes-choose :
    (dr : List (ℕ × VoteValue)) (frame v : ℕ) (vote : VoteValue) (before after : List ℕ)
    → All (IsNo dr) before
    → find ℕ_discrete v dr ≡ some vote
    → vote.yes_vote ≡ true
    → choose_loop dr frame (before ++ (v ∷ after))
      ≡ decided (record { frame = frame; atropos = vote.observed_root })
unfolding choose_loop
IsFirstYes-choose dr frame v vote [] after nos found positive = ground arith
IsFirstYes-choose dr frame v vote (w ∷ before) after nos found positive =
    let (x, e, n) = nos.0 in
    ground (arith, IsFirstYes-choose dr frame v vote before after nos.1 found positive)

-- The election chooses a root exactly if, in the order of the validators, all before one are
-- decided as "no" and this one as "yes"; it is the root observed by that vote.
pub choose_iff :
    (dr : List (ℕ × VoteValue)) (frame : ℕ) (vs : List ℕ) (r : Res)
    → (choose_loop dr frame vs ≡ decided r) ↔ IsFirstYes dr frame vs r
choose_iff dr frame vs r = (
  choose-IsFirstYes dr frame vs r,
  λ (before, v, after, vote, split, nos, found, positive, res).
      rw (split, res) (IsFirstYes-choose dr frame v vote before after nos found positive),
)

-- Every decision of the first map is in the second.
abbrev pub Extends : List (ℕ × VoteValue) → List (ℕ × VoteValue) → Type 0
Extends dr dr' =
    (v : ℕ) (vote : VoteValue)
    → find ℕ_discrete v dr ≡ some vote
    → find ℕ_discrete v dr' ≡ some vote

-- More decisions do not change a choice that was made.
pub choose-Extends :
    (dr dr' : List (ℕ × VoteValue)) (frame : ℕ) (vs : List ℕ) (r : Res)
    → Extends dr dr'
    → choose_loop dr frame vs ≡ decided r
    → choose_loop dr' frame vs ≡ decided r
unfolding choose_loop
choose-Extends dr dr' frame [] r x h = cc
choose-Extends dr dr' frame (v ∷ vs) r x h = elim (Option-cases (find ℕ_discrete v dr)) [
  | inl e ↦ ground arith
  | inr (vote, e) ↦ ground (arith, x v vote e, choose-Extends dr dr' frame vs r x)
]
