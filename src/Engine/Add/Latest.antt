-- ===== src/Engine/Add/Latest.antt =====
-- vecengine/index.go, `fillGlobalBranchID`: below the cap of branches, an event is the latest of the
-- branch that it gets.
use lachesis_base.Base.{
  ℕ, zero, suc, ◌+◌, ◌^◌, ◌≤◌, ◌<◌, ◌≡◌, ◌≢◌, ◌⊎◌, inl, inr, refl, ap, arith, some, [], ◌∷◌, ◌++◌,
  length, get_elem?, get_or, ltb, ◌==◌, leb, true, false, Bool, Option-cases, get_or-set_self,
  get_or-set_ne, get_elem?-eq-get_or, get_elem?_lt, get_or-beyond, ==_iff, le→ltb_false, List,
}
use lachesis_base.Vec.{u32}
use lachesis_base.Dag.{Event, self_parent}
use lachesis_base.Engine.{
  BranchesInfo, Filled, filled, max_branches_per_validator, fork_branch, fill_branch,
  fill_global_branch_id,
}
use lachesis_base.Engine.Initial.{IsBranches, branches_of, branches_bounded}

abbrev pub last_seq : BranchesInfo → ℕ → ℕ
last_seq bi k = get_or bi.branch_id_last_seq k 0

-- A branch without events, or the branch of the event's own parent, if that is its latest event.
abbrev pub Continues : BranchesInfo → Event → (ℕ → Type 0) → (ℕ → ℕ) → ℕ → Type 0
Continues bi e IsOwn branch_of b =
    (last_seq bi b ≡ 0) ⊎ ((p : ℕ) × IsOwn p × (b ≡ branch_of p) × (last_seq bi b + 1 ≡ e.seq))

-- The event gets a branch, of which it is the latest; the other branches have their latest still.
abbrev pub IsLatest : BranchesInfo → Event → (ℕ → Type 0) → (ℕ → ℕ) → Filled → Type 0
IsLatest bi e IsOwn branch_of o =
    (bi' : BranchesInfo) × (b : ℕ) × (o ≡ filled bi' b)
    × Continues bi e IsOwn branch_of b
    × (last_seq bi' b ≡ e.seq)
    × ((k : ℕ) → b ≢ k → last_seq bi' k ≡ last_seq bi k)

get_or-append_last :
    (xs : List ℕ) (v k : ℕ)
    → (get_or (xs ++ (v ∷ [])) (length xs) 0 ≡ v)
      × (length xs ≢ k → get_or (xs ++ (v ∷ [])) k 0 ≡ get_or xs k 0)
get_or-append_last xs v k = (at xs, other xs k)
  where
    at : (ys : List ℕ) → get_or (ys ++ (v ∷ [])) (length ys) 0 ≡ v
    at [] = refl
    at (y ∷ ys) = at ys

    other : (ys : List ℕ) (i : ℕ) → length ys ≢ i → get_or (ys ++ (v ∷ [])) i 0 ≡ get_or ys i 0
    other [] zero n = absurd (n refl)
    other [] (suc i) n = refl
    other (y ∷ ys) zero n = refl
    other (y ∷ ys) (suc i) n = other ys i (λ p. n (ap suc p))

module _ (n : ℕ) (bi : BranchesInfo) (e : Event) (me : ℕ) (small : n ≤ 2 ^ 20) (h : IsBranches n bi)
    (l : me < n) (room : length (branches_of bi me) < max_branches_per_validator) where
  module _ (IsOwn : ℕ → Type 0) (branch_of : ℕ → ℕ) where
    continued-IsLatest :
        (b : ℕ)
        → b < length bi.branch_id_last_seq
        → Continues bi e IsOwn branch_of b
        → IsLatest bi e IsOwn branch_of (fill_branch bi e me b true)
    unfolding fill_branch
    continued-IsLatest b inside le = (
      _,
      b,
      refl,
      le,
      get_or-set_self bi.branch_id_last_seq b e.seq 0 inside,
      λ k ne. get_or-set_ne bi.branch_id_last_seq b k e.seq 0 ne,
    )

    forked-IsLatest : (b : ℕ) → IsLatest bi e IsOwn branch_of (fill_branch bi e me b false)
    unfolding fill_branch fork_branch
    forked-IsLatest b =
        let found = get_elem?-eq-get_or bi.branch_id_by_creators me [] (omega (arith, h.lists)) in
        let fits : u32 (length bi.branch_id_last_seq) ≡ length bi.branch_id_last_seq =
          omega (arith, h.same, branches_bounded n bi h) in
        let few : leb max_branches_per_validator (length (branches_of bi me)) ≡ false =
          ground (arith, room) in
        rw (found, few, fits)
          (
            _,
            length bi.branch_id_last_seq,
            refl,
            inl (
                get_or-beyond bi.branch_id_last_seq (length bi.branch_id_last_seq) 0 (omega arith)),
            (get_or-append_last bi.branch_id_last_seq e.seq 0).0,
            λ k ne. (get_or-append_last bi.branch_id_last_seq e.seq k).1 ne,
          )

    filled-IsLatest :
        (b : ℕ) (continues : Bool)
        → b < length bi.branch_id_last_seq
        → (continues ≡ true → Continues bi e IsOwn branch_of b)
        → IsLatest bi e IsOwn branch_of (fill_branch bi e me b continues)
    filled-IsLatest b true inside le = continued-IsLatest b inside (le refl)
    filled-IsLatest b false inside le = forked-IsLatest b

  pub fill_global_branch_id-IsLatest :
      (IsOwn : ℕ → Type 0) (branch_of : ℕ → ℕ)
      → ((p : ℕ) → self_parent e ≡ some p → IsOwn p)
      → ((p : ℕ)
          → self_parent e ≡ some p
          → get_elem? bi.branch_id_creator_idxs (branch_of p) ≡ some me)
      → ((k : ℕ) → last_seq bi k < 2 ^ 32)
      → e.seq ≢ 0
      → IsLatest bi e IsOwn branch_of (fill_global_branch_id bi n e me branch_of)
  unfolding fill_global_branch_id
  fill_global_branch_id-IsLatest IsOwn branch_of own parent seqs positive =
      let bound = branches_bounded n bi h in
      let consistent : (length bi.branch_id_creator_idxs == length bi.branch_id_last_seq) ≡ true =
        (==_iff _ _).1 h.same in
      let wide : ltb (u32 (length bi.branch_id_creator_idxs)) n ≡ false =
        le→ltb_false _ _ (omega (arith, h.wide)) in
      rw (consistent, wide)
        (elim (Option-cases (self_parent e)) [
          | inl none_yet ↦
              let inside : me < length bi.branch_id_last_seq = omega (arith, h.same, h.wide) in
              rw (none_yet, get_elem?-eq-get_or bi.branch_id_last_seq me 0 inside)
                (filled-IsLatest IsOwn branch_of me _ inside
                  (λ z. inl ((==_iff (last_seq bi me) 0).0 z)))
          | inr (p, found) ↦
              let inside : branch_of p < length bi.branch_id_last_seq = omega (
                arith,
                h.same,
                get_elem?_lt bi.branch_id_creator_idxs (branch_of p) (parent p found),
              ) in
              rw (found, get_elem?-eq-get_or bi.branch_id_last_seq (branch_of p) 0 inside)
                (filled-IsLatest IsOwn branch_of (branch_of p) _ inside (λ z. inr (
                  p,
                  own p found,
                  refl,
                  omega (
                    arith,
                    (==_iff (u32 (last_seq bi (branch_of p) + 1)) e.seq).0 z,
                    seqs (branch_of p),
                    positive,
                  ),
                )))
        ])
