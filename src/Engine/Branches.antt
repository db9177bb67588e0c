-- ===== src/Engine/Branches.antt =====
-- The branches of vecengine/index.go (fillGlobalBranchID): every branch has one creator, and the
-- number of branches stays bounded however a validator forks.
use lachesis_base.Base.{
  ℕ, zero, suc, ◌+◌, ◌^◌, ◌≤◌, ◌<◌, ◌≡◌, inl, inr, refl, sym, ◌∙◌, arith, List, [], ◌∷◌, ◌++◌,
  length, get_elem?, get_or, set, leb, ltb, ◌==◌, true, false, Bool, Bool-cases, Option-cases, All,
  All-append, In, some, none, get_or-set_self, get_or-set_ne, length-set, length-append,
  get_elem?-eq-get_or, get_elem?-append_left, get_elem?-append_last, append-In, get_elem?_lt,
  ℕ_discrete, ==_iff, le→ltb_false,
}
use lachesis_base.Vec.{u32}
use lachesis_base.Dag.{Event, self_parent}
use lachesis_base.Engine.{
  BranchesInfo, Filled, filled, max_branches_per_validator, last, fork_branch, fill_branch,
  fill_global_branch_id,
}
use lachesis_base.Engine.Initial.{IsBranches, branches_bounded, branches_of, total_len}

total_len-set :
    (ls : List (List ℕ)) (i : ℕ) (v : List ℕ)
    → i < length ls
    → total_len (set ls i v) + length (get_or ls i []) ≡ total_len ls + length v
total_len-set [] i v h = absurd (omega arith)
total_len-set (l ∷ ls) zero v h = omega arith
total_len-set (l ∷ ls) (suc i) v h = omega (arith, total_len-set ls i v (omega arith))

All-set :
    (ls : List (List ℕ)) (i : ℕ) (v : List ℕ)
    → length v ≤ max_branches_per_validator
    → All (λ l. length l ≤ max_branches_per_validator) ls
    → All (λ l. length l ≤ max_branches_per_validator) (set ls i v)
All-set [] i v h a = tt
All-set (l ∷ ls) zero v h a = (h, a.1)
All-set (l ∷ ls) (suc i) v h a = (a.0, All-set ls i v h a.1)

-- Only the last sequence numbers change.
set_last-IsBranches :
    (n : ℕ) (bi : BranchesInfo) (b v : ℕ)
    → IsBranches n bi
    → IsBranches n (record bi { branch_id_last_seq = set bi.branch_id_last_seq b v })
set_last-IsBranches n bi b v h = record {
  same = h.same ∙ sym (length-set bi.branch_id_last_seq b v);
  wide = h.wide;
  lists = h.lists;
  first = h.first;
  owned = h.owned;
  capped = h.capped;
  creators = h.creators;
  counted = h.counted;
}

-- A new branch for the validator `c`.
abbrev with_branch : BranchesInfo → ℕ → ℕ → BranchesInfo
with_branch bi c seq = record {
  branch_id_last_seq = bi.branch_id_last_seq ++ (seq ∷ []);
  branch_id_creator_idxs = bi.branch_id_creator_idxs ++ (c ∷ []);
  branch_id_by_creators =
      set bi.branch_id_by_creators c (branches_of bi c ++ (length bi.branch_id_last_seq ∷ []));
}

with_branch-owned :
    (n : ℕ) (bi : BranchesInfo) (c seq d b : ℕ)
    → IsBranches n bi
    → c < n
    → In b (branches_of (with_branch bi c seq) d)
    → get_elem? (with_branch bi c seq).branch_id_creator_idxs b ≡ some d
with_branch-owned n bi c seq d b h l m = elim (ℕ_discrete c d) [
  | yes e ↦
      let here =
        get_or-set_self bi.branch_id_by_creators c
          (branches_of bi c ++ (length bi.branch_id_last_seq ∷ [])) [] (omega (arith, h.lists)) in
      elim (append-In b (branches_of bi c) _ (rw (← e, here) at m)) [
        | inl old ↦
            rw (← e) (get_elem?-append_left bi.branch_id_creator_idxs (c ∷ []) b (h.owned c b old))
        | inr new ↦
            rw (← e) (get_elem?-append_last bi.branch_id_creator_idxs c b (ground (arith, h.same)))
      ]
  | no e ↦ get_elem?-append_left bi.branch_id_creator_idxs (c ∷ []) b (
      h.owned d b (
        rw
          (get_or-set_ne bi.branch_id_by_creators c d
            (branches_of bi c ++ (length bi.branch_id_last_seq ∷ [])) [] e)
          at m))
]

with_branch-IsBranches :
    (n : ℕ) (bi : BranchesInfo) (c seq : ℕ)
    → IsBranches n bi
    → c < n
    → length (branches_of bi c) < max_branches_per_validator
    → IsBranches n (with_branch bi c seq)
with_branch-IsBranches n bi c seq h l few =
    let mine = branches_of bi c ++ (length bi.branch_id_last_seq ∷ []) in
    let longer : length mine ≡ length (branches_of bi c) + 1 = length-append _ _ in
    let more = length-append bi.branch_id_creator_idxs (c ∷ []) in
    let total = total_len-set bi.branch_id_by_creators c mine (omega (arith, h.lists)) in
    record {
      same = omega (arith, h.same, more, length-append bi.branch_id_last_seq (seq ∷ []));
      wide = omega (arith, h.wide, more);
      lists = length-set bi.branch_id_by_creators c mine ∙ h.lists;
      first = λ d k. get_elem?-append_left bi.branch_id_creator_idxs (c ∷ []) d (h.first d k);
      owned = λ d b m. with_branch-owned n bi c seq d b h l m;
      capped = All-set bi.branch_id_by_creators c mine (omega arith) h.capped;
      creators = All-append (λ d. d < n) bi.branch_id_creator_idxs (c ∷ []) h.creators (l, tt);
      counted = omega (arith, h.counted, more, total, longer);
    }

last-In : (l : List ℕ) {b : ℕ} → last l ≡ some b → In b l
last-In [] h = cc
last-In (x ∷ []) h = ground arith
last-In (x ∷ y ∷ l) h = inr (last-In (y ∷ l) h)

last-ne-none : (l : List ℕ) → last l ≡ none → length l ≡ 0
last-ne-none [] h = refl
last-ne-none (x ∷ []) h = cc
last-ne-none (x ∷ y ∷ l) h = absurd (omega (arith, last-ne-none (y ∷ l) h))

-- A result of `fillGlobalBranchID` that keeps the branches well formed: the branch belongs to the
-- creator, and every branch keeps its creator.
abbrev pub Fills : ℕ → BranchesInfo → ℕ → Filled → Type 0
Fills n bi me r =
    (bi' : BranchesInfo) × (b : ℕ) × (r ≡ filled bi' b)
    × IsBranches n bi'
    × (get_elem? bi'.branch_id_creator_idxs b ≡ some me)
    × ((k c : ℕ)
        → get_elem? bi.branch_id_creator_idxs k ≡ some c
        → get_elem? bi'.branch_id_creator_idxs k ≡ some c)

fork_branch-Fills :
    (n : ℕ) (bi : BranchesInfo) (e : Event) (me : ℕ)
    → n ≤ 2 ^ 20
    → IsBranches n bi
    → me < n
    → Fills n bi me (fork_branch bi e me (branches_of bi me))
unfolding fork_branch
fork_branch-Fills n bi e me small h l =
    elim (Bool-cases (leb max_branches_per_validator (length (branches_of bi me)))) [
      | inl full ↦ rw full (elim (Option-cases (last (branches_of bi me))) [
        | inl e ↦ absurd (ground (arith, last-ne-none (branches_of bi me) e))
        | inr (b, found) ↦
            let mine = h.owned me b (last-In (branches_of bi me) found) in
            let inside : b < length bi.branch_id_last_seq =
              omega (arith, h.same, get_elem?_lt bi.branch_id_creator_idxs b mine) in
            let seq = get_or bi.branch_id_last_seq b 0 in
            let at = get_elem?-eq-get_or bi.branch_id_last_seq b 0 inside in
            elim (Bool-cases (ltb seq e.seq)) [
              | inl up ↦
                  rw (found, at, up)
                    (_, b, refl, set_last-IsBranches n bi b e.seq h, mine, λ k c x. x)
              | inr stay ↦ rw (found, at, stay) (bi, b, refl, h, mine, λ k c x. x)
            ]
      ])
      | inr room ↦
          let few : length (branches_of bi me) < max_branches_per_validator = ground arith in
          let fits : u32 (length bi.branch_id_last_seq) ≡ length bi.branch_id_last_seq =
            omega (arith, h.same, branches_bounded n bi h) in
          rw (room, fits)
            (
              with_branch bi me e.seq,
              length bi.branch_id_last_seq,
              refl,
              with_branch-IsBranches n bi me e.seq h l few,
              get_elem?-append_last bi.branch_id_creator_idxs me _ (sym h.same),
              λ k c x. get_elem?-append_left bi.branch_id_creator_idxs (me ∷ []) k x,
            )
    ]

fill_branch-Fills :
    (n : ℕ) (bi : BranchesInfo) (e : Event) (me b : ℕ) (continues : Bool)
    → n ≤ 2 ^ 20
    → IsBranches n bi
    → me < n
    → get_elem? bi.branch_id_creator_idxs b ≡ some me
    → Fills n bi me (fill_branch bi e me b continues)
unfolding fill_branch
fill_branch-Fills n bi e me b true small h l mine =
    (_, b, refl, set_last-IsBranches n bi b e.seq h, mine, λ k c x. x)
fill_branch-Fills n bi e me b false small h l mine =
    rw (get_elem?-eq-get_or bi.branch_id_by_creators me [] (omega (arith, h.lists)))
      (fork_branch-Fills n bi e me small h l)

-- With at most 2 ^ 20 validators, a well-formed record of branches and an event whose self-parent
-- lies on a branch of the creator, `fillGlobalBranchID` neither fails nor panics: it gives a branch
-- of the creator and a well-formed record, in which every branch keeps its creator.
pub fill_global_branch_id-Fills :
    (n : ℕ) (bi : BranchesInfo) (e : Event) (me : ℕ) (branch_of : ℕ → ℕ)
    → n ≤ 2 ^ 20
    → IsBranches n bi
    → me < n
    → ((p : ℕ)
        → self_parent e ≡ some p
        → get_elem? bi.branch_id_creator_idxs (branch_of p) ≡ some me)
    → Fills n bi me (fill_global_branch_id bi n e me branch_of)
unfolding fill_global_branch_id
fill_global_branch_id-Fills n bi e me branch_of small h l parent =
    let bound = branches_bounded n bi h in
    let consistent : (length bi.branch_id_creator_idxs == length bi.branch_id_last_seq) ≡ true =
      (==_iff _ _).1 h.same in
    let wide : ltb (u32 (length bi.branch_id_creator_idxs)) n ≡ false =
      le→ltb_false _ _ (omega (arith, h.wide)) in
    rw (consistent, wide)
      (elim (Option-cases (self_parent e)) [
        | inl none_yet ↦
            let at =
              get_elem?-eq-get_or bi.branch_id_last_seq me 0 (omega (arith, h.same, h.wide)) in
            rw (none_yet, at) (fill_branch-Fills n bi e me me _ small h l (h.first me l))
        | inr (p, found) ↦
            let mine = parent p found in
            let inside : branch_of p < length bi.branch_id_last_seq =
              omega (arith, h.same, get_elem?_lt bi.branch_id_creator_idxs (branch_of p) mine) in
            rw (found, get_elem?-eq-get_or bi.branch_id_last_seq (branch_of p) 0 inside)
              (fill_branch-Fills n bi e me (branch_of p) _ small h l mine)
      ])

-- With at most 2 ^ 20 validators, a well-formed record of branches and an event whose self-parent
-- lies on a branch of the creator, `fillGlobalBranchID` neither fails nor panics: it gives a branch
-- of the creator and a well-formed record, in which every branch that there was keeps its creator.
pub fill_global_branch_id_lem :
    (n : ℕ) (bi : BranchesInfo) (e : Event) (me : ℕ) (branch_of : ℕ → ℕ) (k c : ℕ)
    → n ≤ 2 ^ 20
    → IsBranches n bi
    → me < n
    → ((p : ℕ)
        → self_parent e ≡ some p
        → get_elem? bi.branch_id_creator_idxs (branch_of p) ≡ some me)
    → get_elem? bi.branch_id_creator_idxs k ≡ some c
    → (bi' : BranchesInfo) × (b : ℕ) × (fill_global_branch_id bi n e me branch_of ≡ filled bi' b)
      × IsBranches n bi'
      × (get_elem? bi'.branch_id_creator_idxs b ≡ some me)
      × (get_elem? bi'.branch_id_creator_idxs k ≡ some c)
fill_global_branch_id_lem n bi e me branch_of k c small h l own at_k =
    let (bi', b, run, well, mine, kept) =
      fill_global_branch_id-Fills n bi e me branch_of small h l own in
    (bi', b, run, well, mine, kept k c at_k)
