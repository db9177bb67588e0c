-- ===== src/Engine/Add/Index.antt =====
-- vecengine/index.go: `Add` goes through on an event whose parents are stored, and keeps the whole
-- index well formed.
use lachesis_base.Base.{
  All-at, ℕ, ◌+◌, ◌^◌, ◌≤◌, ◌<◌, ◌≡◌, ◌≢◌, inl, inr, sym, ap, subst, ◌∙◌, arith, Option, none, some,
  List, [], ◌∷◌, find, ℕ_discrete, Bool-cases, All, In, length, get_elem?, leb, if◌then◌else◌,
}
use lachesis_base.Dag.{Event, self_parent, first_parent}
use lachesis_base.Pos.{Validators, len, get_idx}
use lachesis_base.Vec.{Bytes}
use lachesis_base.Engine.{
  BranchesInfo, Filled, filled, inconsistent, panicked, max_branches_per_validator,
  fill_global_branch_id,
}
use lachesis_base.Engine.Initial.{IsBranches, branches_of}
use lachesis_base.Engine.Branches.{fill_global_branch_id-Fills}
use lachesis_base.Engine.Add.{Tables, get_event_branch_id}
use lachesis_base.Engine.Add.Walk.{Known}
use lachesis_base.Engine.Add.Before.{IsHighest}
use lachesis_base.Block.Trace.{Observes}
use lachesis_base.Engine.Add.Latest.{last_seq, Continues, fill_global_branch_id-IsLatest}
use lachesis_base.Engine.Add.Refines.{IsLowest}

module _ (get_event : ℕ → Option Event) (vv : Validators) where
  -- The index of the stored events: the tables have the same events, every event lies on a branch
  -- of its creator, of which each event observes the ones before it, and the vectors are right.
  pub record IsIndex (bi : BranchesInfo) (t : Tables) : Type 0 where
    pub branches : IsBranches (len vv) bi
    pub right : IsLowest get_event t.lowest_after t.event_branch
    pub highest : IsHighest get_event t.highest_before t.event_branch
    pub seqs : (k : ℕ) → last_seq bi k < 2 ^ 32
    pub latest :
        (y b : ℕ) (d : Event)
        → find ℕ_discrete y t.event_branch ≡ some b
        → get_event y ≡ some d
        → d.seq ≤ last_seq bi b
    pub owned :
        (y b : ℕ) (d : Event)
        → find ℕ_discrete y t.event_branch ≡ some b
        → get_event y ≡ some d
        → get_elem? bi.branch_id_creator_idxs b ≡ some (get_idx vv d.creator)
    pub whole :
        (x : ℕ)
        → Known t.lowest_after x
        → (b : ℕ) × (v : Bytes) × (find ℕ_discrete x t.event_branch ≡ some b)
          × (find ℕ_discrete x t.highest_before ≡ some v)
    pub kept :
        (x : ℕ) (v : Bytes) → find ℕ_discrete x t.highest_before ≡ some v → Known t.lowest_after x
    pub begun :
        (y b : ℕ) (d : Event)
        → find ℕ_discrete y t.event_branch ≡ some b
        → get_event y ≡ some d
        → d.seq ≢ 0
    pub chained :
        (y z b : ℕ) (d f : Event)
        → find ℕ_discrete y t.event_branch ≡ some b
        → find ℕ_discrete z t.event_branch ≡ some b
        → get_event y ≡ some d
        → get_event z ≡ some f
        → d.seq ≤ f.seq
        → Observes get_event z y

  -- A new event of a validator below its cap of branches, whose parents are stored and whose
  -- self-parent is the creator's event before it.
  pub record CanAdd (bi : BranchesInfo) (t : Tables) (e : Event) : Type 0 where
    pub here : get_event e.id ≡ some e
    pub new : find ℕ_discrete e.id t.lowest_after ≡ none
    pub parents : All (λ p. Known t.lowest_after p) e.parents
    pub creator : get_idx vv e.creator < len vv
    pub room : length (branches_of bi (get_idx vv e.creator)) < max_branches_per_validator
    pub positive : e.seq ≢ 0
    pub small : e.seq < 2 ^ 32
    pub own :
        (p : ℕ) (d : Event)
        → self_parent e ≡ some p
        → get_event p ≡ some d
        → (d.creator ≡ e.creator) × (d.seq + 1 ≡ e.seq)

  -- All the facts on the branch that the event gets.
  abbrev pub Chosen : BranchesInfo → Tables → Event → BranchesInfo → ℕ → Type 0
  Chosen bi t e bi' b =
      IsBranches (len vv) bi'
      × (get_elem? bi'.branch_id_creator_idxs b ≡ some (get_idx vv e.creator))
      × ((k c : ℕ)
          → get_elem? bi.branch_id_creator_idxs k ≡ some c
          → get_elem? bi'.branch_id_creator_idxs k ≡ some c)
      × Continues bi e (λ p. self_parent e ≡ some p) (get_event_branch_id t) b
      × (last_seq bi' b ≡ e.seq)
      × ((k : ℕ) → b ≢ k → last_seq bi' k ≡ last_seq bi k)

  first-In : (ps : List ℕ) (p : ℕ) → first_parent ps ≡ some p → In p ps
  first-In [] p h = absurd (ground (arith, h))
  first-In (q ∷ ps) p h = inl (ground (arith, h))

  pub self_parent-In : (e : Event) (p : ℕ) → self_parent e ≡ some p → In p e.parents
  unfolding self_parent
  self_parent-In e p h = elim (Bool-cases (leb e.seq 1)) [
    | inl y ↦ absurd (ground (arith, y, h))
    | inr y ↦
        first-In e.parents p (sym (ap (λ b. if b then none else first_parent e.parents) y) ∙ h)
  ]

  pub choose :
      (bi : BranchesInfo) (t : Tables) (e : Event)
      → len vv ≤ 2 ^ 18
      → IsIndex bi t
      → CanAdd bi t e
      → (bi' : BranchesInfo) × (b : ℕ) × (fill_global_branch_id bi
            (len vv)
            e
            (get_idx vv e.creator)
            (get_event_branch_id t)
          ≡ filled bi' b)
        × Chosen bi t e bi' b
  choose bi t e few h c =
      let me = get_idx vv e.creator in
      let (b1, k1, run1, well, mine, kept) =
        fill_global_branch_id-Fills (len vv) bi e me (get_event_branch_id t) (omega (arith, few))
          h.branches c.creator parent in
      let (b2, k2, run2, le, now, others) =
        fill_global_branch_id-IsLatest (len vv) bi e me (omega (arith, few)) h.branches c.creator
          c.room (λ p. self_parent e ≡ some p) (get_event_branch_id t) (λ p s. s) parent h.seqs
          c.positive in
      let one : filled b1 k1 ≡ filled b2 k2 = sym run1 ∙ run2 in
      let (well', mine', kept') =
        subst
          (λ o.
            IsBranches (len vv) (info o)
            × (get_elem? (info o).branch_id_creator_idxs (number o) ≡ some me)
            × ((k d : ℕ)
                → get_elem? bi.branch_id_creator_idxs k ≡ some d
                → get_elem? (info o).branch_id_creator_idxs k ≡ some d))
          one (well, mine, kept) in
      (b2, k2, run2, (well', mine', kept', le, now, others))
    where
      info : Filled → BranchesInfo
      info (filled bi' b) = bi'
      info inconsistent = bi
      info panicked = bi

      number : Filled → ℕ
      number (filled bi' b) = b
      number inconsistent = 0
      number panicked = 0

      parent :
          (p : ℕ)
          → self_parent e ≡ some p
          → get_elem? bi.branch_id_creator_idxs (get_event_branch_id t p)
            ≡ some (get_idx vv e.creator)
      parent p s =
          let k =
            All-at (λ q. Known t.lowest_after q) e.parents c.parents p (self_parent-In e p s) in
          let (b, v, at, vec) = h.whole p k in
          let (d, found, _) = h.right.complete p k in
          rw (get_event_branch_id, at)
            (h.owned p b d at found ∙ ap (λ i. some (get_idx vv i)) (c.own p d s found).0)
