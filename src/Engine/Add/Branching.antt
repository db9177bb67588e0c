-- ===== src/Engine/Add/Branching.antt =====
-- vecengine/index.go: the branches with a new event.
use lachesis_base.Base.{
  All-at, ℕ, ◌^◌, ◌≤◌, ◌<◌, ◌≡◌, ◌≢◌, ◌⊎◌, inl, inr, refl, sym, ap, subst, ◌∙◌, arith, Option, none,
  some, List, find, put, find-put, ℕ_discrete, if_pos, if_neg, length, get_elem?, get_elem?_lt,
}
use lachesis_base.Dag.{Event}
use lachesis_base.Pos.{Validators, len, get_idx}
use lachesis_base.Engine.{BranchesInfo}
use lachesis_base.Engine.Initial.{branches_bounded}
use lachesis_base.Engine.Add.{Tables, get_event_branch_id}
use lachesis_base.Engine.Add.Walk.{Known}
use lachesis_base.Engine.Add.Latest.{last_seq}
use lachesis_base.Engine.Add.Index.{IsIndex, CanAdd, Chosen, self_parent-In}
use lachesis_base.Block.Trace.{Observes, self}
use lachesis_base.Engine.Add.Observed.{Observes-up}

module _ (get_event : ℕ → Option Event) (vv : Validators) (bi bi' : BranchesInfo) (t : Tables)
    (e : Event) (b : ℕ) (few : len vv ≤ 2 ^ 18) (chosen : Chosen get_event vv bi t e bi' b) where
  pub Chosen-lt : b < length bi'.branch_id_creator_idxs
  Chosen-lt = let (_, mine, _, _, _, _) = chosen in get_elem?_lt bi'.branch_id_creator_idxs b mine

  pub Chosen-few : length bi'.branch_id_creator_idxs ≤ 2 ^ 28
  Chosen-few = let (well, _, _, _, _, _) = chosen in omega (arith, branches_bounded _ bi' well, few)

  -- The event comes after the latest one of its branch.
  pub Chosen-le : last_seq bi b ≤ e.seq
  Chosen-le =
      let (_, _, _, continues, _, _) = chosen in
      elim continues [ inl z ↦ omega (arith, z) | inr (_, _, _, q) ↦ omega (arith, q) ]

module _ (get_event : ℕ → Option Event) (vv : Validators) (bi bi' : BranchesInfo) (t : Tables)
    (e : Event) (b : ℕ) (few : len vv ≤ 2 ^ 18) (h : IsIndex get_event vv bi t)
    (c : CanAdd get_event vv bi t e) (chosen : Chosen get_event vv bi t e bi' b) where
  pub wide : b < 2 ^ 28
  wide = omega (
    arith,
    Chosen-lt get_event vv bi bi' t e b few chosen,
    Chosen-few get_event vv bi bi' t e b few chosen,
  )

  pub le : last_seq bi b ≤ e.seq
  le = Chosen-le get_event vv bi bi' t e b few chosen

  abbrev pub branch2 : List (ℕ × ℕ)
  branch2 = put ℕ_discrete e.id b t.event_branch

  pub branch_at :
      (y : ℕ)
      → ((e.id ≡ y) × (find ℕ_discrete y branch2 ≡ some b))
        ⊎ ((e.id ≢ y) × (find ℕ_discrete y branch2 ≡ find ℕ_discrete y t.event_branch))
  branch_at y = elim (ℕ_discrete e.id y) [
    | yes p ↦
        inl (p, find-put ℕ_discrete e.id y b t.event_branch ∙ if_pos (ℕ_discrete e.id y) p _ _)
    | no n ↦ inr (n, find-put ℕ_discrete e.id y b t.event_branch ∙ if_neg (ℕ_discrete e.id y) n _ _)
  ]

  pub seqs' : (k : ℕ) → last_seq bi' k < 2 ^ 32
  seqs' k =
      let (_, _, _, _, now, others) = chosen in
      elim (ℕ_discrete b k) [
        | yes p ↦ omega (arith, ap (last_seq bi') p, now, c.small)
        | no n ↦ omega (arith, others k n, h.seqs k)
      ]

  pub latest' :
      (y k : ℕ) (d : Event)
      → find ℕ_discrete y branch2 ≡ some k
      → get_event y ≡ some d
      → d.seq ≤ last_seq bi' k
  latest' y k d f s =
      let (_, _, _, _, now, others) = chosen in
      elim (branch_at y) [
        | inl (p, q) ↦
            let same : some b ≡ some k = sym q ∙ f in
            let one : some e ≡ some d = sym c.here ∙ ap get_event p ∙ s in
            let at : b ≡ k = ground (arith, same) in
            omega (arith, ap seq_or one, ap (last_seq bi') at, now)
        | inr (n, q) ↦
            let old = h.latest y k d (sym q ∙ f) s in
            elim (ℕ_discrete b k) [
              | yes p ↦ omega (arith, old, ap (last_seq bi') p, ap (last_seq bi) p, now, le)
              | no m ↦ omega (arith, old, others k m)
            ]
      ]
    where
      seq_or : Option Event → ℕ
      seq_or none = 0
      seq_or (some d) = d.seq

  pub owned' :
      (y k : ℕ) (d : Event)
      → find ℕ_discrete y branch2 ≡ some k
      → get_event y ≡ some d
      → get_elem? bi'.branch_id_creator_idxs k ≡ some (get_idx vv d.creator)
  owned' y k d f s =
      let (_, mine, kept, _, _, _) = chosen in
      elim (branch_at y) [
        | inl (p, q) ↦
            let same : some b ≡ some k = sym q ∙ f in
            let one : some e ≡ some d = sym c.here ∙ ap get_event p ∙ s in
            let at : b ≡ k = ground (arith, same) in
            ap (get_elem? bi'.branch_id_creator_idxs) (sym at)
            ∙ mine
            ∙ ap (λ o. some (get_idx vv (creator_or o))) one
        | inr (n, q) ↦ kept k (get_idx vv d.creator) (h.owned y k d (sym q ∙ f) s)
      ]
    where
      creator_or : Option Event → ℕ
      creator_or none = 0
      creator_or (some d) = d.creator

  -- What `branch_at` gives of an event on a branch.
  placed :
      (y k : ℕ) (d : Event)
      → find ℕ_discrete y branch2 ≡ some k
      → get_event y ≡ some d
      → ((e.id ≡ y) × (b ≡ k) × (e.seq ≡ d.seq)) ⊎ (find ℕ_discrete y t.event_branch ≡ some k)
  placed y k d f s = elim (branch_at y) [
    | inl (p, q) ↦
        let same : some b ≡ some k = sym q ∙ f in
        let one : some e ≡ some d = sym c.here ∙ ap get_event p ∙ s in
        inl (p, ground (arith, same), ground (arith, one))
    | inr (n, q) ↦ inr (sym q ∙ f)
  ]

  pub begun' :
      (y k : ℕ) (d : Event) → find ℕ_discrete y branch2 ≡ some k → get_event y ≡ some d → d.seq ≢ 0
  begun' y k d f s = elim (placed y k d f s) [
    | inl (p, q, r) ↦ λ z. c.positive (r ∙ z)
    | inr old ↦ h.begun y k d old s
  ]

  -- The event observes the events that its branch has already, and comes after them.
  follows :
      (y : ℕ) (d : Event)
      → find ℕ_discrete y t.event_branch ≡ some b
      → get_event y ≡ some d
      → Observes get_event e.id y × (d.seq < e.seq)
  follows y d f s =
      let (_, _, _, continues, _, _) = chosen in
      let bound = h.latest y b d f s in
      elim continues [
        | inl z ↦ absurd (h.begun y b d f s (omega (arith, z, bound)))
        | inr (p, own, at, q) ↦
            let k =
              All-at (λ x. Known t.lowest_after x) e.parents c.parents p
                (self_parent-In get_event vv e p own) in
            let (j, _, found, _) = h.whole p k in
            let (dp, source, _) = h.right.complete p k in
            let same : get_event_branch_id t p ≡ j = rw (get_event_branch_id, found) refl in
            (
              Observes-up get_event c.here (self_parent-In get_event vv e p own) (
                  h.chained y p b d dp f (found ∙ ap some (sym (at ∙ same))) s source
                    (omega (arith, bound, q, (c.own p dp own source).1))),
              omega (arith, bound, q),
            )
      ]

  pub chained' :
      (y z k : ℕ) (d f : Event)
      → find ℕ_discrete y branch2 ≡ some k
      → find ℕ_discrete z branch2 ≡ some k
      → get_event y ≡ some d
      → get_event z ≡ some f
      → d.seq ≤ f.seq
      → Observes get_event z y
  chained' y z k d f at_y at_z s r less = elim (placed y k d at_y s) [
    | inl (p, q, m) ↦ elim (placed z k f at_z r) [
      | inl (p', _, _) ↦ subst (Observes get_event z) (sym p' ∙ p) self
      | inr old ↦ absurd (omega (arith, m, less, (follows z f (old ∙ ap some (sym q)) r).1))
    ]
    | inr old ↦ elim (placed z k f at_z r) [
      | inl (p', q, _) ↦
          subst (λ x. Observes get_event x y) p' (follows y d (old ∙ ap some (sym q)) s).0
      | inr old' ↦ h.chained y z k d f old old' s r less
    ]
  ]

  pub sourced :
      (y k : ℕ)
      → find ℕ_discrete y branch2 ≡ some k
      → ((d : Event) × (get_event y ≡ some d)) × (k < length bi'.branch_id_creator_idxs)
  sourced y k f =
      let (d, s) = source in ((d, s), get_elem?_lt bi'.branch_id_creator_idxs k (owned' y k d f s))
    where
      source : (d : Event) × (get_event y ≡ some d)
      source = elim (branch_at y) [
        | inl (p, q) ↦ (e, ap get_event (sym p) ∙ c.here)
        | inr (n, q) ↦
            let (d, s, _) = h.right.complete y (h.right.stored y k (sym q ∙ f)).0 in (d, s)
      ]
