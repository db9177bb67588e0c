-- ===== src/Engine/Add/Past.antt =====
-- vecengine/index.go: the vector HighestBefore of a new event, and the table with it.
use lachesis_base.Base.{
  ℕ, ◌^◌, ◌≤◌, ◌<◌, ◌≡◌, ◌≢◌, ◌⊎◌, inl, inr, refl, sym, ap, subst, ◌∙◌, arith, Option, none, some,
  List, ◌==◌, if◌then◌else◌, find, put, find-put, ℕ_discrete, if_pos, if_neg, Bool-cases, In,
  ==_iff, length,
}
use lachesis_base.Dag.{Event}
use lachesis_base.Vec.{Bytes}
use lachesis_base.Vec.Highest
use lachesis_base.Vec.Highest.{BranchSeq, get, empty_seq}
use lachesis_base.Vec.Highest.Access.{Fits, get-set, new-IsVector, get-new}
use lachesis_base.Vec.Highest.Collect.{nothing, range, view, IsClock, set-IsClock}
use lachesis_base.Block.Trace.{Observes, self, parents_of}
use lachesis_base.Engine.{BranchesInfo}
use lachesis_base.Engine.Initial.{IsBranches}
use lachesis_base.Engine.Detect.{fill_before}
use lachesis_base.Engine.Detect.Ends.{detect_forks_ends}
use lachesis_base.Engine.Add.{Tables, parents_vecs}
use lachesis_base.Engine.Add.Walk.{Known, IsComplete}
use lachesis_base.Engine.Add.Observed.{Observes-cases, Observes-up, Known-Observes}
use lachesis_base.Engine.Add.Ranges.{Shows, Shows-iff, Shows-table}
use lachesis_base.Engine.Add.Before.{
  IsShown, IsHighest, Below, collect_all-IsShown, IsMarked-IsShown,
}

abbrev entry : Event → BranchSeq
entry e = record { seq = e.seq; min_seq = e.seq }

view-entry : (e : Event) → e.seq ≢ 0 → view (entry e) ≡ range e.seq e.seq
unfolding view
view-entry e n = ground (arith, n)

view_empty : view empty_seq ≡ nothing
unfolding view
view_empty = refl

module _ (get_event : ℕ → Option Event) (t : Tables) (e : Event) (me width : ℕ) (wide : me < 2 ^ 28)
    (narrow : width < 2 ^ 29) (positive : e.seq ≢ 0) (small : e.seq < 2 ^ 32)
    (here : get_event e.id ≡ some e) where
  abbrev branch2 : List (ℕ × ℕ)
  branch2 = put ℕ_discrete e.id me t.event_branch

  branch_here : (y : ℕ) → e.id ≡ y → find ℕ_discrete y branch2 ≡ some me
  branch_here y p = find-put ℕ_discrete e.id y me t.event_branch ∙ if_pos (ℕ_discrete e.id y) p _ _

  abbrev own : Bytes
  own = Highest.init_with_event (Highest.new width) me e

  new-IsClock : IsClock (Highest.new width)
  new-IsClock = (
    new-IsVector width narrow,
    λ j l. subst (λ s. Fits s) (sym (get-new width j narrow l)) (omega arith),
  )

  get_own : (b : ℕ) → b < 2 ^ 28 → get own b ≡ (if me == b then entry e else empty_seq)
  unfolding Highest.init_with_event
  get_own b l =
      get-set (Highest.new width) me b (entry e) wide l (new-IsVector width narrow) (small, small)
      ∙ ap (λ z. if me == b then entry e else z) (get-new width b narrow l)

  -- The event before its parents are collected: it observes itself.
  own-IsShown : IsShown get_event branch2 (λ y. e.id ≡ y) own
  unfolding Highest.init_with_event
  own-IsShown = (
    set-IsClock (Highest.new width) me (entry e) wide (small, small) new-IsClock,
    λ b l. elim (Bool-cases (me == b)) [
      | inl y ↦
          subst (Shows get_event branch2 b (λ z. e.id ≡ z))
            (sym (
              ap view (get_own b l ∙ ap (λ z. if z then entry e else empty_seq) y)
              ∙ view-entry e positive))
            (mine b ((==_iff me b).0 y))
      | inr n ↦
          subst (Shows get_event branch2 b (λ z. e.id ≡ z))
            (sym
              (ap view (get_own b l ∙ ap (λ z. if z then entry e else empty_seq) n) ∙ view_empty))
            (λ z d k s o.
              let one : some me ≡ some b = sym (branch_here z o) ∙ k in
              absurd (ground (arith, n, one)))
    ],
  )
    where
      mine : (b : ℕ) → me ≡ b → Shows get_event branch2 b (λ z. e.id ≡ z) (range e.seq e.seq)
      mine b p = (
        (e.id, e, branch_here e.id refl ∙ ap some p, here, refl, refl),
        (e.id, e, branch_here e.id refl ∙ ap some p, here, refl, refl),
        λ z d k s o.
            let one : some e ≡ some d = sym here ∙ ap get_event o ∙ s in
            let same : e.seq ≡ d.seq = ground (arith, one) in
            (omega (arith, same), omega (arith, same)),
      )

  module _ (bi : BranchesInfo) (n : ℕ) (well : IsBranches n bi)
      (few : length bi.branch_id_creator_idxs ≤ 2 ^ 28)
      (complete : IsComplete get_event t.lowest_after)
      (new : find ℕ_discrete e.id t.lowest_after ≡ none)
      (parents : (p : ℕ) → In p e.parents → Known t.lowest_after p)
      (whole : (x : ℕ)
        → Known t.lowest_after x
        → (b : ℕ) × (v : Bytes) × (find ℕ_discrete x t.event_branch ≡ some b)
          × (find ℕ_discrete x t.highest_before ≡ some v))
      (stored : (x : ℕ) (v : Bytes)
        → find ℕ_discrete x t.highest_before ≡ some v
        → Known t.lowest_after x)
      (sourced : (y b : ℕ)
        → find ℕ_discrete y branch2 ≡ some b
        → ((d : Event) × (get_event y ≡ some d)) × (b < length bi.branch_id_creator_idxs))
      (highest : IsHighest get_event t.highest_before t.event_branch) where
    -- What a stored event observes is on the same branches as before.
    old-IsShown :
        (x : ℕ) (v : Bytes)
        → find ℕ_discrete x t.highest_before ≡ some v
        → IsShown get_event branch2 (Observes get_event x) v
    old-IsShown x v k = (
      (highest x v k).0,
      λ b l.
          Shows-table get_event t.event_branch branch2 b (Observes get_event x)
            (λ y o.
              find-put ℕ_discrete e.id y me t.event_branch
              ∙ if_neg (ℕ_discrete e.id y)
                  (λ p.
                    let (_, f) =
                      Known-Observes get_event t.lowest_after complete (stored x v k) o in
                    absurd (ground (arith, new, ap (λ z. find ℕ_discrete z t.lowest_after) p, f)))
                  _ _)
            (view (get v b)) ((highest x v k).1 b l),
    )

    -- The vectors of the parents are there, the detection of forks ends, and the vector shows what
    -- the event observes.
    pub fill_before_lem :
        (vecs : List Bytes) × (before : Bytes) × (parents_vecs t e.parents ≡ some vecs)
        × (fill_before bi n width me e vecs ≡ some before)
        × IsShown get_event branch2 (Observes get_event e.id) before
    fill_before_lem =
        let num = length bi.branch_id_creator_idxs in
        let (vecs, got, all) =
          collect_all-IsShown get_event t branch2 num few sourced e.parents (λ p i.
            let (b, v, at, vec) = whole p (parents p i) in (b, v, at, vec, old-IsShown p v vec)) in
        let (clock, shows) = all (λ y. e.id ≡ y) own own-IsShown in
        let (before, run, marked) = detect_forks_ends n bi well few _ clock in
        let (clock', shows') =
          IsMarked-IsShown get_event t branch2 num few sourced
            (λ y. (e.id ≡ y) ⊎ Below get_event t branch2 num few sourced e.parents y) _ before
            marked (clock, shows) in
        (
          vecs,
          before,
          got,
          run,
          (
            clock',
            λ b l.
                Shows-iff get_event branch2 b _ (Observes get_event e.id) (view (get before b))
                  (λ y _ o. elim o [
                    | inl p ↦ subst (Observes get_event e.id) p self
                    | inr (p, i, q) ↦ Observes-up get_event here i q
                  ])
                  (λ y _ o. elim (Observes-cases get_event o) [
                    | inl p ↦ inl (sym p)
                    | inr (d, p, s, i, q) ↦
                        let one : some d ≡ some e = sym s ∙ here in
                        inr (p, subst (In p) (ap (parents_of e) one) i, q)
                  ])
                  (shows' b l),
          ),
        )

    -- The table with the new vector.
    pub highest_after :
        (before : Bytes)
        → IsShown get_event branch2 (Observes get_event e.id) before
        → IsHighest get_event (put ℕ_discrete e.id before t.highest_before) branch2
    highest_after before s x v k = elim (ℕ_discrete e.id x) [
      | yes p ↦
          let one : some before ≡ some v =
            sym (
              find-put ℕ_discrete e.id x before t.highest_before ∙ if_pos (ℕ_discrete e.id x) p _ _)
            ∙ k in
          subst (λ z. IsShown get_event branch2 (Observes get_event z) v) p
            (subst
              (λ o. elim o [
                | none ↦ Unit {0}
                | some w ↦ IsShown get_event branch2 (Observes get_event e.id) w
              ])
              one s)
      | no n ↦ old-IsShown x v (
          sym
            (find-put ℕ_discrete e.id x before t.highest_before ∙ if_neg (ℕ_discrete e.id x) n _ _)
          ∙ k)
    ]
