-- ===== src/Block/Fuel.antt =====
-- abft/traversal.go, `dfsSubgraph` under `confirmEvents`: the walk ends. Every event pushes its
-- parents at most once, since it is confirmed then.
use lachesis_base.Base.{
  ℕ, zero, suc, ◌+◌, ◌≤◌, ◌<◌, ◌≡◌, ◌≢◌, inl, inr, refl, sym, ap, subst, ◌∙◌, arith, Option, none,
  some, List, [], ◌∷◌, ◌==◌, if◌then◌else◌, if_pos, if_neg, ℕ_discrete, Bool-cases, All, In, length,
  sum_over, sum_over-drop,
}
use lachesis_base.Dag.{Event}
use lachesis_base.Block.{
  push_all, walked, dfs_subgraph, ConfirmedTable, get_event_confirmed_on, set_event_confirmed_on,
  confirm_filter, confirm_events,
}
use lachesis_base.Block.Trace.{IsSource, dfs_take, dfs_skip, on-set}
use lachesis_base.Block.Stack.{length-push_all, All-push_all}

module _ (get_event : ℕ → Option Event) where
  abbrev count_of : Option Event → ℕ
  count_of none = 0
  count_of (some e) = length e.parents

  -- The parents of the event `x`, if the event is not confirmed yet.
  abbrev waiting : ConfirmedTable → ℕ → ℕ
  waiting table x = if get_event_confirmed_on table x == 0 then count_of (get_event x) else 0

  -- The parents that the events that are not confirmed yet have together.
  abbrev pub pending : ConfirmedTable → List ℕ → ℕ
  pending table xs = sum_over (waiting table) xs

  module _ (table : ConfirmedTable) (w frame : ℕ) (not_zero : frame ≢ 0) where
    abbrev after : ConfirmedTable
    after = set_event_confirmed_on table w frame

    waiting-set_self : waiting after w ≡ 0
    waiting-set_self =
        let now = on-set table w w frame ∙ if_pos (ℕ_discrete w w) refl _ _ in ground (arith, now)

    waiting-set_ne : (x : ℕ) → w ≢ x → waiting after x ≡ waiting table x
    waiting-set_ne x n =
        ap (λ o. if o == 0 then count_of (get_event x) else 0)
          (on-set table w x frame ∙ if_neg (ℕ_discrete w x) n _ _)

    waiting-set-le : (x : ℕ) → waiting after x ≤ waiting table x
    waiting-set-le x = elim (ℕ_discrete w x) [
      | yes p ↦ omega (arith, subst (λ y. waiting after y ≡ 0) p waiting-set_self)
      | no n ↦ omega (arith, waiting-set_ne x n)
    ]

    pending-set : (xs : List ℕ) → In w xs → pending after xs + waiting table w ≤ pending table xs
    pending-set xs =
        sum_over-drop (waiting table) (waiting after) w xs waiting-set-le waiting-set_self

  module _ {ℓ} {A : Type ℓ} (frame : ℕ) (f : Event → A → A) (known : List ℕ) (not_zero : frame ≢ 0)
      (source : IsSource get_event)
      (finite : (x : ℕ) (e : Event) → get_event x ≡ some e → In x known)
      (complete : (x p : ℕ) (e : Event)
        → get_event x ≡ some e
        → In p e.parents
        → (d : Event) × (get_event p ≡ some d)) where
    walk_ends :
        (fuel : ℕ) (stack : List ℕ) (table : ConfirmedTable) (a : A)
        → All (λ x. (e : Event) × (get_event x ≡ some e)) stack
        → length stack + pending table known < fuel
        → (t' : ConfirmedTable) × (a' : A) × (dfs_subgraph get_event
              (confirm_filter frame f)
              fuel
              stack
              (table, a)
            ≡ ((t', a'), walked))
    unfolding dfs_subgraph
    walk_ends zero stack table a all lt = absurd (omega (arith, lt))
    walk_ends (suc fuel) [] table a all lt = (table, a, refl)
    walk_ends (suc fuel) (w ∷ stack) table a ((e, s), all) lt =
        elim (Bool-cases (get_event_confirmed_on table e.id == 0)) [
          | inl z ↦
              let t = set_event_confirmed_on table e.id frame in
              let parents_of : All (λ x. (d : Event) × (get_event x ≡ some d))
                  (push_all e.parents stack) =
                All-push_all _ e.parents stack (λ p i. complete w p e s i) all in
              let less =
                pending-set table e.id frame not_zero known
                  (subst (λ y. In y known) (sym (source w e s)) (finite w e s)) in
              let mine : waiting table e.id ≡ length e.parents =
                rw z (ap count_of (ap get_event (source w e s) ∙ s)) in
              let (t', a', r) =
                walk_ends fuel (push_all e.parents stack) t (f e a) parents_of
                  (omega (arith, lt, less, mine, length-push_all e.parents stack)) in
              (t', a', dfs_take get_event fuel frame f w stack table a e s z ∙ r)
          | inr z ↦
              let (t', a', r) = walk_ends fuel stack table a all (omega (arith, lt)) in
              (t', a', dfs_skip get_event fuel frame f w stack table a e s z ∙ r)
        ]

    -- Over a finite source that has the parents of its events, the walk from an event of the source
    -- ends well when the fuel is above one plus the number of parents of the unconfirmed events.
    pub confirm_events_terminates :
        (fuel atropos : ℕ) (table : ConfirmedTable) (a : A) (e : Event)
        → get_event atropos ≡ some e
        → 1 + pending table known < fuel
        → (t' : ConfirmedTable) × (a' : A) × (confirm_events get_event fuel frame atropos f
              (table, a)
            ≡ ((t', a'), walked))
    unfolding confirm_events
    confirm_events_terminates fuel atropos table a e s lt =
        walk_ends fuel (atropos ∷ []) table a ((e, s), tt) (omega (arith, lt))
