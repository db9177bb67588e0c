-- ===== src/Block/Tests.antt =====
-- Block production on a small DAG: event 3 observes events 2 and 1, and event 1 is confirmed before.
use lachesis_base.Base.{
  ℕ, ◌≡◌, ◌≢◌, ◌↔◌, inl, inr, refl, sym, ap, subst, ◌∙◌, arith, true, Option, none, some, List, [],
  ◌∷◌, ◌==◌, if◌then◌else◌, All, In, ==_iff, Bool-cases, ℕ_discrete, find, put, if_neg, get_elem?,
}
use lachesis_base.Dag.{Event, ids}
use lachesis_base.Check.Basic.{Nodup}
use lachesis_base.Pos.{Validators, sorted_ids}
use lachesis_base.Pos.Tests.{three_set}
use lachesis_base.Block.{
  walked, ConfirmedTable, Block, BlockCallbacks, applied, apply_atropos, cheaters_from,
  get_event_confirmed_on, confirm_events,
}
use lachesis_base.Block.Trace.{IsSource, IsClosed, Observes, apply_all}
use lachesis_base.Block.Confirm.{confirm_events_lem}
use lachesis_base.Block.Fuel.{confirm_events_terminates}
use lachesis_base.Block.Cheaters.{cheaters_from_iff, apply_atropos_lem}

abbrev source_of : List Event → ℕ → Option Event
source_of [] x = none
source_of (e ∷ es) x = if e.id == x then some e else source_of es x

source_of-In :
    (es : List Event) (x : ℕ) (e : Event) → source_of es x ≡ some e → In e es × (e.id ≡ x)
source_of-In [] x e h = absurd (ground arith)
source_of-In (d ∷ es) x e h = elim (Bool-cases (d.id == x)) [
  | inl y ↦
      let same : some d ≡ some e =
        subst (λ b. (if b then some d else source_of es x) ≡ some e) y h in
      let one : d ≡ e = ap (λ o. from d o) same in
      (inl (sym one), ap (λ c. c.id) (sym one) ∙ (==_iff _ x).0 y)
  | inr n ↦
      let (i, q) =
        source_of-In es x e (subst (λ b. (if b then some d else source_of es x) ≡ some e) n h) in
      (inr i, q)
]
  where
    from : Event → Option Event → Event
    from c none = c
    from c (some y) = y

abbrev event : ℕ → List ℕ → Event
event id parents = record {
  epoch = 1;
  seq = id;
  frame = 1;
  creator = 1;
  parents = parents;
  lamport = id;
  id = id;
}

abbrev three_events : List Event
three_events = event 3 (2 ∷ 1 ∷ []) ∷ event 2 (1 ∷ []) ∷ event 1 [] ∷ []

abbrev get_event : ℕ → Option Event
get_event = source_of three_events

get_event-IsSource : IsSource get_event
get_event-IsSource x e h = (source_of-In three_events x e h).1

get_event_finite : (x : ℕ) (e : Event) → get_event x ≡ some e → In x (3 ∷ 2 ∷ 1 ∷ [])
get_event_finite x e h =
    let (i, q) = source_of-In three_events x e h in
    elim i [
      | inl p ↦ inl (sym q ∙ ap (λ d. d.id) p)
      | inr (inl p) ↦ inr (inl (sym q ∙ ap (λ d. d.id) p))
      | inr (inr (inl p)) ↦ inr (inr (inl (sym q ∙ ap (λ d. d.id) p)))
      | inr (inr (inr p)) ↦ absurd p
    ]

abbrev IsKnown : ℕ → Type 0
IsKnown p = (d : Event) × (get_event p ≡ some d)

get_event_complete : (x p : ℕ) (e : Event) → get_event x ≡ some e → In p e.parents → IsKnown p
get_event_complete x p e h j =
    let (i, q) = source_of-In three_events x e h in
    elim i [
      | inl c ↦ elim (subst (λ (d : Event). In p d.parents) c j) [
        | inl a ↦ subst IsKnown (sym a) (event 2 (1 ∷ []), refl)
        | inr (inl a) ↦ subst IsKnown (sym a) (event 1 [], refl)
        | inr (inr a) ↦ absurd a
      ]
      | inr (inl c) ↦ elim (subst (λ (d : Event). In p d.parents) c j) [
        | inl a ↦ subst IsKnown (sym a) (event 1 [], refl)
        | inr a ↦ absurd a
      ]
      | inr (inr (inl c)) ↦ absurd (subst (λ (d : Event). In p d.parents) c j)
      | inr (inr (inr c)) ↦ absurd c
    ]

abbrev one_confirmed : ConfirmedTable
one_confirmed = (1, 1) ∷ []

one_confirmed-IsClosed : IsClosed get_event [] one_confirmed
unfolding get_event_confirmed_on find
one_confirmed-IsClosed x p e s h j = elim (ℕ_discrete 1 x) [
  | yes q ↦ absurd (subst (In p) (ap parents_at (sym s ∙ ap get_event (sym q))) j)
  | no n ↦ absurd (h (ap frame_of (if_neg (ℕ_discrete 1 x) n (some 1) none)))
]
  where
    frame_of : Option ℕ → ℕ
    frame_of none = 0
    frame_of (some f) = f

    parents_at : Option Event → List ℕ
    parents_at none = []
    parents_at (some d) = d.parents

abbrev after : ConfirmedTable
after = (1, 1) ∷ (3, 2) ∷ (2, 2) ∷ []

abbrev log : Event → List ℕ → List ℕ
log e l = e.id ∷ l

through : confirm_events get_event 9 2 3 log (one_confirmed, []) ≡ ((after, 2 ∷ 3 ∷ []), walked)
unfolding confirm_events find put ℕ_discrete
through = refl

confirm_events_lem_example :
    (get_event_confirmed_on one_confirmed 2 ≢ 0
      → get_event_confirmed_on after 2 ≡ get_event_confirmed_on one_confirmed 2)
    × (get_event_confirmed_on one_confirmed 2 ≡ 0
        → Observes get_event 3 2
        → get_event_confirmed_on after 2 ≡ 2)
    × (get_event_confirmed_on one_confirmed 2 ≡ 0
        → ¬ Observes get_event 3 2
        → get_event_confirmed_on after 2 ≡ 0)
    × IsClosed get_event [] after
confirm_events_lem_example =
    confirm_events_lem get_event 9 2 3 log one_confirmed after [] (2 ∷ 3 ∷ [])
      (λ e. omega (arith, e)) get_event-IsSource through one_confirmed-IsClosed 2

confirm_events_terminates_example :
    (t' : ConfirmedTable) × (a' : List ℕ) × (confirm_events get_event 9 2 3 log (one_confirmed, [])
      ≡ ((t', a'), walked))
unfolding get_event_confirmed_on find ℕ_discrete
confirm_events_terminates_example =
    confirm_events_terminates get_event 2 log (3 ∷ 2 ∷ 1 ∷ []) (λ e. omega (arith, e))
      get_event-IsSource get_event_finite get_event_complete 9 3 one_confirmed []
      (event 3 (2 ∷ 1 ∷ [])) refl (omega arith)

cheaters_from_iff_example :
    ((v : ℕ)
      → In v (cheaters_from (λ i. i == 1) 0 (7 ∷ 8 ∷ []))
        ↔ ((j : ℕ) × (get_elem? (7 ∷ 8 ∷ []) j ≡ some v) × ((j == 1) ≡ true)))
    × (Nodup (7 ∷ 8 ∷ []) → Nodup (cheaters_from (λ i. i == 1) 0 (7 ∷ 8 ∷ [])))
cheaters_from_iff_example = cheaters_from_iff (λ i. i == 1) (7 ∷ 8 ∷ [])

-- The application notes the cheaters when a block begins, and 0 when it ends.
abbrev begin_block : Block → List ℕ → List ℕ × BlockCallbacks (List ℕ)
begin_block b l =
    (b.cheaters, record { apply_event = some log; end_block = some (λ x. (0 ∷ x, some three_set)) })

apply_atropos_runs :
    apply_atropos get_event (λ a i. i == 1) (some begin_block) 9 three_set 2 3 (one_confirmed, [])
    ≡ (
      (after, 0 ∷ 2 ∷ 3 ∷ cheaters_from (λ i. i == 1) 0 (sorted_ids three_set)),
      applied (some three_set),
    )
unfolding apply_atropos find put ℕ_discrete
apply_atropos_runs = refl

apply_atropos_lem_example :
    (es : List Event) × ◌≡◌ {A = List ℕ × Option Validators}
      (0 ∷ 2 ∷ 3 ∷ cheaters_from (λ i. i == 1) 0 (sorted_ids three_set), some three_set)
      (0 ∷ apply_all log es (cheaters_from (λ i. i == 1) 0 (sorted_ids three_set)), some three_set)
    × Nodup (ids es)
    × ((x : ℕ)
        → In x (ids es)
          ↔ ((get_event_confirmed_on one_confirmed x ≡ 0) × (get_event_confirmed_on after x ≢ 0)))
    × All (λ e. (get_event e.id ≡ some e) × Observes get_event 3 e.id) es
apply_atropos_lem_example =
    apply_atropos_lem get_event (λ a i. i == 1) begin_block 9 three_set 2 3 one_confirmed after []
      (0 ∷ 2 ∷ 3 ∷ cheaters_from (λ i. i == 1) 0 (sorted_ids three_set)) (some three_set)
      (λ e. omega (arith, e)) get_event-IsSource apply_atropos_runs
