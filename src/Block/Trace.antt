-- ===== src/Block/Trace.antt =====
-- abft/traversal.go and abft/lachesis.go: the steps of the walk of `confirmEvents`, as a relation on
-- the stack, the table and the accepted events.
pub mod Confirmed
use lachesis_base.Base.{
  ℕ, zero, suc, ◌≡◌, ◌≢◌, ◌⊎◌, inl, inr, refl, sym, ap, subst, ◌∙◌, arith, true, false, Option,
  none, some, List, [], ◌∷◌, ite, ◌==◌, find-put, ℕ_discrete, if_pos, if_neg, Bool-cases,
  Option-cases, All, In, ==_iff,
}
use lachesis_base.Dag.{Event, ids}
use lachesis_base.Check.Basic.{Nodup}
use lachesis_base.Block.{
  push_all, Walked, walked, event_not_found, dfs_subgraph, ConfirmedTable, get_event_confirmed_on,
  set_event_confirmed_on, confirm_filter, confirm_events,
}

module _ (get_event : ℕ → Option Event) where
  -- An event that the head observes: the head, or a parent of an event that it observes.
  pub data Observes (head : ℕ) : ℕ → Type 0 where
    self : Observes head head
    parent :
        (x p : ℕ) (e : Event)
        → Observes head x
        → get_event x ≡ some e
        → In p e.parents
        → Observes head p

  -- The source of the events answers with the event that has the asked ID.
  abbrev pub IsSource : Type 0
  IsSource = (x : ℕ) (e : Event) → get_event x ≡ some e → e.id ≡ x

  -- The parents of a confirmed event are confirmed, or wait on the stack.
  abbrev pub IsClosed : List ℕ → ConfirmedTable → Type 0
  IsClosed stack table =
      (x p : ℕ) (e : Event)
      → get_event x ≡ some e
      → get_event_confirmed_on table x ≢ 0
      → In p e.parents
      → (get_event_confirmed_on table p ≢ 0) ⊎ In p stack

  -- The accepted events of a walk, in order.
  pub data Trace (frame : ℕ) : List ℕ → ConfirmedTable → List Event → ConfirmedTable → Type 0 where
    stop : {table : ConfirmedTable} → Trace frame [] table [] table
    skip :
        {walk : ℕ} {stack : List ℕ} {table t' : ConfirmedTable} {es : List Event} (e : Event)
        → get_event walk ≡ some e
        → get_event_confirmed_on table e.id ≢ 0
        → Trace frame stack table es t'
        → Trace frame (walk ∷ stack) table es t'
    take :
        {walk : ℕ} {stack : List ℕ} {table t' : ConfirmedTable} {es : List Event} (e : Event)
        → get_event walk ≡ some e
        → get_event_confirmed_on table e.id ≡ 0
        → Trace frame (push_all e.parents stack) (set_event_confirmed_on table e.id frame) es t'
        → Trace frame (walk ∷ stack) table (e ∷ es) t'

abbrev pub apply_all {ℓ} : {A : Type ℓ} → (Event → A → A) → List Event → A → A
apply_all f [] a = a
apply_all f (e ∷ es) a = apply_all f es (f e a)

-- One step of the walk: a missing event, an accepted one, and one that is confirmed before.
module _ {ℓ} {A : Type ℓ} (get_event : ℕ → Option Event) (fuel frame : ℕ) (f : Event → A → A)
    (walk : ℕ) (stack : List ℕ) (table : ConfirmedTable) (a : A) where
  abbrev run : ℕ → List ℕ → ConfirmedTable → A → (ConfirmedTable × A) × Walked
  run n s t x = dfs_subgraph get_event (confirm_filter frame f) n s (t, x)

  pub dfs_missing :
      get_event walk ≡ none
      → run (suc fuel) (walk ∷ stack) table a ≡ ((table, a), event_not_found walk)
  unfolding dfs_subgraph
  dfs_missing n = rw (n, dfs_subgraph) refl

  pub dfs_take :
      (e : Event)
      → get_event walk ≡ some e
      → (get_event_confirmed_on table e.id == 0) ≡ true
      → run (suc fuel) (walk ∷ stack) table a
        ≡ run fuel (push_all e.parents stack) (set_event_confirmed_on table e.id frame) (f e a)
  unfolding dfs_subgraph confirm_filter
  dfs_take e s z = rw (s, dfs_subgraph, z, confirm_filter) refl

  pub dfs_skip :
      (e : Event)
      → get_event walk ≡ some e
      → (get_event_confirmed_on table e.id == 0) ≡ false
      → run (suc fuel) (walk ∷ stack) table a ≡ run fuel stack table a
  unfolding dfs_subgraph confirm_filter
  dfs_skip e s z = rw (s, dfs_subgraph, z, confirm_filter) refl

pub dfs-Trace {ℓ} :
    {A : Type ℓ} (get_event : ℕ → Option Event) (fuel frame : ℕ) (f : Event → A → A)
    (stack : List ℕ) (table t' : ConfirmedTable) (a a' : A)
    → dfs_subgraph get_event (confirm_filter frame f) fuel stack (table, a) ≡ ((t', a'), walked)
    → (es : List Event) × Trace get_event frame stack table es t' × (a' ≡ apply_all f es a)
unfolding dfs_subgraph
dfs-Trace get_event zero frame f stack table t' a a' h = absurd (ground arith)
dfs-Trace get_event (suc fuel) frame f [] table t' a a' h = (
  [],
  subst (λ t. Trace get_event frame [] table [] t) (ap (λ r. r.0.0) h) stop,
  sym (ap (λ r. r.0.1) h),
)
dfs-Trace get_event (suc fuel) frame f (walk ∷ stack) table t' a a' h =
    let g = get_event in
    elim (Option-cases (get_event walk)) [
      | inl n ↦ absurd (
          missing-ne-walked
            (ap (λ r. r.1) (sym (dfs_missing g fuel frame f walk stack table a n) ∙ h)))
      | inr (e, s) ↦ elim (Bool-cases (get_event_confirmed_on table e.id == 0)) [
        | inl z ↦
            let (es, tr, p) =
              dfs-Trace g fuel frame f (push_all e.parents stack)
                (set_event_confirmed_on table e.id frame) t' (f e a) a'
                (sym (dfs_take g fuel frame f walk stack table a e s z) ∙ h) in
            (e ∷ es, take e s ((==_iff _ 0).0 z) tr, p)
        | inr z ↦
            let (es, tr, p) =
              dfs-Trace g fuel frame f stack table t' a a'
                (sym (dfs_skip g fuel frame f walk stack table a e s z) ∙ h) in
            (es, skip e s (λ q. absurd (ground (arith, (==_iff _ 0).1 q))) tr, p)
      ]
    ]
  where
    missing-ne-walked : {x : ℕ} → ¬ (event_not_found x ≡ walked)
    missing-ne-walked h = absurd (ground arith)

pub on-set :
    (table : ConfirmedTable) (k x frame : ℕ)
    → get_event_confirmed_on (set_event_confirmed_on table k frame) x
      ≡ ite (ℕ_discrete k x) frame (get_event_confirmed_on table x)
unfolding get_event_confirmed_on
on-set table k x frame = elim (ℕ_discrete k x) [
  | yes e ↦
      ap frame_of (find-put ℕ_discrete k x frame table ∙ if_pos (ℕ_discrete k x) e _ _)
      ∙ sym (if_pos (ℕ_discrete k x) e frame _)
  | no n ↦
      ap frame_of (find-put ℕ_discrete k x frame table ∙ if_neg (ℕ_discrete k x) n _ _)
      ∙ sym (if_neg (ℕ_discrete k x) n frame _)
]
  where
    frame_of : Option ℕ → ℕ
    frame_of none = 0
    frame_of (some n) = n

abbrev pub parents_of : Event → Option Event → List ℕ
parents_of e none = e.parents
parents_of e (some d) = d.parents
