-- ===== src/Block.antt =====
-- Block production (abft/lachesis.go, abft/traversal.go, abft/store_event_confirmed.go, and the stack
-- of hash/event_hash.go): a decided Atropos confirms the events that it observes and that no block
-- before has confirmed. The application is a state `A`, and its callbacks are arguments.
pub mod Stack
pub mod Trace
pub mod Confirm
pub mod Cheaters
pub mod Fuel
pub mod Tests
use lachesis_base.Base.{
  ℕ, zero, suc, Bool, true, false, Option, none, some, List, [], ◌∷◌, ◌++◌, ◌==◌, if◌then◌else◌,
  find, put, ℕ_discrete,
}
use lachesis_base.Dag.{Event}
use lachesis_base.Pos.{Validators, sorted_ids}

-- `EventsStack.Push` of every hash in turn: the last one pushed is on top.
unfoldable pub push_all : List ℕ → List ℕ → List ℕ
push_all [] stack = stack
push_all (h ∷ hs) stack = push_all hs (h ∷ stack)

-- How the walk ends: through, by a missing event, or without fuel.
pub data Walked : Type 0 where
  walked : Walked
  event_not_found : ℕ → Walked
  no_fuel : Walked

-- `dfsSubgraph` from the popped hash on, for a filter on a state. The caller starts it on the
-- stack of the head alone.
unfoldable pub dfs_subgraph {ℓ} :
    {S : Type ℓ} → (ℕ → Option Event) → (Event → S → S × Bool) → ℕ → List ℕ → S → S × Walked
unfolding push_all
dfs_subgraph get_event filter zero stack s = (s, no_fuel)
dfs_subgraph get_event filter (suc fuel) [] s = (s, walked)
dfs_subgraph get_event filter (suc fuel) (walk ∷ stack) s = elim (get_event walk) [
  | none ↦ (s, event_not_found walk)
  | some event ↦
      let (s', accepted) = filter event s in
      dfs_subgraph get_event filter fuel (if accepted then push_all event.parents stack else stack)
        s'
]

-- The table ConfirmedEvent; a missing event reads as frame 0.
abbrev pub ConfirmedTable : Type 0
ConfirmedTable = List (ℕ × ℕ)

unfoldable pub get_event_confirmed_on : ConfirmedTable → ℕ → ℕ
get_event_confirmed_on table e = elim (find ℕ_discrete e table) [ none ↦ 0 | some on ↦ on ]

abbrev pub set_event_confirmed_on : ConfirmedTable → ℕ → ℕ → ConfirmedTable
set_event_confirmed_on table e on = put ℕ_discrete e on table

-- The filter of `confirmEvents`.
unfoldable pub confirm_filter {ℓ} :
    {A : Type ℓ} → ℕ → (Event → A → A) → Event → ConfirmedTable × A → (ConfirmedTable × A) × Bool
unfolding get_event_confirmed_on
confirm_filter frame on_event_confirmed e (table, a) =
    if get_event_confirmed_on table e.id == 0
    then ((set_event_confirmed_on table e.id frame, on_event_confirmed e a), true)
    else ((table, a), false)

-- `confirmEvents`; a callback that is not set does nothing.
unfoldable pub confirm_events {ℓ} :
    {A : Type ℓ}
    → (ℕ → Option Event)
    → ℕ
    → ℕ
    → ℕ
    → (Event → A → A)
    → ConfirmedTable × A
    → (ConfirmedTable × A) × Walked
unfolding dfs_subgraph confirm_filter
confirm_events get_event fuel frame atropos on_event_confirmed =
    dfs_subgraph get_event (confirm_filter frame on_event_confirmed) fuel (atropos ∷ [])

-- The loop of `applyAtropos` over the validators, from the index `i` on.
unfoldable pub cheaters_from : (ℕ → Bool) → ℕ → List ℕ → List ℕ
cheaters_from is_fork_detected i [] = []
cheaters_from is_fork_detected i (creator ∷ ids) =
    if is_fork_detected i
    then creator ∷ cheaters_from is_fork_detected (suc i) ids
    else cheaters_from is_fork_detected (suc i) ids

pub record Block : Type 0 where
  pub atropos : ℕ
  pub cheaters : List ℕ

pub record BlockCallbacks {ℓ} (A : Type ℓ) : Type ℓ where
  pub apply_event : Option (Event → A → A)
  pub end_block : Option (A → A × Option Validators)

-- How a block ends: with the validators of a next epoch or without, or by a critical error.
pub data Applied : Type 0 where
  applied : Option Validators → Applied
  crit : Walked → Applied

abbrev pub or_nothing {ℓ} : {A : Type ℓ} → Option (Event → A → A) → Event → A → A
or_nothing none e a = a
or_nothing (some f) e a = f e a

abbrev pub end_with {ℓ} :
    {A : Type ℓ} → Option (A → A × Option Validators) → A → A × Option Validators
end_with none a = (a, none)
end_with (some f) a = f a

-- The end of `applyAtropos`, after the walk. A critical error ends the program.
abbrev pub finish {ℓ} :
    {A : Type ℓ}
    → Option (A → A × Option Validators)
    → (ConfirmedTable × A) × Walked
    → (ConfirmedTable × A) × Applied
finish end_block ((table, a), walked) =
    let (a', v) = end_with end_block a in ((table, a'), applied v)
finish end_block ((table, a), event_not_found e) = ((table, a), crit (event_not_found e))
finish end_block ((table, a), no_fuel) = ((table, a), crit no_fuel)

-- `applyAtropos`. `merged atropos i` is whether the merged vector clock of the Atropos has a
-- detected fork for the validator with index `i`.
unfoldable pub apply_atropos {ℓ} :
    {A : Type ℓ}
    → (ℕ → Option Event)
    → (ℕ → ℕ → Bool)
    → Option (Block → A → A × BlockCallbacks A)
    → ℕ
    → Validators
    → ℕ
    → ℕ
    → ConfirmedTable × A
    → (ConfirmedTable × A) × Applied
unfolding confirm_events cheaters_from
apply_atropos get_event merged begin_block fuel validators frame atropos (table, a) =
    let cheaters = cheaters_from (merged atropos) 0 (sorted_ids validators) in
    elim begin_block [
      | none ↦ ((table, a), applied none)
      | some begin ↦
          let (a', callbacks) = begin (record { atropos = atropos; cheaters = cheaters }) a in
          finish callbacks.end_block (
            confirm_events get_event fuel frame atropos (or_nothing callbacks.apply_event)
              (table, a'))
    ]
