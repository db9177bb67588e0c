-- ===== src/Abft/Decide.antt =====
-- The election inside the orderer (abft/event_processing.go, frame_decide.go, bootstrap.go): roots
-- are fed to it, and a decision moves the last decided frame or seals the epoch. The callback
-- `apply_atropos` and what the database of an epoch holds when it is opened are arguments.
pub mod Invariant
pub mod Ends
pub mod Tests
use lachesis_base.Base.{
  ℕ, zero, suc, ◌+◌, ◌-◌, ◌%◌, ◌^◌, Bool, true, false, Option, none, some, List, [], ◌∷◌,
  if◌then◌else◌,
}
use lachesis_base.Dag.{Event}
use lachesis_base.Pos.{Validators}
use lachesis_base.Election.{
  Slot, RootAndSlot, Res, Election, ElectionError, Outcome, undecided, decided, failed, panicked,
  reset, process_root,
}
use lachesis_base.Abft.{get_frame_roots, root_at}

-- EpochState, LastDecidedState, the table of the roots and the election.
pub record Orderer : Type 0 where
  pub epoch : ℕ
  pub validators : Validators
  pub last_decided_frame : ℕ
  pub roots : List RootAndSlot
  pub election : Election

-- How a loop ends: through, by a sealed epoch, by an error, a panic, or without fuel.
pub data Ended : Type 0 where
  ended : Ended
  sealed : Ended
  ended_by : ElectionError → Ended
  ended_by_panic : Ended
  no_fuel : Ended

-- Goes on if the loop before went through, and otherwise ends as it did.
abbrev pub go_on : Ended → Orderer → Orderer × Ended → Orderer × Ended
go_on ended p rest = rest
go_on sealed p rest = (p, sealed)
go_on (ended_by e) p rest = (p, ended_by e)
go_on ended_by_panic p rest = (p, ended_by_panic)
go_on no_fuel p rest = (p, no_fuel)

-- The numbers of frames and epochs are uint32.
abbrev pub next : ℕ → ℕ
next n = (n + 1) % 2 ^ 32

module _ (observe : ℕ → ℕ → Bool) (apply_atropos : ℕ → ℕ → ℕ → Option Validators)
    (epoch_roots : ℕ → List RootAndSlot) where
  -- `sealEpoch`, `resetEpochStore` and the reset of the election.
  unfoldable pub seal_epoch : Orderer → Validators → Orderer
  seal_epoch p new_validators = record {
    epoch = next p.epoch;
    validators = new_validators;
    last_decided_frame = 0;
    roots = epoch_roots (next p.epoch);
    election = reset new_validators 1;
  }

  -- `onFrameDecided`; the answer is whether the epoch was sealed.
  unfoldable pub on_frame_decided : Orderer → Res → Orderer × Bool
  unfolding seal_epoch
  on_frame_decided p res = elim (apply_atropos p.epoch res.frame res.atropos) [
    | some new_validators ↦ (seal_epoch p new_validators, true)
    | none ↦ (
      record p { last_decided_frame = res.frame; election = reset p.validators (next res.frame) },
      false,
    )
  ]

  -- The loop over the roots of one frame.
  unfoldable pub frame_roots_loop :
      List RootAndSlot → Election → List RootAndSlot → Election × Outcome
  frame_roots_loop roots el [] = (el, undecided)
  frame_roots_loop roots el (r ∷ rs) =
      let (el', o) = process_root observe (get_frame_roots roots) el r in
      elim o [
        | undecided ↦ frame_roots_loop roots el' rs
        | decided res ↦ (el', decided res)
        | failed e ↦ (el', failed e)
        | panicked ↦ (el', panicked)
      ]

  abbrev pub is_empty : List RootAndSlot → Bool
  is_empty [] = true
  is_empty (r ∷ rs) = false

  -- The loop of `processKnownRoots` from frame `f` on; `none` is the end of the fuel. The uint32 frame
  -- is a number that does not wrap around, for which 2 ^ 32 frames would have to have roots.
  unfoldable pub known_loop : ℕ → List RootAndSlot → Election → ℕ → Option (Election × Outcome)
  unfolding frame_roots_loop
  known_loop zero roots el f = none
  known_loop (suc fuel) roots el f =
      let frame_roots = get_frame_roots roots f in
      let (el', o) = frame_roots_loop roots el frame_roots in
      elim o [
        | undecided ↦
            let rest = known_loop fuel roots el' (f + 1) in
            if is_empty frame_roots then some (el', undecided) else rest
        | decided res ↦ some (el', decided res)
        | failed e ↦ some (el', failed e)
        | panicked ↦ some (el', panicked)
      ]

  abbrev pub process_known_roots : ℕ → Orderer → Option (Election × Outcome)
  process_known_roots fuel p = known_loop fuel p.roots p.election (p.last_decided_frame + 1)

  -- `bootstrapElection`, with fuel for its own loop and for the loop over the frames.
  unfoldable pub bootstrap_election : ℕ → ℕ → Orderer → Orderer × Ended
  unfolding known_loop on_frame_decided
  bootstrap_election zero frames p = (p, no_fuel)
  bootstrap_election (suc fuel) frames p = elim (process_known_roots frames p) [
    | none ↦ (p, no_fuel)
    | some (el, o) ↦
        let q = record p { election = el } in
        elim o [
          | undecided ↦ (q, ended)
          | failed e ↦ (q, ended_by e)
          | panicked ↦ (q, ended_by_panic)
          | decided res ↦
              let (q', was_sealed) = on_frame_decided q res in
              let rest = bootstrap_election fuel frames q' in
              if was_sealed then (q', sealed) else rest
        ]
  ]

  -- The loop of `handleElection` from frame `f` on, with the number of frames that are left.
  unfoldable pub handle_loop : ℕ → ℕ → ℕ → ℕ → Event → Orderer → Orderer × Ended
  unfolding bootstrap_election on_frame_decided
  handle_loop fuel frames zero f root p = (p, ended)
  handle_loop fuel frames (suc n) f root p =
      let (el, o) = process_root observe (get_frame_roots p.roots) p.election (root_at root f) in
      let q = record p { election = el } in
      elim o [
        | undecided ↦ handle_loop fuel frames n (f + 1) root q
        | failed e ↦ (q, ended_by e)
        | panicked ↦ (q, ended_by_panic)
        | decided res ↦
            let (q', was_sealed) = on_frame_decided q res in
            let (q'', e) = bootstrap_election fuel frames q' in
            let rest = handle_loop fuel frames n (f + 1) root q'' in
            if was_sealed then (q', sealed) else go_on e q'' rest
      ]

  abbrev pub handle_election : ℕ → ℕ → ℕ → Event → Orderer → Orderer × Ended
  handle_election fuel frames self_parent_frame root p =
      handle_loop fuel frames (root.frame - self_parent_frame) (self_parent_frame + 1) root p

  -- `Reset`
  unfoldable pub reset_orderer : ℕ → Validators → Orderer
  reset_orderer epoch validators = record {
    epoch = epoch;
    validators = validators;
    last_decided_frame = 0;
    roots = epoch_roots epoch;
    election = reset validators 1;
  }
