-- ===== src/Abft.antt =====
-- abft: the frames of the events and the table of the roots (event_processing.go, store_roots.go).
-- The DAG index (`observe`) and the source of the events (`get_event`) are callbacks of the code; the
-- roots are read from the table of the epoch, not from the cache before it.
pub mod Frames
pub mod Quorums
pub mod Roots
pub mod Decide
pub mod Tests
use lachesis_base.Base.{
  ℕ, zero, suc, ◌+◌, ◌-◌, ◌%◌, ◌^◌, Bool, true, false, ◌&&◌, Option, none, some, List, [], ◌∷◌, ltb,
  ◌==◌, if◌then◌else◌, ◌>>=◌,
}
use lachesis_base.Dag.{Event, self_parent}
use lachesis_base.Pos.{Validators, WeightCounter, new_counter, count, has_quorum, exists}
use lachesis_base.Election.{Slot, RootAndSlot}

-- The order of the keys of the table: the frame, the validator and the ID, most significant first.
abbrev pub root_less : RootAndSlot → RootAndSlot → Bool
root_less a b =
    if not_eq a.slot.frame b.slot.frame
    then ltb a.slot.frame b.slot.frame
    else if not_eq a.slot.validator b.slot.validator
    then ltb a.slot.validator b.slot.validator
    else ltb a.id b.id
  where
    not_eq : ℕ → ℕ → Bool
    not_eq x y = if x == y then false else true

abbrev pub root_same : RootAndSlot → RootAndSlot → Bool
root_same a b =
    (a.slot.frame == b.slot.frame) && ((a.slot.validator == b.slot.validator) && (a.id == b.id))

-- `Put` into the table, which is sorted by the keys.
unfoldable pub put_root : RootAndSlot → List RootAndSlot → List RootAndSlot
put_root r [] = r ∷ []
put_root r (q ∷ qs) =
    let rest = put_root r qs in
    if root_same r q then r ∷ qs else if root_less r q then r ∷ q ∷ qs else q ∷ rest

-- `addRoot`
abbrev pub root_at : Event → ℕ → RootAndSlot
root_at root frame = record {
  id = root.id;
  slot = record { frame = frame; validator = root.creator };
}

-- The loop of `AddRoot`, from frame `f` on, with the number of frames that are left.
unfoldable pub add_roots : ℕ → ℕ → Event → List RootAndSlot → List RootAndSlot
add_roots zero f root roots = roots
add_roots (suc n) f root roots = add_roots n (f + 1) root (put_root (root_at root f) roots)

-- `AddRoot`
abbrev pub add_root : ℕ → Event → List RootAndSlot → List RootAndSlot
add_root self_parent_frame root roots =
    add_roots (root.frame - self_parent_frame) (self_parent_frame + 1) root roots

-- `GetFrameRoots`, the iteration over the keys with the frame as their prefix.
unfoldable pub get_frame_roots : List RootAndSlot → ℕ → List RootAndSlot
get_frame_roots [] f = []
get_frame_roots (r ∷ rs) f =
    let rest = get_frame_roots rs f in if r.slot.frame == f then r ∷ rest else rest

-- What checking an event returns: the frame of its self-parent and the roots, or the error.
pub data Checked : Type 0 where
  saved : ℕ → List RootAndSlot → Checked
  wrong_frame : Checked

module _ (observe : ℕ → ℕ → Bool) (validators : Validators) where
  -- The loop over the roots of a frame; `none` is a panic of the counter.
  unfoldable pub count_observed : ℕ → List RootAndSlot → WeightCounter → Option Bool
  count_observed e [] c = some (has_quorum c)
  count_observed e (r ∷ rs) c =
      elim (if observe e r.id then (count c r.slot.validator >>= λ (c', _). some c') else some c) [
        | none ↦ none
        | some c' ↦ let rest = count_observed e rs c' in if has_quorum c' then some true else rest
      ]

  abbrev pub forkless_caused_by_quorum_on : List RootAndSlot → Event → ℕ → Option Bool
  forkless_caused_by_quorum_on roots e f =
      count_observed e.id (get_frame_roots roots f) (new_counter validators)

  -- The loop over the frames, with the number of frames up to the limit.
  unfoldable pub frame_loop : List RootAndSlot → Event → ℕ → ℕ → Option ℕ
  frame_loop roots e zero f = some f
  frame_loop roots e (suc n) f =
      let rest = frame_loop roots e n (f + 1) in
      forkless_caused_by_quorum_on roots e f >>= λ caused. if caused then rest else some f

-- The frame of the self-parent; `none` is a nil dereference, as the source does not have it.
unfoldable pub self_parent_frame : (ℕ → Option Event) → Event → Option ℕ
self_parent_frame get_event e = elim (self_parent e) [
  | none ↦ some 0
  | some h ↦ get_event h >>= λ p. some p.frame
]

abbrev pub max_frame_to_check : Event → Bool → ℕ → ℕ
max_frame_to_check e check_only from = if check_only then e.frame else (from + 100) % 2 ^ 32

module _ (observe : ℕ → ℕ → Bool) (validators : Validators) (get_event : ℕ → Option Event) where
  unfoldable pub calc_frame_idx : List RootAndSlot → Event → Bool → Option (ℕ × ℕ)
  calc_frame_idx roots e check_only = self_parent_frame get_event e >>= λ from.
      frame_loop observe validators roots e (max_frame_to_check e check_only from - from) from
      >>= λ f. some (from, if f == 0 then 1 else f)

  unfoldable pub check_and_save_event : List RootAndSlot → Event → Option Checked
  check_and_save_event roots e = calc_frame_idx roots e true >>= λ (from, frame). some (
      if e.frame == frame
      then saved from (if from == frame then roots else add_root from e roots)
      else wrong_frame)

  -- `Build`, which sets the frame; `none` is its call of `crit` or a panic.
  unfoldable pub build_event : ℕ → List RootAndSlot → Event → Option Event
  build_event epoch roots e =
      if (e.epoch == epoch) && exists validators e.creator
      then (calc_frame_idx roots e false >>= λ (from, frame). some (record e { frame = frame }))
      else none
