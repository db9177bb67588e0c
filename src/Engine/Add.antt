-- ===== src/Engine/Add.antt =====
-- vecengine/index.go and traversal.go: `Add` computes the vectors and the branch of an event and
-- marks the events that it is the first of its branch to observe. The tables LowestAfter,
-- HighestBefore and EventBranch are association lists; the caches before them are left out. A call
-- of `crit` ends the node, as a panic does.
pub mod Walk
pub mod Marked
pub mod Observed
pub mod Latest
pub mod Refines
pub mod Ranges
pub mod Before
pub mod Past
pub mod Index
pub mod Branching
pub mod Adds
pub mod Between
pub mod Cause
pub mod Grown
pub mod Tests
use lachesis_base.Base.{
  ℕ, zero, suc, Bool, true, false, Option, none, some, List, [], ◌∷◌, length, if◌then◌else◌, ◌>>=◌,
  find, put, ℕ_discrete,
}
use lachesis_base.Dag.{Event}
use lachesis_base.Pos.{Validators, len, get_idx, new_counter, has_quorum}
use lachesis_base.Vec.{Bytes}
use lachesis_base.Vec.Lowest
use lachesis_base.Vec.Highest
use lachesis_base.Vec.Highest.{is_fork}
use lachesis_base.Block.{push_all}
use lachesis_base.Engine.{
  BranchesInfo, Filled, filled, inconsistent, panicked, fill_global_branch_id,
  new_initial_branches_info, at_least_one_fork, count_branches,
}
use lachesis_base.Engine.Detect.{fill_before}

pub record Tables : Type 0 where
  pub highest_before : List (ℕ × Bytes)
  pub lowest_after : List (ℕ × Bytes)
  pub event_branch : List (ℕ × ℕ)

-- How the traversal ends: through, or by a missing event, a panic in the walk, or without fuel.
pub data Traversed (A : Type 0) : Type 0 where
  through : A → Traversed A
  event_not_found : ℕ → Traversed A
  crashed : Traversed A
  no_fuel : Traversed A

-- The loop of `DfsSubgraph` over its stack, for a walk on a state.
unfoldable pub dfs_loop :
    {A : Type 0} → (ℕ → Option Event) → (ℕ → A → Option (A × Bool)) → ℕ → List ℕ → A → Traversed A
unfolding push_all
dfs_loop get_event walk zero stack a = no_fuel
dfs_loop get_event walk (suc fuel) [] a = through a
dfs_loop get_event walk (suc fuel) (curr ∷ stack) a = elim (walk curr a) [
  | none ↦ crashed
  | some (a', deeper) ↦ elim deeper [
    | false ↦ dfs_loop get_event walk fuel stack a'
    | true ↦ elim (get_event curr) [
      | none ↦ event_not_found curr
      | some event ↦ dfs_loop get_event walk fuel (push_all event.parents stack) a'
    ]
  ]
]

-- `DfsSubgraph`
abbrev pub dfs_subgraph :
    {A : Type 0} → (ℕ → Option Event) → ℕ → Event → (ℕ → A → Option (A × Bool)) → A → Traversed A
dfs_subgraph get_event fuel head walk a = dfs_loop get_event walk fuel (push_all head.parents []) a

-- `onWalk` in `fillEventVectors`; a vector that is not stored is a nil pointer.
unfoldable pub on_walk : ℕ → Event → ℕ → List (ℕ × Bytes) → Option (List (ℕ × Bytes) × Bool)
on_walk me_branch e walk lowest_after = elim (find ℕ_discrete walk lowest_after) [
  | none ↦ none
  | some seqs ↦
      let (seqs', visited) = Lowest.visit seqs me_branch e in
      if visited
      then some (put ℕ_discrete walk seqs' lowest_after, true)
      else some (lowest_after, false)
]

-- The vectors of the parents. A parent without a branch or without a vector ends the node.
unfoldable pub parents_vecs : Tables → List ℕ → Option (List Bytes)
parents_vecs t [] = some []
parents_vecs t (p ∷ ps) = find ℕ_discrete p t.event_branch >>= λ branch.
    find ℕ_discrete p t.highest_before >>= λ vec. parents_vecs t ps >>= λ rest. some (vec ∷ rest)

-- The branch of the event. The error of `fillGlobalBranchID` is not looked at, and comes with the
-- branch 0.
unfoldable pub branch_of_event : BranchesInfo → Filled → Option (BranchesInfo × ℕ)
branch_of_event bi (filled bi' branch) = some (bi', branch)
branch_of_event bi inconsistent = some (bi, 0)
branch_of_event bi panicked = none

-- The branch of a stored event. A missing one ends the node: the only event that is asked for here
-- is the self-parent, a parent that `parents_vecs` asks for too.
abbrev pub get_event_branch_id : Tables → ℕ → ℕ
get_event_branch_id t id = elim (find ℕ_discrete id t.event_branch) [ none ↦ 0 | some b ↦ b ]

-- What is stored for the event, after the walk.
abbrev pub set_vectors : Tables → List (ℕ × Bytes) → Event → ℕ → Bytes → ℕ → Tables
set_vectors t after e width before me_branch = record {
  highest_before = put ℕ_discrete e.id before t.highest_before;
  lowest_after = put ℕ_discrete e.id (Lowest.init_with_event (Lowest.new width) me_branch e) after;
  event_branch = put ℕ_discrete e.id me_branch t.event_branch;
}

-- `fillEventVectors` from the branch of the event on, with `bi` after the branch is chosen; `n` is
-- the number of validators and `width` the number of branches before.
unfoldable pub fill_vectors :
    (ℕ → Option Event) → ℕ → ℕ → ℕ → BranchesInfo → ℕ → Event → Tables → Option Tables
fill_vectors get_event fuel n width bi me_branch e t = parents_vecs t e.parents >>= λ vecs.
    fill_before bi n width me_branch e vecs >>= λ before.
    elim (dfs_subgraph get_event fuel e (on_walk me_branch e) t.lowest_after) [
      | through after ↦ some (set_vectors t after e width before me_branch)
      | event_not_found x ↦ none
      | crashed ↦ none
      | no_fuel ↦ none
    ]

-- `fillEventVectors`, with the branches and the tables after it.
unfoldable pub fill_event_vectors :
    (ℕ → Option Event)
    → ℕ
    → Validators
    → BranchesInfo
    → Event
    → Tables
    → Option (BranchesInfo × Tables)
unfolding branch_of_event fill_vectors
fill_event_vectors get_event fuel validators bi e t =
    branch_of_event bi (
      fill_global_branch_id bi (len validators) e (get_idx validators e.creator)
        (get_event_branch_id t))
    >>= λ (bi', me_branch).
        fill_vectors get_event fuel (len validators) (length bi.branch_id_creator_idxs) bi'
          me_branch e t
        >>= λ t'. some (bi', t')

-- `InitBranchesInfo`, from the loaded branches and the stored ones.
abbrev pub init_branches_info :
    Option BranchesInfo → Option BranchesInfo → Validators → BranchesInfo
init_branches_info (some bi) stored validators = bi
init_branches_info none (some bi) validators = bi
init_branches_info none none validators = new_initial_branches_info (len validators)

-- `Add`
unfoldable pub add :
    (ℕ → Option Event)
    → ℕ
    → Validators
    → Option BranchesInfo
    → Option BranchesInfo
    → Event
    → Tables
    → Option (BranchesInfo × Tables)
unfolding fill_event_vectors
add get_event fuel validators loaded stored e t =
    fill_event_vectors get_event fuel validators (init_branches_info loaded stored validators) e t

-- `forklessCause` of vecfc/forkless_cause.go from the tables on; `none` is a call of `crit`, or a
-- panic of the counter.
unfoldable pub forkless_cause_in : Validators → BranchesInfo → Tables → ℕ → ℕ → Option Bool
forkless_cause_in validators bi t a_id b_id = do
  a ← find ℕ_discrete a_id t.highest_before
  forked ←
      if at_least_one_fork bi (len validators)
      then (find ℕ_discrete b_id t.event_branch >>= λ b_branch_id.
          some (is_fork (Highest.get a b_branch_id)))
      else some false
  if forked then some false else do
    b ← find ℕ_discrete b_id t.lowest_after
    tally ← count_branches a b bi.branch_id_creator_idxs 0 (new_counter validators)
    some (has_quorum tally)
