-- ===== src/Engine.antt =====
-- vecengine (branches_info.go, index.go): the global branches that number the events of forking
-- validators; and ForklessCause of vecfc/forkless_cause.go, which reads the vectors by branch.
pub mod Initial
pub mod Branches
pub mod Forkless
pub mod Detect
pub mod Add
pub mod Tests
use lachesis_base.Base.{
  ℕ, zero, suc, ◌+◌, ◌-◌, ◌*◌, ◌%◌, ◌^◌, List, [], ◌∷◌, ◌++◌, Option, none, some, length, replicate,
  leb, ltb, ◌==◌, true, false, Bool, ◌&&◌, ◌||◌, not, if◌then◌else◌, get_elem?, get_or, set, ◌>>=◌,
}
use lachesis_base.Dag.{Event, self_parent}
use lachesis_base.Pos.{Validators, WeightCounter, new_counter, count_by_idx, has_quorum, len}
use lachesis_base.Vec.{Bytes, u32}
use lachesis_base.Vec.Lowest
use lachesis_base.Vec.Highest
use lachesis_base.Vec.Highest.{is_fork}

pub record BranchesInfo : Type 0 where
  pub branch_id_last_seq : List ℕ
  pub branch_id_creator_idxs : List ℕ
  pub branch_id_by_creators : List (List ℕ)

-- 0, 1, ... below `n`, from `i` on.
abbrev pub count_up : ℕ → ℕ → List ℕ
count_up zero i = []
count_up (suc n) i = i ∷ count_up n (suc i)

abbrev pub singletons : ℕ → ℕ → List (List ℕ)
singletons zero i = []
singletons (suc n) i = (i ∷ []) ∷ singletons n (suc i)

unfoldable pub new_initial_branches_info : ℕ → BranchesInfo
new_initial_branches_info n = record {
  branch_id_last_seq = replicate n 0;
  branch_id_creator_idxs = count_up n 0;
  branch_id_by_creators = singletons n 0;
}

abbrev pub max_branches_per_validator : ℕ
max_branches_per_validator = 1024

abbrev pub at_least_one_fork : BranchesInfo → ℕ → Bool
at_least_one_fork bi n = ltb n (u32 (length bi.branch_id_creator_idxs))

-- What `fillGlobalBranchID` does: it returns a branch, or the error of an inconsistent DB, or it
-- panics on an index out of range.
pub data Filled : Type 0 where
  filled : BranchesInfo → ℕ → Filled
  inconsistent : Filled
  panicked : Filled

-- The last element of a branch list.
abbrev pub last : List ℕ → Option ℕ
last [] = none
last (x ∷ []) = some x
last (x ∷ y ∷ xs) = last (y ∷ xs)

-- The branch of a new fork: a new one, or the validator's latest at the cap.
fork_branch : BranchesInfo → Event → ℕ → List ℕ → Filled
fork_branch bi e me_idx mine =
    if leb max_branches_per_validator (length mine)
    then elim (last mine) [
      | none ↦ panicked
      | some last_branch ↦ elim (get_elem? bi.branch_id_last_seq last_branch) [
        | none ↦ panicked
        | some seq ↦
            filled
              (if ltb seq e.seq
                then record bi { branch_id_last_seq = set bi.branch_id_last_seq last_branch e.seq }
                else bi)
              last_branch
      ]
    ]
    else let new_branch_id = u32 (length bi.branch_id_last_seq) in
      filled
        (record {
          branch_id_last_seq = bi.branch_id_last_seq ++ (e.seq ∷ []);
          branch_id_creator_idxs = bi.branch_id_creator_idxs ++ (me_idx ∷ []);
          branch_id_by_creators =
              set bi.branch_id_by_creators me_idx (mine ++ (new_branch_id ∷ []));
        })
        new_branch_id

-- `continued` is the branch that the event may continue, with the sequence number that it must
-- have for that.
unfoldable pub fill_branch : BranchesInfo → Event → ℕ → ℕ → Bool → Filled
unfolding fork_branch
fill_branch bi e me_idx branch continues =
    if continues
    then filled (record bi { branch_id_last_seq = set bi.branch_id_last_seq branch e.seq }) branch
    else elim (get_elem? bi.branch_id_by_creators me_idx) [
      | none ↦ panicked
      | some mine ↦ fork_branch bi e me_idx mine
    ]

-- `branch_of` is GetEventBranchID on the self-parent; `n` is the number of validators.
unfoldable pub fill_global_branch_id : BranchesInfo → ℕ → Event → ℕ → (ℕ → ℕ) → Filled
unfolding fill_branch
fill_global_branch_id bi n e me_idx branch_of =
    if not (length bi.branch_id_creator_idxs == length bi.branch_id_last_seq)
    then inconsistent
    else if ltb (u32 (length bi.branch_id_creator_idxs)) n
    then inconsistent
    else elim (self_parent e) [
      | none ↦ elim (get_elem? bi.branch_id_last_seq me_idx) [
        | none ↦ panicked
        | some seq ↦ fill_branch bi e me_idx me_idx (seq == 0)
      ]
      | some p ↦ elim (get_elem? bi.branch_id_last_seq (branch_of p)) [
        | none ↦ panicked
        | some seq ↦ fill_branch bi e me_idx (branch_of p) (u32 (seq + 1) == e.seq)
      ]
    ]

-- Does the lowest event of the branch that observes B lie among those that A observes?
abbrev pub sees : Bytes → Bytes → ℕ → Bool
sees a b branch =
    let low = Lowest.get b branch in
    let high = Highest.get a branch in leb low high.seq && not (low == 0) && not (is_fork high)

-- The loop over the branches; `none` is a panic of the counter.
unfoldable pub count_branches : Bytes → Bytes → List ℕ → ℕ → WeightCounter → Option WeightCounter
count_branches a b [] branch tally = some tally
count_branches a b (creator ∷ creators) branch tally = do
  counted ← if sees a b branch then count_by_idx tally creator else some (tally, false)
  count_branches a b creators (branch + 1) counted.0

-- `forklessCause`, from the vectors of A and B and the branch of B.
unfoldable pub forkless_cause : Validators → BranchesInfo → Bytes → Bytes → ℕ → Option Bool
forkless_cause vv bi a b b_branch_id =
    if at_least_one_fork bi (len vv) && is_fork (Highest.get a b_branch_id) then some false else do
      tally ← count_branches a b bi.branch_id_creator_idxs 0 (new_counter vv)
      some (has_quorum tally)
