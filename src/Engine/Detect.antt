-- ===== src/Engine/Detect.antt =====
-- vecengine/index.go: the forks that an event observes, in fillEventVectors and setForkDetected, and
-- the vector of GetMergedHighestBefore.
pub mod Marks
pub mod Clashes
pub mod Forks
pub mod Ends
pub mod Merged
pub mod Tests
use lachesis_base.Base.{
  ℕ, zero, suc, ◌+◌, Bool, true, false, ◌&&◌, ◌||◌, not, Option, none, some, List, [], ◌∷◌, length,
  leb, ◌==◌, if◌then◌else◌, ◌>>=◌, get_elem?,
}
use lachesis_base.Dag.{Event}
use lachesis_base.Vec.{Bytes}
use lachesis_base.Vec.Highest
use lachesis_base.Vec.Highest.{
  is_fork_detected, is_empty, seq_of, min_seq_of, set_fork_detected, collect_from, gather_from,
}
use lachesis_base.Engine.{BranchesInfo, at_least_one_fork}

unfoldable pub mark_all : List ℕ → Bytes → Bytes
mark_all [] before = before
mark_all (branch ∷ branches) before = mark_all branches (set_fork_detected before branch)

-- `setForkDetected`; `none` is a panic on an index out of range.
unfoldable pub mark_creator : BranchesInfo → Bytes → ℕ → Option Bytes
unfolding mark_all
mark_creator bi before branch_id = do
  creator_idx ← get_elem? bi.branch_id_creator_idxs branch_id
  branches ← get_elem? bi.branch_id_by_creators creator_idx
  some (mark_all branches before)

unfoldable pub any_fork : Bytes → List ℕ → Bool
any_fork before [] = false
any_fork before (b ∷ branches) =
    if is_fork_detected before b then true else any_fork before branches

-- Two branches, both with events, whose ranges of sequence numbers meet.
unfoldable pub is_clash : Bytes → ℕ → ℕ → Bool
is_clash before a b =
    if a == b
    then false
    else if is_empty before a || is_empty before b
    then false
    else leb (min_seq_of before a) (seq_of before b) && leb (min_seq_of before b) (seq_of before a)

unfoldable pub clashes_with : Bytes → ℕ → List ℕ → Bool
clashes_with before a [] = false
clashes_with before a (b ∷ branches) =
    if is_clash before a b then true else clashes_with before a branches

-- The two loops over the branches of a creator.
unfoldable pub any_clash : Bytes → List ℕ → List ℕ → Bool
unfolding is_clash clashes_with
any_clash before all [] = false
any_clash before all (a ∷ branches) =
    if clashes_with before a all then true else any_clash before all branches

-- One round of the first loop over the validators, and one of the second.
unfoldable pub spread_fork : BranchesInfo → ℕ → Bytes → Option Bytes
unfolding mark_creator any_fork
spread_fork bi n before = do
  branches ← get_elem? bi.branch_id_by_creators n
  if leb (length branches) 1
      then some before
      else if any_fork before branches
      then mark_creator bi before n
      else some before

unfoldable pub find_fork : BranchesInfo → ℕ → Bytes → Option Bytes
unfolding mark_creator any_clash
find_fork bi n before =
    if is_fork_detected before n
    then some before
    else (get_elem? bi.branch_id_by_creators n >>= λ branches.
        if any_clash before branches branches then mark_creator bi before n else some before)

-- The rounds from `i` on, `n` of them.
unfoldable pub rounds : (ℕ → Bytes → Option Bytes) → ℕ → ℕ → Bytes → Option Bytes
rounds round zero i before = some before
rounds round (suc n) i before = round i before >>= λ before'. rounds round n (i + 1) before'

-- Both loops, over `n` validators.
unfoldable pub detect_forks : BranchesInfo → ℕ → Bytes → Option Bytes
unfolding rounds spread_fork find_fork
detect_forks bi n before =
    if at_least_one_fork bi n
    then (rounds (spread_fork bi) n 0 before >>= λ before'. rounds (find_fork bi) n 0 before')
    else some before

abbrev pub collect_all : List Bytes → ℕ → Bytes → Bytes
collect_all [] num before = before
collect_all (p ∷ ps) num before = collect_all ps num (collect_from before p num)

-- The vector HighestBefore in `fillEventVectors`: `width` is the number of the branches before the
-- event and `bi` has those after, of which `me_branch` is the event's; `parents` are the vectors
-- of its parents.
abbrev pub fill_before : BranchesInfo → ℕ → ℕ → ℕ → Event → List Bytes → Option Bytes
fill_before bi n width me_branch e parents = detect_forks bi n (
    collect_all parents (length bi.branch_id_creator_idxs)
      (Highest.init_with_event (Highest.new width) me_branch e))

unfoldable pub gather_all : Bytes → ℕ → List (List ℕ) → Bytes → Bytes
gather_all scattered i [] merged = merged
gather_all scattered i (branches ∷ rest) merged =
    gather_all scattered (i + 1) rest (gather_from merged i scattered branches)

-- `GetMergedHighestBefore` of a vector, over `n` validators.
unfoldable pub get_merged_highest_before : BranchesInfo → ℕ → Bytes → Bytes
unfolding gather_all
get_merged_highest_before bi n scattered =
    if at_least_one_fork bi n
    then gather_all scattered 0 bi.branch_id_by_creators (Highest.new n)
    else scattered
