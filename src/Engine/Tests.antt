-- ===== src/Engine/Tests.antt =====
-- The branches and ForklessCause (vecengine, vecfc) over three validators.
use lachesis_base.Base.{ℕ, ◌≡◌, refl, arith, List, [], ◌∷◌, some, not, ◌&&◌, leb, get_elem?}
use lachesis_base.Dag.{Event, self_parent}
use lachesis_base.Pos.{quorum}
use lachesis_base.Pos.Tests.{three_set, three-IsWeighted}
use lachesis_base.Vec.Highest
use lachesis_base.Vec.Highest.{is_fork}
use lachesis_base.Engine.{
  BranchesInfo, filled, new_initial_branches_info, at_least_one_fork, fill_global_branch_id,
  forkless_cause,
}
use lachesis_base.Engine.Initial.{IsBranches, new_initial-IsBranches}
use lachesis_base.Engine.Branches.{fill_global_branch_id_lem}
use lachesis_base.Engine.Forkless.{seen_by, weigh, forkless_cause_lem}

abbrev three_branches : BranchesInfo
three_branches = record {
  branch_id_last_seq = 0 ∷ 0 ∷ 0 ∷ [];
  branch_id_creator_idxs = 0 ∷ 1 ∷ 2 ∷ [];
  branch_id_by_creators = (0 ∷ []) ∷ (1 ∷ []) ∷ (2 ∷ []) ∷ [];
}

three_branches-IsBranches : IsBranches 3 three_branches
unfolding new_initial_branches_info
three_branches-IsBranches = new_initial-IsBranches 3

abbrev genesis : Event
genesis = record { epoch = 1; seq = 1; frame = 1; creator = 1; parents = []; lamport = 1; id = 101 }

fill_global_branch_id_lem_example :
    (bi' : BranchesInfo) × (b : ℕ) × (fill_global_branch_id three_branches 3 genesis 0 (λ p. 0)
      ≡ filled bi' b)
    × IsBranches 3 bi'
    × (get_elem? bi'.branch_id_creator_idxs b ≡ some 0)
    × (get_elem? bi'.branch_id_creator_idxs 2 ≡ some 2)
unfolding self_parent
fill_global_branch_id_lem_example =
    fill_global_branch_id_lem 3 three_branches genesis 0 (λ p. 0) 2 2 (omega arith)
      three_branches-IsBranches (omega arith) (λ p e. ground arith) refl

-- A observes the events up to 5 on the first two branches, and B is observed from event 2 on them.
abbrev highest : List ℕ
highest = 5 ∷ 0 ∷ 0 ∷ 0 ∷ 1 ∷ 0 ∷ 0 ∷ 0 ∷ 5 ∷ 0 ∷ 0 ∷ 0 ∷ 1 ∷ 0 ∷ 0 ∷ 0 ∷ []

abbrev lowest : List ℕ
lowest = 2 ∷ 0 ∷ 0 ∷ 0 ∷ 2 ∷ 0 ∷ 0 ∷ 0 ∷ []

forkless_cause_lem_example :
    forkless_cause three_set three_branches highest lowest 0
    ≡ some (
        not (at_least_one_fork three_branches 3 && is_fork (Highest.get highest 0))
        && leb
            (quorum three_set)
            (weigh (seen_by highest lowest (0 ∷ 1 ∷ 2 ∷ []) 0) 0 (3 ∷ 2 ∷ 1 ∷ [])))
forkless_cause_lem_example =
    forkless_cause_lem three_set three_branches highest lowest 0 three-IsWeighted
      (omega arith, (omega arith, (omega arith, tt)))
