-- ===== src/Engine/Add/Tests.antt =====
-- `Add` over three validators: a first event, and a second one that has it as a parent.
use lachesis_base.Base.{
  ℕ, ◌≡◌, refl, arith, [], ◌∷◌, Option, some, none, ◌==◌, if◌then◌else◌, replicate, find, put,
  ℕ_discrete, get_elem?, Bool, true, false, not, ◌&&◌, leb, ◌↔◌,
}
use lachesis_base.Dag.{Event, self_parent}
use lachesis_base.Pos.{quorum}
use lachesis_base.Pos.Tests.{three_set, three-IsWeighted}
use lachesis_base.Vec.Lowest
use lachesis_base.Engine.{
  BranchesInfo, at_least_one_fork, new_initial_branches_info, fill_global_branch_id,
}
use lachesis_base.Vec.Highest
use lachesis_base.Vec.{Bytes, put_uint32, uint32}
use lachesis_base.Vec.Highest.{is_fork}
use lachesis_base.Engine.Forkless.{weigh}
use lachesis_base.Engine.Add.Between.{Between}
use lachesis_base.Engine.Add.Grown.{
  Grown, fresh, added, no_tables, Grown-IsIndex, forkless_cause_in-Grown,
}
use lachesis_base.Engine.Detect.{detect_forks}
use lachesis_base.Engine.Add.{
  Tables, add, init_branches_info, parents_vecs, dfs_loop, on_walk, forkless_cause_in,
}
use lachesis_base.Engine.Add.Walk.{Known}
use lachesis_base.Engine.Add.Index.{IsIndex, CanAdd}
use lachesis_base.Engine.Add.Adds.{add-IsIndex}

abbrev first_event : Event
first_event = record {
  epoch = 1;
  seq = 1;
  frame = 1;
  creator = 1;
  parents = [];
  lamport = 1;
  id = 101;
}

abbrev second_event : Event
second_event = record {
  epoch = 1;
  seq = 1;
  frame = 1;
  creator = 2;
  parents = 101 ∷ [];
  lamport = 2;
  id = 102;
}

abbrev source : ℕ → Option Event
source x = if x == 101 then some first_event else if x == 102 then some second_event else none

abbrev three : BranchesInfo
three = init_branches_info none none three_set

first-CanAdd : CanAdd source three_set three no_tables first_event
unfolding new_initial_branches_info find self_parent ℕ_discrete
first-CanAdd = record {
  here = refl;
  new = refl;
  parents = tt;
  creator = omega arith;
  room = omega arith;
  positive = λ h. absurd (ground (arith, h));
  small = omega arith;
  own = λ p d h s. absurd (ground (arith, h));
}

abbrev first_branches : BranchesInfo
first_branches = record {
  branch_id_last_seq = 1 ∷ 0 ∷ 0 ∷ [];
  branch_id_creator_idxs = 0 ∷ 1 ∷ 2 ∷ [];
  branch_id_by_creators = (0 ∷ []) ∷ (1 ∷ []) ∷ (2 ∷ []) ∷ [];
}

abbrev first_tables : Tables
first_tables = record {
  highest_before = (101, 1 ∷ 0 ∷ 0 ∷ 0 ∷ 1 ∷ 0 ∷ 0 ∷ 0 ∷ replicate 16 0) ∷ [];
  lowest_after = (101, 1 ∷ 0 ∷ 0 ∷ 0 ∷ replicate 8 0) ∷ [];
  event_branch = (101, 0) ∷ [];
}

add-first :
    add source 5 three_set none none first_event no_tables ≡ some (first_branches, first_tables)
unfolding add fill_global_branch_id new_initial_branches_info self_parent find ℕ_discrete
    parents_vecs detect_forks dfs_loop put Highest.init_with_event Lowest.init_with_event
    Highest.set Lowest.set put_uint32 Highest.new Lowest.new on_walk Lowest.visit Lowest.get uint32
    Highest.collect_loop Highest.get
add-first = refl

first-Grown : Grown source three_set first_branches first_tables
unfolding new_initial_branches_info
first-Grown = added none none first_event 5 fresh first-CanAdd (omega arith) add-first

second-CanAdd : CanAdd source three_set first_branches first_tables second_event
unfolding find self_parent ℕ_discrete
second-CanAdd = record {
  here = refl;
  new = refl;
  parents = ((_, refl), tt);
  creator = omega arith;
  room = omega arith;
  positive = λ h. absurd (ground (arith, h));
  small = omega arith;
  own = λ p d h s. absurd (ground (arith, h));
}

abbrev second_branches : BranchesInfo
second_branches = record first_branches { branch_id_last_seq = 1 ∷ 1 ∷ 0 ∷ [] }

abbrev second_tables : Tables
second_tables = record {
  highest_before =
      (101, 1 ∷ 0 ∷ 0 ∷ 0 ∷ 1 ∷ 0 ∷ 0 ∷ 0 ∷ replicate 16 0)
      ∷ (102, 1 ∷ 0 ∷ 0 ∷ 0 ∷ 1 ∷ 0 ∷ 0 ∷ 0 ∷ 1 ∷ 0 ∷ 0 ∷ 0 ∷ 1 ∷ 0 ∷ 0 ∷ 0 ∷ replicate 8 0)
      ∷ [];
  lowest_after =
      (101, 1 ∷ 0 ∷ 0 ∷ 0 ∷ 1 ∷ 0 ∷ 0 ∷ 0 ∷ replicate 4 0)
      ∷ (102, 0 ∷ 0 ∷ 0 ∷ 0 ∷ 1 ∷ 0 ∷ 0 ∷ 0 ∷ replicate 4 0)
      ∷ [];
  event_branch = (101, 0) ∷ (102, 1) ∷ [];
}

add-second :
    add source 5 three_set (some first_branches) none second_event first_tables
    ≡ some (second_branches, second_tables)
unfolding add fill_global_branch_id new_initial_branches_info self_parent find ℕ_discrete
    parents_vecs detect_forks dfs_loop put Highest.init_with_event Lowest.init_with_event
    Highest.set Lowest.set put_uint32 Highest.new Lowest.new on_walk Lowest.visit Lowest.get uint32
    Highest.collect_loop Highest.get
add-second = refl

second-Grown : Grown source three_set second_branches second_tables
second-Grown =
    added (some first_branches) none second_event 5 first-Grown second-CanAdd (omega arith)
      add-second

add-IsIndex_example :
    (bi' : BranchesInfo) × (t' : Tables) × (add source 5 three_set
        (some first_branches)
        none
        second_event
        first_tables
      ≡ some (bi', t'))
    × IsIndex source three_set bi' t'
    × Known t'.lowest_after 102
add-IsIndex_example =
    add-IsIndex source three_set 5 (some first_branches) none second_event first_tables
      (omega arith)
      (Grown-IsIndex source three_set first_branches first_tables (omega arith) first-Grown)
      second-CanAdd (omega arith)

-- Does the second event observe that a quorum of the validators observes the first one?
forkless_cause_in-Grown_example :
    (a : Bytes) × (b_branch : ℕ) × (seen : ℕ → Bool) × (find ℕ_discrete 102
        second_tables.highest_before
      ≡ some a)
    × (find ℕ_discrete 101 second_tables.event_branch ≡ some b_branch)
    × ((i : ℕ)
        → (seen i ≡ true) ↔ (
            (k : ℕ) × (get_elem? second_branches.branch_id_creator_idxs k ≡ some i)
            × (is_fork (Highest.get a k) ≡ false)
            × Between source second_tables 102 101 k))
    × (forkless_cause_in three_set second_branches second_tables 102 101
        ≡ some (
            not (at_least_one_fork second_branches 3 && is_fork (Highest.get a b_branch))
            && leb (quorum three_set) (weigh seen 0 (3 ∷ 2 ∷ 1 ∷ []))))
unfolding find ℕ_discrete
forkless_cause_in-Grown_example =
    forkless_cause_in-Grown source three_set second_branches second_tables 102 101 (omega arith)
      three-IsWeighted second-Grown (_, refl) (_, refl)
