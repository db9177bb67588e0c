-- ===== src/Abft/Tests.antt =====
-- Runs of the frames and of the table of roots (abft) over three validators.
use lachesis_base.Base.{
  ℕ, ◌+◌, ◌<◌, ◌≤◌, ◌≡◌, ◌↔◌, ◌⊎◌, refl, arith, List, [], ◌∷◌, Bool, true, false, Option, some,
  find, ℕ_discrete, In, leb, replicate,
}
use lachesis_base.Dag.{Event, self_parent}
use lachesis_base.Pos.{quorum, count, count_by_idx, has_quorum, new_counter}
use lachesis_base.Pos.Counter.{marked_sum}
use lachesis_base.Pos.Tests.{three_set, three-IsWeighted}
use lachesis_base.Election.{RootAndSlot}
use lachesis_base.Abft.{
  saved, put_root, root_at, add_roots, add_root, get_frame_roots, count_observed,
  forkless_caused_by_quorum_on, frame_loop, self_parent_frame, calc_frame_idx, check_and_save_event,
  build_event,
}
use lachesis_base.Abft.Frames.{
  AllCaused, check_and_save_event-saved, build_event-check_and_save_event,
}
use lachesis_base.Abft.Quorums.{observed_marks, forkless_caused_by_quorum_on_lem}
use lachesis_base.Abft.Roots.{get_frame_roots-add_root}

abbrev root_of : ℕ → ℕ → ℕ → RootAndSlot
root_of id frame validator = record {
  id = id;
  slot = record { frame = frame; validator = validator };
}

-- The roots of frame 1.
abbrev first_roots : List RootAndSlot
first_roots = root_of 101 1 1 ∷ root_of 102 1 2 ∷ root_of 103 1 3 ∷ []

abbrev first : Event
first = record { epoch = 1; seq = 1; frame = 1; creator = 1; parents = []; lamport = 1; id = 101 }

abbrev second : Event
second = record {
  epoch = 1;
  seq = 2;
  frame = 2;
  creator = 1;
  parents = 101 ∷ 102 ∷ [];
  lamport = 2;
  id = 201;
}

-- An event whose frame is not set.
abbrev fresh : Event
fresh = record second { frame = 0 }

-- Every event is observed, and the first event is the only one that the source has.
abbrev observe : ℕ → ℕ → Bool
observe a b = true

abbrev get_event : ℕ → Option Event
get_event h = some first

second_saved :
    check_and_save_event observe three_set get_event first_roots second
    ≡ some (saved 1 (root_of 101 1 1 ∷ root_of 102 1 2 ∷ root_of 103 1 3 ∷ root_of 201 2 1 ∷ []))
unfolding check_and_save_event calc_frame_idx self_parent_frame self_parent frame_loop
    count_observed get_frame_roots count count_by_idx new_counter has_quorum quorum find ℕ_discrete
    add_roots put_root
second_saved = refl

fresh_built : build_event observe three_set get_event 1 first_roots fresh ≡ some second
unfolding build_event calc_frame_idx self_parent_frame self_parent frame_loop count_observed
    get_frame_roots count count_by_idx new_counter has_quorum quorum find ℕ_discrete
fresh_built = refl

check_and_save_event-saved_example :
    (self_parent_frame get_event second ≡ some 1)
    × (0 < second.frame)
    × (root_of 101 1 1 ∷ root_of 102 1 2 ∷ root_of 103 1 3 ∷ root_of 201 2 1 ∷ []
        ≡ add_root 1 second first_roots)
    × ((((1 + 0) ≡ 0) × (second.frame ≡ 1))
        ⊎ ((k : ℕ) × (second.frame ≡ 1 + k) × AllCaused observe three_set first_roots second k 1))
check_and_save_event-saved_example =
    check_and_save_event-saved observe three_set get_event first_roots
      (root_of 101 1 1 ∷ root_of 102 1 2 ∷ root_of 103 1 3 ∷ root_of 201 2 1 ∷ []) second 1
      second_saved

build_event-check_and_save_event_example :
    check_and_save_event observe three_set get_event first_roots second
    ≡ some (saved 1 (add_root 1 second first_roots))
unfolding self_parent_frame self_parent
build_event-check_and_save_event_example =
    build_event-check_and_save_event observe three_set get_event 1 first_roots fresh second 1 refl
      (omega arith) fresh_built

forkless_caused_by_quorum_on_lem_example :
    forkless_caused_by_quorum_on observe three_set first_roots second 1
    ≡ some (
        leb (quorum three_set) (
          marked_sum
            (observed_marks observe three_set 201
              (get_frame_roots first_roots 1)
              (replicate 3 false))
            (3 ∷ 2 ∷ 1 ∷ [])))
unfolding get_frame_roots find ℕ_discrete
forkless_caused_by_quorum_on_lem_example =
    forkless_caused_by_quorum_on_lem observe three_set first_roots second 1 three-IsWeighted
      (omega arith, (omega arith, (omega arith, tt)))

get_frame_roots-add_root_example :
    In (root_of 201 2 1) (get_frame_roots (add_root 1 second first_roots) 2) ↔ (
      In (root_of 201 2 1) (get_frame_roots first_roots 2)
      ⊎ ((root_of 201 2 1 ≡ root_at second 2) × (1 < 2) × (2 ≤ second.frame)))
get_frame_roots-add_root_example = get_frame_roots-add_root 1 2 second first_roots (root_of 201 2 1)
