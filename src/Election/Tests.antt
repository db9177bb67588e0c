-- ===== src/Election/Tests.antt =====
-- Runs of the election (abft/election) over three validators, and the theorems at them.
use lachesis_base.Base.{
  ℕ, zero, suc, ◌≡◌, ◌↔◌, refl, arith, List, [], ◌∷◌, ◌&&◌, not, true, false, some, none, find,
  ℕ_discrete, get_or,
}
use lachesis_base.Pos.{WeightCounter, quorum, count, count_by_idx, has_quorum, new_counter}
use lachesis_base.Pos.Counter.{marked_sum, IsCounter}
use lachesis_base.Pos.Tests.{three_set, three-IsWeighted}
use lachesis_base.Election.{
  RootAndSlot, VoteId, VoteValue, VoteId-discrete, Res, Election, Tally, tallied, new_tally,
  tally_roots, count_vote, vote_of, decided, choose_loop, process_root,
}
use lachesis_base.Election.Choose.{IsFirstYes, choose_iff}
use lachesis_base.Election.Votes.{IsTally, vote_of-decided, vote_of-agree_yes}
use lachesis_base.Election.Final.{find-process_root}

abbrev root_of : ℕ → ℕ → RootAndSlot
root_of id validator = record { id = id; slot = record { frame = 2; validator = validator } }

abbrev vote_yes : VoteValue
vote_yes = record { decided = false; yes_vote = true; observed_root = 101 }

-- The roots of the first two validators vote for the root of the first.
abbrev votes : List (VoteId × VoteValue)
votes =
    (record { from_root = root_of 201 1; for_validator = 1 }, vote_yes)
    ∷ (record { from_root = root_of 202 2; for_validator = 1 }, vote_yes)
    ∷ []

abbrev two_yes : WeightCounter
two_yes = record { validators = three_set; already = true ∷ true ∷ false ∷ []; quorum = 5; sum = 5 }

abbrev nobody : WeightCounter
nobody = record {
  validators = three_set;
  already = false ∷ false ∷ false ∷ [];
  quorum = 5;
  sum = 0;
}

abbrev yes_tally : Tally
yes_tally = record {
  yes_votes = two_yes;
  no_votes = nobody;
  all_votes = two_yes;
  subject_hash = some 101;
}

abbrev no_tally : Tally
no_tally = record {
  yes_votes = nobody;
  no_votes = two_yes;
  all_votes = two_yes;
  subject_hash = none;
}

tally_votes :
    tally_roots votes 1 (root_of 201 1 ∷ root_of 202 2 ∷ []) (new_tally three_set)
    ≡ tallied yes_tally
unfolding tally_roots count_vote new_tally new_counter quorum count count_by_idx find ℕ_discrete
    VoteId-discrete
tally_votes = refl

vote_of-decided_example :
    (((vote_of yes_tally).decided && (vote_of yes_tally).yes_vote) ≡ has_quorum two_yes)
    × (((vote_of yes_tally).decided && not (vote_of yes_tally).yes_vote) ≡ has_quorum nobody)
unfolding find ℕ_discrete
vote_of-decided_example =
    vote_of-decided three_set votes 1 (root_of 201 1 ∷ root_of 202 2 ∷ []) yes_tally
      three-IsWeighted (omega arith, (omega arith, tt)) tally_votes

two_yes-IsCounter : IsCounter three_set two_yes
unfolding marked_sum quorum
two_yes-IsCounter = record { over = refl; sized = refl; summed = refl; limit = refl }

nobody-IsCounter : IsCounter three_set nobody
unfolding marked_sum quorum
nobody-IsCounter = record { over = refl; sized = refl; summed = refl; limit = refl }

-- No position is marked.
no_marks : (i : ℕ) → get_or (false ∷ false ∷ false ∷ []) i false ≡ false
no_marks zero = refl
no_marks (suc zero) = refl
no_marks (suc (suc zero)) = refl
no_marks (suc (suc (suc i))) = refl

yes_tally-IsTally : IsTally three_set yes_tally
yes_tally-IsTally = record {
  yes_counter = two_yes-IsCounter;
  no_counter = nobody-IsCounter;
  all_counter = two_yes-IsCounter;
  split = λ i. ground (arith, no_marks i);
  apart = λ i. ground (arith, no_marks i);
}

no_tally-IsTally : IsTally three_set no_tally
no_tally-IsTally = record {
  yes_counter = nobody-IsCounter;
  no_counter = two_yes-IsCounter;
  all_counter = two_yes-IsCounter;
  split = λ i. ground (arith, no_marks i);
  apart = λ i. ground (arith, no_marks i);
}

vote_of-agree_yes_example : (vote_of yes_tally).yes_vote ≡ true
unfolding has_quorum
vote_of-agree_yes_example =
    vote_of-agree_yes three_set yes_tally yes_tally three-IsWeighted yes_tally-IsTally
      yes_tally-IsTally refl (λ i. ground (arith, no_marks i)) refl

abbrev decided_yes : VoteValue
decided_yes = record { decided = true; yes_vote = true; observed_root = 101 }

abbrev chosen : Res
chosen = record { frame = 1; atropos = 101 }

abbrev decided_election : Election
decided_election = record {
  frame_to_decide = 1;
  validators = three_set;
  decided_roots = (1, decided_yes) ∷ [];
  votes = votes;
}

choose_iff_example :
    (choose_loop ((1, decided_yes) ∷ []) 1 (1 ∷ 2 ∷ 3 ∷ []) ≡ decided chosen)
    ↔ IsFirstYes ((1, decided_yes) ∷ []) 1 (1 ∷ 2 ∷ 3 ∷ []) chosen
choose_iff_example = choose_iff ((1, decided_yes) ∷ []) 1 (1 ∷ 2 ∷ 3 ∷ []) chosen

find-process_root_example :
    find ℕ_discrete 1
      (process_root
        (λ a b. true)
        (λ f. root_of 201 1 ∷ [])
        decided_election
        (root_of 301 3)).0.decided_roots
    ≡ some decided_yes
unfolding find ℕ_discrete
find-process_root_example =
    find-process_root (λ a b. true) (λ f. root_of 201 1 ∷ []) decided_election (root_of 301 3) 1
      decided_yes refl
