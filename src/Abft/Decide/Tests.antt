-- ===== src/Abft/Decide/Tests.antt =====
-- Runs of the election inside the orderer (abft) over three validators.
use lachesis_base.Base.{ℕ, ◌≡◌, arith, List, [], ◌∷◌, Bool, true, Option, some, none}
use lachesis_base.Dag.{Event}
use lachesis_base.Pos.{Validators}
use lachesis_base.Pos.Tests.{three_set}
use lachesis_base.Election.{RootAndSlot, Election, Outcome}
use lachesis_base.Abft.Decide.{Orderer, process_known_roots}
use lachesis_base.Abft.Decide.Ends.{process_known_roots_ends}

abbrev root_of : ℕ → ℕ → ℕ → RootAndSlot
root_of id frame validator = record {
  id = id;
  slot = record { frame = frame; validator = validator };
}

abbrev second_root : Event
second_root = record {
  epoch = 1;
  seq = 2;
  frame = 2;
  creator = 1;
  parents = 101 ∷ 102 ∷ [];
  lamport = 2;
  id = 201;
}

-- The first epoch with the roots of its first frame.
abbrev started : Orderer
started = record {
  epoch = 1;
  validators = three_set;
  last_decided_frame = 0;
  roots = root_of 101 1 1 ∷ root_of 102 1 2 ∷ root_of 103 1 3 ∷ [];
  election = record { frame_to_decide = 1; validators = three_set; decided_roots = []; votes = [] };
}

abbrev observe : ℕ → ℕ → Bool
observe a b = true

abbrev no_seal : ℕ → ℕ → ℕ → Option Validators
no_seal epoch frame atropos = none

abbrev empty_epoch : ℕ → List RootAndSlot
empty_epoch epoch = []

process_known_roots_ends_example :
    (el' : Election) × (o : Outcome) × (process_known_roots observe no_seal empty_epoch 2 started
      ≡ some (el', o))
process_known_roots_ends_example =
    process_known_roots_ends observe no_seal empty_epoch 1 2 started
      (omega arith, (omega arith, (omega arith, tt))) (omega arith)
