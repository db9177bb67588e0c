-- ===== src/Check/Tests.antt =====
-- The checks (eventcheck) on an event with two parents.
use lachesis_base.Base.{◌<◌, ◌≡◌, ◌⊎◌, refl, arith, [], ◌∷◌, All, true, find, put, ℕ_discrete}
use lachesis_base.Dag.{Event, self_parent, is_self_parent}
use lachesis_base.Pos.{exists}
use lachesis_base.Pos.Tests.{three_set}
use lachesis_base.Check.{
  accepted, check_limits, check_inited, check_parents, set_of, epoch_validate, max_lamport_of,
  check_self_parents, check_self_parent, check_seq, parents_validate, validate,
}
use lachesis_base.Check.Child.{NoneOwn, FirstOwn, validate-accepted}

abbrev own_parent : Event
own_parent = record {
  epoch = 1;
  seq = 1;
  frame = 1;
  creator = 1;
  parents = [];
  lamport = 1;
  id = 101;
}

abbrev other_parent : Event
other_parent = record {
  epoch = 1;
  seq = 4;
  frame = 1;
  creator = 2;
  parents = [];
  lamport = 4;
  id = 204;
}

abbrev child : Event
child = record {
  epoch = 1;
  seq = 2;
  frame = 1;
  creator = 1;
  parents = 101 ∷ 204 ∷ [];
  lamport = 5;
  id = 102;
}

child_accepted : validate three_set 1 child (own_parent ∷ other_parent ∷ []) ≡ accepted
unfolding check_limits check_inited check_parents set_of epoch_validate max_lamport_of
    check_self_parents check_self_parent check_seq parents_validate self_parent is_self_parent find
    put ℕ_discrete
child_accepted = refl

validate-accepted_example :
    (child.epoch ≡ 1)
    × (exists three_set 1 ≡ true)
    × All (λ p. p.lamport < 5) (own_parent ∷ other_parent ∷ [])
    × (((child.seq ≡ 1) × NoneOwn child (own_parent ∷ other_parent ∷ []))
        ⊎ ((1 < 2) × FirstOwn child (own_parent ∷ other_parent ∷ [])))
validate-accepted_example =
    validate-accepted three_set 1 child (own_parent ∷ other_parent ∷ [])
      ((omega arith, omega arith), ((omega arith, omega arith), tt)) child_accepted
