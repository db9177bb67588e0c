-- ===== src/Pos/Tests.antt =====
-- Runs of the validator sets (inter/pos) on three validators, and the theorems at them.
use lachesis_base.Base.{
  ℕ, ◌^◌, ℤ, pos, ◌*◌, ◌<◌, ◌≤◌, ◌≡◌, ◌↔◌, refl, arith, [], ◌∷◌, true, false, some, none, find, put,
  ℕ_discrete,
}
use lachesis_base.Pos.{
  Validators, ValidatorsBuilder, WeightCounter, max_total, build, new_validators, copy_values,
  builder_set, calc_caches, calc_loop, sorted_array, sort, insert, less, quorum, has_quorum, get_id,
  get_weight_by_idx,
}
use lachesis_base.Pos.Weights.{IsBuilder, total_of}
use lachesis_base.Pos.Build.{build-panics_iff, built}
use lachesis_base.Pos.Index.{get_id-get_idx}
use lachesis_base.Pos.Counter.{marked_sum, IsWeighted, IsCounter}
use lachesis_base.Pos.Quorum.{has_quorum-overlap}
use lachesis_base.Pos.Big.{ValidatorsBigBuilder, big_build, shift_of, scale, big_build-built}

abbrev pub three : ValidatorsBuilder
three = (1, 3) ∷ (2, 2) ∷ (3, 1) ∷ []

abbrev pub three_set : Validators
three_set = record {
  values = three;
  cache = record {
    indexes = (1, 0) ∷ (2, 1) ∷ (3, 2) ∷ [];
    weights = 3 ∷ 2 ∷ 1 ∷ [];
    ids = 1 ∷ 2 ∷ 3 ∷ [];
    total_weight = 6;
  };
}

build-three : build three ≡ some three_set
unfolding new_validators copy_values builder_set calc_caches calc_loop sorted_array sort insert less
    find put ℕ_discrete
build-three = refl

pub three-IsWeighted : IsWeighted three_set
three-IsWeighted = record { sized = refl; total = refl; fits = omega arith }

abbrev two_of : WeightCounter
two_of = record { validators = three_set; already = true ∷ true ∷ false ∷ []; quorum = 5; sum = 5 }

abbrev all_of : WeightCounter
all_of = record { validators = three_set; already = true ∷ true ∷ true ∷ []; quorum = 5; sum = 6 }

two_of-IsCounter : IsCounter three_set two_of
unfolding marked_sum quorum
two_of-IsCounter = record { over = refl; sized = refl; summed = refl; limit = refl }

all_of-IsCounter : IsCounter three_set all_of
unfolding marked_sum quorum
all_of-IsCounter = record { over = refl; sized = refl; summed = refl; limit = refl }

has_quorum-overlap_example : 6 < 3 * 5
unfolding marked_sum has_quorum
has_quorum-overlap_example =
    has_quorum-overlap three_set two_of all_of three-IsWeighted two_of-IsCounter all_of-IsCounter
      refl refl

three-IsBuilder : IsBuilder three
unfolding find ℕ_discrete
three-IsBuilder = (
  (refl, (refl, (refl, tt))),
  ((omega arith, omega arith), ((omega arith, omega arith), ((omega arith, omega arith), tt))),
)

build-panics_iff_example : (build three ≡ none) ↔ (max_total < 6)
build-panics_iff_example = build-panics_iff three three-IsBuilder

get_id-get_idx_example : (get_id three_set 1 ≡ some 2) × (get_weight_by_idx three_set 1 ≡ some 2)
unfolding find ℕ_discrete
get_id-get_idx_example = get_id-get_idx three three_set 2 three-IsBuilder build-three refl

-- The sum has 34 bits, so that the weights are divided by 8.
abbrev three_big : ValidatorsBigBuilder
three_big = (1, pos (2 ^ 33)) ∷ (2, pos 4000) ∷ (3, pos 5) ∷ []

abbrev nothing : ℤ → ℕ
nothing w = 0

big_build-built_example :
    (total_of (scale nothing (shift_of three_big) three_big []) ≤ max_total)
    × (big_build nothing three_big ≡ some (built (scale nothing (shift_of three_big) three_big [])))
big_build-built_example = big_build-built nothing three_big (tt, (tt, (tt, tt)))

-- The same map, read in another order.
abbrev three_again : ValidatorsBuilder
three_again = (2, 2) ∷ (1, 3) ∷ (3, 1) ∷ []

three_again-IsBuilder : IsBuilder three_again
unfolding find ℕ_discrete
three_again-IsBuilder = (
  (refl, (refl, (refl, tt))),
  ((omega arith, omega arith), ((omega arith, omega arith), ((omega arith, omega arith), tt))),
)
