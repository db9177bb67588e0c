-- ===== src/Cheaters.antt =====
-- lachesis/cheaters_list.go: the list of cheaters of a block and its validation.
pub mod Valid
pub mod Tests
use lachesis_base.Base.{
  ℕ, Bool, true, false, ◌&&◌, Option, none, some, List, [], ◌∷◌, ltb, ◌==◌, if◌then◌else◌, find,
  put, ℕ_discrete,
}
use lachesis_base.Check.{set_of}

pub data CheatersError : Type 0 where
  zero_id : CheatersError
  out_of_range_id : CheatersError
  duplicate_id : CheatersError

-- `Cheaters.Set`
abbrev pub cheaters_set : List ℕ → List (ℕ × Bool)
cheaters_set cheaters = set_of cheaters []

-- The loop of `Validate`; `none` is no error.
unfoldable pub validate_loop : ℕ → List (ℕ × Bool) → List ℕ → Option CheatersError
validate_loop max_validator_id seen [] = none
validate_loop max_validator_id seen (id ∷ ids) =
    let rest = validate_loop max_validator_id (put ℕ_discrete id true seen) ids in
    if id == 0
    then some zero_id
    else if ltb 0 max_validator_id && ltb max_validator_id id
    then some out_of_range_id
    else elim (find ℕ_discrete id seen) [ some b ↦ some duplicate_id | none ↦ rest ]

abbrev pub validate_cheaters : ℕ → List ℕ → Option CheatersError
validate_cheaters max_validator_id cheaters = validate_loop max_validator_id [] cheaters
