-- ===== src/Pos.antt =====
-- inter/pos: validator sets with weights (validators.go, sort.go) and the counter that sums the
-- weights of distinct validators (stake.go).
pub mod Sort
pub mod Weights
pub mod Build
pub mod Index
pub mod Counter
pub mod Quorum
pub mod Big
pub mod Tests
use lachesis_base.Base.{
  ℕ, suc, ◌+◌, ◌-◌, ◌*◌, ◌/◌, ◌%◌, ◌^◌, Bool, true, false, Option, none, some, List, [], ◌∷◌, ◌++◌,
  ltb, leb, ◌==◌, if◌then◌else◌, ◌>>=◌, length, get_elem?, get_or, set, replicate, find, put,
  delete, ℕ_discrete, map,
}
use mathlib.Core.Option.{IsSome}

-- uint32 arithmetic wraps.
abbrev pub u32 : ℕ → ℕ
u32 n = n % 2 ^ 32

-- math.MaxUint32 / 2
abbrev pub max_total : ℕ
max_total = (2 ^ 32 - 1) / 2

pub record Validator : Type 0 where
  pub id : ℕ
  pub weight : ℕ

-- `Less`: by weight, the greatest first, and then by ID.
unfoldable pub less : Validator → Validator → Bool
less a b = if a.weight == b.weight then ltb a.id b.id else ltb b.weight a.weight

-- A mutable map from IDs to weights.
abbrev pub ValidatorsBuilder : Type 0
ValidatorsBuilder = List (ℕ × ℕ)

unfoldable pub builder_set : ValidatorsBuilder → ℕ → ℕ → ValidatorsBuilder
builder_set vv id weight =
    if weight == 0 then delete ℕ_discrete id vv else put ℕ_discrete id weight vv

pub record Cache : Type 0 where
  pub indexes : List (ℕ × ℕ)
  pub weights : List ℕ
  pub ids : List ℕ
  pub total_weight : ℕ

pub record Validators : Type 0 where
  pub values : ValidatorsBuilder
  pub cache : Cache

abbrev pub len : Validators → ℕ
len vv = length vv.values

-- sort.Sort by `Less`: the order is total on distinct IDs, so every sorting algorithm gives this.
unfoldable pub insert : Validator → List Validator → List Validator
insert v [] = v ∷ []
insert v (w ∷ ws) = if less w v then w ∷ insert v ws else v ∷ w ∷ ws

unfoldable pub sort : List Validator → List Validator
sort [] = []
sort (v ∷ vs) = insert v (sort vs)

abbrev pub entry : ℕ × ℕ → Validator
entry p = record { id = p.0; weight = p.1 }

unfoldable pub sorted_array : ValidatorsBuilder → List Validator
sorted_array values = sort (map entry values)

-- The loop of `calcCaches` from index `i`; `none` is the panic on overflow.
unfoldable pub calc_loop : List Validator → ℕ → Cache → Option Cache
calc_loop [] i c = some c
calc_loop (v ∷ vs) i c =
    let total = u32 (c.total_weight + v.weight) in
    let rest = calc_loop vs (i + 1) (record {
      indexes = put ℕ_discrete v.id i c.indexes;
      weights = set c.weights i v.weight;
      ids = set c.ids i v.id;
      total_weight = total;
    }) in
    if ltb total c.total_weight then none else rest

unfoldable pub calc_caches : ValidatorsBuilder → Option Cache
calc_caches values = do
  c ← calc_loop (sorted_array values) 0 (record {
    indexes = [];
    weights = replicate (length values) 0;
    ids = replicate (length values) 0;
    total_weight = 0;
  })
  if ltb max_total c.total_weight then none else some c

-- `newValidators` copies the entries through `Set`, so that zero weights are left out.
unfoldable pub copy_values : ValidatorsBuilder → ValidatorsBuilder → ValidatorsBuilder
copy_values [] out = out
copy_values ((id, s) ∷ values) out = copy_values values (builder_set out id s)

unfoldable pub new_validators : ValidatorsBuilder → Option Validators
new_validators values = do
  let copy = copy_values values []
  c ← calc_caches copy
  some (record { values = copy; cache = c })

-- `Build`
abbrev pub build : ValidatorsBuilder → Option Validators
build = new_validators

-- `EqualWeightValidators` and `ArrayToValidators`; the latter panics if weights are missing.
equal_weight_builder : List ℕ → ℕ → ValidatorsBuilder → ValidatorsBuilder
equal_weight_builder [] weight b = b
equal_weight_builder (id ∷ ids) weight b = equal_weight_builder ids weight (builder_set b id weight)

unfoldable pub equal_weight_validators : List ℕ → ℕ → Option Validators
unfolding equal_weight_builder
equal_weight_validators ids weight = build (equal_weight_builder ids weight [])

array_builder : List ℕ → List ℕ → ValidatorsBuilder → Option ValidatorsBuilder
array_builder [] weights b = some b
array_builder (id ∷ ids) [] b = none
array_builder (id ∷ ids) (w ∷ weights) b = array_builder ids weights (builder_set b id w)

unfoldable pub array_to_validators : List ℕ → List ℕ → Option Validators
unfolding array_builder
array_to_validators ids weights = do b ← array_builder ids weights []; build b

-- A Go map gives the zero value for a missing key.
abbrev pub or_zero : Option ℕ → ℕ
or_zero none = 0
or_zero (some n) = n

abbrev pub weight_of : Validators → ℕ → ℕ
weight_of vv id = or_zero (find ℕ_discrete id vv.values)

abbrev pub get_idx : Validators → ℕ → ℕ
get_idx vv id = or_zero (find ℕ_discrete id vv.cache.indexes)

-- `none` is the panic of an index out of range.
abbrev pub get_id : Validators → ℕ → Option ℕ
get_id vv i = get_elem? vv.cache.ids i

abbrev pub get_weight_by_idx : Validators → ℕ → Option ℕ
get_weight_by_idx vv i = get_elem? vv.cache.weights i

abbrev pub exists : Validators → ℕ → Bool
exists vv id = elim (find ℕ_discrete id vv.values) [ none ↦ false | some w ↦ true ]

abbrev pub sorted_ids : Validators → List ℕ
sorted_ids vv = vv.cache.ids

abbrev pub total_weight : Validators → ℕ
total_weight vv = vv.cache.total_weight

unfoldable pub quorum : Validators → ℕ
quorum vv = u32 (u32 (total_weight vv * 2) / 3 + 1)

pub record WeightCounter : Type 0 where
  pub validators : Validators
  pub already : List Bool
  pub quorum : ℕ
  pub sum : ℕ

unfoldable pub new_counter : Validators → WeightCounter
new_counter vv = record {
  validators = vv;
  already = replicate (len vv) false;
  quorum = quorum vv;
  sum = 0;
}

unfoldable pub count_by_idx : WeightCounter → ℕ → Option (WeightCounter × Bool)
count_by_idx s i = elim (get_elem? s.already i) [
  | none ↦ none
  | some true ↦ some (s, false)
  | some false ↦ do
    w ← get_weight_by_idx s.validators i
    some (record s { already = set s.already i true; sum = u32 (s.sum + w) }, true)
]

unfoldable pub count : WeightCounter → ℕ → Option (WeightCounter × Bool)
unfolding count_by_idx
count s v = count_by_idx s (get_idx s.validators v)

unfoldable pub has_quorum : WeightCounter → Bool
has_quorum s = leb s.quorum s.sum
