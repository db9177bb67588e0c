-- ===== src/Lru/Tests.antt =====
-- Runs of the cache (utils/simplewlru) with two entries, and the theorems at them.
use lachesis_base.Base.{
  ◌≤◌, ◌<◌, ℕ, ◌≡◌, refl, arith, [], ◌∷◌, some, none, find, delete, ℕ_discrete,
}
use lachesis_base.Lru.{
  pos, negsuc, Cache, normalize, remove_oldest, remove_element, back, drop_back, exceeds, add,
  insert, peek, resize_to,
}
use lachesis_base.Lru.Weights.{IsCache}
use lachesis_base.Lru.Bounds.{IsNormal, normalize_lem, resize_endless}
use lachesis_base.Lru.Access.{add-peek}

-- Two entries of weight 3, within a weight of 10 and a size of 2.
abbrev two_entries : Cache ℕ
two_entries = record {
  max_size = pos 2;
  weight = 6;
  max_weight = 10;
  entries = (1, record { value = 11; weight = 3 }) ∷ (2, record { value = 22; weight = 3 }) ∷ [];
  evictions = [];
}

two_entries-IsCache : IsCache two_entries
unfolding find ℕ_discrete
two_entries-IsCache = record { keyed = (refl, (refl, tt)); weighed = refl; fits = omega arith }

-- The same entries over a size of 1.
abbrev one_too_many : Cache ℕ
one_too_many = record two_entries { max_size = pos 1 }

one_too_many-IsCache : IsCache one_too_many
unfolding find ℕ_discrete
one_too_many-IsCache = record { keyed = (refl, (refl, tt)); weighed = refl; fits = omega arith }

-- A third entry evicts the oldest one.
add_evicts :
    add 3 33 4 two_entries
    ≡ some (
      record two_entries {
        weight = 7;
        entries =
            (3, record { value = 33; weight = 4 }) ∷ (1, record { value = 11; weight = 3 }) ∷ [];
        evictions = (2, 22) ∷ [];
      },
      1,
    )
unfolding normalize remove_oldest remove_element back drop_back exceeds insert find delete
    ℕ_discrete
add_evicts = refl

normalize_lem_example :
    (c' : Cache ℕ) × (n : ℕ) × (normalize 3 one_too_many ≡ some (c', n))
    × IsNormal 1 one_too_many c' n
normalize_lem_example = normalize_lem 3 1 one_too_many one_too_many-IsCache refl (omega arith)

add-peek_example :
    (c' : Cache ℕ) × (n : ℕ) × (add 3 33 4 two_entries ≡ some (c', n))
    × IsNormal 2 (insert 3 33 4 two_entries) c' n
    × (4 ≤ 10 → 0 < 2 → peek 3 c' ≡ some 33)
add-peek_example = add-peek 3 33 4 2 two_entries two_entries-IsCache refl (omega arith)

resize_endless_example : normalize 100 (resize_to 10 (negsuc 0) two_entries) ≡ none
resize_endless_example = resize_endless 100 10 0 two_entries
