-- ===== src/Lru.antt =====
-- utils/simplewlru/simplewlru.go: the LRU cache that is bounded by weight and by size.
-- `entries` is `evictList`, its front first; `items`, whose values point into the list, is a search
-- for the key. Keys are numbers. `evictions` logs the calls of `onEvict`.
pub mod Weights
pub mod Bounds
pub mod Access
pub mod Removal
pub mod Tests
pub use lachesis_base.Base.{pos, negsuc}
use lachesis_base.Base.{
  ℤ, ℕ, zero, suc, ◌+◌, ◌-◌, ◌%◌, ◌^◌, Bool, true, false, ◌||◌, Option, none, some, List, [], ◌∷◌,
  ◌++◌, length, ltb, if◌then◌else◌, ◌>>=◌, find, delete, ℕ_discrete, map,
}

pub record Entry (V : Type 0) : Type 0 where
  pub value : V
  pub weight : ℕ

pub record Cache (V : Type 0) : Type 0 where
  pub max_size : ℤ
  pub weight : ℕ
  pub max_weight : ℕ
  pub entries : List (ℕ × Entry V)
  pub evictions : List (ℕ × V)

-- The sum and the difference of two uints.
abbrev pub u64_add : ℕ → ℕ → ℕ
u64_add a b = (a + b) % 2 ^ 64

abbrev pub u64_sub : ℕ → ℕ → ℕ
u64_sub a b = (a + (2 ^ 64 - b)) % 2 ^ 64

unfoldable pub exceeds : ℕ → ℤ → Bool
exceeds n (pos m) = ltb m n
exceeds n (negsuc m) = true

module _ {V : Type 0} where
  -- `NewWithEvict`; `none` is its error.
  unfoldable pub new : ℕ → ℤ → Option (Cache V)
  new max_weight (negsuc n) = none
  new max_weight (pos n) = some (record {
    max_size = pos n;
    weight = 0;
    max_weight = max_weight;
    entries = [];
    evictions = [];
  })

  -- `removeElement` of the entry, which leaves the others.
  unfoldable pub remove_element : ℕ × Entry V → List (ℕ × Entry V) → Cache V → Cache V
  remove_element (k, e) rest c = record c {
    entries = rest;
    weight = u64_sub c.weight e.weight;
    evictions = c.evictions ++ ((k, e.value) ∷ []);
  }

  unfoldable pub back : List (ℕ × Entry V) → Option (ℕ × Entry V)
  back [] = none
  back (e ∷ []) = some e
  back (e ∷ e' ∷ es) = back (e' ∷ es)

  unfoldable pub drop_back : List (ℕ × Entry V) → List (ℕ × Entry V)
  drop_back [] = []
  drop_back (e ∷ []) = []
  drop_back (e ∷ e' ∷ es) = e ∷ drop_back (e' ∷ es)

  -- `removeOldest`
  unfoldable pub remove_oldest : Cache V → Cache V
  remove_oldest c = elim (back c.entries) [
    | none ↦ c
    | some e ↦ remove_element e (drop_back c.entries) c
  ]

  abbrev pub is_over : Cache V → Bool
  is_over c = ltb c.max_weight c.weight || exceeds (length c.entries) c.max_size

  -- The loop of `normalize`, on fuel, with the number of the evictions.
  unfoldable pub normalize : ℕ → Cache V → Option (Cache V × ℕ)
  normalize zero c = none
  normalize (suc fuel) c =
      let rest = normalize fuel (remove_oldest c) in
      if is_over c then (rest >>= λ (c', n). some (c', suc n)) else some (c, 0)

  -- One step of fuel for each entry, and one to leave the loop.
  abbrev pub normalized : Cache V → Option (Cache V × ℕ)
  normalized c = normalize (suc (length c.entries)) c

  -- `Add`, up to the call of `normalize`.
  unfoldable pub insert : ℕ → V → ℕ → Cache V → Cache V
  insert k v w c = elim (find ℕ_discrete k c.entries) [
    | some e ↦ record c {
      entries = (k, record { value = v; weight = w }) ∷ delete ℕ_discrete k c.entries;
      weight = u64_add (u64_sub c.weight e.weight) w;
    }
    | none ↦ record c {
      entries = (k, record { value = v; weight = w }) ∷ c.entries;
      weight = u64_add c.weight w;
    }
  ]

  abbrev pub add : ℕ → V → ℕ → Cache V → Option (Cache V × ℕ)
  add k v w c = normalized (insert k v w c)

  -- `Get`
  unfoldable pub get : ℕ → Cache V → Cache V × Option V
  get k c = elim (find ℕ_discrete k c.entries) [
    | none ↦ (c, none)
    | some e ↦ (record c { entries = (k, e) ∷ delete ℕ_discrete k c.entries }, some e.value)
  ]

  unfoldable pub contains : ℕ → Cache V → Bool
  contains k c = elim (find ℕ_discrete k c.entries) [ none ↦ false | some e ↦ true ]

  unfoldable pub peek : ℕ → Cache V → Option V
  peek k c = elim (find ℕ_discrete k c.entries) [ none ↦ none | some e ↦ some e.value ]

  unfoldable pub remove : ℕ → Cache V → Cache V × Bool
  remove k c = elim (find ℕ_discrete k c.entries) [
    | none ↦ (c, false)
    | some e ↦ (remove_element (k, e) (delete ℕ_discrete k c.entries) c, true)
  ]

  -- `GetOldest`
  unfoldable pub get_oldest : Cache V → Option (ℕ × V)
  get_oldest c = elim (back c.entries) [ none ↦ none | some (k, e) ↦ some (k, e.value) ]

  unfoldable rev_keys : List (ℕ × Entry V) → List ℕ → List ℕ
  rev_keys [] out = out
  rev_keys ((k, e) ∷ es) out = rev_keys es (k ∷ out)

  -- `Keys`, the oldest first.
  unfoldable pub keys : Cache V → List ℕ
  unfolding rev_keys
  keys c = rev_keys c.entries []

  -- `Resize`, up to the call of `normalize`.
  abbrev pub resize_to : ℕ → ℤ → Cache V → Cache V
  resize_to max_weight max_size c = record c { max_weight = max_weight; max_size = max_size }

  abbrev pub resize : ℕ → ℤ → Cache V → Option (Cache V × ℕ)
  resize max_weight max_size c = normalized (resize_to max_weight max_size c)

  -- The loop of `Purge` over the entries, in the order of the model.
  unfoldable pub purge_loop : List (ℕ × Entry V) → Cache V → Cache V
  purge_loop [] c = record c { entries = [] }
  purge_loop ((k, e) ∷ es) c = purge_loop es (remove_element (k, e) es c)

  abbrev pub purge : Cache V → Cache V
  purge c = purge_loop c.entries c
