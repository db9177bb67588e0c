-- ===== src/Pos/Weights.antt =====
-- The map of a validators builder, the sorted array and the loop of calcCaches
-- (inter/pos/validators.go): the weights through each of them.
use mathlib.Core.List.{append_assoc, append-nil}
use lachesis_base.Base.{
  ℕ, zero, suc, ◌+◌, ◌^◌, ◌≤◌, ◌<◌, ◌≡◌, inl, inr, refl, sym, ap, ◌∙◌, false, List, [], ◌∷◌, ◌++◌,
  map, arith, Bool-cases, length, All, set, replicate, none, some, put, IsMap, ℕ_discrete,
  put-IsMap, delete-IsMap, le→ltb_false, ◌==◌, put_new, IsMap-append_head, All-put, All-delete,
}
use lachesis_base.Pos.{
  Validator, ValidatorsBuilder, Cache, builder_set, u32, sort, insert, sorted_array, entry,
  calc_loop, copy_values, less,
}

abbrev pub weights : List Validator → List ℕ
weights = map (λ v. v.weight)

abbrev pub ids : List Validator → List ℕ
ids = map (λ v. v.id)

abbrev pub sum : List ℕ → ℕ
sum [] = 0
sum (x ∷ xs) = x + sum xs

-- The sum of all weights of a map.
abbrev pub total_of : ValidatorsBuilder → ℕ
total_of [] = 0
total_of (p ∷ b) = p.1 + total_of b

-- What `Set` keeps: distinct IDs with weights that are not zero.
abbrev pub IsBuilder : ValidatorsBuilder → Type 0
IsBuilder b = IsMap ℕ_discrete b × All (λ p. (0 < p.1) × (p.1 < 2 ^ 32)) b

pub set-append : (ws r : List ℕ) (i x : ℕ) → length ws ≡ i → set (ws ++ (0 ∷ r)) i x ≡ ws ++ (x ∷ r)
set-append [] r zero x h = refl
set-append [] r (suc i) x h = absurd (omega arith)
set-append (w ∷ ws) r zero x h = absurd (omega arith)
set-append (w ∷ ws) r (suc i) x h = ap (◌∷◌ w) (set-append ws r i x (omega arith))

-- The indexes that the loop stores.
unfoldable pub index_from : List Validator → ℕ → List (ℕ × ℕ) → List (ℕ × ℕ)
index_from [] i m = m
index_from (v ∷ vs) i m = index_from vs (i + 1) (put ℕ_discrete v.id i m)

pub length-snoc : (ws : List ℕ) (x i : ℕ) → length ws ≡ i → length (ws ++ (x ∷ [])) ≡ i + 1
length-snoc [] x i h = omega arith
length-snoc (w ∷ ws) x zero h = absurd (omega arith)
length-snoc (w ∷ ws) x (suc i) h = omega (arith, length-snoc ws x i (omega arith))

-- With no overflow the loop fills both slices and sums the weights.
pub calc_loop_fits :
    (vs : List Validator) (i : ℕ) (c : Cache) (ws js : List ℕ)
    → c.weights ≡ ws ++ replicate (length vs) 0
    → c.ids ≡ js ++ replicate (length vs) 0
    → length ws ≡ i
    → length js ≡ i
    → c.total_weight + sum (weights vs) < 2 ^ 32
    → calc_loop vs i c
      ≡ some (record {
        indexes = index_from vs i c.indexes;
        weights = ws ++ weights vs;
        ids = js ++ ids vs;
        total_weight = c.total_weight + sum (weights vs);
      })
unfolding calc_loop index_from
calc_loop_fits [] i c ws js p q r s h = ground (arith, append-nil ws, append-nil js)
calc_loop_fits (v ∷ vs) i c ws js p q r s h =
    let no_wrap : u32 (c.total_weight + v.weight) ≡ c.total_weight + v.weight = omega arith in
    let next : Cache = record {
      indexes = put ℕ_discrete v.id i c.indexes;
      weights = ws ++ (v.weight ∷ replicate (length vs) 0);
      ids = js ++ (v.id ∷ replicate (length vs) 0);
      total_weight = c.total_weight + v.weight;
    } in
    rw
      (
        no_wrap,
        p,
        q,
        set-append ws _ i v.weight r,
        set-append js _ i v.id s,
        le→ltb_false (c.total_weight + v.weight) c.total_weight (omega arith),
      )
      (calc_loop_fits vs (i + 1) next (ws ++ (v.weight ∷ [])) (js ++ (v.id ∷ []))
          (sym (append_assoc ws (v.weight ∷ []) (replicate (length vs) 0)))
          (sym (append_assoc js (v.id ∷ []) (replicate (length vs) 0)))
          (length-snoc ws v.weight i r) (length-snoc js v.id i s) (omega arith)
        ∙ ground (
          arith,
          append_assoc ws (v.weight ∷ []) (weights vs),
          append_assoc js (v.id ∷ []) (ids vs),
        ))

-- A sum that does not fit in 32 bits is always noticed: one of the additions wraps.
pub calc_loop_overflows :
    (vs : List Validator) (i : ℕ) (c : Cache)
    → c.total_weight < 2 ^ 32
    → All (λ w. w < 2 ^ 32) (weights vs)
    → 2 ^ 32 ≤ c.total_weight + sum (weights vs)
    → calc_loop vs i c ≡ none
unfolding calc_loop
calc_loop_overflows [] i c p h q = absurd (omega arith)
calc_loop_overflows (v ∷ vs) i c p h q = ground (
  arith,
  calc_loop_overflows vs (i + 1) (record {
    indexes = put ℕ_discrete v.id i c.indexes;
    weights = set c.weights i v.weight;
    ids = set c.ids i v.id;
    total_weight = u32 (c.total_weight + v.weight);
  }),
)

-- `Set` keeps the map well formed.
pub builder_set-IsBuilder :
    (b : ValidatorsBuilder) (id w : ℕ) → w < 2 ^ 32 → IsBuilder b → IsBuilder (builder_set b id w)
unfolding builder_set
builder_set-IsBuilder b id w h k = elim (Bool-cases (w == 0)) [
  | inl e ↦ rw e (delete-IsMap ℕ_discrete id b k.0, All-delete ℕ_discrete _ id b k.1)
  | inr e ↦
      rw e (put-IsMap ℕ_discrete id w b k.0, All-put ℕ_discrete _ id w b (ground arith, h) k.1)
]

copy_values-append :
    (b out : ValidatorsBuilder)
    → IsMap ℕ_discrete (out ++ b)
    → All (λ p. (0 < p.1) × (p.1 < 2 ^ 32)) b
    → copy_values b out ≡ out ++ b
unfolding copy_values builder_set
copy_values-append [] out h k = sym (append-nil out)
copy_values-append ((id, w) ∷ b) out h k =
    let not_zero : (w == 0) ≡ false = ground arith in
    let shift = append_assoc out ((id, w) ∷ []) b in
    rw (not_zero, put_new ℕ_discrete id w out (IsMap-append_head ℕ_discrete id w out b h))
      (copy_values-append b (out ++ ((id, w) ∷ [])) (rw shift h) k.1 ∙ shift)

-- The copy of a well-formed map is the map.
pub copy_values_same : (b : ValidatorsBuilder) → IsBuilder b → copy_values b [] ≡ b
copy_values_same b h = copy_values-append b [] h.0 h.1

pub sum-insert :
    (v : Validator) (l : List Validator)
    → (sum (weights (insert v l)) ≡ v.weight + sum (weights l))
      × (length (insert v l) ≡ suc (length l))
unfolding insert
sum-insert v [] = (refl, refl)
sum-insert v (w ∷ l) = ground (arith, sum-insert v l)

pub sum-sort :
    (l : List Validator) → (sum (weights (sort l)) ≡ sum (weights l)) × (length (sort l) ≡ length l)
unfolding sort
sum-sort [] = (refl, refl)
sum-sort (v ∷ l) = ground (arith, sum-sort l, sum-insert v (sort l))

pub total_of-entries :
    (b : ValidatorsBuilder)
    → (sum (weights (map entry b)) ≡ total_of b) × (length (map entry b) ≡ length b)
total_of-entries [] = (refl, refl)
total_of-entries (p ∷ b) = ground (arith, total_of-entries b)

-- The sorted array has the weights of the map.
pub sorted_array_sums :
    (b : ValidatorsBuilder)
    → (sum (weights (sorted_array b)) ≡ total_of b) × (length (sorted_array b) ≡ length b)
unfolding sorted_array
sorted_array_sums b = ground (arith, total_of-entries b, sum-sort (map entry b))

All-insert_weights :
    (v : Validator) (l : List Validator)
    → v.weight < 2 ^ 32
    → All (λ w. w < 2 ^ 32) (weights l)
    → All (λ w. w < 2 ^ 32) (weights (insert v l))
unfolding insert
All-insert_weights v [] p h = (p, tt)
All-insert_weights v (w ∷ l) p h = elim (Bool-cases (less w v)) [
  | inl e ↦ rw e (h.0, All-insert_weights v l p h.1)
  | inr e ↦ rw e (p, h)
]

pub All-sort_weights :
    (b : ValidatorsBuilder)
    → All (λ p. (0 < p.1) × (p.1 < 2 ^ 32)) b
    → All (λ w. w < 2 ^ 32) (weights (sort (map entry b)))
unfolding sort
All-sort_weights [] h = tt
All-sort_weights (p ∷ b) h =
    All-insert_weights (entry p) (sort (map entry b)) h.0.1 (All-sort_weights b h.1)
