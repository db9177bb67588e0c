-- ===== src/Pos/Index.antt =====
-- The index caches of a validator set (inter/pos/validators.go): GetIdx and GetID are inverse, and
-- the weights by index are the weights by ID.
use Prim.Native.Nat.add
use lachesis_base.Base.{
  ℕ, zero, suc, ◌+◌, ◌≡◌, ◌⊎◌, inl, inr, refl, sym, ◌∙◌, ap, List, [], ◌∷◌, map, arith, In, true,
  Bool-cases, get_elem?, some, none, find, find-put, put, IsMap, ℕ_discrete, if_pos, if_neg,
  Option-cases,
}
use lachesis_base.Pos.{
  Validator, Validators, ValidatorsBuilder, sort, insert, sorted_array, entry, less, exists,
  get_idx, get_id, get_weight_by_idx, weight_of, build,
}
use lachesis_base.Pos.Weights.{ids, weights, index_from, IsBuilder}
use lachesis_base.Pos.Build.{built, build-eq_some}

-- No value occurs twice.
abbrev Distinct : List ℕ → Type 0
Distinct [] = Unit
Distinct (x ∷ xs) = ¬ In x xs × Distinct xs

In-insert :
    (x : ℕ) (v : Validator) (l : List Validator)
    → In x (ids (insert v l))
    → (x ≡ v.id) ⊎ In x (ids l)
unfolding insert
In-insert x v [] h = h
In-insert x v (w ∷ l) h = ground (arith, In-insert x v l)

insert-Distinct :
    (v : Validator) (l : List Validator)
    → ¬ In v.id (ids l)
    → Distinct (ids l)
    → Distinct (ids (insert v l))
unfolding insert
insert-Distinct v [] n h = (n, tt)
insert-Distinct v (w ∷ l) n h = elim (Bool-cases (less w v)) [
  | inl e ↦ rw e (
    λ q. elim (In-insert w.id v l q) [ inl a ↦ n (inl (sym a)) | inr b ↦ h.0 b ],
    insert-Distinct v l (λ q. n (inr q)) h.1,
  )
  | inr e ↦ rw e (n, h)
]

find-none-not_In :
    (k : ℕ) (b : ValidatorsBuilder) → find ℕ_discrete k b ≡ none → ¬ In k (map (λ p. p.0) b)
unfolding find
find-none-not_In k [] h q = q
find-none-not_In k ((j, w) ∷ b) h q = ground (arith, find-none-not_In k b)

In-sort : (x : ℕ) (l : List Validator) → In x (ids (sort l)) → In x (ids l)
unfolding sort
In-sort x [] h = h
In-sort x (v ∷ l) h = ground (arith, In-insert x v (sort l), In-sort x l)

ids-entries : (b : ValidatorsBuilder) → ids (map entry b) ≡ map (λ p. p.0) b
ids-entries [] = refl
ids-entries (p ∷ b) = ap (◌∷◌ p.0) (ids-entries b)

sorted_array-Distinct :
    (b : ValidatorsBuilder) → IsMap ℕ_discrete b → Distinct (ids (sorted_array b))
unfolding sorted_array sort
sorted_array-Distinct [] h = tt
sorted_array-Distinct (p ∷ b) h =
    insert-Distinct (entry p) (sort (map entry b))
      (λ q. find-none-not_In p.0 b h.0 (rw (ids-entries b) at (In-sort p.0 (map entry b) q)))
      (sorted_array-Distinct b h.1)

index_from-other :
    (x i : ℕ) (vs : List Validator) (m : List (ℕ × ℕ))
    → ¬ In x (ids vs)
    → find ℕ_discrete x (index_from vs i m) ≡ find ℕ_discrete x m
unfolding index_from
index_from-other x i [] m n = refl
index_from-other x i (v ∷ vs) m n =
    index_from-other x (i + 1) vs (put ℕ_discrete v.id i m) (λ q. n (inr q))
    ∙ find-put ℕ_discrete v.id x i m
    ∙ if_neg (ℕ_discrete v.id x) (λ e. n (inl (sym e))) _ _

index_from-at :
    (x i k : ℕ) (vs : List Validator) (m : List (ℕ × ℕ))
    → Distinct (ids vs)
    → get_elem? (ids vs) k ≡ some x
    → find ℕ_discrete x (index_from vs i m) ≡ some (i + k)
unfolding index_from
index_from-at x i k [] m d h = cc
index_from-at x i zero (v ∷ vs) m d h =
    index_from-other x (i + 1) vs (put ℕ_discrete v.id i m) (λ q. d.0 (ground arith))
    ∙ find-put ℕ_discrete v.id x i m
    ∙ if_pos (ℕ_discrete v.id x) (ground arith) _ _
    ∙ ap some (omega arith)
index_from-at x i (suc k) (v ∷ vs) m d h =
    index_from-at x (i + 1) k vs (put ℕ_discrete v.id i m) d.1 h ∙ ap some (omega arith)

get_elem?-insert :
    (v : Validator) (l : List Validator) → (k : ℕ) × (get_elem? (insert v l) k ≡ some v)
unfolding insert
get_elem?-insert v [] = (0, refl)
get_elem?-insert v (w ∷ l) = elim (Bool-cases (less w v)) [
  | inl e ↦ let (k, h) = get_elem?-insert v l in (suc k, rw (e) h)
  | inr e ↦ (0, rw e refl)
]

get_elem?-insert_old :
    (v x : Validator) (l : List Validator) (k : ℕ)
    → get_elem? l k ≡ some x
    → (j : ℕ) × (get_elem? (insert v l) j ≡ some x)
unfolding insert
get_elem?-insert_old v x [] k h = cc
get_elem?-insert_old v x (w ∷ l) zero h = elim (Bool-cases (less w v)) [
  | inl e ↦ (0, rw e h)
  | inr e ↦ (1, rw e h)
]
get_elem?-insert_old v x (w ∷ l) (suc k) h = elim (Bool-cases (less w v)) [
  | inl e ↦ let (j, p) = get_elem?-insert_old v x l k h in (suc j, rw e p)
  | inr e ↦ (suc (suc k), rw e h)
]

-- Every entry of the map has a place in the sorted array.
find-sorted_array :
    (id w : ℕ) (b : ValidatorsBuilder)
    → find ℕ_discrete id b ≡ some w
    → (k : ℕ) × (get_elem? (sorted_array b) k ≡ some (record { id = id; weight = w }))
unfolding sorted_array sort find
find-sorted_array id w [] h = cc
find-sorted_array id w ((j, x) ∷ b) h = elim (ℕ_discrete j id) [
  | yes p ↦
      let e : ◌≡◌ {A = Validator} (record { id = j; weight = x }) (record { id = id; weight = w }) =
        ground arith in
      rw (← e) (get_elem?-insert (record { id = j; weight = x }) (sort (map entry b)))
  | no p ↦
      let (k, q) = find-sorted_array id w b (ground arith) in
      get_elem?-insert_old (record { id = j; weight = x }) _ (sort (map entry b)) k q
]

get_elem?-columns :
    (l : List Validator) (k : ℕ) (v : Validator)
    → get_elem? l k ≡ some v
    → (get_elem? (ids l) k ≡ some v.id) × (get_elem? (weights l) k ≡ some v.weight)
get_elem?-columns [] k v h = cc
get_elem?-columns (x ∷ l) zero v h = ground arith
get_elem?-columns (x ∷ l) (suc k) v h = get_elem?-columns l k v h

-- For a validator of the set, the ID at its index is its ID, and the weight at its index is its
-- weight.
pub get_id-get_idx :
    (b : ValidatorsBuilder) (vv : Validators) (id : ℕ)
    → IsBuilder b
    → build b ≡ some vv
    → exists vv id ≡ true
    → (get_id vv (get_idx vv id) ≡ some id)
      × (get_weight_by_idx vv (get_idx vv id) ≡ some (weight_of vv id))
unfolding built
get_id-get_idx b vv id hb h k = rw ((build-eq_some b hb h).0) (places present)
  where
    present : (w : ℕ) × (find ℕ_discrete id b ≡ some w)
    present = elim (Option-cases (find ℕ_discrete id b)) [
      | inl e ↦ ground (arith, build-eq_some b hb h)
      | inr e ↦ e
    ]

    places :
        (w : ℕ) × (find ℕ_discrete id b ≡ some w)
        → (get_id (built b) (get_idx (built b) id) ≡ some id)
          × (get_weight_by_idx (built b) (get_idx (built b) id) ≡ some (weight_of (built b) id))
    places (w, e) =
        let (j, at) = find-sorted_array id w b e in
        let (at_id, at_weight) = get_elem?-columns (sorted_array b) j _ at in
        rw
          (
            index_from-at id 0 j (sorted_array b) [] (sorted_array-Distinct b hb.0) at_id,
            e,
            add.zero j,
          )
          (at_id, at_weight)
