-- ===== src/Pos/Build.antt =====
-- `Build` and the caches of a validator set (inter/pos/validators.go: newValidators, calcCaches):
-- when it panics, and what the caches hold.
use mathlib.Core.List.Perm
use lachesis_base.Pos.Sort.{sort-perm}
use mathlib.Core.List.{Perm}
use lachesis_base.Base.{
  ◌^◌, ◌≤◌, ◌<◌, ◌≡◌, ◌↔◌, inl, inr, refl, sym, ap, ◌∙◌, [], map, arith, Bool-cases, length,
  replicate, none, some, ltb, if◌then◌else◌, le→ltb_false, ltb→lt, lt→ltb,
}
use lachesis_base.Pos.{
  Validators, ValidatorsBuilder, max_total, sort, sorted_array, entry, calc_caches, new_validators,
  build,
}
use lachesis_base.Pos.Weights.{
  All-sort_weights, IsBuilder, calc_loop_fits, calc_loop_overflows, copy_values_same, ids,
  index_from, sorted_array_sums, sum, total_of, weights,
}

-- The validator set of a map whose weights fit.
unfoldable pub built : ValidatorsBuilder → Validators
built b = record {
  values = b;
  cache = record {
    indexes = index_from (sorted_array b) 0 [];
    weights = weights (sorted_array b);
    ids = ids (sorted_array b);
    total_weight = total_of b;
  };
}

overflow : (b : ValidatorsBuilder) → IsBuilder b → 2 ^ 32 ≤ total_of b → calc_caches b ≡ none
unfolding calc_caches sorted_array
overflow b h k = rw (
    calc_loop_overflows (sort (map entry b)) 0
      (record {
        indexes = [];
        weights = replicate (length b) 0;
        ids = replicate (length b) 0;
        total_weight = 0;
      })
      (omega arith) (All-sort_weights b h.1) (omega (arith, sorted_array_sums b)))

calc_caches_fits :
    (b : ValidatorsBuilder)
    → total_of b < 2 ^ 32
    → calc_caches b ≡ (if ltb max_total (total_of b) then none else some (built b).cache)
unfolding calc_caches built
calc_caches_fits b h =
    let s = sorted_array_sums b in
    rw
      (calc_loop_fits (sorted_array b) 0
        (record {
          indexes = [];
          weights = replicate (length b) 0;
          ids = replicate (length b) 0;
          total_weight = 0;
        })
        [] [] (rw s.1) (rw s.1) refl refl (omega arith))
      (rw (s.0) (ground arith))

-- A map whose weights sum to at most MaxUint32/2 is built, and its caches hold the validators in
-- sorted order with the exact total.
pub build-built :
    (b : ValidatorsBuilder) → IsBuilder b → total_of b ≤ max_total → build b ≡ some (built b)
unfolding new_validators built
build-built b h k =
    rw (copy_values_same b h, calc_caches_fits b (omega arith), le→ltb_false _ _ k) refl

-- `Build` panics exactly when the weights sum to more than MaxUint32/2, also where the uint32 sum
-- wraps around.
pub build-panics_iff :
    (b : ValidatorsBuilder) → IsBuilder b → (build b ≡ none) ↔ (max_total < total_of b)
unfolding new_validators
build-panics_iff b h = (only_if, if_over)
  where
    only_if : (new_validators b ≡ none) → max_total < total_of b
    only_if e = elim (Bool-cases (ltb max_total (total_of b))) [
      | inl o ↦ ltb→lt _ _ o
      | inr f ↦ cc (build-built b h (ground arith))
    ]

    if_over : max_total < total_of b → new_validators b ≡ none
    if_over k = elim (Bool-cases (ltb (total_of b) (2 ^ 32))) [
      | inl small ↦ rw (copy_values_same b h, calc_caches_fits b (ltb→lt _ _ small), lt→ltb _ _ k)
      | inr large ↦ rw (copy_values_same b h, overflow b h (ground arith))
    ]

-- Two readings of one map give the same caches: nothing of the result depends on the order in
-- which a Go map is read.
pub built-perm :
    (b c : ValidatorsBuilder)
    → Perm b c
    → IsBuilder b
    → IsBuilder c
    → total_of b ≤ max_total
    → (s t : Validators) × (build b ≡ some s) × (build c ≡ some t) × (s.cache ≡ t.cache)
unfolding built sorted_array
built-perm b c p hb hc kb =
    let same : sort (map entry b) ≡ sort (map entry c) = sort-perm (Perm.map entry p) in
    let total : total_of b ≡ total_of c =
      sym (sorted_array_sums b).0 ∙ ap (λ l. sum (weights l)) same ∙ (sorted_array_sums c).0 in
    (
      built b,
      built c,
      build-built b hb kb,
      build-built c hc (rw (← total) kb),
      ground (arith, same, total),
    )

-- What `Build` returns, if it returns.
pub build-eq_some :
    (b : ValidatorsBuilder) {vv : Validators}
    → IsBuilder b
    → build b ≡ some vv
    → (vv ≡ built b) × (total_of b ≤ max_total)
build-eq_some b h e = elim (Bool-cases (ltb max_total (total_of b))) [
  | inl o ↦ cc ((build-panics_iff b h).1 (ltb→lt _ _ o))
  | inr f ↦ let fits : total_of b ≤ max_total = ground arith in (cc (build-built b h fits), fits)
]
