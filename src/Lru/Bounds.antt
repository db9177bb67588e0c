-- ===== src/Lru/Bounds.antt =====
-- The limits of the cache (`normalize` of utils/simplewlru/simplewlru.go): what an eviction leaves.
use lachesis_base.Base.{
  ℕ, zero, suc, ◌≤◌, ◌<◌, ◌≡◌, refl, sym, ap, ◌∙◌, arith, true, Bool-cases, Option-cases, none,
  some, List, [], ◌∷◌, ◌++◌, length, ltb, ◌⊎◌, inl, inr, ltb→lt, length-append,
}
use lachesis_base.Lru.{
  pos, negsuc, Entry, Cache, remove_element, back, drop_back, remove_oldest, exceeds, is_over,
  normalize, resize_to,
}
use mathlib.Core.List.{append-nil, append_assoc}
use lachesis_base.Lru.Weights.{
  weights, IsCache, back-none, drop_back_lem, weights-append, IsMap-front,
}

module _ {V : Type 0} where
  -- The first of the dropped entries, the last one to go, did not fit.
  abbrev pub Needed : ℕ → ℕ → List (ℕ × Entry V) → List (ℕ × Entry V) → Type 0
  Needed max_weight m kept [] = Unit
  Needed max_weight m kept (d ∷ ds) =
      (max_weight < weights (kept ++ (d ∷ []))) ⊎ (m < length (kept ++ (d ∷ [])))

  -- What a call of `normalize` leaves of a cache.
  pub record IsNormal (m : ℕ) (c c' : Cache V) (n : ℕ) : Type 0 where
    pub is_cache : IsCache c'
    pub dropped : List (ℕ × Entry V)
    pub split : c.entries ≡ c'.entries ++ dropped
    pub counted : length dropped ≡ n
    pub light : c'.weight ≤ c.max_weight
    pub short : length c'.entries ≤ m
    pub needed : Needed c.max_weight m c'.entries dropped

  pub remove_oldest_lem :
      (c : Cache V)
      → IsCache c
      → (c.entries ≡ [])
        ⊎ ((x : ℕ × Entry V) × IsCache (remove_oldest c)
            × (c.entries ≡ (remove_oldest c).entries ++ (x ∷ []))
            × ((remove_oldest c).max_weight ≡ c.max_weight)
            × ((remove_oldest c).max_size ≡ c.max_size))
  unfolding remove_oldest remove_element
  remove_oldest_lem c h = elim (Option-cases (back c.entries)) [
    | inl e ↦ inl (back-none c.entries e)
    | inr ((k, x), e) ↦
        let parts = drop_back_lem c.entries k x e in
        let sums = ap weights parts ∙ weights-append (drop_back c.entries) ((k, x) ∷ []) in
        let keyed = IsMap-front (drop_back c.entries) ((k, x) ∷ []) (rw (← parts) h.keyed) in
        let now : remove_oldest c ≡ remove_element (k, x) (drop_back c.entries) c =
          rw (e, remove_oldest) refl in
        inr (
          (k, x),
          rw now (record {
            keyed = keyed;
            weighed = omega (arith, sums, h.weighed, h.fits);
            fits = omega (arith, sums, h.fits);
          }),
          rw now parts,
          rw now refl,
          rw now refl,
        )
  ]

  Needed-step :
      (max_weight m : ℕ) (kept dropped : List (ℕ × Entry V)) (x : ℕ × Entry V)
      → Needed max_weight m kept dropped
      → (max_weight < weights ((kept ++ dropped) ++ (x ∷ [])))
        ⊎ (m < length ((kept ++ dropped) ++ (x ∷ [])))
      → Needed max_weight m kept (dropped ++ (x ∷ []))
  Needed-step max_weight m kept [] x h over = rw (← append-nil kept) over
  Needed-step max_weight m kept (d ∷ ds) x h over = h

  over_limits :
      (c : Cache V) (m : ℕ)
      → is_over c ≡ true
      → c.max_size ≡ pos m
      → IsCache c
      → (c.max_weight < weights c.entries) ⊎ (m < length c.entries)
  unfolding exceeds
  over_limits c m over s h = elim (Bool-cases (ltb c.max_weight c.weight)) [
    | inl e ↦ inl (omega (arith, ltb→lt _ _ e, h.weighed))
    | inr e ↦ inr (ground (arith, over, s, e))
  ]

  IsNormal-step :
      (m n : ℕ) (c c1 c' : Cache V) (x : ℕ × Entry V)
      → is_over c ≡ true
      → c.max_size ≡ pos m
      → IsCache c
      → c.entries ≡ c1.entries ++ (x ∷ [])
      → c1.max_weight ≡ c.max_weight
      → IsNormal m c1 c' n
      → IsNormal m c c' (suc n)
  unfolding exceeds
  IsNormal-step m n c c1 c' x over s h split limit done =
      let parts = split ∙ ap (λ l. l ++ (x ∷ [])) done.split in
      record {
        is_cache = done.is_cache;
        dropped = done.dropped ++ (x ∷ []);
        split = parts ∙ append_assoc c'.entries done.dropped (x ∷ []);
        counted = omega (arith, length-append done.dropped (x ∷ []), done.counted);
        light = omega (arith, done.light, limit);
        short = done.short;
        needed =
            Needed-step c.max_weight m c'.entries done.dropped x (rw (← limit) done.needed)
              (rw (← parts) (over_limits c m over s h));
      }

  -- With a step of fuel for each entry and one more, `normalize` of a well-formed cache with a size
  -- that is not negative ends: it leaves a prefix of the entries that is within both limits, the last
  -- entry that it drops did not fit, and the weight stays exact.
  pub normalize_lem :
      (fuel m : ℕ) (c : Cache V)
      → IsCache c
      → c.max_size ≡ pos m
      → length c.entries < fuel
      → (c' : Cache V) × (n : ℕ) × (normalize fuel c ≡ some (c', n)) × IsNormal m c c' n
  unfolding normalize exceeds
  normalize_lem zero m c h s l = absurd (omega arith)
  normalize_lem (suc fuel) m c h s l = elim (Bool-cases (is_over c)) [
    | inl over ↦ elim (remove_oldest_lem c h) [
      | inl empty ↦ absurd (ground (arith, over_limits c m over s h, empty))
      | inr (x, h1, split, light, size) ↦
          let c1 = remove_oldest c in
          let sizes = ap length split ∙ length-append c1.entries (x ∷ []) in
          let (c', n, run, done) =
            normalize_lem fuel m c1 h1 (size ∙ s) (omega (arith, sizes, l)) in
          (c', suc n, rw (over, run) refl, IsNormal-step m n c c1 c' x over s h split light done)
    ]
    | inr fits ↦ (
      c,
      0,
      rw fits refl,
      record {
        is_cache = h;
        dropped = [];
        split = sym (append-nil c.entries);
        counted = refl;
        light = ground (arith, fits);
        short = ground (arith, fits, s);
        needed = tt;
      },
    )
  ]

  remove_oldest-max_size : (c : Cache V) → (remove_oldest c).max_size ≡ c.max_size
  unfolding remove_oldest remove_element
  remove_oldest-max_size c = elim (Option-cases (back c.entries)) [
    | inl e ↦ rw (e, remove_oldest) refl
    | inr (x, e) ↦ rw (e, remove_oldest) refl
  ]

  endless : (fuel n : ℕ) (c : Cache V) → c.max_size ≡ negsuc n → normalize fuel c ≡ none
  unfolding normalize exceeds
  endless zero n c h = refl
  endless (suc fuel) n c h =
      ground (arith, h, endless fuel n (remove_oldest c) (remove_oldest-max_size c ∙ h))

  -- `Resize` to a negative size, which it does not refuse, leads to a loop without end: no fuel is
  -- enough for the loop of `normalize`, whatever the cache.
  pub resize_endless :
      (fuel max_weight n : ℕ) (c : Cache V)
      → normalize fuel (resize_to max_weight (negsuc n) c) ≡ none
  resize_endless fuel max_weight n c = endless fuel n (resize_to max_weight (negsuc n) c) refl
