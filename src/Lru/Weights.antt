-- ===== src/Lru/Weights.antt =====
-- The weight of a cache's entries (utils/simplewlru/simplewlru.go).
use lachesis_base.Base.{
  ℕ, ◌+◌, ◌^◌, ◌<◌, ◌≡◌, refl, sym, ap, ◌∙◌, arith, none, some, List, [], ◌∷◌, ◌++◌, find, delete,
  IsMap, ℕ_discrete, if_pos, if_neg,
}
use lachesis_base.Lru.{Entry, Cache, back, drop_back}

module _ {V : Type 0} where
  -- The weight of the entries.
  abbrev pub weights : List (ℕ × Entry V) → ℕ
  weights [] = 0
  weights ((k, e) ∷ es) = e.weight + weights es

  -- No key twice, and a weight that is exact.
  pub record IsCache (c : Cache V) : Type 0 where
    pub keyed : IsMap ℕ_discrete c.entries
    pub weighed : c.weight ≡ weights c.entries
    pub fits : weights c.entries < 2 ^ 64

  delete-none :
      (k : ℕ) (l : List (ℕ × Entry V)) → find ℕ_discrete k l ≡ none → delete ℕ_discrete k l ≡ l
  unfolding find delete
  delete-none k [] f = refl
  delete-none k ((j, x) ∷ l) f = ground (arith, delete-none k l)

  pub weights-delete :
      (k : ℕ) (l : List (ℕ × Entry V)) (e : Entry V)
      → IsMap ℕ_discrete l
      → find ℕ_discrete k l ≡ some e
      → weights (delete ℕ_discrete k l) + e.weight ≡ weights l
  unfolding find delete
  weights-delete k [] e h f = ground arith
  weights-delete k ((j, x) ∷ l) e h f = elim (ℕ_discrete j k) [
    | yes p ↦
        let same : x ≡ e = ground (arith, p) in
        let gone : find ℕ_discrete k l ≡ none = ap (λ i. find ℕ_discrete i l) (sym p) ∙ h.0 in
        rw (if_pos _ p, delete-none k l gone, same) (omega arith)
    | no p ↦
        let there : find ℕ_discrete k l ≡ some e = ground arith in
        rw (if_neg _ p) (omega (arith, weights-delete k l e h.1 there))
  ]

  pub drop_back_lem :
      (l : List (ℕ × Entry V)) (k : ℕ) (e : Entry V)
      → back l ≡ some (k, e)
      → l ≡ drop_back l ++ ((k, e) ∷ [])
  unfolding back drop_back
  drop_back_lem [] k e h = ground arith
  drop_back_lem (x ∷ []) k e h = ground arith
  drop_back_lem (x ∷ y ∷ l) k e h = ap (◌∷◌ x) (drop_back_lem (y ∷ l) k e h)

  pub back-none : (l : List (ℕ × Entry V)) → back l ≡ none → l ≡ []
  unfolding back
  back-none [] h = refl
  back-none (x ∷ []) h = ground arith
  back-none (x ∷ y ∷ l) h = absurd (ground (arith, back-none (y ∷ l) h))

  pub weights-append : (l m : List (ℕ × Entry V)) → weights (l ++ m) ≡ weights l + weights m
  weights-append [] m = omega arith
  weights-append ((k, e) ∷ l) m = omega (arith, weights-append l m)

  find-append_none :
      (k : ℕ) (l m : List (ℕ × Entry V))
      → find ℕ_discrete k (l ++ m) ≡ none
      → find ℕ_discrete k l ≡ none
  unfolding find
  find-append_none k [] m h = refl
  find-append_none k ((j, e) ∷ l) m h = ground (arith, find-append_none k l m)

  pub IsMap-front : (l m : List (ℕ × Entry V)) → IsMap ℕ_discrete (l ++ m) → IsMap ℕ_discrete l
  IsMap-front [] m h = tt
  IsMap-front ((k, e) ∷ l) m h = (find-append_none k l m h.0, IsMap-front l m h.1)
