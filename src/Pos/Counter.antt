-- ===== src/Pos/Counter.antt =====
-- WeightCounter (inter/pos/stake.go): the sum of the weights of the validators counted so far.
use lachesis_base.Base.{
  ℕ, zero, suc, ◌+◌, ◌≤◌, ◌<◌, ◌≡◌, inl, inr, refl, sym, ◌∙◌, ap, List, [], ◌∷◌, arith, Bool, true,
  false, Bool-cases, not, get_elem?, get_or, set, some, length, replicate, length-set,
  length-replicate, get_elem?-eq-get_or,
}
use lachesis_base.Pos.{Validators, WeightCounter, new_counter, count_by_idx, quorum, u32, max_total}
use lachesis_base.Pos.Weights.{sum}

-- The weights at the marked positions.
unfoldable pub marked_sum : List Bool → List ℕ → ℕ
marked_sum [] ws = 0
marked_sum (m ∷ ms) [] = 0
marked_sum (true ∷ ms) (w ∷ ws) = w + marked_sum ms ws
marked_sum (false ∷ ms) (w ∷ ws) = marked_sum ms ws

-- What a validator set that was built guarantees to its counters.
pub record IsWeighted (vv : Validators) : Type 0 where
  pub sized : length vv.cache.weights ≡ length vv.values
  pub total : vv.cache.total_weight ≡ sum vv.cache.weights
  pub fits : sum vv.cache.weights ≤ max_total

pub record IsCounter (vv : Validators) (s : WeightCounter) : Type 0 where
  pub over : s.validators ≡ vv
  pub sized : length s.already ≡ length vv.cache.weights
  pub summed : s.sum ≡ marked_sum s.already vv.cache.weights
  pub limit : s.quorum ≡ quorum vv

pub marked_sum-le : (ms : List Bool) (ws : List ℕ) → marked_sum ms ws ≤ sum ws
unfolding marked_sum
marked_sum-le [] ws = omega arith
marked_sum-le (m ∷ ms) [] = omega arith
marked_sum-le (true ∷ ms) (w ∷ ws) = omega (arith, marked_sum-le ms ws)
marked_sum-le (false ∷ ms) (w ∷ ws) = omega (arith, marked_sum-le ms ws)

marked_sum-none : (n : ℕ) (ws : List ℕ) → marked_sum (replicate n false) ws ≡ 0
unfolding marked_sum
marked_sum-none zero ws = refl
marked_sum-none (suc n) [] = refl
marked_sum-none (suc n) (w ∷ ws) = marked_sum-none n ws

marked_sum-set :
    (i w : ℕ) (ms : List Bool) (ws : List ℕ)
    → get_elem? ms i ≡ some false
    → get_elem? ws i ≡ some w
    → marked_sum (set ms i true) ws ≡ marked_sum ms ws + w
unfolding marked_sum
marked_sum-set i w [] ws p q = cc
marked_sum-set i w (m ∷ ms) [] p q = cc
marked_sum-set zero w (m ∷ ms) (x ∷ ws) p q = ground arith
marked_sum-set (suc i) w (true ∷ ms) (x ∷ ws) p q = omega (arith, marked_sum-set i w ms ws p q)
marked_sum-set (suc i) w (false ∷ ms) (x ∷ ws) p q = marked_sum-set i w ms ws p q

-- A new counter has counted nothing.
pub new_counter-IsCounter : (vv : Validators) → IsWeighted vv → IsCounter vv (new_counter vv)
unfolding new_counter
new_counter-IsCounter vv h = record {
  over = refl;
  sized = length-replicate _ false ∙ sym h.sized;
  summed = sym (marked_sum-none _ _);
  limit = refl;
}

set_same : (ms : List Bool) (i : ℕ) → get_elem? ms i ≡ some true → set ms i true ≡ ms
set_same [] i h = refl
set_same (m ∷ ms) zero h = ground arith
set_same (m ∷ ms) (suc i) h = ap (◌∷◌ m) (set_same ms i h)

set_new :
    (vv : Validators) (s : WeightCounter) (i w : ℕ)
    → IsWeighted vv
    → IsCounter vv s
    → get_elem? s.already i ≡ some false
    → get_elem? vv.cache.weights i ≡ some w
    → IsCounter vv (record s { already = set s.already i true; sum = u32 (s.sum + w) })
set_new vv s i w h c m e =
    let grown = marked_sum-set i w s.already vv.cache.weights m e in
    let bound = marked_sum-le (set s.already i true) vv.cache.weights in
    record {
      over = c.over;
      sized = length-set s.already i true ∙ c.sized;
      summed = omega (arith, c.summed, h.fits);
      limit = c.limit;
    }

-- Counting an index of the set does not panic: it reports whether the index is new, marks it, and
-- the sum, which does not wrap, stays the weight of the marked validators.
pub count_by_idx_lem :
    (vv : Validators) (s : WeightCounter) (i : ℕ)
    → IsWeighted vv
    → IsCounter vv s
    → i < length vv.cache.weights
    → (t : WeightCounter) × (count_by_idx s i ≡ some (t, not (get_or s.already i false)))
      × IsCounter vv t
      × (t.already ≡ set s.already i true)
unfolding count_by_idx
count_by_idx_lem vv s i h c lt = elim (Bool-cases (get_or s.already i false)) [
  | inl seen ↦
      let here : get_elem? s.already i ≡ some true =
        get_elem?-eq-get_or s.already i false (omega (arith, c.sized)) ∙ ap some seen in
      (s, ground (arith, here), c, sym (set_same s.already i here))
  | inr new ↦
      let here : get_elem? s.already i ≡ some false =
        get_elem?-eq-get_or s.already i false (omega (arith, c.sized)) ∙ ap some new in
      let weight = get_elem?-eq-get_or vv.cache.weights i 0 lt in
      let w = get_or vv.cache.weights i 0 in
      (
        record s { already = set s.already i true; sum = u32 (s.sum + w) },
        ground (arith, here, weight, c.over),
        set_new vv s i w h c here weight,
        refl,
      )
]
