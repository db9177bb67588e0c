-- ===== src/Pos/Quorum.antt =====
-- Quorum (inter/pos/validators.go): more than two thirds of the weight, so that two quorums share
-- more than a third of it.
use lachesis_base.Base.{
  ℕ, suc, ◌+◌, ◌*◌, ◌/◌, ◌≤◌, ◌<◌, ◌≡◌, List, [], ◌∷◌, arith, Bool, true, false, ◌&&◌, some, leb→le,
  refl, ap, sym, ◌∙◌, length,
}
use lachesis_base.Pos.{
  Validator, sorted_array, Validators, ValidatorsBuilder, WeightCounter, has_quorum, quorum, build,
}
use lachesis_base.Pos.Weights.{sum, weights, IsBuilder, sorted_array_sums}
use lachesis_base.Pos.Build.{built, build-eq_some}
use lachesis_base.Pos.Counter.{marked_sum, marked_sum-le, IsWeighted, IsCounter}

-- The positions that both counters have counted.
abbrev pub both : List Bool → List Bool → List Bool
both [] ns = []
both (m ∷ ms) [] = []
both (m ∷ ms) (n ∷ ns) = (m && n) ∷ both ms ns

marked_sum-both :
    (ms ns : List Bool) (ws : List ℕ)
    → marked_sum ms ws + marked_sum ns ws ≤ sum ws + marked_sum (both ms ns) ws
unfolding marked_sum
marked_sum-both [] ns ws = omega (arith, marked_sum-le ns ws)
marked_sum-both (m ∷ ms) [] ws = omega (arith, marked_sum-le (m ∷ ms) ws)
marked_sum-both (m ∷ ms) (n ∷ ns) [] = omega arith
marked_sum-both (true ∷ ms) (true ∷ ns) (w ∷ ws) = omega (arith, marked_sum-both ms ns ws)
marked_sum-both (true ∷ ms) (false ∷ ns) (w ∷ ws) = omega (arith, marked_sum-both ms ns ws)
marked_sum-both (false ∷ ms) (true ∷ ns) (w ∷ ws) = omega (arith, marked_sum-both ms ns ws)
marked_sum-both (false ∷ ms) (false ∷ ns) (w ∷ ws) = omega (arith, marked_sum-both ms ns ws)

length-weights : (l : List Validator) → length (weights l) ≡ length l
length-weights [] = refl
length-weights (v ∷ l) = ap suc (length-weights l)

-- A validator set that `Build` returns has the caches that its counters rely on.
pub build-IsWeighted :
    (b : ValidatorsBuilder) (vv : Validators) → IsBuilder b → build b ≡ some vv → IsWeighted vv
unfolding built
build-IsWeighted b vv h e =
    let (same, fits) = build-eq_some b h e in
    let (total, size) = sorted_array_sums b in
    rw same (record {
      sized = length-weights (sorted_array b) ∙ size;
      total = sym total;
      fits = rw total fits;
    })

-- The quorum is two thirds of the exact total weight, rounded down, plus one: nothing wraps.
pub quorum_exact : (vv : Validators) → IsWeighted vv → quorum vv ≡ sum vv.cache.weights * 2 / 3 + 1
unfolding quorum
quorum_exact vv h = omega (arith, h.total, h.fits)

-- Two counters over one validator set that both have a quorum have counted validators in common
-- whose weight is more than a third of the total.
pub has_quorum-overlap :
    (vv : Validators) (s t : WeightCounter)
    → IsWeighted vv
    → IsCounter vv s
    → IsCounter vv t
    → has_quorum s ≡ true
    → has_quorum t ≡ true
    → sum vv.cache.weights < 3 * marked_sum (both s.already t.already) vv.cache.weights
unfolding has_quorum
has_quorum-overlap vv s t h c d p q = omega (
  arith,
  quorum_exact vv h,
  c.summed,
  d.summed,
  c.limit,
  d.limit,
  leb→le _ _ p,
  leb→le _ _ q,
  marked_sum-both s.already t.already vv.cache.weights,
)
