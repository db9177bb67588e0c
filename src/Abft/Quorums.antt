-- ===== src/Abft/Quorums.antt =====
-- The quorum of roots that cause an event (`forklessCausedByQuorumOn` of abft/event_processing.go):
-- the early exit of the loop loses nothing.
use lachesis_base.Base.{
  ℕ, zero, suc, ◌≤◌, ◌<◌, ◌≡◌, inl, inr, refl, sym, ap, ◌∙◌, arith, Bool, true, false, Bool-cases,
  some, not, List, [], ◌∷◌, length, set, get_or, replicate, All, leb, leb→le, le→leb, if◌then◌else◌,
}
use lachesis_base.Dag.{Event}
use lachesis_base.Pos.{
  Validators, WeightCounter, get_idx, count, count_by_idx, has_quorum, quorum, new_counter, len,
}
use lachesis_base.Pos.Counter.{
  marked_sum, IsWeighted, IsCounter, count_by_idx_lem, new_counter-IsCounter,
}
use lachesis_base.Election.{RootAndSlot}
use lachesis_base.Abft.{count_observed, get_frame_roots, forkless_caused_by_quorum_on}

marked_sum_grows :
    (ms : List Bool) (i : ℕ) (ws : List ℕ) → marked_sum ms ws ≤ marked_sum (set ms i true) ws
unfolding marked_sum
marked_sum_grows [] i ws = omega arith
marked_sum_grows (m ∷ ms) zero [] = omega arith
marked_sum_grows (m ∷ ms) (suc i) [] = omega arith
marked_sum_grows (true ∷ ms) zero (w ∷ ws) = omega arith
marked_sum_grows (false ∷ ms) zero (w ∷ ws) = omega arith
marked_sum_grows (true ∷ ms) (suc i) (w ∷ ws) = omega (arith, marked_sum_grows ms i ws)
marked_sum_grows (false ∷ ms) (suc i) (w ∷ ws) = omega (arith, marked_sum_grows ms i ws)

module _ (observe : ℕ → ℕ → Bool) (validators : Validators) where
  -- The validators of all the roots that the event observes, with those marked before.
  unfoldable pub observed_marks : ℕ → List RootAndSlot → List Bool → List Bool
  observed_marks e [] ms = ms
  observed_marks e (r ∷ rs) ms =
      observed_marks e rs
        (if observe e r.id then set ms (get_idx validators r.slot.validator) true else ms)

  observed_marks-grow :
      (e : ℕ) (rs : List RootAndSlot) (ms : List Bool) (ws : List ℕ)
      → marked_sum ms ws ≤ marked_sum (observed_marks e rs ms) ws
  unfolding observed_marks
  observed_marks-grow e [] ms ws = omega arith
  observed_marks-grow e (r ∷ rs) ms ws = elim (Bool-cases (observe e r.id)) [
    | inl o ↦
        let i = get_idx validators r.slot.validator in
        rw (o, observed_marks)
          (omega (arith, marked_sum_grows ms i ws, observed_marks-grow e rs (set ms i true) ws))
    | inr o ↦ rw (o, observed_marks) (observed_marks-grow e rs ms ws)
  ]

  has_quorum_sum :
      (c : WeightCounter)
      → IsCounter validators c
      → has_quorum c ≡ leb (quorum validators) (marked_sum c.already validators.cache.weights)
  unfolding has_quorum
  has_quorum_sum c h = rw (h.summed, h.limit) refl

  -- The weight of the marks that the rest of the roots would leave.
  abbrev answer : ℕ → List RootAndSlot → List Bool → Bool
  answer e rs ms =
      leb (quorum validators) (marked_sum (observed_marks e rs ms) validators.cache.weights)

  early :
      (e : ℕ) (rs : List RootAndSlot) (c : WeightCounter)
      → IsCounter validators c
      → count_observed observe validators e rs c ≡ some (answer e rs c.already)
      → (if has_quorum c then some true else count_observed observe validators e rs c)
        ≡ some (answer e rs c.already)
  unfolding has_quorum
  early e rs c h rest =
      let grows = observed_marks-grow e rs c.already validators.cache.weights in
      elim (Bool-cases (has_quorum c)) [
        | inl q ↦
            let enough = leb→le _ _ (sym (has_quorum_sum c h) ∙ q) in
            let done : answer e rs c.already ≡ true = le→leb _ _ (omega (arith, enough, grows)) in
            rw (q, has_quorum) (ap some (sym done))
        | inr q ↦ rw (q, has_quorum) rest
      ]

  count_observed_lem :
      (e : ℕ) (rs : List RootAndSlot) (c : WeightCounter)
      → IsWeighted validators
      → IsCounter validators c
      → All (λ r. get_idx validators r.slot.validator < length validators.cache.weights) rs
      → count_observed observe validators e rs c
        ≡ some (
            leb
              (quorum validators)
              (marked_sum (observed_marks e rs c.already) validators.cache.weights))
  unfolding count_observed observed_marks count
  count_observed_lem e [] c w h l = ap some (has_quorum_sum c h)
  count_observed_lem e (r ∷ rs) c w h l = elim (Bool-cases (observe e r.id)) [
    | inl o ↦
        let i = get_idx validators r.slot.validator in
        let (c', run, h', marks) = count_by_idx_lem validators c i w h l.0 in
        let counted : count c r.slot.validator ≡ some (c', not (get_or c.already i false)) =
          ap (λ (u : Validators). count_by_idx c (get_idx u r.slot.validator)) h.over ∙ run in
        let rest = count_observed_lem e rs c' w h' l.1 in
        let end = early e rs c' h' rest in
        rw (o, count_observed, observed_marks, counted) (rw (← marks) end)
    | inr o ↦
        let end = early e rs c h (count_observed_lem e rs c w h l.1) in
        rw (o, count_observed, observed_marks) end
  ]

  -- The answer is whether the validators of all the roots of the frame that the event observes have,
  -- each counted once, the weight of a quorum. The validators of the roots are in the set.
  pub forkless_caused_by_quorum_on_lem :
      (roots : List RootAndSlot) (e : Event) (f : ℕ)
      → IsWeighted validators
      → All
          (λ r. get_idx validators r.slot.validator < length validators.cache.weights)
          (get_frame_roots roots f)
      → forkless_caused_by_quorum_on observe validators roots e f
        ≡ some (
            leb (quorum validators) (
              marked_sum
                (observed_marks e.id (get_frame_roots roots f) (replicate (len validators) false))
                validators.cache.weights))
  unfolding new_counter
  forkless_caused_by_quorum_on_lem roots e f w l =
      count_observed_lem e.id (get_frame_roots roots f) (new_counter validators) w
        (new_counter-IsCounter validators w) l
