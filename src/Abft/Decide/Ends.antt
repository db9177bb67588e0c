-- ===== src/Abft/Decide/Ends.antt =====
-- `processKnownRoots` (abft/event_processing.go) ends, though its loop over the frames has no limit.
use lachesis_base.Base.{
  ℕ, zero, suc, ◌+◌, ◌≤◌, ◌<◌, ◌≡◌, inl, inr, refl, arith, Bool, true, false, Bool-cases, Option,
  some, List, [], ◌∷◌, All,
}
use lachesis_base.Pos.{Validators}
use lachesis_base.Election.{RootAndSlot, Election, Outcome, undecided, decided, failed, panicked}
use lachesis_base.Abft.{get_frame_roots}
use lachesis_base.Abft.Decide.{Orderer, frame_roots_loop, known_loop, process_known_roots, is_empty}
use lachesis_base.Abft.Decide.Invariant.{Outcome-cases}

module _ (observe : ℕ → ℕ → Bool) (apply_atropos : ℕ → ℕ → ℕ → Option Validators)
    (epoch_roots : ℕ → List RootAndSlot) where
  is_empty-get_frame_roots :
      (roots : List RootAndSlot) (f bound : ℕ)
      → All (λ r. r.slot.frame < bound) roots
      → bound ≤ f
      → is_empty observe apply_atropos epoch_roots (get_frame_roots roots f) ≡ true
  unfolding get_frame_roots
  is_empty-get_frame_roots [] f bound a h = refl
  is_empty-get_frame_roots (r ∷ rs) f bound a h =
      ground (arith, a.0, is_empty-get_frame_roots rs f bound a.1 h)

  -- One round of the loop, if the rounds after it end.
  known_round :
      (fuel f : ℕ) (roots : List RootAndSlot) (el : Election)
      → (is_empty observe apply_atropos epoch_roots (get_frame_roots roots f) ≡ false
          → (el' : Election) × (o : Outcome) × (known_loop observe apply_atropos epoch_roots fuel
                roots
                (frame_roots_loop observe apply_atropos epoch_roots roots el
                  (get_frame_roots roots f)).0
                (f + 1)
              ≡ some (el', o)))
      → (el' : Election) × (o : Outcome) × (known_loop observe apply_atropos epoch_roots
            (suc fuel)
            roots
            el
            f
          ≡ some (el', o))
  unfolding known_loop
  known_round fuel f roots el next_round =
      let rs = get_frame_roots roots f in
      let el1 = (frame_roots_loop observe apply_atropos epoch_roots roots el rs).0 in
      let o1 = (frame_roots_loop observe apply_atropos epoch_roots roots el rs).1 in
      elim (Outcome-cases o1) [
        | inl e ↦ elim (Bool-cases (is_empty observe apply_atropos epoch_roots rs)) [
          | inl b ↦ (el1, undecided, rw (e, b, known_loop) refl)
          | inr b ↦ let (el', o, run) = next_round b in (el', o, rw (e, b, known_loop) run)
        ]
        | inr (inl (x, e)) ↦ (el1, decided x, rw (e, known_loop) refl)
        | inr (inr (inl (x, e))) ↦ (el1, failed x, rw (e, known_loop) refl)
        | inr (inr (inr e)) ↦ (el1, panicked, rw (e, known_loop) refl)
      ]

  known_loop_ends :
      (fuel f bound : ℕ) (roots : List RootAndSlot) (el : Election)
      → All (λ r. r.slot.frame < bound) roots
      → bound ≤ f + fuel
      → (el' : Election) × (o : Outcome) × (known_loop observe apply_atropos epoch_roots
            (suc fuel)
            roots
            el
            f
          ≡ some (el', o))
  known_loop_ends zero f bound roots el a h =
      known_round 0 f roots el
        (λ b. absurd (ground (arith, b, is_empty-get_frame_roots roots f bound a (omega arith))))
  known_loop_ends (suc fuel) f bound roots el a h =
      known_round (suc fuel) f roots el
        (λ b. known_loop_ends fuel (f + 1) bound roots _ a (omega arith))

  -- `processKnownRoots` ends: with a step of fuel for each frame after the last decided one up to a
  -- bound of the roots' frames, and one more, its loop over the frames returns.
  pub process_known_roots_ends :
      (fuel bound : ℕ) (p : Orderer)
      → All (λ r. r.slot.frame < bound) p.roots
      → bound ≤ p.last_decided_frame + 1 + fuel
      → (el' : Election) × (o : Outcome) × (process_known_roots observe apply_atropos epoch_roots
            (suc fuel)
            p
          ≡ some (el', o))
  process_known_roots_ends fuel bound p a h =
      known_loop_ends fuel (p.last_decided_frame + 1) bound p.roots p.election a h
