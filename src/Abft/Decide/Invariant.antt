-- ===== src/Abft/Decide/Invariant.antt =====
-- The election of the orderer is always that of the frame after the last decided one, over the
-- validators of the epoch (abft/event_processing.go, frame_decide.go).
use lachesis_base.Base.{◌≡◌, ◌⊎◌, inl, inr, refl}
use lachesis_base.Election.{
  Res, Election, ElectionError, Outcome, undecided, decided, failed, panicked,
}
use lachesis_base.Abft.Decide.{Orderer, next}

-- The election is over the validators of the epoch, for the frame after the last decided one.
pub record IsOrderer (p : Orderer) : Type 0 where
  pub frame : p.election.frame_to_decide ≡ next p.last_decided_frame
  pub voters : p.election.validators ≡ p.validators

pub Outcome-cases :
    (o : Outcome)
    → (o ≡ undecided)
      ⊎ (((r : Res) × (o ≡ decided r)) ⊎ (((e : ElectionError) × (o ≡ failed e)) ⊎ (o ≡ panicked)))
Outcome-cases undecided = inl refl
Outcome-cases (decided r) = inr (inl (r, refl))
Outcome-cases (failed e) = inr (inr (inl (e, refl)))
Outcome-cases panicked = inr (inr (inr refl))

-- The frame and the validators of an election are kept.
abbrev Same : Election → Election → Type 0
Same a b = (b.frame_to_decide ≡ a.frame_to_decide) × (b.validators ≡ a.validators)
