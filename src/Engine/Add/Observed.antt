-- ===== src/Engine/Add/Observed.antt =====
-- Which events of the DAG an event observes (vecengine/traversal.go).
use lachesis_base.Base.{
  ℕ, ◌≡◌, ◌⊎◌, inl, inr, refl, sym, ap, subst, ◌∙◌, Option, some, List, [], ◌∷◌, All, In,
}
use lachesis_base.Dag.{Event}
use lachesis_base.Block.Trace.{Observes, self, parent, parents_of}
use lachesis_base.Engine.Add.Walk.{After, Known, IsComplete}

module _ (get_event : ℕ → Option Event) where
  -- An event observes itself, or what one of its parents observes.
  pub Observes-cases :
      {h x : ℕ}
      → Observes get_event h x
      → (x ≡ h)
        ⊎ ((d : Event) × (p : ℕ) × (get_event h ≡ some d) × In p d.parents × Observes get_event p x)
  Observes-cases self = inl refl
  Observes-cases (parent y q e o s i) = elim (Observes-cases o) [
    | inl p ↦ inr (e, q, ap get_event (sym p) ∙ s, i, self)
    | inr (d, p, s', j, o') ↦ inr (d, p, s', j, parent y q e o' s i)
  ]

  pub Observes-up :
      {h p x : ℕ} {d : Event}
      → get_event h ≡ some d
      → In p d.parents
      → Observes get_event p x
      → Observes get_event h x
  Observes-up {h = h} {p = p} {d = d} s i self = parent h p d self s i
  Observes-up s i (parent y q e o s' j) = parent y q e (Observes-up s i o) s' j

  pub All-In :
      (P : ℕ → Type 0) (e d : Event)
      → All P e.parents
      → some e ≡ some d
      → (x : ℕ) → In x d.parents
      → P x
  All-In P e d a q x i = at (parents_of d (some e)) a (subst (In x) (sym (ap (parents_of d) q)) i)
    where
      at : (ys : List ℕ) → All P ys → In x ys → P x
      at [] h i = elim i [ ]
      at (y ∷ ys) h (inl p) = subst P (sym p) h.0
      at (y ∷ ys) h (inr i) = at ys h.1 i

  -- What a stored event observes is stored.
  pub Known-Observes :
      (t : After)
      → IsComplete get_event t
      → {y x : ℕ} → Known t y
      → Observes get_event y x
      → Known t x
  Known-Observes t c k self = k
  Known-Observes t c k (parent x p e o s i) =
      let (d, s', a) = c x (Known-Observes t c k o) in All-In (Known t) d e a (sym s' ∙ s) p i
