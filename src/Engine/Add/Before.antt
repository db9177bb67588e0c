-- ===== src/Engine/Add/Before.antt =====
-- vecengine/index.go: what the table HighestBefore stands for in the DAG. For an event and a branch it
-- has the lowest and the highest of the events on the branch that the event observes, or a fork.
use lachesis_base.Base.{
  ℕ, ◌^◌, ◌≤◌, ◌<◌, ◌≡◌, ◌⊎◌, inl, inr, refl, sym, ap, subst, ◌∙◌, arith, Option, some, List, [],
  ◌∷◌, ltb, if◌then◌else◌, find, ℕ_discrete, Bool-cases, In,
}
use lachesis_base.Dag.{Event}
use lachesis_base.Vec.{Bytes}
use lachesis_base.Vec.Highest.{get, collect_from}
use lachesis_base.Vec.Highest.Collect.{view, join, IsClock, view-collect_from}
use lachesis_base.Block.Trace.{Observes}
use lachesis_base.Engine.Detect.{collect_all}
use lachesis_base.Engine.Detect.Ends.{IsMarked}
use lachesis_base.Engine.Add.{Tables, parents_vecs}
use lachesis_base.Engine.Add.Ranges.{Shows, Shows-iff, Shows-empty, Shows-join}

-- The vector shows the events that are observed, for all branches.
abbrev pub IsShown : (ℕ → Option Event) → List (ℕ × ℕ) → (ℕ → Type 0) → Bytes → Type 0
IsShown get_event branch Seen v =
    IsClock v × ((b : ℕ) → b < 2 ^ 28 → Shows get_event branch b Seen (view (get v b)))

abbrev pub IsHighest : (ℕ → Option Event) → List (ℕ × Bytes) → List (ℕ × ℕ) → Type 0
IsHighest get_event before branch =
    (x : ℕ) (v : Bytes)
    → find ℕ_discrete x before ≡ some v
    → IsShown get_event branch (Observes get_event x) v

module _ (get_event : ℕ → Option Event) (t : Tables) (branch : List (ℕ × ℕ)) (num : ℕ)
    (few : num ≤ 2 ^ 28)
    (sourced : (y b : ℕ)
      → find ℕ_discrete y branch ≡ some b
      → ((d : Event) × (get_event y ≡ some d)) × (b < num)) where
  -- One vector more.
  collect_from-IsShown :
      (P Q : ℕ → Type 0) (v w : Bytes)
      → IsShown get_event branch P v
      → IsShown get_event branch Q w
      → IsShown get_event branch (λ y. P y ⊎ Q y) (collect_from v w num)
  collect_from-IsShown P Q v w (c, p) (k, q) = (
    (view-collect_from v w num 0 few (omega arith) c k).0,
    λ b l.
        let e = (view-collect_from v w num b few l c k).1 in
        let u = view (get v b) in
        elim (Bool-cases (ltb b num)) [
          | inl y ↦
              subst (Shows get_event branch b (λ z. P z ⊎ Q z))
                (sym (e ∙ ap (λ z. if z then join u (view (get w b)) else u) y))
                (Shows-join get_event branch b P Q (λ z f. (sourced z b f).0) u _ (p b l) (q b l))
          | inr n ↦
              subst (Shows get_event branch b (λ z. P z ⊎ Q z))
                (sym (e ∙ ap (λ z. if z then join u (view (get w b)) else u) n))
                (Shows-empty get_event branch b P (λ z. P z ⊎ Q z) u
                  (λ z f. absurd (ground (arith, (sourced z b f).1, n))) (p b l))
        ],
  )

  abbrev pub Below : List ℕ → ℕ → Type 0
  Below ps y = (p : ℕ) × In p ps × Observes get_event p y

  -- The vectors of the parents, one after the other.
  pub collect_all-IsShown :
      (ps : List ℕ)
      → ((p : ℕ)
          → In p ps
          → (b : ℕ) × (v : Bytes) × (find ℕ_discrete p t.event_branch ≡ some b)
            × (find ℕ_discrete p t.highest_before ≡ some v)
            × IsShown get_event branch (Observes get_event p) v)
      → (vecs : List Bytes) × (parents_vecs t ps ≡ some vecs)
        × ((P : ℕ → Type 0) (v : Bytes)
            → IsShown get_event branch P v
            → IsShown get_event branch (λ y. P y ⊎ Below ps y) (collect_all vecs num v))
  unfolding parents_vecs
  collect_all-IsShown [] h = (
    [],
    refl,
    λ P v (c, s). (
      c,
      λ b l.
          Shows-iff get_event branch b P (λ y. P y ⊎ Below [] y) (view (get v b)) (λ y k p. inl p)
            (λ y k o. elim o [ inl p ↦ p | inr q ↦ absurd q.1 ]) (s b l),
    ),
  )
  collect_all-IsShown (p ∷ ps) h =
      let (b, w, at, vec, shown) = h p (inl refl) in
      let (vecs, e, all) = collect_all-IsShown ps (λ q i. h q (inr i)) in
      (
        w ∷ vecs,
        rw (at, vec, e) refl,
        λ P v s.
            let O : ℕ → Type 0 = λ y. P y ⊎ Observes get_event p y in
            let (c, f) =
              all O (collect_from v w num)
                (collect_from-IsShown P (Observes get_event p) v w s shown) in
            (
              c,
              λ k l.
                  Shows-iff get_event branch k (λ y. O y ⊎ Below ps y) (λ y. P y ⊎ Below (p ∷ ps) y)
                    _
                    (λ y _ o. elim o [
                      | inl (inl r) ↦ inl r
                      | inl (inr r) ↦ inr (p, inl refl, r)
                      | inr (q, i, r) ↦ inr (q, inr i, r)
                    ])
                    (λ y _ o. elim o [
                      | inl r ↦ inl (inl r)
                      | inr (q, inl i, r) ↦ inl (inr (subst (λ z. Observes get_event z y) i r))
                      | inr (q, inr i, r) ↦ inr (q, i, r)
                    ])
                    (f k l),
            ),
      )

  -- A mark of a fork shows nothing.
  pub IsMarked-IsShown :
      (P : ℕ → Type 0) (v w : Bytes)
      → IsMarked v w
      → IsShown get_event branch P v
      → IsShown get_event branch P w
  unfolding view
  IsMarked-IsShown P v w (c, m) (_, s) = (
    c,
    λ b l. elim (m b l) [
      | inl e ↦ subst (λ r. Shows get_event branch b P (view r)) (sym e) (s b l)
      | inr e ↦ subst (λ r. Shows get_event branch b P (view r)) (sym e) tt
    ],
  )
