-- ===== src/Engine/Add/Ranges.antt =====
-- vecengine/index.go: what an entry of HighestBefore stands for in the DAG, and how the entries of
-- the parents are put together.
use lachesis_base.Base.{
  ℕ, ◌≤◌, ◌≡◌, ◌≢◌, ◌⊎◌, inl, inr, sym, ◌∙◌, arith, Option, some, List, leb, Bool-cases, find,
  ℕ_discrete,
}
use Prim.Native.Nat.{min, max}
use lachesis_base.Dag.{Event}
use lachesis_base.Vec.Highest.Collect.{View, nothing, range, fork, join}

-- `Seen` are the observed events, `branch` is the table of the branches. A view of a branch shows
-- that none of its events is observed, or the lowest and the highest of the observed ones, or a fork.
module _ (get_event : ℕ → Option Event) (branch : List (ℕ × ℕ)) (b : ℕ) where
  -- An observed event on the branch with this sequence number.
  abbrev pub Has : (ℕ → Type 0) → ℕ → Type 0
  Has Seen n =
      (y : ℕ) × (d : Event) × (find ℕ_discrete y branch ≡ some b)
      × (get_event y ≡ some d)
      × Seen y
      × (d.seq ≡ n)

  abbrev pub Shows : (ℕ → Type 0) → View → Type 0
  Shows Seen nothing =
      (y : ℕ) (d : Event) → find ℕ_discrete y branch ≡ some b → get_event y ≡ some d → ¬ Seen y
  Shows Seen fork = Unit
  Shows Seen (range low high) =
      Has Seen low
      × Has Seen high
      × ((y : ℕ) (d : Event)
          → find ℕ_discrete y branch ≡ some b
          → get_event y ≡ some d
          → Seen y
          → (low ≤ d.seq) × (d.seq ≤ high))

  module _ (P Q : ℕ → Type 0) where
    Has-map :
        (n : ℕ) → ((y : ℕ) → find ℕ_discrete y branch ≡ some b → P y → Q y) → Has P n → Has Q n
    Has-map n f (y, d, k, s, o, e) = (y, d, k, s, f y k o, e)

    pub Shows-iff :
        (v : View)
        → ((y : ℕ) → find ℕ_discrete y branch ≡ some b → P y → Q y)
        → ((y : ℕ) → find ℕ_discrete y branch ≡ some b → Q y → P y)
        → Shows P v
        → Shows Q v
    Shows-iff nothing f g h = λ y d k s o. h y d k s (g y k o)
    Shows-iff fork f g h = tt
    Shows-iff (range l m) f g (a, c, h) =
        (Has-map l f a, Has-map m f c, λ y d k s o. h y d k s (g y k o))

    -- A branch without any events.
    pub Shows-empty :
        (v : View) → ((y : ℕ) → find ℕ_discrete y branch ≢ some b) → Shows P v → Shows Q v
    Shows-empty nothing n h = λ y d k s o. n y k
    Shows-empty fork n h = tt
    Shows-empty (range l m) n ((y, d, k, _, _, _), _, _) = absurd (n y k)

  module _ (P Q : ℕ → Type 0) where
    abbrev Either : ℕ → Type 0
    Either y = P y ⊎ Q y

    least : (a c : ℕ) → Has P a → Has Q c → Has Either (min a c)
    least a c p q = elim (Bool-cases (leb a c)) [
      | inl h ↦
          let (y, d, k, s, o, e) = p in
          let m : d.seq ≡ min a c = ground (arith, h, e) in (y, d, k, s, inl o, m)
      | inr h ↦
          let (y, d, k, s, o, e) = q in
          let m : d.seq ≡ min a c = ground (arith, h, e) in (y, d, k, s, inr o, m)
    ]

    most : (a c : ℕ) → Has P a → Has Q c → Has Either (max a c)
    most a c p q = elim (Bool-cases (leb a c)) [
      | inr h ↦
          let (y, d, k, s, o, e) = p in
          let m : d.seq ≡ max a c = ground (arith, h, e) in (y, d, k, s, inl o, m)
      | inl h ↦
          let (y, d, k, s, o, e) = q in
          let m : d.seq ≡ max a c = ground (arith, h, e) in (y, d, k, s, inr o, m)
    ]

    -- The join of two views shows what either shows. The events on the branch are in the source.
    pub Shows-join :
        ((y : ℕ) → find ℕ_discrete y branch ≡ some b → (d : Event) × (get_event y ≡ some d))
        → (u v : View) → Shows P u
        → Shows Q v
        → Shows Either (join u v)
    unfolding join
    Shows-join sourced nothing v h g =
        Shows-iff Q Either v (λ y k q. inr q)
          (λ y k o. elim o [ inl p ↦ let (d, s) = sourced y k in absurd (h y d k s p) | inr q ↦ q ])
          g
    Shows-join sourced fork v h g = tt
    Shows-join sourced (range a c) nothing h g =
        Shows-iff P Either (range a c) (λ y k p. inl p)
          (λ y k o. elim o [ inr q ↦ let (d, s) = sourced y k in absurd (g y d k s q) | inl p ↦ p ])
          h
    Shows-join sourced (range a c) fork h g = tt
    Shows-join sourced (range a c) (range x z) (l, m, h) (l', m', g) = (
      least a x l l',
      most c z m m',
      λ y d k s o. elim o [
        | inl p ↦ let (u, v) = h y d k s p in (ground (arith, u), ground (arith, v))
        | inr q ↦ let (u, v) = g y d k s q in (ground (arith, u), ground (arith, v))
      ],
    )

module _ (get_event : ℕ → Option Event) (branch branch' : List (ℕ × ℕ)) (b : ℕ) (P : ℕ → Type 0)
    (same : (y : ℕ) → P y → find ℕ_discrete y branch' ≡ find ℕ_discrete y branch) where
  Has-table : (n : ℕ) → Has get_event branch b P n → Has get_event branch' b P n
  Has-table n (y, d, k, s, o, e) = (y, d, same y o ∙ k, s, o, e)

  -- Only the branches of the observed events matter.
  pub Shows-table : (v : View) → Shows get_event branch b P v → Shows get_event branch' b P v
  Shows-table nothing h = λ y d k s o. h y d (sym (same y o) ∙ k) s o
  Shows-table fork h = tt
  Shows-table (range l m) (p, q, h) =
      (Has-table l p, Has-table m q, λ y d k s o. h y d (sym (same y o) ∙ k) s o)
