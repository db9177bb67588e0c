-- ===== src/Engine/Add/Walk.antt =====
-- vecengine/traversal.go under `onWalk` of vecengine/index.go: the steps of the walk, as a relation
-- on the stack and the table LowestAfter, and its end.
use lachesis_base.Base.{
  ℕ, zero, suc, ◌+◌, ◌^◌, ◌≤◌, ◌<◌, ◌≡◌, ◌≢◌, inl, inr, refl, sym, ap, subst, ◌∙◌, arith, true,
  false, Option, none, some, List, [], ◌∷◌, ite, ◌==◌, if◌then◌else◌, find, put, find-put, sum_over,
  sum_over-drop, All-at, All-map, ℕ_discrete, if_pos, if_neg, Bool-cases, All, In, length, ==_iff,
}
use lachesis_base.Dag.{Event}
use lachesis_base.Vec.{Bytes}
use lachesis_base.Vec.Lowest
use lachesis_base.Vec.Lowest.{IsVector, get-set, set-IsVector}
use lachesis_base.Block.{push_all}
use lachesis_base.Block.Stack.{All-push_all, length-push_all}
use lachesis_base.Engine.Add.{through, dfs_loop, on_walk}

-- The table LowestAfter.
abbrev pub After : Type 0
After = List (ℕ × Bytes)

abbrev pub low_of : Option Bytes → ℕ → ℕ
low_of none j = 0
low_of (some b) j = Lowest.get b j

-- The entry of an event for a branch, 0 without a vector.
abbrev pub low : After → ℕ → ℕ → ℕ
low t x j = low_of (find ℕ_discrete x t) j

abbrev pub Known : After → ℕ → Type 0
Known t x = (b : Bytes) × (find ℕ_discrete x t ≡ some b)

abbrev pub IsTable : After → Type 0
IsTable t = (x : ℕ) (b : Bytes) → find ℕ_discrete x t ≡ some b → IsVector b

module _ (w me seq : ℕ) (t : After) (v : Bytes) (wide : me < 2 ^ 29) (small : seq < 2 ^ 32)
    (known : find ℕ_discrete w t ≡ some v) (table : IsTable t) where
  abbrev written : After
  written = put ℕ_discrete w (Lowest.set v me seq) t

  pub written-IsTable : IsTable written
  written-IsTable x b h = elim (ℕ_discrete w x) [
    | yes p ↦
        let same : some (Lowest.set v me seq) ≡ some b =
          sym (find-put ℕ_discrete w x _ t ∙ if_pos (ℕ_discrete w x) p _ _) ∙ h in
        subst (λ o. elim o [ none ↦ Unit {0} | some c ↦ IsVector c ]) same
          (set-IsVector v me seq wide (table w v known))
    | no p ↦ table x b (sym (find-put ℕ_discrete w x _ t ∙ if_neg (ℕ_discrete w x) p _ _) ∙ h)
  ]

  pub low-written :
      (x j : ℕ)
      → j < 2 ^ 29
      → low written x j ≡ ite (ℕ_discrete w x) (if me == j then seq else low t x j) (low t x j)
  low-written x j l = elim (ℕ_discrete w x) [
    | yes p ↦
        ap (λ o. low_of o j) (find-put ℕ_discrete w x _ t ∙ if_pos (ℕ_discrete w x) p _ _)
        ∙ get-set v me j seq wide l small (table w v known)
        ∙ ap (λ o. if me == j then seq else low_of o j)
            (sym known ∙ ap (λ y. find ℕ_discrete y t) p)
        ∙ sym (if_pos (ℕ_discrete w x) p _ _)
    | no p ↦
        ap (λ o. low_of o j) (find-put ℕ_discrete w x _ t ∙ if_neg (ℕ_discrete w x) p _ _)
        ∙ sym (if_neg (ℕ_discrete w x) p _ _)
  ]

  pub Known-written : (x : ℕ) → (Known t x → Known written x) × (Known written x → Known t x)
  Known-written x = elim (ℕ_discrete w x) [
    | yes p ↦
        let now = find-put ℕ_discrete w x (Lowest.set v me seq) t ∙ if_pos (ℕ_discrete w x) p _ _ in
        (λ k. (_, now), λ k. (v, ap (λ y. find ℕ_discrete y t) (sym p) ∙ known))
    | no p ↦
        let now = find-put ℕ_discrete w x (Lowest.set v me seq) t ∙ if_neg (ℕ_discrete w x) p _ _ in
        (λ (b, k). (b, now ∙ k), λ (b, k). (b, sym now ∙ k))
  ]

abbrev pub parents_count : Option Event → ℕ
parents_count none = 0
parents_count (some d) = length d.parents

-- The stored events are in the source, with their parents stored.
abbrev pub IsComplete : (ℕ → Option Event) → After → Type 0
IsComplete get_event t =
    (x : ℕ) → Known t x → (d : Event) × (get_event x ≡ some d) × All (λ p. Known t p) d.parents

module _ (get_event : ℕ → Option Event) (me : ℕ) (e : Event) where
  -- The visited events of a walk, in order.
  pub data Trace : List ℕ → After → After → Type 0 where
    stop : {t : After} → Trace [] t t
    skip :
        {w : ℕ} {stack : List ℕ} {t t' : After} (v : Bytes)
        → find ℕ_discrete w t ≡ some v
        → Lowest.get v me ≢ 0
        → Trace stack t t'
        → Trace (w ∷ stack) t t'
    take :
        {w : ℕ} {stack : List ℕ} {t t' : After} (v : Bytes) (d : Event)
        → find ℕ_discrete w t ≡ some v
        → Lowest.get v me ≡ 0
        → get_event w ≡ some d
        → Trace (push_all d.parents stack) (put ℕ_discrete w (Lowest.set v me e.seq) t) t'
        → Trace (w ∷ stack) t t'

  -- The parents of an event, if it is not visited yet.
  abbrev pub waiting : After → ℕ → ℕ
  waiting t x = if low t x me == 0 then parents_count (get_event x) else 0

  run_skip :
      (fuel w : ℕ) (stack : List ℕ) (t : After) (v : Bytes)
      → find ℕ_discrete w t ≡ some v
      → (Lowest.get v me == 0) ≡ false
      → dfs_loop get_event (on_walk me e) (suc fuel) (w ∷ stack) t
        ≡ dfs_loop get_event (on_walk me e) fuel stack t
  unfolding dfs_loop on_walk Lowest.visit
  run_skip fuel w stack t v k z = rw (dfs_loop, on_walk, k, Lowest.visit, z) refl

  run_take :
      (fuel w : ℕ) (stack : List ℕ) (t : After) (v : Bytes) (d : Event)
      → find ℕ_discrete w t ≡ some v
      → (Lowest.get v me == 0) ≡ true
      → get_event w ≡ some d
      → dfs_loop get_event (on_walk me e) (suc fuel) (w ∷ stack) t
        ≡ dfs_loop get_event
            (on_walk me e)
            fuel
            (push_all d.parents stack)
            (put ℕ_discrete w (Lowest.set v me e.seq) t)
  unfolding dfs_loop on_walk Lowest.visit
  run_take fuel w stack t v d k z s = rw (dfs_loop, on_walk, k, Lowest.visit, z, s) refl

  module _ (xs : List ℕ) (wide : me < 2 ^ 29) (positive : e.seq ≢ 0) (small : e.seq < 2 ^ 32) where
    -- With more fuel than the stack and the parents of the events that are not visited yet, the walk
    -- goes through.
    pub walk-Trace :
        (fuel : ℕ) (stack : List ℕ) (t : After)
        → IsTable t
        → IsComplete get_event t
        → ((x : ℕ) → Known t x → In x xs)
        → All (λ x. Known t x) stack
        → length stack + sum_over (waiting t) xs < fuel
        → (t' : After) × (dfs_loop get_event (on_walk me e) fuel stack t ≡ through t')
          × Trace stack t t'
    unfolding dfs_loop
    walk-Trace zero stack t table complete listed all lt = absurd (omega (arith, lt))
    walk-Trace (suc fuel) [] t table complete listed all lt = (t, refl, stop)
    walk-Trace (suc fuel) (w ∷ stack) t table complete listed ((v, k), all) lt =
        elim (Bool-cases (Lowest.get v me == 0)) [
          | inl z ↦
              let (d, s, parents) = complete w (v, k) in
              let t1 = put ℕ_discrete w (Lowest.set v me e.seq) t in
              let known = Known-written w me e.seq t v wide small k table in
              let lows = low-written w me e.seq t v wide small k table in
              let keep : (y : ℕ) → Known t y → Known t1 y = λ y. (known y).0 in
              let less =
                sum_over-drop (waiting t) (waiting t1) w xs
                  (λ x. shrink x (low t x me) (low t1 x me) (lows x me wide))
                  (visited (low t1 w me) (lows w me wide ∙ if_pos (ℕ_discrete w w) refl _ _))
                  (listed w (v, k)) in
              let mine : waiting t w ≡ length d.parents = rw (k, z, s) refl in
              let (t', r, tr) =
                walk-Trace fuel (push_all d.parents stack) t1
                  (written-IsTable w me e.seq t v wide small k table)
                  (λ x q.
                    let (d', s', ps) = complete x ((known x).1 q) in
                    (d', s', All-map (Known t) (Known t1) keep d'.parents ps))
                  (λ x q. listed x ((known x).1 q))
                  (All-push_all (λ y. Known t1 y) d.parents stack
                    (λ y i. keep y (All-at (λ q. Known t q) d.parents parents y i))
                    (All-map (Known t) (Known t1) keep stack all))
                  (omega (arith, lt, less, mine, length-push_all d.parents stack)) in
              (t', run_take fuel w stack t v d k z s ∙ r, take v d k ((==_iff _ 0).0 z) s tr)
          | inr z ↦
              let (t', r, tr) =
                walk-Trace fuel stack t table complete listed all (omega (arith, lt)) in
              (
                t',
                run_skip fuel w stack t v k z ∙ r,
                skip v k (λ q. absurd (ground (arith, (==_iff _ 0).1 q))) tr,
              )
        ]
      where
        shrink :
            (x a b : ℕ)
            → b ≡ ite (ℕ_discrete w x) (if me == me then e.seq else a) a
            → (if b == 0 then parents_count (get_event x) else 0)
              ≤ (if a == 0 then parents_count (get_event x) else 0)
        shrink x a b h = elim (ℕ_discrete w x) [
          | yes p ↦ ground (arith, h ∙ if_pos (ℕ_discrete w x) p _ _, positive)
          | no p ↦ ground (arith, h ∙ if_neg (ℕ_discrete w x) p _ _)
        ]

        visited :
            (b : ℕ)
            → b ≡ (if me == me then e.seq else low t w me)
            → (if b == 0 then parents_count (get_event w) else 0) ≡ 0
        visited b h = ground (arith, h, positive)
