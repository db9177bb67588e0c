-- ===== src/Engine/Add/Marked.antt =====
-- vecengine/index.go: the table LowestAfter after the walk of `fillEventVectors`.
use lachesis_base.Base.{
  ℕ, ◌^◌, ◌<◌, ◌≡◌, ◌≢◌, ◌⊎◌, inl, inr, refl, sym, ap, subst, ◌∙◌, arith, Option, some, List, [],
  if◌then◌else◌, find, put, ℕ_discrete, if_pos, if_neg, All, In, ==_iff,
}
use lachesis_base.Dag.{Event}
use lachesis_base.Vec.{Bytes}
use lachesis_base.Vec.Lowest
use lachesis_base.Block.Stack.{All-push_all, push_all-In}
use lachesis_base.Block.Trace.{parents_of}
use lachesis_base.Engine.Add.Walk.{
  After, low, low_of, Known, IsTable, written-IsTable, low-written, Known-written, Trace, stop,
  skip, take,
}

module _ (get_event : ℕ → Option Event) (me : ℕ) (e : Event) (wide : me < 2 ^ 29)
    (positive : e.seq ≢ 0) (small : e.seq < 2 ^ 32) where
  -- The entries after one visit.
  visit_self :
      (w : ℕ) (t : After) (v : Bytes)
      → IsTable t
      → find ℕ_discrete w t ≡ some v
      → low (put ℕ_discrete w (Lowest.set v me e.seq) t) w me ≡ e.seq
  visit_self w t v table k =
      low-written w me e.seq t v wide small k table w me wide
      ∙ if_pos (ℕ_discrete w w) refl _ _
      ∙ ap (λ b. if b then e.seq else low t w me) ((==_iff me me).1 refl)

  visit_ne :
      (w : ℕ) (t : After) (v : Bytes)
      → IsTable t
      → find ℕ_discrete w t ≡ some v
      → (x j : ℕ) → j < 2 ^ 29
      → (w ≢ x) ⊎ (me ≢ j)
      → low (put ℕ_discrete w (Lowest.set v me e.seq) t) x j ≡ low t x j
  visit_ne w t v table k x j l ne =
      low-written w me e.seq t v wide small k table x j l ∙ elim (ℕ_discrete w x) [
        | no p ↦ if_neg (ℕ_discrete w x) p _ _
        | yes p ↦
            if_pos (ℕ_discrete w x) p _ _
            ∙ elim ne [ inl q ↦ absurd (q p) | inr q ↦ ground (arith, q) ]
      ]

  pub Trace-IsTable :
      {stack : List ℕ} {t t' : After} → Trace get_event me e stack t t' → IsTable t → IsTable t'
  Trace-IsTable stop h = h
  Trace-IsTable (skip v k n tr) h = Trace-IsTable tr h
  Trace-IsTable {t = t} (take {w = w} v d k z s tr) h =
      Trace-IsTable tr (written-IsTable w me e.seq t v wide small k h)

  pub Trace-Known :
      {stack : List ℕ} {t t' : After}
      → Trace get_event me e stack t t'
      → IsTable t
      → (x : ℕ) → (Known t x → Known t' x) × (Known t' x → Known t x)
  Trace-Known stop h x = (λ k. k, λ k. k)
  Trace-Known (skip v k n tr) h x = Trace-Known tr h x
  Trace-Known {t = t} (take {w = w} v d k z s tr) h x =
      let (to, from) = Known-written w me e.seq t v wide small k h x in
      let (to', from') = Trace-Known tr (written-IsTable w me e.seq t v wide small k h) x in
      (λ q. to' (to q), λ q. from (from' q))

  -- The other branches stay, and so does an event that is visited before.
  pub Trace-kept :
      {stack : List ℕ} {t t' : After}
      → Trace get_event me e stack t t'
      → IsTable t
      → (x j : ℕ) → j < 2 ^ 29
      → (low t x me ≢ 0) ⊎ (me ≢ j)
      → low t' x j ≡ low t x j
  Trace-kept stop h x j l ne = refl
  Trace-kept (skip v k n tr) h x j l ne = Trace-kept tr h x j l ne
  Trace-kept {t = t} (take {w = w} v d k z s tr) h x j l ne =
      let table = written-IsTable w me e.seq t v wide small k h in
      elim ne [
        | inr q ↦ Trace-kept tr table x j l (inr q) ∙ visit_ne w t v h k x j l (inr q)
        | inl q ↦
            let apart : w ≢ x =
              λ p. q (ap (λ y. low t y me) (sym p) ∙ ap (λ o. low_of o me) k ∙ z) in
            let still = visit_ne w t v h k x me wide (inl apart) in
            Trace-kept tr table x j l (inl (λ o. q (sym still ∙ o)))
            ∙ visit_ne w t v h k x j l (inl apart)
      ]

  -- What the walk visits is observed from the stack, and gets the sequence number of the event.
  pub Trace-new {κ} :
      (P : ℕ → Type κ)
      → ((x p : ℕ) (d : Event) → P x → get_event x ≡ some d → In p d.parents → P p)
      → {stack : List ℕ} {t t' : After} → Trace get_event me e stack t t'
      → IsTable t
      → All P stack
      → (x : ℕ) → low t x me ≡ 0
      → (low t' x me ≡ 0) ⊎ ((low t' x me ≡ e.seq) × P x)
  Trace-new P up stop h a x o = inl o
  Trace-new P up (skip v k n tr) h a x o = Trace-new P up tr h a.1 x o
  Trace-new P up {t = t} (take {w = w} v d k z s tr) h a x o =
      let table = written-IsTable w me e.seq t v wide small k h in
      elim (ℕ_discrete w x) [
        | yes p ↦
            let now =
              subst (λ y. low (put ℕ_discrete w (Lowest.set v me e.seq) t) y me ≡ e.seq) p
                (visit_self w t v h k) in
            inr (
              Trace-kept tr table x me wide (inl (λ q. positive (sym now ∙ q))) ∙ now,
              subst P p a.0,
            )
        | no p ↦
            Trace-new P up tr table (All-push_all P d.parents _ (λ y i. up w y d a.0 s i) a.1) x
              (visit_ne w t v h k x me wide (inl p) ∙ o)
      ]

  -- The parents of a visited event are visited, or wait on the stack.
  abbrev pub IsClosed : List ℕ → After → Type 0
  IsClosed stack t =
      (x p : ℕ) (d : Event)
      → get_event x ≡ some d
      → low t x me ≢ 0
      → In p d.parents
      → (low t p me ≢ 0) ⊎ In p stack

  pub Trace-IsClosed :
      {stack : List ℕ} {t t' : After}
      → Trace get_event me e stack t t'
      → IsTable t
      → IsClosed stack t
      → IsClosed [] t'
  Trace-IsClosed stop h c = c
  Trace-IsClosed {t = t} (skip {w = w} v k n tr) h c = Trace-IsClosed tr h (λ x p d s o i.
      elim (c x p d s o i) [
        | inl l ↦ inl l
        | inr (inl m) ↦
            inl (λ q. n (sym (ap (λ r. low_of r me) k) ∙ ap (λ y. low t y me) (sym m) ∙ q))
        | inr (inr r) ↦ inr r
      ])
  Trace-IsClosed {t = t} (take {w = w} {stack = rest} v d k z s tr) h c =
      Trace-IsClosed tr (written-IsTable w me e.seq t v wide small k h) (λ x p f q o i.
        elim (ℕ_discrete w p) [
          | yes here ↦ inl (λ n. positive (
              sym (visit_self w t v h k)
              ∙ ap (λ y. low (put ℕ_discrete w (Lowest.set v me e.seq) t) y me) here
              ∙ n))
          | no other ↦
              let same = visit_ne w t v h k p me wide (inl other) in
              elim (ℕ_discrete w x) [
                | yes mine ↦
                    let one : some d ≡ some f = sym s ∙ ap get_event mine ∙ q in
                    inr (
                      push_all-In p d.parents rest
                        (inl (subst (In p) (sym (ap (parents_of d) one)) i)))
                | no old ↦
                    elim (c x p f q (λ n. o (visit_ne w t v h k x me wide (inl old) ∙ n)) i) [
                      | inl l ↦ inl (λ n. l (sym same ∙ n))
                      | inr (inl m) ↦ absurd (other (sym m))
                      | inr (inr r) ↦ inr (push_all-In p d.parents rest (inr r))
                    ]
              ]
        ])

  -- What stands on the stack is visited at the end.
  pub Trace-stack :
      {stack : List ℕ} {t t' : After}
      → Trace get_event me e stack t t'
      → IsTable t
      → (x : ℕ) → In x stack
      → low t' x me ≢ 0
  Trace-stack stop h x i = elim i [ ]
  Trace-stack {t = t} {t' = t'} (skip {w = w} v k n tr) h x (inl p) = λ o.
      let old : low t x me ≢ 0 =
        λ q. n (sym (ap (λ r. low_of r me) k) ∙ ap (λ y. low t y me) (sym p) ∙ q) in
      old (sym (Trace-kept tr h x me wide (inl old)) ∙ o)
  Trace-stack (skip v k n tr) h x (inr i) = Trace-stack tr h x i
  Trace-stack {t = t} (take {w = w} v d k z s tr) h x (inl p) = λ o.
      let now =
        subst (λ y. low (put ℕ_discrete w (Lowest.set v me e.seq) t) y me ≡ e.seq) (sym p)
          (visit_self w t v h k) in
      let new : low (put ℕ_discrete w (Lowest.set v me e.seq) t) x me ≢ 0 =
        λ q. positive (sym now ∙ q) in
      new (
        sym (Trace-kept tr (written-IsTable w me e.seq t v wide small k h) x me wide (inl new)) ∙ o)
  Trace-stack {t = t} (take {w = w} {stack = rest} v d k z s tr) h x (inr i) =
      Trace-stack tr (written-IsTable w me e.seq t v wide small k h) x
        (push_all-In x d.parents rest (inr i))
