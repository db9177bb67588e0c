-- ===== src/Block/Trace/Confirmed.antt =====
-- abft/lachesis.go: the table of confirmed events after a walk of `confirmEvents`.
use lachesis_base.Base.{
  ℕ, ◌≡◌, ◌≢◌, ◌⊎◌, inl, inr, refl, sym, ap, subst, ◌∙◌, Option, some, List, [], ◌∷◌, ℕ_discrete,
  if_pos, if_neg, All, In,
}
use lachesis_base.Dag.{Event, ids}
use lachesis_base.Check.Basic.{Nodup}
use lachesis_base.Block.{ConfirmedTable, get_event_confirmed_on, set_event_confirmed_on}
use lachesis_base.Block.Trace.{stop, skip, take, IsSource, IsClosed, Trace, on-set, parents_of}
use lachesis_base.Block.Stack.{push_all-In, All-push_all}

module _ (get_event : ℕ → Option Event) (frame : ℕ) (not_zero : frame ≢ 0) where
  -- A confirmed event keeps its frame.
  pub Trace-kept :
      {stack : List ℕ} {table t' : ConfirmedTable} {es : List Event}
      → Trace get_event frame stack table es t'
      → (x : ℕ) → get_event_confirmed_on table x ≢ 0
      → get_event_confirmed_on t' x ≡ get_event_confirmed_on table x
  Trace-kept stop x h = refl
  Trace-kept (skip e s n tr) x h = Trace-kept tr x h
  Trace-kept {table = table} (take e s z tr) x h = elim (ℕ_discrete e.id x) [
    | yes p ↦ absurd (h (ap (get_event_confirmed_on table) (sym p) ∙ z))
    | no p ↦
        let same = on-set table e.id x frame ∙ if_neg (ℕ_discrete e.id x) p _ _ in
        Trace-kept tr x (λ q. h (sym same ∙ q)) ∙ same
  ]

  -- What the walk confirms is observed, accepted, and has the frame.
  pub Trace-new {κ} :
      (P : ℕ → Type κ)
      → ((x p : ℕ) (e : Event) → P x → get_event x ≡ some e → In p e.parents → P p)
      → IsSource get_event
      → {stack : List ℕ} {table t' : ConfirmedTable} {es : List Event}
      → Trace get_event frame stack table es t'
      → All P stack
      → All (λ e. P e.id) es
  Trace-new P up src stop a = tt
  Trace-new P up src (skip e s n tr) a = Trace-new P up src tr a.1
  Trace-new P up src (take {walk = w} e s z tr) a = (
    subst P (sym (src w e s)) a.0,
    Trace-new P up src tr (All-push_all P e.parents _ (λ x i. up w x e a.0 s i) a.1),
  )

  -- The accepted events are those of the source.
  pub Trace-source :
      IsSource get_event
      → {stack : List ℕ} {table t' : ConfirmedTable} {es : List Event}
      → Trace get_event frame stack table es t'
      → All (λ e. get_event e.id ≡ some e) es
  Trace-source src stop = tt
  Trace-source src (skip e s n tr) = Trace-source src tr
  Trace-source src (take {walk = w} e s z tr) = (ap get_event (src w e s) ∙ s, Trace-source src tr)

  -- The table after the walk.
  pub Trace-on :
      {stack : List ℕ} {table t' : ConfirmedTable} {es : List Event}
      → Trace get_event frame stack table es t'
      → (x : ℕ) → get_event_confirmed_on table x ≡ 0
      → (In x (ids es) × (get_event_confirmed_on t' x ≡ frame))
        ⊎ (¬ In x (ids es) × (get_event_confirmed_on t' x ≡ 0))
  Trace-on stop x h = inr (λ i. elim i [ ], h)
  Trace-on (skip e s n tr) x h = Trace-on tr x h
  Trace-on {table = table} (take e s z tr) x h = elim (ℕ_discrete e.id x) [
    | yes p ↦
        let now = on-set table e.id x frame ∙ if_pos (ℕ_discrete e.id x) p _ _ in
        inl (inl (sym p), Trace-kept tr x (λ q. not_zero (sym now ∙ q)) ∙ now)
    | no p ↦
        let same = on-set table e.id x frame ∙ if_neg (ℕ_discrete e.id x) p _ _ in
        elim (Trace-on tr x (same ∙ h)) [
          | inl (i, q) ↦ inl (inr i, q)
          | inr (n, q) ↦ inr (λ i. elim i [ inl l ↦ p (sym l) | inr r ↦ n r ], q)
        ]
  ]

  -- Every accepted event was not confirmed, and none is accepted twice.
  pub Trace-fresh :
      {stack : List ℕ} {table t' : ConfirmedTable} {es : List Event}
      → Trace get_event frame stack table es t'
      → All (λ x. get_event_confirmed_on table x ≡ 0) (ids es) × Nodup (ids es)
  Trace-fresh stop = (tt, tt)
  Trace-fresh (skip e s n tr) = Trace-fresh tr
  Trace-fresh {table = table} (take {es = es} e s z tr) =
      let (old, nodup) = Trace-fresh tr in
      let (other, old') = before (ids es) old in ((z, old'), (other, nodup))
    where
      before :
          (xs : List ℕ)
          → All (λ x. get_event_confirmed_on (set_event_confirmed_on table e.id frame) x ≡ 0) xs
          → All (λ x. e.id ≢ x) xs × All (λ x. get_event_confirmed_on table x ≡ 0) xs
      before [] a = (tt, tt)
      before (x ∷ xs) a =
          let (l, r) = before xs a.1 in
          elim (ℕ_discrete e.id x) [
            | yes p ↦ absurd (
                not_zero (sym (on-set table e.id x frame ∙ if_pos (ℕ_discrete e.id x) p _ _) ∙ a.0))
            | no p ↦ (
              (p, l),
              (sym (on-set table e.id x frame ∙ if_neg (ℕ_discrete e.id x) p _ _) ∙ a.0, r),
            )
          ]

  -- The parents of what the walk has confirmed are confirmed when the stack is empty.
  pub Trace-IsClosed :
      IsSource get_event
      → {stack : List ℕ} {table t' : ConfirmedTable} {es : List Event}
      → Trace get_event frame stack table es t'
      → IsClosed get_event stack table
      → IsClosed get_event [] t'
  Trace-IsClosed src stop c = c
  Trace-IsClosed src {stack = stack} {table = table} (skip {walk = w} e s n tr) c =
      Trace-IsClosed src tr (λ x p d q h i. elim (c x p d q h i) [
        | inl l ↦ inl l
        | inr (inl m) ↦ inl (subst (λ y. get_event_confirmed_on table y ≢ 0) (src w e s ∙ sym m) n)
        | inr (inr r) ↦ inr r
      ])
  Trace-IsClosed src {table = table} (take {walk = w} {stack = rest} e s z tr) c =
      Trace-IsClosed src tr (λ x p d q h i. elim (ℕ_discrete e.id p) [
        | yes here ↦ inl (λ o.
            not_zero (sym (on-set table e.id p frame ∙ if_pos (ℕ_discrete e.id p) here _ _) ∙ o))
        | no other ↦
            let same = on-set table e.id p frame ∙ if_neg (ℕ_discrete e.id p) other _ _ in
            elim (ℕ_discrete e.id x) [
              | yes me ↦
                  let one : some e ≡ some d = sym s ∙ ap get_event (sym (src w e s) ∙ me) ∙ q in
                  inr (
                    push_all-In p e.parents rest
                      (inl (subst (In p) (sym (ap (parents_of e) one)) i)))
              | no old ↦
                  let was = on-set table e.id x frame ∙ if_neg (ℕ_discrete e.id x) old _ _ in
                  elim (c x p d q (λ o. h (was ∙ o)) i) [
                    | inl l ↦ inl (λ o. l (sym same ∙ o))
                    | inr (inl m) ↦ absurd (other (src w e s ∙ sym m))
                    | inr (inr r) ↦ inr (push_all-In p e.parents rest (inr r))
                  ]
            ]
      ])

  -- The event on the top of the stack is confirmed at the end.
  pub Trace-head :
      IsSource get_event
      → {w : ℕ} {stack : List ℕ} {table t' : ConfirmedTable} {es : List Event}
      → Trace get_event frame (w ∷ stack) table es t'
      → get_event_confirmed_on t' w ≢ 0
  Trace-head src {w = w} {t' = t'} (skip e s n tr) =
      subst (λ y. get_event_confirmed_on t' y ≢ 0) (src w e s)
        (λ o. n (sym (Trace-kept tr e.id n) ∙ o))
  Trace-head src {w = w} {table = table} {t' = t'} (take e s z tr) =
      let now = on-set table e.id e.id frame ∙ if_pos (ℕ_discrete e.id e.id) refl _ _ in
      let set_now : get_event_confirmed_on (set_event_confirmed_on table e.id frame) e.id ≢ 0 =
        λ o. not_zero (sym now ∙ o) in
      subst (λ y. get_event_confirmed_on t' y ≢ 0) (src w e s)
        (λ o. set_now (sym (Trace-kept tr e.id set_now) ∙ o))
