-- ===== src/Block/Confirm.antt =====
-- abft/lachesis.go, `confirmEvents`: which events one block confirms.
use lachesis_base.Base.{
  ℕ, ◌≡◌, ◌≢◌, ◌↔◌, ◌⊎◌, some, All-at, inl, inr, sym, ◌∙◌, subst, Option, List, [], ◌∷◌, All, In,
}
use lachesis_base.Dag.{Event, ids}
use lachesis_base.Check.Basic.{Nodup}
use lachesis_base.Block.{walked, ConfirmedTable, get_event_confirmed_on, confirm_events}
use lachesis_base.Block.Trace.{
  self, parent, Observes, IsSource, IsClosed, Trace, apply_all, dfs-Trace,
}
use lachesis_base.Block.Trace.Confirmed.{
  Trace-kept, Trace-new, Trace-source, Trace-on, Trace-fresh, Trace-IsClosed, Trace-head,
}

All-ids {κ} :
    (P : ℕ → Type κ) (es : List Event) (x : ℕ) → All (λ e. P e.id) es → In x (ids es) → P x
All-ids P [] x a i = elim i [ ]
All-ids P (e ∷ es) x a (inl p) = subst P (sym p) a.0
All-ids P (e ∷ es) x a (inr i) = All-ids P es x a.1 i

Observes-confirmed :
    (get_event : ℕ → Option Event) (table : ConfirmedTable)
    → IsClosed get_event [] table
    → {head x : ℕ} → get_event_confirmed_on table head ≢ 0
    → Observes get_event head x
    → get_event_confirmed_on table x ≢ 0
Observes-confirmed get_event table c h self = h
Observes-confirmed get_event table c h (parent x p e o s i) =
    elim (c x p e s (Observes-confirmed get_event table c h o) i) [ inl l ↦ l | inr r ↦ absurd r ]

module _ {ℓ} {A : Type ℓ} (get_event : ℕ → Option Event) (fuel frame atropos : ℕ)
    (f : Event → A → A) (table t' : ConfirmedTable) (a a' : A) (not_zero : frame ≢ 0)
    (source : IsSource get_event)
    (through : confirm_events get_event fuel frame atropos f (table, a) ≡ ((t', a'), walked)) where
  trace :
      (es : List Event) × Trace get_event frame (atropos ∷ []) table es t' × (a' ≡ apply_all f es a)
  unfolding confirm_events
  trace = dfs-Trace get_event fuel frame f (atropos ∷ []) table t' a a' through

  -- The applied events are those that are confirmed after the walk and were not before.
  pub confirm_events-applied :
      (es : List Event) × (a' ≡ apply_all f es a)
      × Nodup (ids es)
      × ((x : ℕ)
          → In x (ids es)
            ↔ ((get_event_confirmed_on table x ≡ 0) × (get_event_confirmed_on t' x ≢ 0)))
      × All (λ e. (get_event e.id ≡ some e) × Observes get_event atropos e.id) es
  confirm_events-applied =
      let (es, tr, p) = trace in
      let (old, nodup) = Trace-fresh get_event frame not_zero tr in
      let on : (x : ℕ)
          → get_event_confirmed_on table x ≡ 0
          → (In x (ids es) × (get_event_confirmed_on t' x ≡ frame))
            ⊎ (¬ In x (ids es) × (get_event_confirmed_on t' x ≡ 0)) =
        Trace-on get_event frame not_zero tr in
      (
        es,
        p,
        nodup,
        λ x. (
          λ i.
              let z = All-at (λ y. get_event_confirmed_on table y ≡ 0) (ids es) old x i in
              elim (on x z) [
                | inl (j, q) ↦ (z, λ q'. not_zero (sym q ∙ q'))
                | inr (n, q) ↦ absurd (n i)
              ],
          λ (z, n). elim (on x z) [ inl (j, q) ↦ j | inr (m, q) ↦ absurd (n q) ],
        ),
        All-both es (Trace-source get_event frame not_zero source tr) (
            Trace-new get_event frame not_zero (Observes get_event atropos)
              (λ x q e o s i. parent x q e o s i) source tr (self, tt)),
      )
    where
      All-both :
          (es : List Event)
          → All (λ e. get_event e.id ≡ some e) es
          → All (λ e. Observes get_event atropos e.id) es
          → All (λ e. (get_event e.id ≡ some e) × Observes get_event atropos e.id) es
      All-both [] h k = tt
      All-both (e ∷ es) h k = ((h.0, k.0), All-both es h.1 k.1)

  -- After a walk that ends well, an event that was confirmed before has its frame still, and an
  -- event that was not is confirmed on this frame if the Atropos observes it and is in the source
  -- with its observed events, and on no frame if the Atropos does not observe it.
  pub confirm_events_lem :
      IsClosed get_event [] table
      → (x : ℕ)
      → (get_event_confirmed_on table x ≢ 0
          → get_event_confirmed_on t' x ≡ get_event_confirmed_on table x)
        × (get_event_confirmed_on table x ≡ 0
            → Observes get_event atropos x
            → get_event_confirmed_on t' x ≡ frame)
        × (get_event_confirmed_on table x ≡ 0
            → ¬ Observes get_event atropos x
            → get_event_confirmed_on t' x ≡ 0)
        × IsClosed get_event [] t'
  confirm_events_lem closed x =
      let (es, tr, p) = trace in
      let closed' =
        Trace-IsClosed get_event frame not_zero source tr
          (λ y q e s h i. elim (closed y q e s h i) [ inl l ↦ inl l | inr r ↦ absurd r ]) in
      let head = Trace-head get_event frame not_zero source tr in
      (
        Trace-kept get_event frame not_zero tr x,
        λ z o. elim (Trace-on get_event frame not_zero tr x z) [
          | inl (i, q) ↦ q
          | inr (n, q) ↦ absurd (Observes-confirmed get_event t' closed' head o q)
        ],
        λ z n. elim (Trace-on get_event frame not_zero tr x z) [
          | inl (i, q) ↦ absurd (
              n (
                All-ids (Observes get_event atropos) es x
                  (Trace-new get_event frame not_zero (Observes get_event atropos)
                    (λ u q e o s j. parent u q e o s j) source tr (self, tt))
                  i))
          | inr (m, q) ↦ q
        ],
        closed',
      )
