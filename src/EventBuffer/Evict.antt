-- ===== src/EventBuffer/Evict.antt =====
-- gossip/dagordering/event_buffer.go, `spillIncompletes`: one turn of its loop evicts one event.
use lachesis_base.Base.{
  ℕ, zero, suc, ◌<◌, ◌≡◌, ◌⊎◌, refl, sym, ap, subst, ◌∙◌, arith, Bool, true, false, Option, none,
  some, List, [], ◌∷◌, Bool-cases, Option-cases, inl, inr, length, In, set, get_or,
}
use lachesis_base.Dag.{Event}
use lachesis_base.Lru.{keys, peek, get_oldest, remove_oldest}
use lachesis_base.Lru.Weights.{IsCache}
use lachesis_base.Lru.Removal.{
  Removes, remove-Removes, oldest-Removes, get_oldest-none, keys_complete,
}
use lachesis_base.EventBuffer.{
  BufferedEvent, Callback, EventsBuffer, object, nowhere, spilled_event, drop_event, release_event,
  spill, spill_oldest, spill_first, spill_step, or_else, remove_id,
}

event_set :
    (l : List BufferedEvent) (a x : ℕ) (o : BufferedEvent)
    → o.event ≡ (get_or l a nowhere).event
    → (get_or (set l a o) x nowhere).event ≡ (get_or l x nowhere).event
event_set [] a x o e = refl
event_set (y ∷ l) zero zero o e = e
event_set (y ∷ l) zero (suc x) o e = refl
event_set (y ∷ l) (suc a) zero o e = refl
event_set (y ∷ l) (suc a) (suc x) o e = event_set l a x o e

module _ {S : Type 0} (callback : Callback S) where
  abbrev pub event_at : EventsBuffer S → ℕ → Event
  event_at b a = (object b a).event

  spill-event : (a x : ℕ) (b : EventsBuffer S) → event_at (spill callback a b) x ≡ event_at b x
  unfolding release_event drop_event
  spill-event a x b =
      let dropped = drop_event a spilled_event b in
      event_set dropped.objects a x _ refl ∙ event_set b.objects a x _ refl

  spill-incompletes :
      (a : ℕ) (b : EventsBuffer S) → (spill callback a b).incompletes ≡ b.incompletes
  unfolding release_event drop_event
  spill-incompletes a b = refl

  -- The oldest event, or one that is not important, was removed.
  pub record IsTurn (b b' : EventsBuffer S) : Type 0 where
    pub key : ℕ
    pub value : ℕ
    pub found : peek key b.incompletes ≡ some value
    pub removes : Removes key b.incompletes b'.incompletes
    pub events : (x : ℕ) → event_at b' x ≡ event_at b x
    pub limit : b'.limit ≡ b.limit

  spill_oldest_lem :
      (b : EventsBuffer S)
      → IsCache b.incompletes
      → 0 < length b.incompletes.entries
      → (b' : EventsBuffer S) × (spill_oldest callback b ≡ some b') × IsTurn b b'
  unfolding spill_oldest release_event drop_event
  spill_oldest_lem b h l = elim (Option-cases (get_oldest b.incompletes)) [
    | inl n ↦ absurd (ground (arith, ap length (get_oldest-none b.incompletes n), l))
    | inr ((k, a), g) ↦
        let (r, p) = oldest-Removes b.incompletes k a h g in
        let mid = record b { incompletes = remove_oldest b.incompletes } in
        (
          spill callback a mid,
          rw (spill_oldest, g) refl,
          record {
            key = k;
            value = a;
            found = p;
            removes = r;
            events = λ x. spill-event a x mid;
            limit = refl;
          },
        )
  ]

  spill_first_lem :
      (f : Event → Bool) (ks : List ℕ) (b : EventsBuffer S)
      → IsCache b.incompletes
      → ((b' : EventsBuffer S) × (spill_first callback f ks b ≡ some b')
          × ((t : IsTurn b b') × (f (event_at b t.value) ≡ false)))
        ⊎ ((spill_first callback f ks b ≡ none)
            × ((k a : ℕ) → In k ks → peek k b.incompletes ≡ some a → f (event_at b a) ≡ true))
  unfolding spill_first release_event drop_event
  spill_first_lem f [] b h = inr (refl, λ k a i p. absurd i)
  spill_first_lem f (k ∷ ks) b h = elim (Option-cases (peek k b.incompletes)) [
    | inl n ↦ elim (spill_first_lem f ks b h) [
      | inl (b', e, t) ↦ inl (b', rw (spill_first, n) e, t)
      | inr (e, all) ↦ inr (
        rw (spill_first, n) e,
        λ j a i p. elim i [
          | inl q ↦ absurd (ground (arith, ap (λ y. peek y b.incompletes) q, n, p))
          | inr r ↦ all j a r p
        ],
      )
    ]
    | inr (a, n) ↦ elim (Bool-cases (f (event_at b a))) [
      | inl y ↦ elim (spill_first_lem f ks b h) [
        | inl (b', e, t) ↦ inl (b', rw (spill_first, n, y) e, t)
        | inr (e, all) ↦ inr (
          rw (spill_first, n, y) e,
          λ j c i p. elim i [
            | inl q ↦
                let one : some a ≡ some c = sym n ∙ ap (λ z. peek z b.incompletes) (sym q) ∙ p in
                subst (λ z. f (event_at b z) ≡ true) (ground (arith, one)) y
            | inr r ↦ all j c r p
          ],
        )
      ]
      | inr y ↦
          let mid = remove_id k b in
          inl (
            spill callback a mid,
            rw (spill_first, n, y) refl,
            (
              record {
                key = k;
                value = a;
                found = n;
                removes = remove-Removes k a b.incompletes h n;
                events = λ x. spill-event a x mid;
                limit = refl;
              },
              y,
            ),
          )
    ]
  ]

  abbrev pub AllImportant : EventsBuffer S → Type 0
  AllImportant b =
      (f : Event → Bool)
      → callback.is_important ≡ some f
      → (k a : ℕ) → peek k b.incompletes ≡ some a
      → f (event_at b a) ≡ true

  step_of : EventsBuffer S → Option (Event → Bool) → Option (EventsBuffer S)
  step_of b none = spill_oldest callback b
  step_of b (some f) =
      or_else (spill_first callback f (keys b.incompletes) b) (spill_oldest callback b)

  spill_step_of : (b : EventsBuffer S) → spill_step callback b ≡ step_of b callback.is_important
  unfolding spill_step step_of
  spill_step_of b = elim (Option-cases callback.is_important) [
    | inl n ↦ rw n refl
    | inr (f, n) ↦ rw n refl
  ]

  -- One turn removes an event, and one that is not important if there is one.
  pub spill_step_lem :
      (b : EventsBuffer S)
      → IsCache b.incompletes
      → 0 < length b.incompletes.entries
      → (b' : EventsBuffer S) × (spill_step callback b ≡ some b')
        × ((t : IsTurn b b') × (((f : Event → Bool)
                → callback.is_important ≡ some f
                → f (event_at b t.value) ≡ false)
              ⊎ AllImportant b))
  unfolding step_of AllImportant
  spill_step_lem b h l =
      let (o, e, t) = spill_oldest_lem b h l in
      elim (Option-cases callback.is_important) [
        | inl n ↦ (
          o,
          spill_step_of b ∙ ap (step_of b) n ∙ e,
          (t, inl (λ f q. absurd (ground (arith, n, q)))),
        )
        | inr (g, n) ↦ elim (spill_first_lem g (keys b.incompletes) b h) [
          | inl (b', e', (t', y)) ↦ (
            b',
            spill_step_of b ∙ ap (step_of b) n ∙ ap (λ x. or_else x (spill_oldest callback b)) e',
            (
              t',
              inl (λ f q.
                  subst (λ (m : Event → Bool). m (event_at b t'.value) ≡ false)
                    (ap (the g) (sym n ∙ q)) y),
            ),
          )
          | inr (e', all) ↦ (
            o,
            spill_step_of b
                ∙ ap (step_of b) n
                ∙ ap (λ x. or_else x (spill_oldest callback b)) e'
                ∙ e,
            (
              t,
              inr (λ f q k a p.
                  subst (λ (m : Event → Bool). m (event_at b a) ≡ true) (ap (the g) (sym n ∙ q))
                    (all k a (keys_complete k a b.incompletes p) p)),
            ),
          )
        ]
      ]
    where
      the : (Event → Bool) → Option (Event → Bool) → Event → Bool
      the d none = d
      the d (some x) = x
