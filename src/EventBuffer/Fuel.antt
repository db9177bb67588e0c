-- ===== src/EventBuffer/Fuel.antt =====
-- gossip/dagordering/event_buffer.go: `PushEvent` ends, with the spill.
use lachesis_base.Base.{
  ℕ, zero, suc, ◌<◌, ◌≡◌, refl, ap, ◌∙◌, arith, Bool, true, false, Option, none, some, List, [],
  ◌∷◌, ◌++◌, Bool-cases, Option-cases, ◌>>=◌, inl, inr, length,
}
use lachesis_base.Dag.{Event, Metric}
use lachesis_base.Lru.{keys, peek, get_oldest}
use lachesis_base.Lru.Removal.{remove_shorter, oldest_shorter}
use lachesis_base.EventBuffer.{
  Callback, EventsBuffer, object, id_of, release_event, drop_known, add_object,
  process_complete_event, push_object, complete_event_parents, get_incomplete_events_list,
  drop_event, new_event, duplicate_event, spill_oldest, spill_first, spill_step, spill_loop,
  or_else, is_above, push_event, peek_all,
}
use lachesis_base.EventBuffer.Stable.{Holds, Holds-some}
use lachesis_base.EventBuffer.Effects.{process-IsSame, after_same}
use lachesis_base.EventBuffer.Rechecks.{
  IsMemory, missing, push_connects, IsAt, connect-Ends, push_ends, missing-length, All-In,
}

module _ {S : Type 0} (callback : Callback S) (memory : IsMemory callback) where
  -- With fuel above one plus the number of the events in the buffer, `pushEvent` ends.
  push_object_ends :
      (fuel a : ℕ) (b : EventsBuffer S)
      → suc (length (get_incomplete_events_list b)) < fuel
      → (r : EventsBuffer S × Bool) × (push_object callback fuel none false a b ≡ some r)
  unfolding push_object IsAt
  push_object_ends zero a b lt = absurd (omega (arith, lt))
  push_object_ends (suc fuel) a b lt = elim (Bool-cases (callback.exists b.app (id_of b a))) [
    | inl y ↦ ((drop_known callback false a b, false), rw y refl)
    | inr y ↦
        elim (Option-cases (complete_event_parents callback b.app (object b a).event.parents)) [
          | inl c ↦ ((add_object a b, false), rw (y, c) refl)
          | inr (parents, c) ↦
              let l = get_incomplete_events_list b in
              let b1 = release_event callback a (process_complete_event callback a parents b).0 in
              let rel = after_same callback a b _ (process-IsSame callback a parents b) in
              let (r, e, at) =
                connect-Ends callback memory (λ x. id_of b x) l
                  (λ k child d. push_object callback fuel (some k) true child d >>= λ q. some q.0)
                  none a (missing callback memory (λ x. id_of b x) b.app l) parents b
                  (ap (λ i. peek_all i (keys i)) rel.incompletes) (omega arith, λ x. refl)
                  (λ ok child d j at1.
                    let (q, e, at2) =
                      push_ends callback memory (λ x. id_of b x) l fuel child
                        (missing callback memory (λ x. id_of b x) b1.app l) d j (All-In l) at1
                        (omega
                          (arith, missing-length callback memory (λ x. id_of b x) b1.app l, lt)) in
                    (q.0, rw e refl, at2))
                  (All-In l) in
              (r, push_connects callback fuel none false a parents b y c ∙ e)
        ]
  ]

  Shorter : EventsBuffer S → Option (EventsBuffer S) → Type 0
  Shorter b o =
      Holds (λ (c : EventsBuffer S). length c.incompletes.entries < length b.incompletes.entries) o

  oldest-Shorter : (b : EventsBuffer S) → Shorter b (spill_oldest callback b)
  unfolding spill_oldest release_event drop_event Shorter
  oldest-Shorter b = elim (Option-cases (get_oldest b.incompletes)) [
    | inl n ↦ rw (spill_oldest, n) tt
    | inr ((k, a), n) ↦ rw (spill_oldest, n) (oldest_shorter b.incompletes (k, a) n)
  ]

  first-Shorter :
      (f : Event → Bool) (ks : List ℕ) (b : EventsBuffer S)
      → Shorter b (spill_first callback f ks b)
  unfolding spill_first release_event drop_event Shorter
  first-Shorter f [] b = tt
  first-Shorter f (k ∷ ks) b = elim (Option-cases (peek k b.incompletes)) [
    | inl n ↦ rw (n, spill_first) (first-Shorter f ks b)
    | inr (a, n) ↦ elim (Bool-cases (f (object b a).event)) [
      | inl y ↦ rw (n, spill_first, y) (first-Shorter f ks b)
      | inr y ↦ rw (n, spill_first, y) (remove_shorter k a b.incompletes n)
    ]
  ]

  step-Shorter : (b : EventsBuffer S) → Shorter b (spill_step callback b)
  unfolding spill_step Shorter
  step-Shorter b = elim (Option-cases callback.is_important) [
    | inl n ↦ rw (spill_step, n) (oldest-Shorter b)
    | inr (f, n) ↦
        rw (spill_step, n) (either _ _ (first-Shorter f (keys b.incompletes) b) (oldest-Shorter b))
  ]
    where
      either :
          (o o' : Option (EventsBuffer S)) → Shorter b o → Shorter b o' → Shorter b (or_else o o')
      either none o' h h' = h'
      either (some c) o' h h' = h

  spill_ends :
      (fuel : ℕ) (limit : Metric) (b : EventsBuffer S)
      → length b.incompletes.entries < fuel
      → (b' : EventsBuffer S) × (spill_loop callback fuel limit b ≡ some b')
  unfolding spill_loop Shorter
  spill_ends zero limit b lt = absurd (omega (arith, lt))
  spill_ends (suc fuel) limit b lt = elim (Bool-cases (is_above limit b.incompletes)) [
    | inl y ↦ elim (Option-cases (spill_step callback b)) [
      | inl n ↦ (b, rw (y, n) refl)
      | inr (c, n) ↦
          let less = Holds-some _ _ c (step-Shorter b) n in
          let (d, e) = spill_ends fuel limit c (omega (arith, less, lt)) in (d, rw (y, n) e)
    ]
    | inr y ↦ (b, rw y refl)
  ]

  -- A push ends for an application that goes on having what it has and has what it processed, with
  -- fuel above one plus the number of the events in the buffer.
  pub push_event_ends :
      (fuel : ℕ) (de : Event) (peer : ℕ) (b : EventsBuffer S)
      → suc (length (get_incomplete_events_list b)) < fuel
      → (b' : EventsBuffer S) × (complete : Bool) × (push_event callback fuel de peer b
          ≡ some (b', complete))
  unfolding push_event
  push_event_ends fuel de peer b lt =
      let n = length b.objects in
      let b1 = record b { objects = b.objects ++ (new_event de peer ∷ []) } in
      elim (Option-cases (peek de.id b.incompletes)) [
        | inl e ↦
            let (r, p) = push_object_ends fuel n b1 lt in
            let (c, q) =
              spill_ends (suc (length r.0.incompletes.entries)) r.0.limit r.0 (omega arith) in
            (c, r.1, rw (push_event, e, p, q) refl)
        | inr (a, e) ↦ (
          release_event callback n (drop_event n duplicate_event b1),
          false,
          rw (push_event, e) refl,
        )
      ]
