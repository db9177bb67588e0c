-- ===== src/EventBuffer/Kept.antt =====
-- gossip/dagordering/event_buffer.go: what every step of `PushEvent` keeps, `PushEvent` keeps.
use lachesis_base.Base.{
  ℕ, zero, suc, ◌≡◌, Bool, true, false, none, some, List, [], ◌∷◌, ◌++◌, Bool-cases, Option-cases,
  All, inl, inr, length,
}
use lachesis_base.Dag.{Event}
use lachesis_base.Lru.{Cache, peek, get_oldest, add}
use lachesis_base.Dag.{size}
use lachesis_base.EventBuffer.{
  Err, already_connected_event, duplicate_event, spilled_event, Callback, EventsBuffer, object,
  id_of, drop_event, release_event, complete_event_parents, process_complete_event, push_object,
  add_object, drop_known, spill_oldest, spill_first, push_event, spill_incompletes, new_event,
}
use lachesis_base.EventBuffer.Turns.{spill_loop-Holds}
use lachesis_base.EventBuffer.Stable.{
  Holds, Holds-bind, Holds-map, IsStable, connect_lem, push_child_lem, push_object_lem,
}

All-unit : (l : List ℕ) → All {0, 0} (λ x. Unit) l
All-unit [] = tt
All-unit (x ∷ l) = (tt, All-unit l)

module _ {S : Type 0} (callback : Callback S) where
  -- The steps keep a property of the buffer.
  pub record AreKept (Q : EventsBuffer S → Type 0) : Type 0 where
    pub dropped : (a : ℕ) (err : Err) (b : EventsBuffer S) → Q b → Q (drop_event a err b)
    pub released : (a : ℕ) (b : EventsBuffer S) → Q b → Q (release_event callback a b)
    pub cached : (c : Cache ℕ) (b : EventsBuffer S) → Q b → Q (record b { incompletes = c })
    pub processed :
        (a : ℕ) (parents : List Event) (b : EventsBuffer S)
        → Q b
        → callback.exists b.app (object b a).event.id ≡ false
        → complete_event_parents callback b.app (object b a).event.parents ≡ some parents
        → Q (process_complete_event callback a parents b).0

  module _ (Q : EventsBuffer S → Type 0) (kept : AreKept Q) where
    drop_release_kept :
        (a : ℕ) (err : Err) (b : EventsBuffer S)
        → Q b
        → Q (release_event callback a (drop_event a err b))
    drop_release_kept a err b h = kept.released a (drop_event a err b) (kept.dropped a err b h)

    add_object_kept : (a : ℕ) (b : EventsBuffer S) → Q b → Q (add_object a b)
    unfolding add_object
    add_object_kept a b h =
        let e = (object b a).event in
        elim (Option-cases (add e.id a (size e) b.incompletes)) [
          | inl n ↦ rw (add_object, n) h
          | inr ((c, m), n) ↦ rw (add_object, n) (kept.cached c b h)
        ]

    drop_known_kept :
        (recheck : Bool) (a : ℕ) (b : EventsBuffer S) → Q b → Q (drop_known callback recheck a b)
    drop_known_kept true a b h = kept.released a _ (kept.cached _ b h)
    drop_known_kept false a b h = drop_release_kept a already_connected_event _ (kept.cached _ b h)

    stable : IsStable callback Q (λ b c. Unit) (λ a. Unit)
    stable = record {
      here = λ b. tt;
      later = λ b c d r r'. tt;
      known = λ recheck a b k q e. (drop_known_kept recheck a b q, tt);
      processed = λ a parents b k q e p. (kept.released a _ (kept.processed a parents b q e p), tt);
      removed = λ a parents b c k q' r q. (kept.cached _ c q, tt);
    }

    push_object_kept :
        (fuel a : ℕ) (b : EventsBuffer S)
        → Q b
        → Holds (λ r. Q r.0) (push_object callback fuel none false a b)
    unfolding push_object
    push_object_kept zero a b h = tt
    push_object_kept (suc fuel) a b h = elim (Bool-cases (callback.exists b.app (id_of b a))) [
      | inl y ↦ rw y (drop_known_kept false a b h)
      | inr n ↦
          elim (Option-cases (complete_event_parents callback b.app (object b a).event.parents)) [
            | inl c ↦ rw (n, c) (add_object_kept a b h)
            | inr (parents, c) ↦
                rw (n, c)
                  (Holds-map (λ r. (Q r.0 × Unit) × Unit) (λ r. Q r.0) _ (λ r p. p.0.0)
                    (connect_lem callback Q (λ b c. Unit) (λ a. Unit) stable _ none a parents b
                      (push_child_lem callback Q (λ b c. Unit) (λ a. Unit) stable fuel
                        (push_object_lem callback Q (λ b c. Unit) (λ a. Unit) stable fuel))
                      (All-unit _) tt h n c))
          ]
    ]

    spill_oldest_kept : (b : EventsBuffer S) → Q b → Holds Q (spill_oldest callback b)
    unfolding spill_oldest
    spill_oldest_kept b h = elim (Option-cases (get_oldest b.incompletes)) [
      | inl n ↦ rw (spill_oldest, n) tt
      | inr ((k, a), n) ↦
          rw (spill_oldest, n) (drop_release_kept a spilled_event _ (kept.cached _ b h))
    ]

    spill_first_kept :
        (f : Event → Bool) (ks : List ℕ) (b : EventsBuffer S)
        → Q b
        → Holds Q (spill_first callback f ks b)
    unfolding spill_first
    spill_first_kept f [] b h = tt
    spill_first_kept f (k ∷ ks) b h = elim (Option-cases (peek k b.incompletes)) [
      | inl n ↦ rw (n, spill_first) (spill_first_kept f ks b h)
      | inr (a, n) ↦ elim (Bool-cases (f (object b a).event)) [
        | inl y ↦ rw (n, spill_first, y) (spill_first_kept f ks b h)
        | inr y ↦ rw (n, spill_first, y) (drop_release_kept a spilled_event _ (kept.cached _ b h))
      ]
    ]

    -- What the steps keep, and what holds with the new event in flight, holds after a push.
    pub push_event_kept :
        (fuel : ℕ) (de : Event) (peer : ℕ) (b : EventsBuffer S)
        → Q (record b { objects = b.objects ++ (new_event de peer ∷ []) })
        → Holds (λ r. Q r.0) (push_event callback fuel de peer b)
    unfolding push_event
    push_event_kept fuel de peer b h =
        let a = length b.objects in
        let b' = record b { objects = b.objects ++ (new_event de peer ∷ []) } in
        elim (Option-cases (peek de.id b.incompletes)) [
          | inl n ↦
              rw (push_event, n)
                (Holds-bind (λ r. Q r.0) (λ r. Q r.0) (push_object callback fuel none false a b') _
                  (push_object_kept fuel a b' h)
                  (λ r q.
                    Holds-bind Q (λ r'. Q r'.0) (spill_incompletes callback r.0.limit r.0) _
                      (spill_loop-Holds callback Q spill_oldest_kept spill_first_kept
                        (suc (length r.0.incompletes.entries)) r.0.limit r.0 q)
                      (λ c p. p)))
          | inr (c, n) ↦ rw (push_event, n) (drop_release_kept a duplicate_event b' h)
        ]
