-- ===== src/EventBuffer/Pushed.antt =====
-- gossip/dagordering/event_buffer.go: a well-formed buffer, and the push of an event before the spill.
use lachesis_base.Base.{
  ℕ, zero, suc, ◌+◌, ◌≤◌, ◌<◌, ◌≡◌, ◌⊎◌, refl, sym, ap, subst, ◌∙◌, arith, true, false, none, some,
  List, [], ◌∷◌, ◌++◌, Bool-cases, Option-cases, ◌>>=◌, inl, inr, length, get_or, if_pos, if_neg,
  ℕ_discrete, length-append, get_or-append_left,
}
use lachesis_base.Dag.{Event, size}
use lachesis_base.Lru.{pos, peek}
use lachesis_base.Lru.Weights.{IsCache, weights}
use lachesis_base.Lru.Removal.{add_fits}
use lachesis_base.EventBuffer.{
  BufferedEvent, Callback, EventsBuffer, object, id_of, nowhere, new_event, push_object,
  complete_event_parents, add_object, max_int32, connect,
}
use lachesis_base.EventBuffer.Stable.{
  Holds, Holds-map, connect_lem, push_object_lem, push_child_lem,
}
use lachesis_base.EventBuffer.Effects.{is_released, drop_known-IsRelease}
use lachesis_base.EventBuffer.Held.{
  IsHeld, Later, IsSlot, known-IsHeld, processed-IsHeld, stable, list_IsSlot,
}

at_end :
    (l : List BufferedEvent) {o : BufferedEvent} → get_or (l ++ (o ∷ [])) (length l) nowhere ≡ o
at_end [] = refl
at_end (x ∷ l) = at_end l

module _ {S : Type 0} where
  -- The cache is exact, its keys are the IDs of its events, and every event that is not released is
  -- in it.
  pub record IsBuffer (b : EventsBuffer S) : Type 0 where
    pub cache : IsCache b.incompletes
    pub named : (k a : ℕ) → peek k b.incompletes ≡ some a → (a < length b.objects) × (id_of b a ≡ k)
    pub held :
        (x : ℕ)
        → x < length b.objects
        → is_released b x ≡ false
        → peek (id_of b x) b.incompletes ≡ some x

  -- The buffer has room for one more event of this size, within the limits of the cache itself.
  pub record HasRoom (b : EventsBuffer S) (e : Event) : Type 0 where
    pub max_size : b.incompletes.max_size ≡ pos max_int32
    pub max_weight : b.incompletes.max_weight ≡ max_int32
    pub light : weights b.incompletes.entries + size e ≤ max_int32
    pub short : length b.incompletes.entries < max_int32

  module _ (callback : Callback S) where
    module _ (b : EventsBuffer S) (h : IsBuffer b) (de : Event) (peer : ℕ)
        (absent : peek de.id b.incompletes ≡ none) where
      abbrev n : ℕ
      n = length b.objects

      abbrev b1 : EventsBuffer S
      b1 = record b { objects = b.objects ++ (new_event de peer ∷ []) }

      abbrev ids : ℕ → ℕ
      ids x = id_of b1 x

      abbrev Slots : ℕ → ℕ → Type 0
      Slots k a = (peek k b.incompletes ≡ some a) ⊎ ((k ≡ de.id) × (a ≡ n))

      last : object b1 n ≡ new_event de peer
      last = at_end b.objects

      old : (x : ℕ) → x < n → object b1 x ≡ object b x
      old x l = get_or-append_left b.objects _ x nowhere l

      unique : (k a c : ℕ) → Slots k a → Slots k c → a ≡ c
      unique k a c (inl p) (inl q) = ground (arith, p, q)
      unique k a c (inl p) (inr q) =
          absurd (ground (arith, absent, ap (λ i. peek i b.incompletes) q.0, p))
      unique k a c (inr p) (inl q) =
          absurd (ground (arith, absent, ap (λ i. peek i b.incompletes) p.0, q))
      unique k a c (inr p) (inr q) = p.1 ∙ sym q.1

      slot : (k a : ℕ) → Slots k a → IsSlot callback (suc n) n ids Slots unique a
      slot k a (inl p) =
          let (l, q) = h.named k a p in
          (
            omega (arith, l),
            inl (
                ap (λ i. peek i b.incompletes)
                  (ap (λ (o : BufferedEvent). o.event.id) (old a l) ∙ q)
                ∙ p),
          )
      slot k a (inr (p, q)) =
          (omega (arith, q), inr (ap ids q ∙ ap (λ (o : BufferedEvent). o.event.id) last, q))

      abbrev Held : EventsBuffer S → Type 0
      Held = IsHeld callback (suc n) n ids Slots unique

      start : Held b1
      start = record {
        cache = h.cache;
        size = omega (arith, length-append b.objects (new_event de peer ∷ []));
        names = λ x. refl;
        within = λ k a p. inl p;
        held = λ x l t u.
            let l' : x < n = omega (arith, l, t) in
            ap (λ (o : BufferedEvent). peek o.event.id b.incompletes) (old x l')
            ∙ h.held x l' (ap (λ (o : BufferedEvent). o.released) (sym (old x l')) ∙ u);
      }

      -- The pushed event is released or in the buffer.
      pub Done : EventsBuffer S → Type 0
      Done c = Held c × ((is_released c n ≡ true) ⊎ (peek (ids n) c.incompletes ≡ some n))

      added-Done : HasRoom b de → Done (add_object n b1)
      unfolding add_object Done
      added-Done r =
          let e = (object b1 n).event in
          let same : e ≡ de = ap (λ (o : BufferedEvent). o.event) last in
          let (c, a, cache, seen) =
            add_fits e.id n (size e) max_int32 b.incompletes h.cache
              (subst (λ (d : Event). peek d.id b.incompletes ≡ none) (sym same) absent) r.max_size
              (subst
                (λ (d : Event). weights b.incompletes.entries + size d ≤ b.incompletes.max_weight)
                (sym same) (omega (arith, r.light, r.max_weight)))
              (omega (arith, r.max_weight)) r.short in
          let now : add_object n b1 ≡ record b1 { incompletes = c } = rw (add_object, a) refl in
          subst Done (sym now) (
            record {
              cache = cache;
              size = start.size;
              names = start.names;
              within = λ k x p. elim (ℕ_discrete e.id k) [
                | yes q ↦
                    let one : some n ≡ some x =
                      sym (seen k ∙ if_pos (ℕ_discrete e.id k) q _ _) ∙ p in
                    inr (sym q ∙ ap (λ (d : Event). d.id) same, ground (arith, one))
                | no q ↦ inl (sym (seen k ∙ if_neg (ℕ_discrete e.id k) q _ _) ∙ p)
              ];
              held = λ x l t u.
                  let there = start.held x l t u in
                  seen (ids x)
                  ∙ if_neg (ℕ_discrete e.id (ids x))
                      (λ q. absurd (
                        ground (
                          arith,
                          absent,
                          there,
                          ap (λ i. peek i b.incompletes) (sym q ∙ ap (λ (d : Event). d.id) same),
                        )))
                      _ _
                  ∙ there;
            },
            inr (seen e.id ∙ if_pos (ℕ_discrete e.id e.id) refl _ _),
          )

      connected-Done :
          (fuel : ℕ) (parents : List Event)
          → callback.exists b1.app (id_of b1 n) ≡ false
          → complete_event_parents callback b1.app (object b1 n).event.parents ≡ some parents
          → Holds
              (λ r. Done r.0)
              (connect callback
                (λ l child c. push_object callback fuel (some l) true child c >>= λ r. some r.0)
                none
                n
                parents
                b1)
      unfolding Done
      connected-Done fuel parents new known =
          let s = stable callback (suc n) n ids Slots unique in
          let l = Later callback (suc n) n ids Slots unique in
          let k = IsSlot callback (suc n) n ids Slots unique in
          let (h1, later, now) =
            processed-IsHeld callback (suc n) n ids Slots unique n parents b1 (omega arith) start in
          Holds-map _ (λ r. Done r.0) _ (λ r p. (p.0.0, inl (p.1 n now)))
            (connect_lem callback Held l k s _ none n parents b1
              (push_child_lem callback Held l k s fuel (push_object_lem callback Held l k s fuel))
              (list_IsSlot callback (suc n) n ids Slots unique _ _ h1 slot)
              (omega arith, inr (ap (λ (o : BufferedEvent). o.event.id) last, refl)) start new
              known)

      pub push_object-Done :
          (fuel : ℕ)
          → HasRoom b de
          → Holds (λ r. Done r.0) (push_object callback fuel none false n b1)
      unfolding push_object Done
      push_object-Done zero r = tt
      push_object-Done (suc fuel) r = elim (Bool-cases (callback.exists b1.app (id_of b1 n))) [
        | inl y ↦ rw y (
          (known-IsHeld callback (suc n) n ids Slots unique false n b1
              (omega arith, inr (ap (λ (o : BufferedEvent). o.event.id) last, refl)) start).0,
          inl ((drop_known-IsRelease callback false n b1).here (omega (arith, start.size))),
        )
        | inr y ↦
            elim (Option-cases
              (complete_event_parents callback b1.app (object b1 n).event.parents)) [
                | inl c ↦ rw (y, c) (added-Done r)
                | inr (parents, c) ↦ rw (y, c) (connected-Done fuel parents y c)
              ]
      ]

      pub Done-IsBuffer : (c : EventsBuffer S) → Done c → IsBuffer c
      unfolding Done
      Done-IsBuffer c (d, top) = record {
        cache = d.cache;
        named = λ k a p.
            let (l, s) = slot k a (d.within k a p) in
            (omega (arith, l, d.size), d.names a ∙ slot_name k a (d.within k a p));
        held = λ x l u. elim (ℕ_discrete n x) [
          | yes q ↦ elim top [
            | inl r ↦ absurd (ground (arith, ap (is_released c) q, r, u))
            | inr r ↦ ap (λ i. peek i c.incompletes) (d.names x ∙ ap ids (sym q)) ∙ r ∙ ap some q
          ]
          | no q ↦
              ap (λ i. peek i c.incompletes) (d.names x) ∙ d.held x (omega (arith, l, d.size)) q u
        ];
      }
        where
          slot_name : (k a : ℕ) → Slots k a → ids a ≡ k
          slot_name k a (inl p) =
              let (l, q) = h.named k a p in ap (λ (o : BufferedEvent). o.event.id) (old a l) ∙ q
          slot_name k a (inr (p, q)) =
              ap ids q ∙ ap (λ (o : BufferedEvent). o.event.id) last ∙ sym p
