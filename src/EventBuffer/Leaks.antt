-- ===== src/EventBuffer/Leaks.antt =====
-- gossip/dagordering/event_buffer.go: where the pushed events are after a push, in the buffer or
-- released.
use lachesis_base.Base.{
  ℕ, suc, ◌<◌, ◌≡◌, refl, sym, ap, subst, ◌∙◌, arith, Bool, false, none, some, List, [], ◌∷◌, ◌++◌,
  ◌⊎◌, get_or, Bool-cases, Option-cases, inl, inr, length, ite, ℕ_discrete, length-append,
  get_or-append_left,
}
use lachesis_base.Dag.{Event}
use lachesis_base.Lru.{remove_oldest, get_oldest, peek}
use lachesis_base.Lru.Weights.{IsCache}
use lachesis_base.Lru.Removal.{Removes, remove-Removes, oldest-Removes}
use lachesis_base.EventBuffer.{
  BufferedEvent, Callback, EventsBuffer, object, id_of, nowhere, release_event, drop_event,
  duplicate_event, spilled_event, new_event, remove_id, push_object, spill, spill_oldest,
  spill_first, push_event, spill_incompletes,
}
use lachesis_base.EventBuffer.Turns.{spill_loop-Holds}
use lachesis_base.EventBuffer.Stable.{Holds, Holds-some, Holds-bind}
use lachesis_base.EventBuffer.Effects.{is_released, IsRelease, after_same, drop_event-IsSame}
use lachesis_base.EventBuffer.Held.{dropped-IsHeld}
use lachesis_base.EventBuffer.Told.{IsTelling, AreTold, Lists, push_event-AreTold, push_event-Lists}
use lachesis_base.EventBuffer.Pushed.{IsBuffer, HasRoom, Done, push_object-Done, Done-IsBuffer}

module _ {S : Type 0} (callback : Callback S) where
  -- A spilled event is released.
  spill-IsBuffer :
      (b m : EventsBuffer S) (k a : ℕ)
      → IsBuffer b
      → peek k b.incompletes ≡ some a
      → Removes k b.incompletes m.incompletes
      → m.objects ≡ b.objects
      → IsBuffer (spill callback a m)
  spill-IsBuffer b m k a h p r same =
      let (l, q) = h.named k a p in
      let c = spill callback a m in
      let rel : IsRelease callback a m c =
        after_same callback a m (drop_event a spilled_event m)
          (drop_event-IsSame a spilled_event m) in
      let here : peek (id_of b a) b.incompletes ≡ some a = ap (λ i. peek i b.incompletes) q ∙ p in
      let n = length b.objects in
      let one : (i x y : ℕ)
          → peek i b.incompletes ≡ some x
          → peek i b.incompletes ≡ some y
          → x ≡ y =
        λ i x y s t. ground (arith, s, t) in
      let (d, later) =
        dropped-IsHeld callback n n (id_of b) (λ i x. peek i b.incompletes ≡ some x) one a b m c
          (l, here)
          (record {
            cache = h.cache;
            size = refl;
            names = λ x. refl;
            within = λ i x s. s;
            held = λ x m t u. h.held x m u;
          })
          r.cache
          (subst
            (λ i. (j : ℕ) → peek j m.incompletes ≡ ite (ℕ_discrete i j) none (peek j b.incompletes))
            (sym q) r.rest)
          same rel in
      record {
        cache = d.cache;
        named = λ i x s.
            let (l', q') = h.named i x (d.within i x s) in
            (omega (arith, l', d.size), d.names x ∙ q');
        held = λ x l' u.
            ap (λ i. peek i c.incompletes) (d.names x)
            ∙ d.held x (omega (arith, l', d.size)) (λ e. absurd (omega (arith, l', d.size, e))) u;
      }

  spill_oldest-IsBuffer :
      (b : EventsBuffer S) → IsBuffer b → Holds IsBuffer (spill_oldest callback b)
  unfolding spill_oldest
  spill_oldest-IsBuffer b h = elim (Option-cases (get_oldest b.incompletes)) [
    | inl n ↦ rw (spill_oldest, n) tt
    | inr ((k, a), n) ↦
        let (r, p) = oldest-Removes b.incompletes k a h.cache n in
        rw (spill_oldest, n)
          (spill-IsBuffer b (record b { incompletes = remove_oldest b.incompletes }) k a h p r refl)
  ]

  spill_first-IsBuffer :
      (f : Event → Bool) (ks : List ℕ) (b : EventsBuffer S)
      → IsBuffer b
      → Holds IsBuffer (spill_first callback f ks b)
  unfolding spill_first
  spill_first-IsBuffer f [] b h = tt
  spill_first-IsBuffer f (k ∷ ks) b h = elim (Option-cases (peek k b.incompletes)) [
    | inl n ↦ rw (n, spill_first) (spill_first-IsBuffer f ks b h)
    | inr (a, n) ↦ elim (Bool-cases (f (object b a).event)) [
      | inl y ↦ rw (n, spill_first, y) (spill_first-IsBuffer f ks b h)
      | inr y ↦
          rw (n, spill_first, y)
            (spill-IsBuffer b (remove_id k b) k a h n (remove-Removes k a b.incompletes h.cache n)
              refl)
    ]
  ]

  duplicate-IsBuffer :
      (b : EventsBuffer S) (de : Event) (peer : ℕ)
      → IsBuffer b
      → IsBuffer (
          release_event callback (length b.objects) (
            drop_event
              (length b.objects)
              duplicate_event
              (record b { objects = b.objects ++ (new_event de peer ∷ []) })))
  duplicate-IsBuffer b de peer h =
      let n = length b.objects in
      let m = record b { objects = b.objects ++ (new_event de peer ∷ []) } in
      let c = release_event callback n (drop_event n duplicate_event m) in
      let rel : IsRelease callback n m c =
        after_same callback n m (drop_event n duplicate_event m)
          (drop_event-IsSame n duplicate_event m) in
      let longer : length m.objects ≡ suc n =
        omega (arith, length-append b.objects (new_event de peer ∷ [])) in
      let name : (x : ℕ) → x < n → id_of c x ≡ id_of b x = λ x l.
        ap (λ (e : Event). e.id) (rel.event x)
        ∙ ap (λ (o : BufferedEvent). o.event.id) (get_or-append_left b.objects _ x nowhere l) in
      record {
        cache = subst (λ i. IsCache i) (sym rel.incompletes) h.cache;
        named = λ k a p.
            let (l, q) = h.named k a (ap (peek k) (sym rel.incompletes) ∙ p) in
            (omega (arith, l, rel.size, longer), name a l ∙ q);
        held = λ x l u. elim (ℕ_discrete n x) [
          | yes q ↦
              absurd (ground (arith, rel.here (omega (arith, longer)), ap (is_released c) q, u))
          | no q ↦
              let l' : x < n = omega (arith, l, rel.size, longer, q) in
              ap (peek (id_of c x)) rel.incompletes
              ∙ ap (λ i. peek i b.incompletes) (name x l')
              ∙ h.held x l' (
                  sym (
                    rel.others x q
                    ∙ ap (λ (o : BufferedEvent). o.released)
                        (get_or-append_left b.objects _ x nowhere l'))
                  ∙ u)
        ];
      }

  push_event-Holds :
      (fuel : ℕ) (de : Event) (peer : ℕ) (b : EventsBuffer S)
      → IsBuffer b
      → HasRoom b de
      → Holds (λ r. IsBuffer r.0) (push_event callback fuel de peer b)
  unfolding push_event
  push_event-Holds fuel de peer b h room =
      let b1 = record b { objects = b.objects ++ (new_event de peer ∷ []) } in
      elim (Option-cases (peek de.id b.incompletes)) [
        | inl e ↦
            rw (push_event, e)
              (Holds-bind (λ r. Done callback b h de peer e r.0) (λ r. IsBuffer r.0)
                (push_object callback fuel none false (length b.objects) b1) _
                (push_object-Done callback b h de peer e fuel room)
                (λ r d.
                  Holds-bind (λ c. IsBuffer c) (λ r'. IsBuffer r'.0)
                    (spill_incompletes callback r.0.limit r.0) _
                    (spill_loop-Holds callback (λ c. IsBuffer c) spill_oldest-IsBuffer
                      spill_first-IsBuffer (suc (length r.0.incompletes.entries)) r.0.limit r.0
                      (Done-IsBuffer callback b h de peer e r.0 d))
                    (λ c p. p)))
        | inr (c, e) ↦ rw (push_event, e) (duplicate-IsBuffer b de peer h)
      ]

-- A push that ends keeps the buffer well formed while the cache has room, for an application that has
-- the callback Released and goes on remembering what it was told: the keys of the buffer are the IDs
-- of its events; its events are those that were pushed before, and the new one after them; and each
-- of these is in the cache, or the application was told of its release, if before the push it was
-- told of every event that was marked as released.
pub push_event-IsBuffer :
    {S : Type 0} (callback : Callback S) (told : S → Event → Type 0) (fuel : ℕ) (de : Event)
    (peer : ℕ) (b b' : EventsBuffer S) (complete : Bool)
    → IsTelling callback told
    → IsBuffer b
    → AreTold callback told b
    → HasRoom b de
    → push_event callback fuel de peer b ≡ some (b', complete)
    → IsBuffer b'
      × AreTold callback told b'
      × Lists callback (b.objects ++ (new_event de peer ∷ [])) b'
      × ((x : ℕ)
          → x < suc (length b.objects)
          → told b'.app (get_or (b.objects ++ (new_event de peer ∷ [])) x nowhere).event
            ⊎ (peek
                  (get_or (b.objects ++ (new_event de peer ∷ [])) x nowhere).event.id
                  b'.incompletes
                ≡ some x))
push_event-IsBuffer callback told fuel de peer b b' complete telling h t room e =
    let l = b.objects ++ (new_event de peer ∷ []) in
    let now =
      Holds-some (λ r. IsBuffer r.0) _ (b', complete)
        (push_event-Holds callback fuel de peer b h room) e in
    let t' =
      Holds-some (λ r. AreTold callback told r.0) _ (b', complete)
        (push_event-AreTold callback told telling fuel de peer b t) e in
    let (size, same) =
      Holds-some (λ r. Lists callback l r.0) _ (b', complete)
        (push_event-Lists callback fuel de peer b) e in
    let longer = length-append b.objects (new_event de peer ∷ []) in
    (
      now,
      t',
      (size, same),
      λ x k. elim (Bool-cases (is_released b' x)) [
        | inl y ↦ inl (subst (told b'.app) (same x) (t' x y))
        | inr n ↦ inr (
            ap (λ (d : Event). peek d.id b'.incompletes) (sym (same x))
            ∙ now.held x (omega (arith, size, longer, k)) n)
      ],
    )
