-- ===== src/EventBuffer/Told.antt =====
-- gossip/dagordering/event_buffer.go, `releaseEvent`: the calls of the callback Released, and the list
-- of the events, over a push.
use lachesis_base.Base.{
  ℕ, zero, suc, ◌≡◌, refl, sym, ap, subst, ◌∙◌, arith, true, Option, some, List, [], ◌∷◌, ◌++◌,
  Bool-cases, Option-cases, inl, inr, length, get_or, ℕ_discrete,
}
use lachesis_base.Dag.{Event}
use lachesis_base.EventBuffer.{
  Err, BufferedEvent, Callback, EventsBuffer, object, nowhere, new_event, drop_event, call_released,
  release_event, call_check, process_complete_event, push_event,
}
use lachesis_base.EventBuffer.Stable.{Holds}
use lachesis_base.EventBuffer.Effects.{
  is_released, IsSame, process-IsSame, drop_event-IsSame, release_event-IsRelease,
}
use lachesis_base.EventBuffer.Kept.{AreKept, push_event_kept}

module _ {S : Type 0} (callback : Callback S) (told : S → Event → Type 0) where
  -- The application is told of released events and remembers it, also when it processes events.
  pub record IsTelling : Type 0 where
    pub tell : Event → ℕ → Option Err → S → S
    pub set : callback.released ≡ some tell
    pub tells : (e : Event) (peer : ℕ) (err : Option Err) (s : S) → told (tell e peer err s) e
    pub stays :
        (e : Event) (peer : ℕ) (err : Option Err) (s : S) (d : Event)
        → told s d
        → told (tell e peer err s) d
    pub goes_on : (e : Event) (s : S) (d : Event) → told s d → told (callback.process e s).0 d

  -- The application was told of every event that is marked as released.
  abbrev pub AreTold : EventsBuffer S → Type 0
  AreTold b = (x : ℕ) → is_released b x ≡ true → told b.app (object b x).event

  module _ (h : IsTelling) where
    call_told :
        (o : BufferedEvent) (s : S) (d : Event)
        → told s d
        → told (call_released callback.released o s) d
    call_told o s d t =
        subst (λ r. told (call_released r o s) d) (sym h.set)
          (elim (Bool-cases o.released) [
            | inl y ↦ rw y t
            | inr n ↦ rw n (h.stays o.event o.peer o.err s d t)
          ])

    call_tells :
        (o : BufferedEvent) (s : S)
        → (o.released ≡ true → told s o.event)
        → told (call_released callback.released o s) o.event
    call_tells o s t =
        subst (λ r. told (call_released r o s) o.event) (sym h.set)
          (elim (Bool-cases o.released) [
            | inl y ↦ rw y (t y)
            | inr n ↦ rw n (h.tells o.event o.peer o.err s)
          ])

    release_event_told :
        (a : ℕ) (b : EventsBuffer S) → AreTold b → AreTold (release_event callback a b)
    unfolding release_event
    release_event_told a b t x u =
        let r = release_event-IsRelease callback a b in
        let o = object b a in
        subst (told (call_released callback.released o b.app)) (sym (r.event x))
          (elim (ℕ_discrete a x) [
            | yes q ↦
                subst (λ y. told (call_released callback.released o b.app) (object b y).event) q
                  (call_tells o b.app (t a))
            | no q ↦ call_told o b.app (object b x).event (t x (sym (r.others x q) ∙ u))
          ])

    same_told :
        (b c : EventsBuffer S)
        → IsSame b c
        → ((d : Event) → told b.app d → told c.app d)
        → AreTold b
        → AreTold c
    same_told b c s k t x u =
        subst (told c.app) (sym (s.event x)) (k _ (t x (sym (s.released x) ∙ u)))

    process_told :
        (a : ℕ) (parents : List Event) (b : EventsBuffer S) (d : Event)
        → told b.app d
        → told (process_complete_event callback a parents b).0.app d
    unfolding process_complete_event drop_event
    process_told a parents b d t =
        let e = (object b a).event in
        elim (Option-cases (call_check callback.check b.app e parents)) [
          | inl c ↦ elim (Option-cases (callback.process e b.app).1) [
            | inl r ↦ rw (process_complete_event, c, r) (h.goes_on e b.app d t)
            | inr (err, r) ↦ rw (process_complete_event, c, r) (h.goes_on e b.app d t)
          ]
          | inr (err, c) ↦ rw (process_complete_event, c) t
        ]

    steps_told : AreKept callback AreTold
    unfolding drop_event
    steps_told = record {
      dropped =
          λ a err b t. same_told b (drop_event a err b) (drop_event-IsSame a err b) (λ d p. p) t;
      released = release_event_told;
      cached = λ c b t. t;
      processed = λ a parents b t new known.
          same_told b _ (process-IsSame callback a parents b) (process_told a parents b) t;
    }

    in_flight :
        (l : List BufferedEvent) (de : Event) (peer x : ℕ)
        → (get_or (l ++ (new_event de peer ∷ [])) x nowhere).released ≡ true
        → get_or (l ++ (new_event de peer ∷ [])) x nowhere ≡ get_or l x nowhere
    in_flight [] de peer zero u = absurd (ground (arith, u))
    in_flight [] de peer (suc x) u = refl
    in_flight (o ∷ l) de peer zero u = refl
    in_flight (o ∷ l) de peer (suc x) u = in_flight l de peer x u

    pub push_event-AreTold :
        (fuel : ℕ) (de : Event) (peer : ℕ) (b : EventsBuffer S)
        → AreTold b
        → Holds (λ r. AreTold r.0) (push_event callback fuel de peer b)
    push_event-AreTold fuel de peer b t =
        push_event_kept callback AreTold steps_told fuel de peer b (λ x u.
          let same = in_flight b.objects de peer x u in
          subst (λ (o : BufferedEvent). told b.app o.event) (sym same)
            (t x (sym (ap (λ (o : BufferedEvent). o.released) same) ∙ u)))

module _ {S : Type 0} (callback : Callback S) where
  -- The events of `l`, in order, are those of the buffer.
  abbrev pub Lists : List BufferedEvent → EventsBuffer S → Type 0
  Lists l c =
      (length c.objects ≡ length l) × ((x : ℕ) → (object c x).event ≡ (get_or l x nowhere).event)

  IsSame-Lists :
      (l : List BufferedEvent) (b c : EventsBuffer S) → IsSame b c → Lists l b → Lists l c
  IsSame-Lists l b c s (n, f) = (s.size ∙ n, λ x. s.event x ∙ f x)

  pub push_event-Lists :
      (fuel : ℕ) (de : Event) (peer : ℕ) (b : EventsBuffer S)
      → Holds
          (λ r. Lists (b.objects ++ (new_event de peer ∷ [])) r.0)
          (push_event callback fuel de peer b)
  push_event-Lists fuel de peer b =
      let l = b.objects ++ (new_event de peer ∷ []) in
      push_event_kept callback (Lists l)
        (record {
          dropped = λ a err c h. IsSame-Lists l c _ (drop_event-IsSame a err c) h;
          released = λ a c h.
              let r = release_event-IsRelease callback a c in
              (r.size ∙ h.0, λ x. r.event x ∙ h.1 x);
          cached = λ k c h. h;
          processed =
              λ a parents c h new known. IsSame-Lists l c _ (process-IsSame callback a parents c) h;
        })
        fuel de peer b (refl, λ x. refl)
