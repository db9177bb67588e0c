-- ===== src/EventBuffer/Effects.antt =====
-- gossip/dagordering/event_buffer.go: what the steps of the buffer do to the events that it holds.
use lachesis_base.Base.{
  ℕ, zero, suc, ◌<◌, ◌≡◌, ◌≢◌, refl, sym, ap, subst, ◌∙◌, Bool, true, false, some, List, [], ◌∷◌,
  Option-cases, inl, inr, length, set, get_or, length-set, get_or-set_self, get_or-set_ne,
}
use lachesis_base.Dag.{Event}
use lachesis_base.EventBuffer.{
  Err, already_connected_event, app_error, BufferedEvent, Callback, EventsBuffer, object, id_of,
  nowhere, drop_event, release_event, drop_known, process_complete_event, call_check, remove_id,
  update,
}

field_set :
    {A : Type 0} (f : BufferedEvent → A) (l : List BufferedEvent) (a x : ℕ) (o : BufferedEvent)
    → f o ≡ f (get_or l a nowhere)
    → f (get_or (set l a o) x nowhere) ≡ f (get_or l x nowhere)
field_set f [] a x o e = refl
field_set f (y ∷ l) zero zero o e = e
field_set f (y ∷ l) zero (suc x) o e = refl
field_set f (y ∷ l) (suc a) zero o e = refl
field_set f (y ∷ l) (suc a) (suc x) o e = field_set f l a x o e

module _ {S : Type 0} where
  abbrev pub is_released : EventsBuffer S → ℕ → Bool
  is_released b x = (object b x).released

  -- The cache, the events and the marks of release are the same.
  pub record IsSame (b c : EventsBuffer S) : Type 0 where
    pub incompletes : c.incompletes ≡ b.incompletes
    pub size : length c.objects ≡ length b.objects
    pub event : (x : ℕ) → (object c x).event ≡ (object b x).event
    pub released : (x : ℕ) → is_released c x ≡ is_released b x

  update-IsSame :
      (a : ℕ) (o : BufferedEvent) (b : EventsBuffer S)
      → o.event ≡ (object b a).event
      → o.released ≡ is_released b a
      → IsSame b (update a o b)
  update-IsSame a o b e r = record {
    incompletes = refl;
    size = length-set b.objects a o;
    event = λ x. field_set (λ p. p.event) b.objects a x o e;
    released = λ x. field_set (λ p. p.released) b.objects a x o r;
  }

  IsSame-trans : (b c d : EventsBuffer S) → IsSame b c → IsSame c d → IsSame b d
  IsSame-trans b c d p q = record {
    incompletes = q.incompletes ∙ p.incompletes;
    size = q.size ∙ p.size;
    event = λ x. q.event x ∙ p.event x;
    released = λ x. q.released x ∙ p.released x;
  }

  pub drop_event-IsSame : (a : ℕ) (err : Err) (b : EventsBuffer S) → IsSame b (drop_event a err b)
  unfolding drop_event
  drop_event-IsSame a err b = update-IsSame a _ b refl refl

  module _ (callback : Callback S) where
    pub process-IsSame :
        (a : ℕ) (parents : List Event) (b : EventsBuffer S)
        → IsSame b (process_complete_event callback a parents b).0
    unfolding process_complete_event
    process-IsSame a parents b =
        let e = (object b a).event in
        let app = (callback.process e b.app).0 in
        let mid = record b { app = app } in
        let same : IsSame b mid = record {
          incompletes = refl;
          size = refl;
          event = λ x. refl;
          released = λ x. refl;
        } in
        elim (Option-cases (call_check callback.check b.app e parents)) [
          | inl c ↦ elim (Option-cases (callback.process e b.app).1) [
            | inl r ↦ rw (process_complete_event, c, r) same
            | inr (err, r) ↦
                let failed = update a (record (object mid a) { err = some (app_error err) }) mid in
                rw (process_complete_event, c, r)
                  (IsSame-trans b mid _ same (
                    IsSame-trans mid failed _ (update-IsSame a _ mid refl refl)
                      (drop_event-IsSame a (app_error err) failed)))
          ]
          | inr (err, c) ↦ rw (process_complete_event, c) (drop_event-IsSame a (app_error err) b)
        ]

    -- The cache and the events are the same, and the event `a`, and no other, is released now.
    pub record IsRelease (a : ℕ) (b c : EventsBuffer S) : Type 0 where
      pub incompletes : c.incompletes ≡ b.incompletes
      pub size : length c.objects ≡ length b.objects
      pub event : (x : ℕ) → (object c x).event ≡ (object b x).event
      pub here : a < length b.objects → is_released c a ≡ true
      pub others : (x : ℕ) → a ≢ x → is_released c x ≡ is_released b x

    pub release_event-IsRelease :
        (a : ℕ) (b : EventsBuffer S) → IsRelease a b (release_event callback a b)
    unfolding release_event
    release_event-IsRelease a b = record {
      incompletes = refl;
      size = length-set b.objects a _;
      event = λ x. field_set (λ p. p.event) b.objects a x _ refl;
      here = λ l. ap (λ (o : BufferedEvent). o.released) (get_or-set_self b.objects a _ nowhere l);
      others =
          λ x n. ap (λ (o : BufferedEvent). o.released) (get_or-set_ne b.objects a x _ nowhere n);
    }

    pub after_same :
        (a : ℕ) (b c : EventsBuffer S) → IsSame b c → IsRelease a b (release_event callback a c)
    after_same a b c s =
        let r = release_event-IsRelease a c in
        record {
          incompletes = r.incompletes ∙ s.incompletes;
          size = r.size ∙ s.size;
          event = λ x. r.event x ∙ s.event x;
          here = λ l. r.here (subst (λ n. a < n) (sym s.size) l);
          others = λ x n. r.others x n ∙ s.released x;
        }

    -- The branch of a known event removes its key and releases the event.
    pub drop_known-IsRelease :
        (recheck : Bool) (a : ℕ) (b : EventsBuffer S)
        → IsRelease a (remove_id (id_of b a) b) (drop_known callback recheck a b)
    drop_known-IsRelease true a b = release_event-IsRelease a (remove_id (id_of b a) b)
    drop_known-IsRelease false a b =
        let mid = remove_id (id_of b a) b in
        after_same a mid (drop_event a already_connected_event mid)
          (drop_event-IsSame a already_connected_event mid)
