-- ===== src/EventBuffer/Safety.antt =====
-- What the buffer (gossip/dagordering/event_buffer.go) asks of the application.
use lachesis_base.Base.{ℕ, ◌≡◌, Bool, false, none, some, List, Option-cases, inl, inr}
use lachesis_base.Dag.{Event}
use lachesis_base.EventBuffer.{
  BufferedEvent, Callback, EventsBuffer, object, drop_event, call_released, release_event,
  complete_event_parents, call_check, process_complete_event, push_event,
}
use lachesis_base.EventBuffer.Stable.{Holds-some}
use lachesis_base.EventBuffer.Kept.{AreKept, push_event_kept}

module _ {S : Type 0} (callback : Callback S) where
  -- A property of the application that it keeps when it is told of a released event, and when it
  -- processes an event whose parents it has, which it does not have yet and which passes the check.
  pub record IsKept (P : S → Type 0) : Type 0 where
    pub released : (o : BufferedEvent) (app : S) → P app → P (call_released callback.released o app)
    pub processed :
        (e : Event) (parents : List Event) (app : S)
        → P app
        → callback.exists app e.id ≡ false
        → complete_event_parents callback app e.parents ≡ some parents
        → call_check callback.check app e parents ≡ none
        → P (callback.process e app).0

  module _ (P : S → Type 0) (kept : IsKept P) where
    process_complete_event_kept :
        (a : ℕ) (parents : List Event) (buf : EventsBuffer S)
        → P buf.app
        → callback.exists buf.app (object buf a).event.id ≡ false
        → complete_event_parents callback buf.app (object buf a).event.parents ≡ some parents
        → P (process_complete_event callback a parents buf).0.app
    unfolding process_complete_event drop_event
    process_complete_event_kept a parents buf h new known =
        let e = (object buf a).event in
        elim (Option-cases (call_check callback.check buf.app e parents)) [
          | inl c ↦ elim (Option-cases (callback.process e buf.app).1) [
            | inl r ↦
                rw (process_complete_event, c, r) (kept.processed e parents buf.app h new known c)
            | inr (err, r) ↦
                rw (process_complete_event, c, r) (kept.processed e parents buf.app h new known c)
          ]
          | inr (err, c) ↦ rw (process_complete_event, c) h
        ]

    steps_kept : AreKept callback (λ b. P b.app)
    unfolding release_event drop_event
    steps_kept = record {
      dropped = λ a err b h. h;
      released = λ a b h. kept.released (object b a) b.app h;
      cached = λ c b h. h;
      processed = process_complete_event_kept;
    }

-- Whatever the application keeps when it is told of released events, and when it processes events
-- whose parents it has, which it does not have and which pass the check, it keeps when an event is
-- pushed: the buffer asks it to process no other events, in no other state.
pub push_event_lem :
    {S : Type 0} (callback : Callback S) (P : S → Type 0) (fuel : ℕ) (de : Event) (peer : ℕ)
    (b b' : EventsBuffer S) (complete : Bool)
    → IsKept callback P
    → push_event callback fuel de peer b ≡ some (b', complete)
    → P b.app
    → P b'.app
push_event_lem callback P fuel de peer b b' complete kept e h =
    Holds-some (λ r. P r.0.app) _ (b', complete)
      (push_event_kept callback (λ c. P c.app) (steps_kept callback P kept) fuel de peer b h) e
