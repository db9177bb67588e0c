-- ===== src/EventBuffer/Turns.antt =====
-- gossip/dagordering/event_buffer.go, `spillIncompletes`: what both kinds of its turns keep, its loop
-- keeps.
use lachesis_base.Base.{
  ℕ, zero, suc, Bool, Option, none, some, List, Bool-cases, Option-cases, inl, inr,
}
use lachesis_base.Dag.{Event, Metric}
use lachesis_base.Lru.{keys}
use lachesis_base.EventBuffer.{
  Callback, EventsBuffer, spill_oldest, spill_first, spill_step, spill_loop, or_else, is_above,
}
use lachesis_base.EventBuffer.Stable.{Holds, Holds-some}

module _ {S : Type 0} (callback : Callback S) (Q : EventsBuffer S → Type 0)
    (oldest : (b : EventsBuffer S) → Q b → Holds Q (spill_oldest callback b))
    (first : (f : Event → Bool) (ks : List ℕ) (b : EventsBuffer S)
      → Q b
      → Holds Q (spill_first callback f ks b)) where
  or_else-Holds : (o o' : Option (EventsBuffer S)) → Holds Q o → Holds Q o' → Holds Q (or_else o o')
  or_else-Holds none o' h h' = h'
  or_else-Holds (some b) o' h h' = h

  spill_step-Holds : (b : EventsBuffer S) → Q b → Holds Q (spill_step callback b)
  unfolding spill_step
  spill_step-Holds b h = elim (Option-cases callback.is_important) [
    | inl n ↦ rw (spill_step, n) (oldest b h)
    | inr (f, n) ↦
        rw (spill_step, n) (or_else-Holds _ _ (first f (keys b.incompletes) b h) (oldest b h))
  ]

  pub spill_loop-Holds :
      (fuel : ℕ) (limit : Metric) (b : EventsBuffer S)
      → Q b
      → Holds Q (spill_loop callback fuel limit b)
  unfolding spill_loop
  spill_loop-Holds zero limit b h = tt
  spill_loop-Holds (suc fuel) limit b h = elim (Bool-cases (is_above limit b.incompletes)) [
    | inl y ↦ elim (Option-cases (spill_step callback b)) [
      | inl n ↦ rw (y, n) h
      | inr (c, n) ↦
          rw (y, n) (spill_loop-Holds fuel limit c (Holds-some Q _ c (spill_step-Holds b h) n))
    ]
    | inr y ↦ rw y h
  ]
