-- ===== src/EventBuffer/Spill.antt =====
-- gossip/dagordering/event_buffer.go, `spillIncompletes`: what it leaves and what it evicts.
use lachesis_base.Base.{
  ℕ, zero, suc, ◌^◌, ◌≤◌, ◌<◌, ◌≡◌, ◌≢◌, ◌⊎◌, refl, sym, ap, subst, ◌∙◌, arith, Bool, true, false,
  none, some, List, [], ◌∷◌, Bool-cases, inl, inr, length, if_pos, if_neg, ℕ_discrete,
}
use lachesis_base.Dag.{Event, Metric}
use lachesis_base.Lru.{Entry, Cache, peek}
use lachesis_base.Lru.Weights.{IsCache, weights}
use lachesis_base.EventBuffer.{Callback, EventsBuffer, spill_loop, is_above, spill_incompletes}
use lachesis_base.EventBuffer.Evict.{event_at, IsTurn, AllImportant, spill_step_lem}

module _ {S : Type 0} (callback : Callback S) where
  -- What a spill leaves: events of before, and, as long as one that is not important is left, all
  -- that are important.
  pub record IsSpilled (b b' : EventsBuffer S) : Type 0 where
    pub fewer : (k a : ℕ) → peek k b'.incompletes ≡ some a → peek k b.incompletes ≡ some a
    pub events : (x : ℕ) → event_at callback b' x ≡ event_at callback b x
    pub spared :
        (f : Event → Bool)
        → callback.is_important ≡ some f
        → (k a : ℕ) → peek k b.incompletes ≡ some a
        → f (event_at callback b a) ≡ true
        → (j c : ℕ) → peek j b'.incompletes ≡ some c
        → f (event_at callback b c) ≡ false
        → peek k b'.incompletes ≡ some a

  Turn-fewer :
      (b b' : EventsBuffer S) (t : IsTurn callback b b') (k a : ℕ)
      → peek k b'.incompletes ≡ some a
      → (t.key ≢ k) × (peek k b.incompletes ≡ some a)
  Turn-fewer b b' t k a p = elim (ℕ_discrete t.key k) [
    | yes q ↦ absurd (ground (arith, t.removes.rest k ∙ if_pos (ℕ_discrete t.key k) q none _, p))
    | no n ↦ (n, sym (t.removes.rest k ∙ if_neg (ℕ_discrete t.key k) n none _) ∙ p)
  ]

  IsSpilled-turn :
      (b m b' : EventsBuffer S) (t : IsTurn callback b m)
      → ((f : Event → Bool)
          → callback.is_important ≡ some f
          → f (event_at callback b t.value) ≡ false)
        ⊎ AllImportant callback b
      → IsSpilled m b'
      → IsSpilled b b'
  IsSpilled-turn b m b' t choice s = record {
    fewer = λ k a p. (Turn-fewer b m t k a (s.fewer k a p)).1;
    events = λ x. s.events x ∙ t.events x;
    spared = λ f q k a p i j c r u. elim choice [
      | inl plain ↦
          let other : t.key ≢ k = λ e.
            let one : some t.value ≡ some a = sym t.found ∙ ap (λ z. peek z b.incompletes) e ∙ p in
            let same : a ≡ t.value = ground (arith, one) in
            absurd
              (ground (arith, plain f q, subst (λ z. f (event_at callback b z) ≡ true) same i)) in
          s.spared f q k a (t.removes.rest k ∙ if_neg (ℕ_discrete t.key k) other none _ ∙ p)
            (ap f (t.events a) ∙ i) j c r (ap f (t.events c) ∙ u)
      | inr all ↦ absurd (ground (arith, u, all f q j c ((Turn-fewer b m t j c (s.fewer j c r)).1)))
    ];
  }

  above_left :
      (limit : Metric) (c : Cache ℕ) → IsCache c → is_above limit c ≡ true → 0 < length c.entries
  above_left limit c h y = from c.entries refl
    where
      from : (l : List (ℕ × Entry ℕ)) → c.entries ≡ l → 0 < length c.entries
      from [] e = absurd (ground (arith, y, ap length e, ap (λ es. weights es) e, h.weighed))
      from (x ∷ l) e = omega (arith, ap length e)

  spill_loop_lem :
      (fuel : ℕ) (limit : Metric) (b : EventsBuffer S)
      → IsCache b.incompletes
      → length b.incompletes.entries < fuel
      → length b.incompletes.entries < 2 ^ 32
      → (b' : EventsBuffer S) × (spill_loop callback fuel limit b ≡ some b')
        × (length b'.incompletes.entries ≤ limit.num)
        × (b'.incompletes.weight ≤ limit.size)
        × IsCache b'.incompletes
        × IsSpilled b b'
  unfolding spill_loop
  spill_loop_lem zero limit b h l w = absurd (omega (arith, l))
  spill_loop_lem (suc fuel) limit b h l w = elim (Bool-cases (is_above limit b.incompletes)) [
    | inl y ↦
        let some_left : 0 < length b.incompletes.entries = above_left limit b.incompletes h y in
        let (m, e, (t, choice)) = spill_step_lem callback b h some_left in
        let (b', r, num, size, cache, s) =
          spill_loop_lem fuel limit m t.removes.cache (omega (arith, l, t.removes.shorter))
            (omega (arith, w, t.removes.shorter)) in
        (b', rw (y, e) r, num, size, cache, IsSpilled-turn b m b' t choice s)
    | inr n ↦ (
      b,
      rw n refl,
      ground (arith, n, w),
      ground (arith, n, w),
      h,
      record { fewer = λ k a p. p; events = λ x. refl; spared = λ f q k a p i j c r u. p },
    )
  ]

  -- A spill ends, whatever the limits, within the number and the size that they allow, and keeps the
  -- cache exact. It only takes events out, and while one that is not important is left, no
  -- important one is taken.
  pub spill_incompletes_lem :
      (limit : Metric) (b : EventsBuffer S)
      → IsCache b.incompletes
      → length b.incompletes.entries < 2 ^ 32
      → (b' : EventsBuffer S) × (spill_incompletes callback limit b ≡ some b')
        × (length b'.incompletes.entries ≤ limit.num)
        × (b'.incompletes.weight ≤ limit.size)
        × IsCache b'.incompletes
        × IsSpilled b b'
  spill_incompletes_lem limit b h w =
      spill_loop_lem (suc (length b.incompletes.entries)) limit b h (omega arith) w
