-- ===== src/EventBuffer/Held.antt =====
-- gossip/dagordering/event_buffer.go: the events that are not released, in the steps of `pushEvent`.
use lachesis_base.Base.{
  ℕ, ◌<◌, ◌≡◌, ◌≢◌, refl, sym, ap, subst, ◌∙◌, arith, Bool, true, false, none, some, List, [], ◌∷◌,
  Option-cases, inl, inr, length, get_or, ite, if_pos, if_neg, ℕ_discrete, All,
}
use lachesis_base.Dag.{Event}
use lachesis_base.Lru.{peek}
use lachesis_base.Lru.Weights.{IsCache}
use lachesis_base.Lru.Access.{remove-peek}
use lachesis_base.EventBuffer.{
  Callback, EventsBuffer, id_of, nowhere, release_event, drop_known, process_complete_event,
  remove_id, peek_all,
}
use lachesis_base.EventBuffer.Stable.{IsStable}
use lachesis_base.EventBuffer.Effects.{
  is_released, process-IsSame, IsRelease, after_same, drop_known-IsRelease,
}

-- `n` events, with the IDs `ids`, of which the buffer may hold those in `slots`, one for a key. The
-- event `top` is in flight.
module _ {S : Type 0} (callback : Callback S) (n top : ℕ) (ids : ℕ → ℕ) (slots : ℕ → ℕ → Type 0)
    (unique : (k a c : ℕ) → slots k a → slots k c → a ≡ c) where
  -- Every other event that is not released is in the buffer.
  pub record IsHeld (b : EventsBuffer S) : Type 0 where
    pub cache : IsCache b.incompletes
    pub size : length b.objects ≡ n
    pub names : (x : ℕ) → id_of b x ≡ ids x
    pub within : (k a : ℕ) → peek k b.incompletes ≡ some a → slots k a
    pub held :
        (x : ℕ) → x < n → top ≢ x → is_released b x ≡ false → peek (ids x) b.incompletes ≡ some x

  abbrev pub Later : EventsBuffer S → EventsBuffer S → Type 0
  Later b c = (x : ℕ) → is_released b x ≡ true → is_released c x ≡ true

  abbrev pub IsSlot : ℕ → Type 0
  IsSlot a = (a < n) × slots (ids a) a

  pub dropped-IsHeld :
      (a : ℕ) (b m c : EventsBuffer S)
      → IsSlot a
      → IsHeld b
      → IsCache m.incompletes
      → ((j : ℕ) → peek j m.incompletes ≡ ite (ℕ_discrete (ids a) j) none (peek j b.incompletes))
      → m.objects ≡ b.objects
      → IsRelease callback a m c
      → IsHeld c × Later b c
  dropped-IsHeld a b m c k h cache rest same r =
      let size = r.size ∙ ap length same ∙ h.size in
      let now : is_released c a ≡ true =
        r.here (subst (λ i. a < i) (sym (ap length same ∙ h.size)) k.0) in
      let was = λ (x : ℕ). ap (λ os. (get_or os x nowhere).released) same in
      (
        record {
          cache = subst (λ i. IsCache i) (sym r.incompletes) cache;
          size = size;
          names = λ x.
              ap (λ (e : Event). e.id) (r.event x)
              ∙ ap (λ os. (get_or os x nowhere).event.id) same
              ∙ h.names x;
          within = λ i x p.
              let p' = sym (ap (peek i) r.incompletes ∙ rest i) ∙ p in
              elim (ℕ_discrete (ids a) i) [
                | yes q ↦ absurd (
                    ground (arith, if_pos (ℕ_discrete (ids a) i) q none (peek i b.incompletes), p'))
                | no q ↦ h.within i x (sym (if_neg (ℕ_discrete (ids a) i) q none _) ∙ p')
              ];
          held = λ x l t u. elim (ℕ_discrete a x) [
            | yes e ↦ absurd (ground (arith, now, ap (is_released c) e, u))
            | no e ↦
                let there = h.held x l t (sym (r.others x e ∙ was x) ∙ u) in
                elim (ℕ_discrete (ids a) (ids x)) [
                  | yes q ↦ absurd (
                      e (
                        unique (ids x) a x (subst (λ i. slots i a) q k.1)
                          (h.within (ids x) x there)))
                  | no q ↦
                      ap (peek (ids x)) r.incompletes
                      ∙ rest (ids x)
                      ∙ if_neg (ℕ_discrete (ids a) (ids x)) q none _
                      ∙ there
                ]
          ];
        },
        λ x p. elim (ℕ_discrete a x) [
          | yes q ↦ ap (is_released c) (sym q) ∙ now
          | no q ↦ r.others x q ∙ was x ∙ p
        ],
      )

  IsRelease-IsHeld :
      (a : ℕ) (b c : EventsBuffer S)
      → a < n
      → IsRelease callback a b c
      → IsHeld b
      → IsHeld c × Later b c × (is_released c a ≡ true)
  IsRelease-IsHeld a b c l r h =
      let now : is_released c a ≡ true = r.here (subst (λ m. a < m) (sym h.size) l) in
      (
        record {
          cache = subst (λ i. IsCache i) (sym r.incompletes) h.cache;
          size = r.size ∙ h.size;
          names = λ x. ap (λ (e : Event). e.id) (r.event x) ∙ h.names x;
          within = λ k x p. h.within k x (ap (peek k) (sym r.incompletes) ∙ p);
          held = λ x m t u. elim (ℕ_discrete a x) [
            | yes q ↦ absurd (ground (arith, now, ap (is_released c) q, u))
            | no q ↦ ap (peek (ids x)) r.incompletes ∙ h.held x m t (sym (r.others x q) ∙ u)
          ];
        },
        λ x p. elim (ℕ_discrete a x) [
          | yes q ↦ ap (is_released c) (sym q) ∙ now
          | no q ↦ r.others x q ∙ p
        ],
        now,
      )

  removed-IsHeld :
      (a : ℕ) (b : EventsBuffer S)
      → IsSlot a
      → is_released b a ≡ true
      → IsHeld b
      → IsHeld (remove_id (ids a) b) × Later b (remove_id (ids a) b)
  removed-IsHeld a b k r h =
      let (same, cache, rest) = remove-peek (ids a) b.incompletes h.cache in
      dropped-IsHeld a b (remove_id (ids a) b) (remove_id (ids a) b) k h cache rest refl (record {
        incompletes = refl;
        size = refl;
        event = λ x. refl;
        here = λ l. r;
        others = λ x e. refl;
      })

  pub known-IsHeld :
      (recheck : Bool) (a : ℕ) (b : EventsBuffer S)
      → IsSlot a
      → IsHeld b
      → IsHeld (drop_known callback recheck a b) × Later b (drop_known callback recheck a b)
  known-IsHeld recheck a b k h =
      let (same, cache, rest) = remove-peek (ids a) b.incompletes h.cache in
      dropped-IsHeld a b (remove_id (ids a) b) (drop_known callback recheck a b) k h cache rest refl
        (subst (λ i. IsRelease callback a (remove_id i b) (drop_known callback recheck a b))
          (h.names a) (drop_known-IsRelease callback recheck a b))

  pub processed-IsHeld :
      (a : ℕ) (parents : List Event) (b : EventsBuffer S)
      → a < n
      → IsHeld b
      → IsHeld (release_event callback a (process_complete_event callback a parents b).0)
        × Later b (release_event callback a (process_complete_event callback a parents b).0)
        × (is_released (release_event callback a (process_complete_event callback a parents b).0) a
            ≡ true)
  processed-IsHeld a parents b l h =
      IsRelease-IsHeld a b _ l (after_same callback a b _ (process-IsSame callback a parents b)) h

  pub stable : IsStable callback IsHeld Later IsSlot
  stable = record {
    here = λ b x p. p;
    later = λ b c d p q x r. q x (p x r);
    known = λ recheck a b k h e. known-IsHeld recheck a b k h;
    processed =
        λ a parents b k h e p. let (h', r, now) = processed-IsHeld a parents b k.0 h in (h', r);
    removed = λ a parents b c k hb r hc.
        let (h', r', now) = processed-IsHeld a parents b k.0 hb in
        subst (λ i. IsHeld (remove_id i c) × Later c (remove_id i c)) (sym (hb.names a))
          (removed-IsHeld a c k (r a now) hc);
  }

  -- The events that the buffer lists.
  pub list_IsSlot :
      (b : EventsBuffer S) (ks : List ℕ)
      → IsHeld b
      → ((k a : ℕ) → slots k a → IsSlot a)
      → All IsSlot (peek_all b.incompletes ks)
  unfolding peek_all
  list_IsSlot b [] h s = tt
  list_IsSlot b (k ∷ ks) h s = elim (Option-cases (peek k b.incompletes)) [
    | inl e ↦ rw (peek_all, e) (list_IsSlot b ks h s)
    | inr (a, e) ↦ rw (peek_all, e) (s k a (h.within k a e), list_IsSlot b ks h s)
  ]
