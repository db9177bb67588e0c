-- ===== src/EventBuffer/Rechecks.antt =====
-- gossip/dagordering/event_buffer.go: the nested calls of `pushEvent` end. Each of them has connected
-- an event that the application did not have.
use lachesis_base.Base.{
  ℕ, zero, suc, ◌+◌, ◌≤◌, ◌<◌, ◌≡◌, refl, sym, ap, ◌∙◌, arith, Bool, true, false, Option, none,
  some, List, [], ◌∷◌, Bool-cases, Option-cases, if◌then◌else◌, ◌>>=◌, inl, inr, length, In, All,
}
use lachesis_base.Dag.{Event}
use lachesis_base.EventBuffer.{
  BufferedEvent, Callback, EventsBuffer, object, id_of, release_event, drop_known, call_released,
  has_parent, process_complete_event, remove_id, push_object, complete_event_parents, call_check,
  connect, recheck_children, list_or, get_incomplete_events_list, drop_event,
}
use lachesis_base.EventBuffer.Effects.{process-IsSame, after_same, drop_known-IsRelease}

module _ {S : Type 0} (callback : Callback S) where
  pub push_connects :
      (fuel : ℕ) (list : Option (List ℕ)) (recheck : Bool) (a : ℕ) (parents : List Event)
      (b : EventsBuffer S)
      → callback.exists b.app (id_of b a) ≡ false
      → complete_event_parents callback b.app (object b a).event.parents ≡ some parents
      → push_object callback (suc fuel) list recheck a b
        ≡ connect callback
            (λ l child d. push_object callback fuel (some l) true child d >>= λ q. some q.0)
            list
            a
            parents
            b
  unfolding push_object
  push_connects fuel list recheck a parents b y c = rw (y, c) refl

  -- The application goes on having an event, and has an event that it has processed.
  pub record IsMemory : Type 0 where
    pub told :
        (o : BufferedEvent) (app : S) (x : ℕ)
        → callback.exists app x ≡ true
        → callback.exists (call_released callback.released o app) x ≡ true
    pub goes_on :
        (e : Event) (app : S) (x : ℕ)
        → callback.exists app x ≡ true
        → callback.exists (callback.process e app).0 x ≡ true
    pub learns :
        (e : Event) (app : S)
        → (callback.process e app).1 ≡ none
        → callback.exists (callback.process e app).0 e.id ≡ true

  module _ (memory : IsMemory) (ids : ℕ → ℕ) where
    -- The listed events that the application does not have.
    abbrev pub missing : S → List ℕ → ℕ
    missing app [] = 0
    missing app (a ∷ l) = (if callback.exists app (ids a) then 0 else 1) + missing app l

    abbrev Knows : S → S → Type 0
    Knows app app' = (x : ℕ) → callback.exists app x ≡ true → callback.exists app' x ≡ true

    missing_le : (app app' : S) (l : List ℕ) → Knows app app' → missing app' l ≤ missing app l
    missing_le app app' [] k = omega arith
    missing_le app app' (a ∷ l) k = elim (Bool-cases (callback.exists app (ids a))) [
      | inl y ↦ rw (y, k (ids a) y) (omega (arith, missing_le app app' l k))
      | inr n ↦ ground (arith, missing_le app app' l k, n)
    ]

    missing_lt :
        (app app' : S) (a : ℕ) (l : List ℕ)
        → Knows app app'
        → In a l
        → callback.exists app (ids a) ≡ false
        → callback.exists app' (ids a) ≡ true
        → missing app' l < missing app l
    missing_lt app app' a [] k i n y = elim i [ ]
    missing_lt app app' a (c ∷ l) k (inl e) n y =
        rw
          (
            ap (λ z. callback.exists app (ids z)) (sym e) ∙ n,
            ap (λ z. callback.exists app' (ids z)) (sym e) ∙ y,
          )
          (omega (arith, missing_le app app' l k))
    missing_lt app app' a (c ∷ l) k (inr i) n y =
        let rest = missing_lt app app' a l k i n y in
        elim (Bool-cases (callback.exists app (ids c))) [
          | inl z ↦ rw (z, k (ids c) z) (omega (arith, rest))
          | inr z ↦ ground (arith, rest, z)
        ]

    process_lem :
        (a : ℕ) (parents : List Event) (b : EventsBuffer S)
        → Knows b.app (process_complete_event callback a parents b).0.app
          × ((process_complete_event callback a parents b).1 ≡ true
              → callback.exists (process_complete_event callback a parents b).0.app (id_of b a)
                ≡ true)
    unfolding process_complete_event drop_event
    process_lem a parents b =
        let e = (object b a).event in
        elim (Option-cases (call_check callback.check b.app e parents)) [
          | inl c ↦ elim (Option-cases (callback.process e b.app).1) [
            | inl r ↦
                rw (process_complete_event, c, r)
                  (memory.goes_on e b.app, λ t. memory.learns e b.app r)
            | inr (err, r) ↦
                rw (process_complete_event, c, r)
                  (memory.goes_on e b.app, λ t. absurd (ground (arith, t)))
          ]
          | inr (err, c) ↦
              rw (process_complete_event, c) (λ x y. y, λ t. absurd (ground (arith, t)))
        ]

    release-Knows : (a : ℕ) (b : EventsBuffer S) → Knows b.app (release_event callback a b).app
    unfolding release_event
    release-Knows a b x y = memory.told (object b a) b.app x y

    known-Knows :
        (recheck : Bool) (a : ℕ) (b : EventsBuffer S)
        → Knows b.app (drop_known callback recheck a b).app
    unfolding drop_event release_event
    known-Knows true a b x y = memory.told _ b.app x y
    known-Knows false a b x y = memory.told _ b.app x y

    module _ (l : List ℕ) where
      unfoldable pub IsAt : ℕ → EventsBuffer S → Type 0
      IsAt m b = (missing b.app l ≤ m) × ((x : ℕ) → id_of b x ≡ ids x)

      abbrev Ends : ℕ → Option (EventsBuffer S) → Type 0
      Ends m o = (b : EventsBuffer S) × (o ≡ some b) × IsAt m b

      recheck-Ends :
          (push : ℕ → EventsBuffer S → Option (EventsBuffer S)) (hash m : ℕ) (cs : List ℕ)
          (b : EventsBuffer S)
          → ((a : ℕ) (c : EventsBuffer S) → In a l → IsAt m c → Ends m (push a c))
          → All (λ a. In a l) cs
          → IsAt m b
          → Ends m (recheck_children push hash cs b)
      unfolding recheck_children
      recheck-Ends push hash m [] b k a h = (b, refl, h)
      recheck-Ends push hash m (c ∷ cs) b k a h =
          elim (Bool-cases (has_parent hash (object b c).event.parents)) [
            | inl y ↦
                let (d, e, h') = k c b a.0 h in
                let (r, e', h'') = recheck-Ends push hash m cs d k a.1 h' in (r, rw (y, e) e', h'')
            | inr n ↦ let (r, e', h'') = recheck-Ends push hash m cs b k a.1 h in (r, rw n e', h'')
          ]

      lower : (m k : ℕ) (o : Option (EventsBuffer S)) → m ≤ k → Ends m o → Ends k o
      unfolding IsAt
      lower m k o le (b, e, (n, same)) = (b, e, (omega (arith, le, n), same))

      known_IsAt :
          (recheck : Bool) (a m : ℕ) (b : EventsBuffer S)
          → IsAt m b
          → IsAt m (drop_known callback recheck a b)
      unfolding IsAt
      known_IsAt recheck a m b (n, same) =
          let r = drop_known-IsRelease callback recheck a b in
          (
            omega (arith, missing_le b.app _ l (known-Knows recheck a b), n),
            λ x. ap (λ (e : Event). e.id) (r.event x) ∙ same x,
          )

      abbrev connected : ℕ → List Event → EventsBuffer S → EventsBuffer S
      connected a parents b =
          release_event callback a (process_complete_event callback a parents b).0

      connected-Knows :
          (a : ℕ) (parents : List Event) (b : EventsBuffer S)
          → Knows b.app (connected a parents b).app
      connected-Knows a parents b x y = release-Knows a _ x ((process_lem a parents b).0 x y)

      pub connect-Ends :
          (push : List ℕ → ℕ → EventsBuffer S → Option (EventsBuffer S)) (list : Option (List ℕ))
          (a m : ℕ) (parents : List Event) (b : EventsBuffer S)
          → list_or list (get_incomplete_events_list (connected a parents b)) ≡ l
          → IsAt m b
          → ((process_complete_event callback a parents b).1 ≡ true
              → (c : ℕ) (d : EventsBuffer S) → In c l
              → IsAt (missing (connected a parents b).app l) d
              → Ends (missing (connected a parents b).app l) (push l c d))
          → All (λ c. In c l) l
          → (r : EventsBuffer S × Bool) × (connect callback push list a parents b ≡ some r)
            × IsAt m r.0
      unfolding connect IsAt
      connect-Ends push list a m parents b is (n, same) ih all =
          let b1 = connected a parents b in
          let le = missing_le b.app b1.app l (connected-Knows a parents b) in
          let rel = after_same callback a b _ (process-IsSame callback a parents b) in
          let same1 : (x : ℕ) → id_of b1 x ≡ ids x =
            λ x. ap (λ (e : Event). e.id) (rel.event x) ∙ same x in
          elim (Bool-cases (process_complete_event callback a parents b).1) [
            | inl y ↦
                let (d, e, (n', same')) =
                  recheck-Ends (push l) (id_of b a) (missing b1.app l) l b1 (ih y) all
                    (omega arith, same1) in
                (
                  (remove_id (id_of b a) d, true),
                  rw (y, is, e) refl,
                  (omega (arith, n', le, n), same'),
                )
            | inr y ↦ ((remove_id (id_of b a) b1, false), rw y refl, (omega (arith, le, n), same1))
          ]

      pub push_ends :
          (fuel a m : ℕ) (b : EventsBuffer S)
          → In a l
          → All (λ c. In c l) l
          → IsAt m b
          → m < fuel
          → (r : EventsBuffer S × Bool) × (push_object callback fuel (some l) true a b ≡ some r)
            × IsAt m r.0
      unfolding push_object IsAt
      push_ends zero a m b i all at lt = absurd (omega (arith, lt))
      push_ends (suc fuel) a m b i all at lt =
          elim (Bool-cases (callback.exists b.app (id_of b a))) [
            | inl y ↦ ((drop_known callback true a b, false), rw y refl, known_IsAt true a m b at)
            | inr y ↦
                elim (Option-cases
                  (complete_event_parents callback b.app (object b a).event.parents)) [
                    | inl c ↦ ((b, false), rw (y, c) refl, at)
                    | inr (parents, c) ↦
                        let (r, e, at') =
                          connect-Ends
                            (λ k child d.
                              push_object callback fuel (some k) true child d >>= λ q. some q.0)
                            (some l) a m parents b refl at
                            (λ ok child d j at1.
                              let less =
                                missing_lt b.app (connected a parents b).app a l
                                  (connected-Knows a parents b) i
                                  (ap (callback.exists b.app) (sym (at.1 a)) ∙ y)
                                  (ap (callback.exists (connected a parents b).app) (sym (at.1 a))
                                    ∙ release-Knows a
                                        (process_complete_event callback a parents b).0 (id_of b a)
                                        ((process_lem a parents b).1 ok)) in
                              let (q, e, at2) =
                                push_ends fuel child (missing (connected a parents b).app l) d j all
                                  at1 (omega (arith, less, at.0, lt)) in
                              (q.0, rw e refl, at2))
                            all in
                        (r, push_connects fuel (some l) true a parents b y c ∙ e, at')
                  ]
          ]

    pub missing-length : (app : S) (l : List ℕ) → missing app l ≤ length l
    missing-length app [] = omega arith
    missing-length app (a ∷ l) = ground (arith, missing-length app l)

pub All-In : (l : List ℕ) → All (λ c. In c l) l
All-In l = each l (λ c i. i)
  where
    each : (cs : List ℕ) → ((c : ℕ) → In c cs → In c l) → All (λ c. In c l) cs
    each [] f = tt
    each (c ∷ cs) f = (f c (inl refl), each cs (λ d i. f d (inr i)))
