-- ===== src/EventBuffer/Stable.antt =====
-- gossip/dagordering/event_buffer.go, `pushEvent`: what all its steps keep, the walk over the
-- children of a connected event keeps.
use lachesis_base.Base.{
  ℕ, zero, suc, ◌≡◌, subst, Bool, true, false, Option, none, some, List, [], ◌∷◌, Bool-cases,
  Option-cases, All, ◌>>=◌, inl, inr,
}
use lachesis_base.Dag.{Event}
use lachesis_base.EventBuffer.{
  Callback, EventsBuffer, object, id_of, release_event, complete_event_parents,
  process_complete_event, recheck_children, push_object, has_parent, connect, remove_id, drop_known,
  list_or, get_incomplete_events_list,
}

module _ {ℓ} {A : Type 0} where
  -- The result, if there is one, has the property.
  abbrev pub Holds : (A → Type ℓ) → Option A → Type ℓ
  Holds P none = Unit
  Holds P (some a) = P a

pub Holds-some {ℓ} :
    {A : Type 0} (P : A → Type ℓ) (o : Option A) (a : A) → Holds P o → o ≡ some a → P a
Holds-some P o a h e = subst (Holds P) e h

pub Holds-bind {ℓ κ} :
    {A B : Type 0} (P : A → Type ℓ) (R : B → Type κ) (o : Option A) (f : A → Option B)
    → Holds P o
    → ((a : A) → P a → Holds R (f a))
    → Holds R (o >>= f)
Holds-bind P R none f h k = tt
Holds-bind P R (some a) f h k = k a h

pub Holds-map {ℓ κ} :
    {A : Type 0} (P : A → Type ℓ) (R : A → Type κ) (o : Option A)
    → ((a : A) → P a → R a)
    → Holds P o
    → Holds R o
Holds-map P R none k h = tt
Holds-map P R (some a) k h = k a h

module _ {S : Type 0} (callback : Callback S) where
  module _ (Q : EventsBuffer S → Type 0) (R : EventsBuffer S → EventsBuffer S → Type 0)
      (K : ℕ → Type 0) where
    -- A property of buffers and a relation between earlier and later ones that the steps of
    -- `pushEvent` keep, for the events that `K` allows.
    pub record IsStable : Type 0 where
      pub here : (b : EventsBuffer S) → R b b
      pub later : (b c d : EventsBuffer S) → R b c → R c d → R b d
      pub known :
          (recheck : Bool) (a : ℕ) (b : EventsBuffer S)
          → K a
          → Q b
          → callback.exists b.app (id_of b a) ≡ true
          → Q (drop_known callback recheck a b) × R b (drop_known callback recheck a b)
      pub processed :
          (a : ℕ) (parents : List Event) (b : EventsBuffer S)
          → K a
          → Q b
          → callback.exists b.app (id_of b a) ≡ false
          → complete_event_parents callback b.app (object b a).event.parents ≡ some parents
          → Q (release_event callback a (process_complete_event callback a parents b).0)
            × R b (release_event callback a (process_complete_event callback a parents b).0)
      pub removed :
          (a : ℕ) (parents : List Event) (b c : EventsBuffer S)
          → K a
          → Q b
          → R (release_event callback a (process_complete_event callback a parents b).0) c
          → Q c
          → Q (remove_id (id_of b a) c) × R c (remove_id (id_of b a) c)

    module _ (stable : IsStable) where
      abbrev Kept : EventsBuffer S → EventsBuffer S → Type 0
      Kept b c = Q c × R b c

      -- What `push` has to keep on the children.
      abbrev pub Keeps : (ℕ → EventsBuffer S → Option (EventsBuffer S)) → Type 0
      Keeps push = (a : ℕ) (b : EventsBuffer S) → K a → Q b → Holds (Kept b) (push a b)

      Kept-later :
          (b c : EventsBuffer S) (o : Option (EventsBuffer S))
          → R b c
          → Holds (Kept c) o
          → Holds (Kept b) o
      Kept-later b c none r h = tt
      Kept-later b c (some d) r (q, r') = (q, stable.later b c d r r')

      recheck_children_lem :
          (push : ℕ → EventsBuffer S → Option (EventsBuffer S)) (hash : ℕ) (l : List ℕ)
          (b : EventsBuffer S)
          → Keeps push
          → All K l
          → Q b
          → Holds (Kept b) (recheck_children push hash l b)
      unfolding recheck_children
      recheck_children_lem push hash [] b k a q = (q, stable.here b)
      recheck_children_lem push hash (c ∷ l) b k a q =
          elim (Bool-cases (has_parent hash (object b c).event.parents)) [
            | inl y ↦ rw y (
                Holds-bind (Kept b) (Kept b) (push c b) (λ d. recheck_children push hash l d)
                  (k c b a.0 q)
                  (λ d p. Kept-later b d _ p.1 (recheck_children_lem push hash l d k a.1 p.0)))
            | inr n ↦ rw n (recheck_children_lem push hash l b k a.1 q)
          ]

      pub connect_lem :
          (push : List ℕ → ℕ → EventsBuffer S → Option (EventsBuffer S)) (list : Option (List ℕ))
          (a : ℕ) (parents : List Event) (b : EventsBuffer S)
          → ((l : List ℕ) → All K l → Keeps (push l))
          → All K (
              list_or list (
                get_incomplete_events_list
                  (release_event callback a (process_complete_event callback a parents b).0)))
          → K a
          → Q b
          → callback.exists b.app (id_of b a) ≡ false
          → complete_event_parents callback b.app (object b a).event.parents ≡ some parents
          → Holds
              (λ r.
                Kept b r.0
                × R (release_event callback a (process_complete_event callback a parents b).0) r.0)
              (connect callback push list a parents b)
      unfolding connect
      connect_lem push list a parents b keeps all k q new known =
          let (q1, r1) = stable.processed a parents b k q new known in
          let b1 = release_event callback a (process_complete_event callback a parents b).0 in
          let l = list_or list (get_incomplete_events_list b1) in
          elim (Bool-cases (process_complete_event callback a parents b).1) [
            | inl y ↦ rw y (
                Holds-bind (Kept b1) (λ r. Kept b r.0 × R b1 r.0)
                  (recheck_children (push l) (id_of b a) l b1) _
                  (recheck_children_lem (push l) (id_of b a) l b1 (keeps l all) all q1)
                  (λ c p.
                    let (q2, r2) = stable.removed a parents b c k q p.1 p.0 in
                    let r3 = stable.later b1 c _ p.1 r2 in ((q2, stable.later b b1 _ r1 r3), r3)))
            | inr n ↦ rw n (
                let (q2, r2) = stable.removed a parents b b1 k q (stable.here b1) q1 in
                ((q2, stable.later b b1 _ r1 r2), r2))
          ]

      -- The recheck of a child keeps what `pushEvent` keeps.
      pub push_child_lem :
          (fuel : ℕ)
          → ((l : List ℕ) (a : ℕ) (b : EventsBuffer S)
              → All K l
              → K a
              → Q b
              → Holds (λ r. Kept b r.0) (push_object callback fuel (some l) true a b))
          → (l : List ℕ) → All K l
          → Keeps (λ child b. push_object callback fuel (some l) true child b >>= λ r. some r.0)
      push_child_lem fuel ih l all a b k q =
          Holds-bind (λ r. Kept b r.0) (Kept b) (push_object callback fuel (some l) true a b)
            (λ r. some r.0) (ih l a b all k q) (λ r p. p)

      pub push_object_lem :
          (fuel : ℕ) (l : List ℕ) (a : ℕ) (b : EventsBuffer S)
          → All K l
          → K a
          → Q b
          → Holds (λ r. Kept b r.0) (push_object callback fuel (some l) true a b)
      unfolding push_object
      push_object_lem zero l a b all k q = tt
      push_object_lem (suc fuel) l a b all k q =
          elim (Bool-cases (callback.exists b.app (id_of b a))) [
            | inl y ↦ rw y (stable.known true a b k q y)
            | inr n ↦
                elim (Option-cases
                  (complete_event_parents callback b.app (object b a).event.parents)) [
                    | inl c ↦ rw (n, c) (q, stable.here b)
                    | inr (parents, c) ↦
                        rw (n, c)
                          (Holds-map
                            (λ r.
                              Kept b r.0
                              × R
                                  (release_event callback a
                                    (process_complete_event callback a parents b).0)
                                  r.0)
                            (λ r. Kept b r.0) _ (λ r p. p.0)
                            (connect_lem _ (some l) a parents b
                              (push_child_lem fuel (push_object_lem fuel)) all k q n c))
                  ]
          ]
