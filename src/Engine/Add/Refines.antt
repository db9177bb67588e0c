-- ===== src/Engine/Add/Refines.antt =====
-- vecengine/index.go: what the table LowestAfter stands for in the DAG. For an event and a branch it
-- has the lowest of the events on the branch that observe the event.
use lachesis_base.Base.{
  ℕ, ◌^◌, ◌≤◌, ◌<◌, ◌≡◌, ◌≢◌, ◌⊎◌, inl, inr, refl, sym, ap, subst, ◌∙◌, arith, Option, none, some,
  List, [], ◌∷◌, ◌==◌, if◌then◌else◌, find, put, find-put, ℕ_discrete, if_pos, if_neg, Bool-cases,
  All, In, ==_iff,
}
use lachesis_base.Dag.{Event}
use lachesis_base.Vec.{Bytes}
use lachesis_base.Vec.Lowest
use lachesis_base.Vec.Lowest.{IsVector, new-IsVector, get-new, set-IsVector, get-set}
use lachesis_base.Block.{push_all}
use lachesis_base.Block.Stack.{push_all-In, All-push_all}
use lachesis_base.Block.Trace.{Observes, self, parent, parents_of}
use lachesis_base.Engine.Add.Walk.{After, low, low_of, Known, IsTable, Trace, IsComplete}
use lachesis_base.Engine.Add.Observed.{Observes-cases, Observes-up, All-In, Known-Observes}
use lachesis_base.Engine.Add.Marked.{
  Trace-IsTable, Trace-Known, Trace-kept, Trace-new, IsClosed, Trace-IsClosed, Trace-stack,
}

-- The entry of a stored event for a branch is the lowest sequence number of the events of the branch
-- that observe the event, and 0 if there is none.
pub record IsLowest (get_event : ℕ → Option Event) (t : After) (branch : List (ℕ × ℕ))
    : Type 0 where
  pub table : IsTable t
  pub complete : IsComplete get_event t
  pub stored : (y b : ℕ) → find ℕ_discrete y branch ≡ some b → Known t y × (b < 2 ^ 29)
  pub observed :
      (x b : ℕ)
      → b < 2 ^ 29
      → low t x b ≢ 0
      → (y : ℕ) × (d : Event) × (find ℕ_discrete y branch ≡ some b)
        × (get_event y ≡ some d)
        × Observes get_event y x
        × (low t x b ≡ d.seq)
  pub lowest :
      (x y b : ℕ) (d : Event)
      → find ℕ_discrete y branch ≡ some b
      → get_event y ≡ some d
      → Observes get_event y x
      → (low t x b ≢ 0) × (low t x b ≤ d.seq)

module _ (get_event : ℕ → Option Event) (t t' : After) (branch : List (ℕ × ℕ)) (e : Event)
    (me width : ℕ) (h : IsLowest get_event t branch) (wide : me < 2 ^ 29) (narrow : width < 2 ^ 30)
    (positive : e.seq ≢ 0) (small : e.seq < 2 ^ 32) (here : get_event e.id ≡ some e)
    (new : find ℕ_discrete e.id t ≡ none) (parents : All (λ p. Known t p) e.parents)
    (latest : (y : ℕ) (d : Event)
      → find ℕ_discrete y branch ≡ some me
      → get_event y ≡ some d
      → d.seq ≤ e.seq)
    (walk : Trace get_event me e (push_all e.parents []) t t') where
  abbrev mine : Bytes
  mine = Lowest.init_with_event (Lowest.new width) me e

  abbrev t2 : After
  t2 = put ℕ_discrete e.id mine t'

  abbrev branch2 : List (ℕ × ℕ)
  branch2 = put ℕ_discrete e.id me branch

  unknown : (x : ℕ) → Known t x → e.id ≢ x
  unknown x (b, k) p = absurd (ground (arith, new, ap (λ y. find ℕ_discrete y t) p, k))

  low_self : (x j : ℕ) → j < 2 ^ 29 → e.id ≡ x → low t2 x j ≡ (if me == j then e.seq else 0)
  unfolding Lowest.init_with_event
  low_self x j l p =
      ap (λ o. low_of o j) (find-put ℕ_discrete e.id x mine t' ∙ if_pos (ℕ_discrete e.id x) p _ _)
      ∙ get-set (Lowest.new width) me j e.seq wide l small (new-IsVector width narrow)
      ∙ ap (λ z. if me == j then e.seq else z) (get-new width j narrow l)

  low_here : (x : ℕ) → e.id ≡ x → low t2 x me ≡ e.seq
  low_here x p = low_self x me wide p ∙ ap (λ b. if b then e.seq else 0) ((==_iff me me).1 refl)

  low_other : (x j : ℕ) → e.id ≢ x → low t2 x j ≡ low t' x j
  low_other x j n =
      ap (λ o. low_of o j) (find-put ℕ_discrete e.id x mine t' ∙ if_neg (ℕ_discrete e.id x) n _ _)

  branch_here : (y : ℕ) → e.id ≡ y → find ℕ_discrete y branch2 ≡ some me
  branch_here y p = find-put ℕ_discrete e.id y me branch ∙ if_pos (ℕ_discrete e.id y) p _ _

  branch_other : (y : ℕ) → e.id ≢ y → find ℕ_discrete y branch2 ≡ find ℕ_discrete y branch
  branch_other y n = find-put ℕ_discrete e.id y me branch ∙ if_neg (ℕ_discrete e.id y) n _ _

  abbrev Below : ℕ → Type 0
  Below x = (p : ℕ) × In p e.parents × Observes get_event p x

  -- The walk visits what the event observes but itself, and nothing else.
  visits : (x : ℕ) → low t x me ≡ 0 → (low t' x me ≡ 0) ⊎ ((low t' x me ≡ e.seq) × Below x)
  visits x z =
      Trace-new get_event me e wide positive small Below
        (λ y p d (q, i, o) s j. (q, i, parent y p d o s j)) walk h.table
        (All-push_all Below e.parents [] (λ p i. (p, i, self)) tt) x z

  closed : IsClosed get_event me e wide positive small [] t'
  closed = Trace-IsClosed get_event me e wide positive small walk h.table (λ x p d s o i.
      let (y, f, b, s', ob, _) = h.observed x me wide o in
      inl (h.lowest p y me f b s' (parent x p d ob s i)).0)

  visited : (x : ℕ) → Below x → low t' x me ≢ 0
  visited x (p, i, o) = up o
    where
      up : {x : ℕ} → Observes get_event p x → low t' x me ≢ 0
      up self =
          Trace-stack get_event me e wide positive small walk h.table p
            (push_all-In p e.parents [] (inl i))
      up (parent y q d o s j) = elim (closed y q d s (up o) j) [ inl l ↦ l | inr r ↦ absurd r ]

  Known-Below : (x : ℕ) → Below x → Known t x
  Known-Below x (p, i, o) =
      Known-Observes get_event t h.complete (All-In get_event (Known t) e e parents refl p i) o

  put-Known : (x : ℕ) → Known t x → Known t2 x
  put-Known x k =
      let (b, q) = (Trace-Known get_event me e wide positive small walk h.table x).0 k in
      (b, find-put ℕ_discrete e.id x mine t' ∙ if_neg (ℕ_discrete e.id x) (unknown x k) _ _ ∙ q)

  put-All : (ys : List ℕ) → All (λ p. Known t p) ys → All (λ p. Known t2 p) ys
  put-All [] a = tt
  put-All (y ∷ ys) a = (put-Known y a.0, put-All ys a.1)

  complete2 : IsComplete get_event t2
  complete2 x (b, k) = elim (ℕ_discrete e.id x) [
    | yes p ↦ (e, ap get_event (sym p) ∙ here, put-All e.parents parents)
    | no n ↦
        let was =
          (Trace-Known get_event me e wide positive small walk h.table x).1
            (b, sym (find-put ℕ_discrete e.id x mine t' ∙ if_neg (ℕ_discrete e.id x) n _ _) ∙ k) in
        let (d, s, a) = h.complete x was in (d, s, put-All d.parents a)
  ]

  table2 : IsTable t2
  unfolding Lowest.init_with_event
  table2 x b k = elim (ℕ_discrete e.id x) [
    | yes p ↦
        let same : some mine ≡ some b =
          sym (find-put ℕ_discrete e.id x mine t' ∙ if_pos (ℕ_discrete e.id x) p _ _) ∙ k in
        subst (λ o. elim o [ none ↦ Unit {0} | some c ↦ IsVector c ]) same
          (set-IsVector (Lowest.new width) me e.seq wide (new-IsVector width narrow))
    | no n ↦
        Trace-IsTable get_event me e wide positive small walk h.table x b
          (sym (find-put ℕ_discrete e.id x mine t' ∙ if_neg (ℕ_discrete e.id x) n _ _) ∙ k)
  ]

  stored2 : (y b : ℕ) → find ℕ_discrete y branch2 ≡ some b → Known t2 y × (b < 2 ^ 29)
  stored2 y b k = elim (ℕ_discrete e.id y) [
    | yes p ↦
        let same : some me ≡ some b = sym (branch_here y p) ∙ k in
        (
          (mine, find-put ℕ_discrete e.id y mine t' ∙ if_pos (ℕ_discrete e.id y) p _ _),
          ground (arith, same, wide),
        )
    | no n ↦ let (q, l) = h.stored y b (sym (branch_other y n) ∙ k) in (put-Known y q, l)
  ]

  -- An event that was stored before is a witness still.
  abbrev Seen : After → List (ℕ × ℕ) → ℕ → ℕ → Type 0
  Seen s br x b =
      (y : ℕ) × (d : Event) × (find ℕ_discrete y br ≡ some b)
      × (get_event y ≡ some d)
      × Observes get_event y x
      × (low s x b ≡ d.seq)

  put-Seen : (x b : ℕ) → e.id ≢ x → low t' x b ≡ low t x b → Seen t branch x b → Seen t2 branch2 x b
  put-Seen x b n same (y, d, k, s, o, l) =
      (y, d, branch_other y (unknown y (h.stored y b k).0) ∙ k, s, o, low_other x b n ∙ same ∙ l)

  observed2 : (x b : ℕ) → b < 2 ^ 29 → low t2 x b ≢ 0 → Seen t2 branch2 x b
  observed2 x b l o = elim (ℕ_discrete e.id x) [
    | yes p ↦ elim (Bool-cases (me == b)) [
      | inr q ↦ absurd (o (low_self x b l p ∙ ap (λ z. if z then e.seq else 0) q))
      | inl q ↦ (
        e.id,
        e,
        branch_here e.id refl ∙ ap some ((==_iff me b).0 q),
        here,
        subst (Observes get_event e.id) p self,
        low_self x b l p ∙ ap (λ z. if z then e.seq else 0) q,
      )
    ]
    | no n ↦ elim (ℕ_discrete me b) [
      | no q ↦
          let same = Trace-kept get_event me e wide positive small walk h.table x b l (inr q) in
          put-Seen x b n same (h.observed x b l (λ z. o (low_other x b n ∙ same ∙ z)))
      | yes q ↦ subst (Seen t2 branch2 x) q (on_mine x n (λ z. o (ap (low t2 x) (sym q) ∙ z)))
    ]
  ]
    where
      on_mine : (x : ℕ) → e.id ≢ x → low t2 x me ≢ 0 → Seen t2 branch2 x me
      on_mine x n o = elim (ℕ_discrete (low t x me) 0) [
        | no old ↦
            put-Seen x me n
              (Trace-kept get_event me e wide positive small walk h.table x me wide (inl old))
              (h.observed x me wide old)
        | yes z ↦ elim (visits x z) [
          | inl still ↦ absurd (o (low_other x me n ∙ still))
          | inr (q, (p, i, ob)) ↦ (
            e.id,
            e,
            branch_here e.id refl,
            here,
            Observes-up get_event here i ob,
            low_other x me n ∙ q,
          )
        ]
      ]

  lowest2 :
      (x y b : ℕ) (d : Event)
      → find ℕ_discrete y branch2 ≡ some b
      → get_event y ≡ some d
      → Observes get_event y x
      → (low t2 x b ≢ 0) × (low t2 x b ≤ d.seq)
  lowest2 x y b d k s o = elim (ℕ_discrete e.id y) [
    | yes p ↦
        let same_b : some me ≡ some b = sym (branch_here y p) ∙ k in
        let same_d : some e ≡ some d = sym here ∙ ap get_event p ∙ s in
        subst (λ r. Lows (branch_or r) (seq_or (some d))) same_b
          (subst (λ r. Lows me (seq_or r)) same_d
            (mine_lowest (subst (λ z. Observes get_event z x) (sym p) o)))
    | no n ↦
        let k' = sym (branch_other y n) ∙ k in
        let (q, l) = h.stored y b k' in
        let (pos, le) = h.lowest x y b d k' s o in
        let other = unknown x (Known-Observes get_event t h.complete q o) in
        let same : low t2 x b ≡ low t x b =
          low_other x b other
          ∙ Trace-kept get_event me e wide positive small walk h.table x b l
              (elim (ℕ_discrete me b) [
                | yes z ↦ inl (λ w. pos (ap (low t x) (sym z) ∙ w))
                | no z ↦ inr z
              ]) in
        (λ z. pos (sym same ∙ z), omega (arith, same, le))
  ]
    where
      Lows : ℕ → ℕ → Type 0
      Lows c m = (low t2 x c ≢ 0) × (low t2 x c ≤ m)

      branch_or : Option ℕ → ℕ
      branch_or none = 0
      branch_or (some c) = c

      seq_or : Option Event → ℕ
      seq_or none = 0
      seq_or (some f) = f.seq

      below : Below x → Lows me e.seq
      below under =
          let pos = visited x under in
          let at = low_other x me (unknown x (Known-Below x under)) in
          (
            λ z. pos (sym at ∙ z),
            elim (ℕ_discrete (low t x me) 0) [
              | no old ↦
                  let (y', f, b', s', ob, q) = h.observed x me wide old in
                  omega (
                    arith,
                    at,
                    Trace-kept get_event me e wide positive small walk h.table x me wide (inl old),
                    q,
                    latest y' f b' s',
                  )
              | yes z ↦ elim (visits x z) [
                | inl still ↦ absurd (pos still)
                | inr (q, u) ↦ omega (arith, at, q)
              ]
            ],
          )

      mine_lowest : Observes get_event e.id x → Lows me e.seq
      mine_lowest o = elim (Observes-cases get_event o) [
        | inl p ↦ let at = low_here x (sym p) in (λ z. positive (sym at ∙ z), omega (arith, at))
        | inr (f, q, s', i, ob) ↦
            let one : some f ≡ some e = sym s' ∙ here in
            below (q, subst (In q) (ap (parents_of e) one) i, ob)
      ]

  -- The walk and the vector of a new event keep the table right, if no event of its branch has a
  -- greater sequence number.
  pub walked-IsLowest : IsLowest get_event t2 branch2
  walked-IsLowest = record {
    table = table2;
    complete = complete2;
    stored = stored2;
    observed = observed2;
    lowest = lowest2;
  }
