-- ===== src/Engine/Add/Cause.antt =====
-- vecfc/forkless_cause.go over the tables of the index: what ForklessCause says about the DAG.
use lachesis_base.Base.{
  All-map, ℕ, zero, suc, ◌+◌, ◌^◌, ◌≤◌, ◌<◌, ◌≡◌, ◌↔◌, inl, inr, refl, sym, ap, subst, ◌∙◌, arith,
  true, false, not, ◌&&◌, ◌||◌, Bool, Option, some, List, [], ◌∷◌, ◌==◌, leb, find, ℕ_discrete,
  Bool-cases, ==_iff, length, get_elem?, get_elem?_lt,
}
use lachesis_base.Dag.{Event}
use lachesis_base.Pos.{Validators, len, quorum}
use lachesis_base.Pos.Counter.{IsWeighted}
use lachesis_base.Vec.{Bytes}
use lachesis_base.Vec.Highest
use lachesis_base.Vec.Highest.{BranchSeq, is_fork}
use lachesis_base.Engine.{BranchesInfo, sees, forkless_cause, at_least_one_fork}
use lachesis_base.Engine.Forkless.{seen_by, weigh, forkless_cause_lem}
use lachesis_base.Engine.Initial.{branches_bounded}
use lachesis_base.Engine.Add.{Tables, forkless_cause_in}
use lachesis_base.Engine.Add.Walk.{Known}
use lachesis_base.Engine.Add.Index.{IsIndex}
use lachesis_base.Engine.Add.Between.{Between, sees_iff}

module _ (get_event : ℕ → Option Event) (vv : Validators) (bi : BranchesInfo) (t : Tables)
    (h : IsIndex get_event vv bi t) where
  module _ (a_id b_id : ℕ) (a b : Bytes) (at_a : find ℕ_discrete a_id t.highest_before ≡ some a)
      (at_b : find ℕ_discrete b_id t.lowest_after ≡ some b) where
    -- The validator with this index has such a branch.
    abbrev pub Causes : ℕ → Type 0
    Causes i =
        (k : ℕ) × (get_elem? bi.branch_id_creator_idxs k ≡ some i)
        × (is_fork (Highest.get a k) ≡ false)
        × Between get_event t a_id b_id k

    seen_by_iff :
        (cs : List ℕ) (k i : ℕ)
        → (seen_by a b cs k i ≡ true)
          ↔ ((j : ℕ) × (get_elem? cs j ≡ some i) × (sees a b (k + j) ≡ true))
    seen_by_iff [] k i = (λ e. absurd (ground (arith, e)), λ (j, e, _). absurd (ground (arith, e)))
    seen_by_iff (c ∷ cs) k i =
        let (to, from) = seen_by_iff cs (k + 1) i in
        (
          λ e. elim (Bool-cases (c == i && sees a b k)) [
            | inl y ↦
                let (p, q) = both (c == i) (sees a b k) y in
                (0, ap some ((==_iff c i).0 p), moved {x = k + 0} {y = k} (omega arith) q)
            | inr n ↦
                let (j, p, q) = to (sym (ap (λ z. z || seen_by a b cs (k + 1) i) n) ∙ e) in
                (suc j, p, moved {x = k + suc j} {y = k + 1 + j} (omega arith) q)
          ],
          λ (j, p, q). here from j p q,
        )
      where
        moved : {x y : ℕ} → x ≡ y → sees a b y ≡ true → sees a b x ≡ true
        moved e q = ap (sees a b) e ∙ q

        both : (x y : Bool) → (x && y) ≡ true → (x ≡ true) × (y ≡ true)
        both true y e = (refl, e)
        both false y e = absurd (ground (arith, e))

        or_true : (x : Bool) → (x || true) ≡ true
        or_true true = refl
        or_true false = refl

        here :
            (((j : ℕ) × (get_elem? cs j ≡ some i) × (sees a b (k + 1 + j) ≡ true))
              → seen_by a b cs (k + 1) i ≡ true)
            → (j : ℕ) → get_elem? (c ∷ cs) j ≡ some i
            → sees a b (k + j) ≡ true
            → ((c == i && sees a b k) || seen_by a b cs (k + 1) i) ≡ true
        here from zero p q =
            let same : c ≡ i = ground (arith, p) in
            rw ((==_iff c i).1 same, moved {x = k} {y = k + 0} (omega arith) q) refl
        here from (suc j) p q =
            rw (from (j, p, moved {x = k + 1 + j} {y = k + suc j} (omega arith) q))
              (or_true (c == i && sees a b k))

    pub Causes-iff :
        len vv ≤ 2 ^ 18 → (i : ℕ) → (seen_by a b bi.branch_id_creator_idxs 0 i ≡ true) ↔ Causes i
    Causes-iff few i =
        let (to, from) = seen_by_iff bi.branch_id_creator_idxs 0 i in
        let bound : (j : ℕ) → get_elem? bi.branch_id_creator_idxs j ≡ some i → 0 + j < 2 ^ 28 =
          λ j p. omega (
            arith,
            get_elem?_lt bi.branch_id_creator_idxs j p,
            branches_bounded _ bi h.branches,
            few,
          ) in
        (
          λ e.
              let (j, p, q) = to e in
              let (f, m) =
                (sees_iff get_event vv bi t h a_id b_id a b at_a at_b (0 + j) (bound j p)).0 q in
              (
                j,
                p,
                subst (λ z. is_fork (Highest.get a z) ≡ false) (omega arith) f,
                subst (Between get_event t a_id b_id) (omega arith) m,
              ),
          λ (j, p, f, m). from (
            j,
            p,
            (sees_iff get_event vv bi t h a_id b_id a b at_a at_b (0 + j) (bound j p)).1 (
              subst (λ z. is_fork (Highest.get a z) ≡ false) (omega arith) f,
              subst (Between get_event t a_id b_id) (omega arith) m,
            ),
          ),
        )

-- From the tables, the answer is that on the stored vectors and branch.
in_tables :
    (vv : Validators) (bi : BranchesInfo) (t : Tables) (a_id b_id k : ℕ) (a b : Bytes)
    → find ℕ_discrete a_id t.highest_before ≡ some a
    → find ℕ_discrete b_id t.event_branch ≡ some k
    → find ℕ_discrete b_id t.lowest_after ≡ some b
    → forkless_cause_in vv bi t a_id b_id ≡ forkless_cause vv bi a b k
unfolding forkless_cause_in forkless_cause
in_tables vv bi t a_id b_id k a b at_a on_b at_b =
    elim (Bool-cases (at_least_one_fork bi (len vv))) [
      | inl y ↦ elim (Bool-cases (is_fork (Highest.get a k))) [
        | inl f ↦ rw (at_a, y, on_b, f) refl
        | inr f ↦ rw (at_a, y, on_b, f, at_b) refl
      ]
      | inr n ↦ rw (at_a, n, at_b) refl
    ]

-- Over the index, ForklessCause of two stored events gives an answer. It is false if A has the mark
-- of a fork on the branch of B, where the index knows of a fork at all. Otherwise it is true exactly
-- if the validators weigh at least the quorum that have a branch on which A has no mark of a fork
-- and observes an event that observes B.
pub forkless_cause_in_lem :
    (get_event : ℕ → Option Event) (vv : Validators) (bi : BranchesInfo) (t : Tables)
    (a_id b_id : ℕ)
    → IsIndex get_event vv bi t
    → len vv ≤ 2 ^ 18
    → IsWeighted vv
    → Known t.lowest_after a_id
    → Known t.lowest_after b_id
    → (a : Bytes) × (b_branch : ℕ) × (seen : ℕ → Bool) × (find ℕ_discrete a_id t.highest_before
        ≡ some a)
      × (find ℕ_discrete b_id t.event_branch ≡ some b_branch)
      × ((i : ℕ)
          → (seen i ≡ true) ↔ (
              (k : ℕ) × (get_elem? bi.branch_id_creator_idxs k ≡ some i)
              × (is_fork (Highest.get a k) ≡ false)
              × Between get_event t a_id b_id k))
      × (forkless_cause_in vv bi t a_id b_id
          ≡ some (
              not (at_least_one_fork bi (len vv) && is_fork (Highest.get a b_branch))
              && leb (quorum vv) (weigh seen 0 vv.cache.weights)))
forkless_cause_in_lem get_event vv bi t a_id b_id h few weighted known_a (b, at_b) =
    let (_, a, _, at_a) = h.whole a_id known_a in
    let (k, _, on_b, _) = h.whole b_id (b, at_b) in
    let creators =
      All-map (λ i. i < len vv) (λ i. i < length vv.cache.weights)
        (λ i l. omega (arith, l, weighted.sized)) bi.branch_id_creator_idxs h.branches.creators in
    (
      a,
      k,
      seen_by a b bi.branch_id_creator_idxs 0,
      at_a,
      on_b,
      Causes-iff get_event vv bi t h a_id b_id a b at_a at_b few,
      in_tables vv bi t a_id b_id k a b at_a on_b at_b
          ∙ forkless_cause_lem vv bi a b k weighted creators,
    )
