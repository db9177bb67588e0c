-- ===== src/Engine/Forkless.antt =====
-- ForklessCause (vecfc/forkless_cause.go) against its description: the validators with a branch on
-- which A observes an event that observes B weigh at least a quorum.
use lachesis_base.Base.{
  ℕ, suc, ◌+◌, ◌<◌, ◌≡◌, inl, inr, refl, ap, ◌∙◌, arith, List, [], ◌∷◌, length, get_or, set, leb,
  ◌==◌, true, false, Bool, if◌then◌else◌, Bool-cases, ◌&&◌, ◌||◌, not, All, some, get_or-set_self,
  get_or-set_ne, get_or-replicate,
}
use lachesis_base.Pos.{Validators, WeightCounter, new_counter, has_quorum, quorum, len}
use lachesis_base.Pos.Counter.{
  marked_sum, IsWeighted, IsCounter, count_by_idx_lem, new_counter-IsCounter,
}
use lachesis_base.Vec.{Bytes}
use lachesis_base.Vec.Highest
use lachesis_base.Vec.Highest.{is_fork}
use lachesis_base.Engine.{BranchesInfo, sees, count_branches, forkless_cause, at_least_one_fork}

-- Is there a branch of validator `i` on which A sees B? The list holds the creators from `branch`.
abbrev pub seen_by : Bytes → Bytes → List ℕ → ℕ → ℕ → Bool
seen_by a b [] branch i = false
seen_by a b (creator ∷ creators) branch i =
    (creator == i && sees a b branch) || seen_by a b creators (branch + 1) i

-- The weight of the validators that pass a test, from index `i` on.
abbrev pub weigh : (ℕ → Bool) → ℕ → List ℕ → ℕ
weigh p i [] = 0
weigh p i (w ∷ ws) = (if p i then w else 0) + weigh p (suc i) ws

marked_sum-weigh :
    (p : ℕ → Bool) (i : ℕ) (ms : List Bool) (ws : List ℕ)
    → length ms ≡ length ws
    → ((k : ℕ) → k < length ms → get_or ms k false ≡ p (i + k))
    → marked_sum ms ws ≡ weigh p i ws
unfolding marked_sum
marked_sum-weigh p i [] [] e h = refl
marked_sum-weigh p i [] (w ∷ ws) e h = absurd (omega arith)
marked_sum-weigh p i (m ∷ ms) [] e h = absurd (omega arith)
marked_sum-weigh p i (m ∷ ms) (w ∷ ws) e h =
    let first : m ≡ p i = h 0 (omega arith) ∙ ap p (omega arith) in
    let rest =
      marked_sum-weigh p (suc i) ms ws (omega arith)
        (λ k lt. h (suc k) (omega arith) ∙ ap p (omega arith)) in
    ground (arith, first, rest)

set_marks :
    (ms : List Bool) (i j : ℕ)
    → i < length ms
    → get_or (set ms i true) j false ≡ (i == j || get_or ms j false)
set_marks ms i j h = elim (Bool-cases (i == j)) [
  | inl e ↦ let same : i ≡ j = ground arith in rw (e, ← same) (get_or-set_self ms i true false h)
  | inr e ↦ rw e (get_or-set_ne ms i j true false (ground arith))
]

count_branches_lem :
    (vv : Validators) (a b : Bytes) (creators : List ℕ) (branch : ℕ) (s : WeightCounter)
    → IsWeighted vv
    → IsCounter vv s
    → All (λ i. i < length vv.cache.weights) creators
    → (t : WeightCounter) × (count_branches a b creators branch s ≡ some t)
      × IsCounter vv t
      × ((i : ℕ)
          → get_or t.already i false ≡ (get_or s.already i false || seen_by a b creators branch i))
unfolding count_branches
count_branches_lem vv a b [] branch s h c l = (s, refl, c, λ i. ground arith)
count_branches_lem vv a b (creator ∷ creators) branch s h c l =
    elim (Bool-cases (sees a b branch)) [
      | inl e ↦
          let (t, run, ct, marks) = count_by_idx_lem vv s creator h c l.0 in
          let (u, rest, cu, all) = count_branches_lem vv a b creators (branch + 1) t h ct l.1 in
          (
            u,
            rw (e, run) rest,
            cu,
            λ i.
                all i
                ∙ ap (λ m. m || seen_by a b creators (branch + 1) i)
                    (ap (λ l. get_or l i false) marks)
                ∙ ap (λ m. m || seen_by a b creators (branch + 1) i)
                    (set_marks s.already creator i (omega (arith, c.sized, l.0)))
                ∙ ground arith,
          )
      | inr e ↦
          let (u, rest, cu, all) = count_branches_lem vv a b creators (branch + 1) s h c l.1 in
          (u, rw e rest, cu, λ i. all i ∙ ground arith)
    ]

new_counter_marks : (vv : Validators) (k : ℕ) → get_or (new_counter vv).already k false ≡ false
unfolding new_counter
new_counter_marks vv k = get_or-replicate (len vv) k false

-- On a built validator set, with branches of validators of the set, ForklessCause does not panic.
-- It is false if A sees the creator of B fork, and otherwise it is true exactly when the
-- validators with a branch on which A sees B weigh at least the quorum, each counted once.
pub forkless_cause_lem :
    (vv : Validators) (bi : BranchesInfo) (a b : Bytes) (b_branch : ℕ)
    → IsWeighted vv
    → All (λ i. i < length vv.cache.weights) bi.branch_id_creator_idxs
    → forkless_cause vv bi a b b_branch
      ≡ some (
          not (at_least_one_fork bi (len vv) && is_fork (Highest.get a b_branch))
          && leb (quorum vv) (weigh (seen_by a b bi.branch_id_creator_idxs 0) 0 vv.cache.weights))
unfolding forkless_cause has_quorum
forkless_cause_lem vv bi a b b_branch h l =
    let creators = bi.branch_id_creator_idxs in
    let (t, run, c, marks) =
      count_branches_lem vv a b creators 0 (new_counter vv) h (new_counter-IsCounter vv h) l in
    let total : t.sum ≡ weigh (seen_by a b creators 0) 0 vv.cache.weights =
      c.summed
      ∙ marked_sum-weigh (seen_by a b creators 0) 0 t.already vv.cache.weights c.sized (λ k lt.
        marks k
        ∙ ap (λ m. m || seen_by a b creators 0 k) (new_counter_marks vv k)
        ∙ ap (seen_by a b creators 0) (omega arith)) in
    ground (arith, run, total, c.limit)
