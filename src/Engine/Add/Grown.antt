-- ===== src/Engine/Add/Grown.antt =====
-- vecengine/index.go and vecfc/forkless_cause.go: the indexes that calls of `Add` build from that of
-- a new engine, and ForklessCause over them.
use lachesis_base.Base.{
  false, true, Bool, ℕ, ◌+◌, ◌^◌, ◌≤◌, ◌<◌, ◌≡◌, ◌↔◌, refl, sym, ◌∙◌, subst, arith, Option, none,
  some, [], find, ℕ_discrete, get_elem?, get_or-replicate, length, not, ◌&&◌, leb,
}
use lachesis_base.Dag.{Event}
use lachesis_base.Pos.{Validators, len, quorum}
use lachesis_base.Pos.Counter.{IsWeighted}
use lachesis_base.Vec.{Bytes}
use lachesis_base.Vec.Highest
use lachesis_base.Vec.Highest.{is_fork}
use lachesis_base.Engine.{BranchesInfo, new_initial_branches_info, at_least_one_fork}
use lachesis_base.Engine.Initial.{new_initial-IsBranches}
use lachesis_base.Engine.Forkless.{weigh}
use lachesis_base.Engine.Add.{Tables, add, init_branches_info, forkless_cause_in}
use lachesis_base.Engine.Add.Walk.{Known}
use lachesis_base.Engine.Add.Index.{IsIndex, CanAdd}
use lachesis_base.Engine.Add.Adds.{stored_parents, add-IsIndex}
use lachesis_base.Engine.Add.Between.{Between}
use lachesis_base.Engine.Add.Cause.{forkless_cause_in_lem}

abbrev pub no_tables : Tables
no_tables = record { highest_before = []; lowest_after = []; event_branch = [] }

module _ (get_event : ℕ → Option Event) (vv : Validators) where
  pub fresh-IsIndex : IsIndex get_event vv (new_initial_branches_info (len vv)) no_tables
  unfolding new_initial_branches_info find
  fresh-IsIndex = record {
    branches = new_initial-IsBranches (len vv);
    right = record {
      table = λ x b h. absurd (ground (arith, h));
      complete = λ x (b, h). absurd (ground (arith, h));
      stored = λ y b h. absurd (ground (arith, h));
      observed = λ x b l o. absurd (o refl);
      lowest = λ x y b d h. absurd (ground (arith, h));
    };
    highest = λ x v h. absurd (ground (arith, h));
    seqs = λ k. omega (arith, get_or-replicate {A = ℕ} (len vv) k 0);
    latest = λ y b d h. absurd (ground (arith, h));
    owned = λ y b d h. absurd (ground (arith, h));
    whole = λ x (b, h). absurd (ground (arith, h));
    kept = λ x v h. absurd (ground (arith, h));
    begun = λ y b d h. absurd (ground (arith, h));
    chained = λ y z b d f h. absurd (ground (arith, h));
  }

  -- The index of a new engine, and what an `Add` makes of such an index: of the branches in memory,
  -- or after a restart of the stored ones.
  pub data Grown : BranchesInfo → Tables → Type 0 where
    fresh : Grown (new_initial_branches_info (len vv)) no_tables
    added :
        {bi' : BranchesInfo} {t t' : Tables} (loaded stored : Option BranchesInfo) (e : Event)
        (fuel : ℕ)
        → Grown (init_branches_info loaded stored vv) t
        → CanAdd get_event vv (init_branches_info loaded stored vv) t e
        → length e.parents + stored_parents get_event t.lowest_after < fuel
        → add get_event fuel vv loaded stored e t ≡ some (bi', t')
        → Grown bi' t'

  abbrev Indexed : Option (BranchesInfo × Tables) → Type 0
  Indexed none = Unit
  Indexed (some (bi, t)) = IsIndex get_event vv bi t

  pub Grown-IsIndex :
      (bi : BranchesInfo) (t : Tables) → len vv ≤ 2 ^ 18 → Grown bi t → IsIndex get_event vv bi t
  Grown-IsIndex bi t few fresh = fresh-IsIndex
  Grown-IsIndex bi' t' few (added {t = t} loaded stored e fuel g c enough run) =
      let (_, _, run', h, _) =
        add-IsIndex get_event vv fuel loaded stored e t few
          (Grown-IsIndex (init_branches_info loaded stored vv) t few g) c enough in
      subst Indexed (sym run' ∙ run) h

-- Over an index that calls of `Add` have built from that of a new engine with at most 2 ^ 18
-- validators, each for an event that can be added, ForklessCause of two stored events gives an
-- answer. It is false if A has the mark of a fork on the branch of B, where the index knows of a
-- fork at all. Otherwise it is true exactly if the validators weigh at least the quorum that have a
-- branch on which A has no mark of a fork and observes an event that observes B.
pub forkless_cause_in-Grown :
    (get_event : ℕ → Option Event) (vv : Validators) (bi : BranchesInfo) (t : Tables)
    (a_id b_id : ℕ)
    → len vv ≤ 2 ^ 18
    → IsWeighted vv
    → Grown get_event vv bi t
    → Known t.lowest_after a_id
    → Known t.lowest_after b_id
    → (a : Bytes) × (b_branch : ℕ) × (seen : ℕ → Bool) × (find ℕ_discrete a_id t.highest_before
        ≡ some a)
      × (find ℕ_discrete b_id t.event_branch ≡ some b_branch)
      × ((i : ℕ)
          → (seen i ≡ true) ↔ (
              (k : ℕ) × (get_elem? bi.branch_id_creator_idxs k ≡ some i)
              × (is_fork (Highest.get a k) ≡ false)
              × Between get_event t a_id b_id k))
      × (forkless_cause_in vv bi t a_id b_id
          ≡ some (
              not (at_least_one_fork bi (len vv) && is_fork (Highest.get a b_branch))
              && leb (quorum vv) (weigh seen 0 vv.cache.weights)))
forkless_cause_in-Grown get_event vv bi t a_id b_id few weighted g =
    forkless_cause_in_lem get_event vv bi t a_id b_id (Grown-IsIndex get_event vv bi t few g) few
      weighted
