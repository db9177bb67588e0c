-- ===== src/Engine/Add/Adds.antt =====
-- vecengine/index.go: `Add` on an index.
use lachesis_base.Base.{
  All-at, sum_over, sum_over-le, ℕ, ◌+◌, ◌^◌, ◌≤◌, ◌<◌, ◌≡◌, inl, inr, refl, sym, ◌∙◌, arith,
  Option, some, List, [], ◌∷◌, find, put, find-put, ℕ_discrete, if_pos, if_neg, In, length, map,
}
use lachesis_base.Dag.{Event}
use lachesis_base.Pos.{Validators, len}
use lachesis_base.Vec.{Bytes}
use lachesis_base.Block.{push_all}
use lachesis_base.Block.Stack.{All-push_all, length-push_all}
use lachesis_base.Engine.{BranchesInfo}
use lachesis_base.Engine.Initial.{branches_bounded}
use lachesis_base.Engine.Detect.{fill_before}
use lachesis_base.Engine.Add.{
  Tables, parents_vecs, branch_of_event, set_vectors, fill_vectors, fill_event_vectors, add,
  init_branches_info,
}
use lachesis_base.Engine.Add.Walk.{After, Known, Trace, walk-Trace, parents_count, waiting}
use lachesis_base.Engine.Add.Marked.{Trace-Known}
use lachesis_base.Engine.Add.Refines.{walked-IsLowest}
use lachesis_base.Engine.Add.Index.{IsIndex, CanAdd, Chosen, choose}
use lachesis_base.Block.Trace.{Observes}
use lachesis_base.Engine.Add.Before.{IsShown}
use lachesis_base.Engine.Add.Past.{fill_before_lem, highest_after}
use lachesis_base.Engine.Add.Branching.{
  Chosen-few, wide, le, seqs', latest', owned', begun', chained', sourced,
}

-- The stored events.
abbrev pub stored_ids : After → List ℕ
stored_ids = map (λ kv. kv.0)

Known-stored_ids : (t : After) (x : ℕ) → Known t x → In x (stored_ids t)
unfolding find
Known-stored_ids [] x (b, k) = absurd (ground (arith, k))
Known-stored_ids ((y, v) ∷ t) x (b, k) = elim (ℕ_discrete y x) [
  | yes p ↦ inl (sym p)
  | no n ↦ inr (Known-stored_ids t x (b, sym (if_neg (ℕ_discrete y x) n _ _) ∙ k))
]

-- The parents that the stored events have together.
abbrev pub stored_parents : (ℕ → Option Event) → After → ℕ
stored_parents get_event t = sum_over (λ x. parents_count (get_event x)) (stored_ids t)

module _ (get_event : ℕ → Option Event) (vv : Validators) (bi bi' : BranchesInfo) (t : Tables)
    (e : Event) (b : ℕ) (few : len vv ≤ 2 ^ 18) (h : IsIndex get_event vv bi t)
    (c : CanAdd get_event vv bi t e) (chosen : Chosen get_event vv bi t e bi' b) where
  few' : length bi'.branch_id_creator_idxs ≤ 2 ^ 28
  few' = Chosen-few get_event vv bi bi' t e b few chosen

  at : b < 2 ^ 28
  at = wide get_event vv bi bi' t e b few h c chosen

  narrow : length bi.branch_id_creator_idxs < 2 ^ 29
  narrow = omega (arith, branches_bounded _ bi h.branches, few)

  -- The vector HighestBefore of the event.
  before_lem :
      (vecs : List Bytes) × (before : Bytes) × (parents_vecs t e.parents ≡ some vecs)
      × (fill_before bi' (len vv) (length bi.branch_id_creator_idxs) b e vecs ≡ some before)
      × IsShown get_event (put ℕ_discrete e.id b t.event_branch) (Observes get_event e.id) before
  before_lem =
      fill_before_lem get_event t e b (length bi.branch_id_creator_idxs) at narrow c.positive
        c.small c.here bi' (len vv) chosen.0 few' h.right.complete c.new
        (λ p i. All-at (λ x. Known t.lowest_after x) e.parents c.parents p i) h.whole h.kept
        (sourced get_event vv bi bi' t e b few h c chosen) h.highest

  module _ (before : Bytes) (after : After)
      (walk : Trace get_event b e (push_all e.parents []) t.lowest_after after) where
    abbrev t' : Tables
    t' = set_vectors t after e (length bi.branch_id_creator_idxs) before b

    whole' :
        (x : ℕ)
        → Known t'.lowest_after x
        → (k : ℕ) × (v : Bytes) × (find ℕ_discrete x t'.event_branch ≡ some k)
          × (find ℕ_discrete x t'.highest_before ≡ some v)
    whole' x (v, k) = elim (ℕ_discrete e.id x) [
      | yes p ↦ (
        b,
        before,
        find-put ℕ_discrete e.id x b t.event_branch ∙ if_pos (ℕ_discrete e.id x) p _ _,
        find-put ℕ_discrete e.id x before t.highest_before ∙ if_pos (ℕ_discrete e.id x) p _ _,
      )
      | no n ↦
          let was =
            (Trace-Known get_event b e (omega (arith, at)) c.positive c.small walk h.right.table
                x).1
              (
                v,
                sym (find-put ℕ_discrete e.id x _ after ∙ if_neg (ℕ_discrete e.id x) n _ _) ∙ k,
              ) in
          let (k', v', at, vec) = h.whole x was in
          (
            k',
            v',
            find-put ℕ_discrete e.id x b t.event_branch ∙ if_neg (ℕ_discrete e.id x) n _ _ ∙ at,
            find-put ℕ_discrete e.id x before t.highest_before
                ∙ if_neg (ℕ_discrete e.id x) n _ _
                ∙ vec,
          )
    ]

    set_vectors-IsIndex :
        IsShown get_event t'.event_branch (Observes get_event e.id) before
        → IsIndex get_event vv bi' t'
    set_vectors-IsIndex shown =
        let (well, _, _, _, _, _) = chosen in
        let right =
          walked-IsLowest get_event t.lowest_after after t.event_branch e b
            (length bi.branch_id_creator_idxs) h.right (omega (arith, at))
            (omega (arith, branches_bounded _ bi h.branches, few)) c.positive c.small c.here c.new
            c.parents
            (λ y d f s.
              omega (arith, h.latest y b d f s, le get_event vv bi bi' t e b few h c chosen))
            walk in
        record {
          branches = well;
          right = right;
          highest =
              highest_after get_event t e b (length bi.branch_id_creator_idxs) at narrow c.positive
                c.small c.here bi' (len vv) chosen.0 few' h.right.complete c.new
                (λ p i. All-at (λ x. Known t.lowest_after x) e.parents c.parents p i) h.whole h.kept
                (sourced get_event vv bi bi' t e b few h c chosen) h.highest before shown;
          seqs = seqs' get_event vv bi bi' t e b few h c chosen;
          latest = latest' get_event vv bi bi' t e b few h c chosen;
          owned = owned' get_event vv bi bi' t e b few h c chosen;
          whole = whole';
          kept = kept';
          begun = begun' get_event vv bi bi' t e b few h c chosen;
          chained = chained' get_event vv bi bi' t e b few h c chosen;
        }
      where
        kept' :
            (x : ℕ) (v : Bytes)
            → find ℕ_discrete x t'.highest_before ≡ some v
            → Known t'.lowest_after x
        kept' x v k = elim (ℕ_discrete e.id x) [
          | yes p ↦ (_, find-put ℕ_discrete e.id x _ after ∙ if_pos (ℕ_discrete e.id x) p _ _)
          | no n ↦
              let was = h.kept x v (
                sym (
                  find-put ℕ_discrete e.id x before t.highest_before
                  ∙ if_neg (ℕ_discrete e.id x) n _ _)
                ∙ k) in
              let (w, q) =
                (Trace-Known get_event b e (omega (arith, at)) c.positive c.small walk h.right.table
                    x).0
                  was in
              (w, find-put ℕ_discrete e.id x _ after ∙ if_neg (ℕ_discrete e.id x) n _ _ ∙ q)
        ]

-- With at most 2 ^ 18 validators, and more fuel than the parents of the event and of the stored
-- events, `Add` of an event that can be added goes through: it does not panic, end the node or miss
-- an event. The index is well formed after it: the tables hold the same events, each on a branch of
-- its creator, and the LowestAfter of each event has for each branch the lowest of the events of the
-- branch that observe it.
pub add-IsIndex :
    (get_event : ℕ → Option Event) (vv : Validators) (fuel : ℕ)
    (loaded stored : Option BranchesInfo) (e : Event) (t : Tables)
    → len vv ≤ 2 ^ 18
    → IsIndex get_event vv (init_branches_info loaded stored vv) t
    → CanAdd get_event vv (init_branches_info loaded stored vv) t e
    → length e.parents + stored_parents get_event t.lowest_after < fuel
    → (bi' : BranchesInfo) × (t' : Tables) × (add get_event fuel vv loaded stored e t
        ≡ some (bi', t'))
      × IsIndex get_event vv bi' t'
      × Known t'.lowest_after e.id
unfolding add fill_event_vectors branch_of_event fill_vectors
add-IsIndex get_event vv fuel loaded stored e t few h c enough =
    let bi = init_branches_info loaded stored vv in
    let la = t.lowest_after in
    let (bi', b, run, chosen) = choose get_event vv bi t e few h c in
    let w = wide get_event vv bi bi' t e b few h c chosen in
    let (vecs, before, got, detected, shown) =
      before_lem get_event vv bi bi' t e b few h c chosen in
    let (after, walked, tr) =
      walk-Trace get_event b e (stored_ids la) (omega (arith, w)) c.positive c.small fuel
        (push_all e.parents []) la h.right.table h.right.complete (Known-stored_ids la)
        (All-push_all (λ x. Known la x) e.parents [] (All-at (λ x. Known la x) e.parents c.parents)
          tt)
        (omega (
          arith,
          enough,
          length-push_all e.parents [],
          sum_over-le (λ x. parents_count (get_event x)) (waiting get_event b e la) (stored_ids la)
              (λ x. ground arith),
        )) in
    (
      bi',
      set_vectors t after e (length bi.branch_id_creator_idxs) before b,
      rw (run, branch_of_event, fill_vectors, got, detected, walked) refl,
      set_vectors-IsIndex get_event vv bi bi' t e b few h c chosen before after tr shown,
      (_, find-put ℕ_discrete e.id e.id _ after ∙ if_pos (ℕ_discrete e.id e.id) refl _ _),
    )
