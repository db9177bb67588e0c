-- ===== src/Engine/Add/Between.antt =====
-- vecfc/forkless_cause.go over the tables of the index: what the comparison of two vectors on a
-- branch says about the DAG.
use lachesis_base.Base.{
  ℕ, ◌^◌, ◌≤◌, ◌<◌, ◌≡◌, ◌≢◌, ◌↔◌, inl, inr, refl, sym, ap, subst, ◌∙◌, arith, true, false, not,
  ◌&&◌, Bool, Option, some, ◌==◌, leb, if◌then◌else◌, find, ℕ_discrete, Bool-cases, ==_iff, leb→le,
}
use lachesis_base.Dag.{Event}
use lachesis_base.Pos.{Validators}
use lachesis_base.Vec.{Bytes}
use lachesis_base.Vec.Lowest
use lachesis_base.Vec.Highest
use lachesis_base.Vec.Highest.{BranchSeq, is_fork}
use lachesis_base.Vec.Highest.Collect.{nothing, range, view}
use lachesis_base.Block.Trace.{Observes, self, parent}
use lachesis_base.Engine.{BranchesInfo, sees}
use lachesis_base.Engine.Add.{Tables}
use lachesis_base.Engine.Add.Walk.{low, low_of}
use lachesis_base.Engine.Add.Ranges.{Shows}
use lachesis_base.Engine.Add.Index.{IsIndex}

view_unforked :
    (s : BranchSeq)
    → is_fork s ≡ false
    → view s ≡ (if s.seq == 0 then nothing else range s.min_seq s.seq)
unfolding view
view_unforked s h = rw h refl

sees_bits :
    (l z f : Bool) → ((l && not z && not f) ≡ true) ↔ ((l ≡ true) × (z ≡ false) × (f ≡ false))
sees_bits true true f = (λ h. absurd (ground (arith, h)), λ h. absurd (ground (arith, h.1)))
sees_bits true false true = (λ h. absurd (ground (arith, h)), λ h. absurd (ground (arith, h.2)))
sees_bits true false false = (λ h. (refl, refl, refl), λ h. refl)
sees_bits false z f = (λ h. absurd (ground (arith, h)), λ h. absurd (ground (arith, h.0)))

Observes-trans :
    (get_event : ℕ → Option Event) {h y x : ℕ}
    → Observes get_event h y
    → Observes get_event y x
    → Observes get_event h x
Observes-trans get_event o self = o
Observes-trans get_event o (parent y q e p s i) = parent y q e (Observes-trans get_event o p) s i

-- A observes an event on the branch that observes B.
abbrev pub Between : (ℕ → Option Event) → Tables → ℕ → ℕ → ℕ → Type 0
Between get_event t a_id b_id branch =
    (y : ℕ) × (d : Event) × (find ℕ_discrete y t.event_branch ≡ some branch)
    × (get_event y ≡ some d)
    × Observes get_event a_id y
    × Observes get_event y b_id

module _ (get_event : ℕ → Option Event) (vv : Validators) (bi : BranchesInfo) (t : Tables)
    (h : IsIndex get_event vv bi t) where
  module _ (a_id b_id : ℕ) (a b : Bytes) (at_a : find ℕ_discrete a_id t.highest_before ≡ some a)
      (at_b : find ℕ_discrete b_id t.lowest_after ≡ some b) where
    shown :
        (k : ℕ)
        → k < 2 ^ 28
        → is_fork (Highest.get a k) ≡ false
        → Shows get_event t.event_branch k (Observes get_event a_id) (
            if (Highest.get a k).seq == 0
            then nothing
            else range (Highest.get a k).min_seq (Highest.get a k).seq)
    shown k l f =
        subst (Shows get_event t.event_branch k (Observes get_event a_id))
          (view_unforked (Highest.get a k) f) ((h.highest a_id a at_a).1 k l)

    Between-to :
        (k : ℕ)
        → k < 2 ^ 28
        → is_fork (Highest.get a k) ≡ false
        → Lowest.get b k ≢ 0
        → Lowest.get b k ≤ (Highest.get a k).seq
        → Between get_event t a_id b_id k
    Between-to k l f pos le =
        let low_b : low t.lowest_after b_id k ≡ Lowest.get b k = ap (λ o. low_of o k) at_b in
        let (y, d, on_y, s, o, low_y) =
          h.right.observed b_id k (omega (arith, l)) (λ z. pos (sym low_b ∙ z)) in
        let more : ((Highest.get a k).seq == 0) ≡ false = ground (arith, pos, le) in
        let (_, (z, g, on_z, r, p, top), _) =
          subst
            (λ u.
              Shows get_event t.event_branch k (Observes get_event a_id)
                (if u then nothing else range (Highest.get a k).min_seq (Highest.get a k).seq))
            more (shown k l f) in
        (
          y,
          d,
          on_y,
          s,
          Observes-trans get_event p
              (h.chained y z k d g on_y on_z s r (omega (arith, le, low_b, low_y, top))),
          o,
        )

    Between-from :
        (k : ℕ)
        → k < 2 ^ 28
        → is_fork (Highest.get a k) ≡ false
        → Between get_event t a_id b_id k
        → (Lowest.get b k ≢ 0) × (Lowest.get b k ≤ (Highest.get a k).seq)
    Between-from k l f (y, d, on_y, s, p, o) =
        let low_b : low t.lowest_after b_id k ≡ Lowest.get b k = ap (λ q. low_of q k) at_b in
        let (pos, le) = h.right.lowest b_id y k d on_y s o in
        elim (Bool-cases ((Highest.get a k).seq == 0)) [
          | inl z ↦ absurd (
              subst
                (λ u.
                  Shows get_event t.event_branch k (Observes get_event a_id)
                    (if u then nothing else range (Highest.get a k).min_seq (Highest.get a k).seq))
                z (shown k l f) y d on_y s p)
          | inr z ↦
              let (_, _, all) =
                subst
                  (λ u.
                    Shows get_event t.event_branch k (Observes get_event a_id) (
                      if u then nothing else range (Highest.get a k).min_seq (Highest.get a k).seq))
                  z (shown k l f) in
              (λ q. pos (low_b ∙ q), omega (arith, le, low_b, (all y d on_y s p).1))
        ]

    -- The comparison of the two vectors on a branch.
    pub sees_iff :
        (k : ℕ)
        → k < 2 ^ 28
        → (sees a b k ≡ true)
          ↔ ((is_fork (Highest.get a k) ≡ false) × Between get_event t a_id b_id k)
    sees_iff k l =
        let (to, from) =
          sees_bits (leb (Lowest.get b k) (Highest.get a k).seq) (Lowest.get b k == 0)
            (is_fork (Highest.get a k)) in
        (
          λ e.
              let (le, z, f) = to e in
              (
                f,
                Between-to k l f (λ q. absurd (ground (arith, z, (==_iff _ 0).1 q)))
                    (leb→le _ _ le),
              ),
          λ (f, m).
              let (pos, le) = Between-from k l f m in
              from (ground (arith, le), ground (arith, pos), f),
        )
