-- ===== src/Block/Cheaters.antt =====
-- abft/lachesis.go, `applyAtropos`: the cheaters of a block, and the order of the callbacks.
use lachesis_base.Base.{
  ℕ, zero, suc, ◌+◌, ◌≡◌, ◌≢◌, ◌↔◌, inl, inr, refl, sym, ap, subst, ◌∙◌, arith, Bool, true, false,
  Option, none, some, List, [], ◌∷◌, if◌then◌else◌, get_elem?, Bool-cases, All, In,
}
use lachesis_base.Dag.{Event, ids}
use lachesis_base.Pos.{Validators, sorted_ids}
use lachesis_base.Check.Basic.{Nodup}
use lachesis_base.Block.{
  Walked, walked, event_not_found, no_fuel, ConfirmedTable, Block, BlockCallbacks, Applied, applied,
  crit, or_nothing, end_with, finish, apply_atropos, cheaters_from, get_event_confirmed_on,
  confirm_events,
}
use lachesis_base.Block.Trace.{IsSource, apply_all, Observes}
use lachesis_base.Block.Confirm.{confirm_events-applied}

module _ (fork : ℕ → Bool) (v : ℕ) where
  abbrev IsForkedAt : ℕ → List ℕ → ℕ → Type 0
  IsForkedAt i vs j = (get_elem? vs j ≡ some v) × (fork (i + j) ≡ true)

  cheaters_from_sound :
      (i : ℕ) (vs : List ℕ) → In v (cheaters_from fork i vs) → (j : ℕ) × IsForkedAt i vs j
  unfolding cheaters_from
  cheaters_from_sound i [] h = elim h [ ]
  cheaters_from_sound i (c ∷ vs) h = elim (Bool-cases (fork i)) [
    | inl y ↦
        let h' : In v (c ∷ cheaters_from fork (suc i) vs) =
          subst
            (λ b.
              In v (if b then c ∷ cheaters_from fork (suc i) vs else cheaters_from fork (suc i) vs))
            y h in
        elim h' [
          | inl e ↦ (0, (ap some (sym e), subst (λ k. fork k ≡ true) (omega arith) y))
          | inr r ↦ later (cheaters_from_sound (suc i) vs r)
        ]
    | inr n ↦ later (cheaters_from_sound (suc i) vs (skipped n))
  ]
    where
      skipped : fork i ≡ false → In v (cheaters_from fork (suc i) vs)
      skipped n =
          subst
            (λ b.
              In v (if b then c ∷ cheaters_from fork (suc i) vs else cheaters_from fork (suc i) vs))
            n h

      later : (j : ℕ) × IsForkedAt (suc i) vs j → (j : ℕ) × IsForkedAt i (c ∷ vs) j
      later (j, (g, q)) = (suc j, (g, subst (λ k. fork k ≡ true) (omega arith) q))

  cheaters_from_complete :
      (i : ℕ) (vs : List ℕ) (j : ℕ) → IsForkedAt i vs j → In v (cheaters_from fork i vs)
  unfolding cheaters_from
  cheaters_from_complete i [] j (g, q) = absurd (ground (arith, g))
  cheaters_from_complete i (c ∷ vs) zero (g, q) =
      let y : fork i ≡ true = subst (λ k. fork k ≡ true) (omega arith) q in
      let here : v ≡ c = ground (arith, g) in rw y (inl here)
  cheaters_from_complete i (c ∷ vs) (suc j) (g, q) =
      let rest =
        cheaters_from_complete (suc i) vs j (g, subst (λ k. fork k ≡ true) (omega arith) q) in
      elim (Bool-cases (fork i)) [ inl y ↦ rw y (inr rest) | inr n ↦ rw n rest ]

pub cheaters_from-Nodup :
    (fork : ℕ → Bool) (i : ℕ) (vs : List ℕ) → Nodup vs → Nodup (cheaters_from fork i vs)
unfolding cheaters_from
cheaters_from-Nodup fork i [] h = tt
cheaters_from-Nodup fork i (c ∷ vs) h = elim (Bool-cases (fork i)) [
  | inl y ↦ rw y (All-cheaters_from (suc i) vs h.0, cheaters_from-Nodup fork (suc i) vs h.1)
  | inr n ↦ rw n (cheaters_from-Nodup fork (suc i) vs h.1)
]
  where
    All-cheaters_from :
        (k : ℕ) (ws : List ℕ) → All (λ j. c ≢ j) ws → All (λ j. c ≢ j) (cheaters_from fork k ws)
    All-cheaters_from k [] a = tt
    All-cheaters_from k (w ∷ ws) a = elim (Bool-cases (fork k)) [
      | inl y ↦ rw y (a.0, All-cheaters_from (suc k) ws a.1)
      | inr n ↦ rw n (All-cheaters_from (suc k) ws a.1)
    ]

-- The cheaters of a block are the validators that stand at an index for which the merged vector
-- clock has a fork, each one once if the validators are listed once.
pub cheaters_from_iff :
    (fork : ℕ → Bool) (vs : List ℕ)
    → ((v : ℕ)
        → In v (cheaters_from fork 0 vs) ↔ ((j : ℕ) × (get_elem? vs j ≡ some v) × (fork j ≡ true)))
      × (Nodup vs → Nodup (cheaters_from fork 0 vs))
cheaters_from_iff fork vs = (
  λ v. (
    λ h.
        let (j, (g, q)) = cheaters_from_sound fork v 0 vs h in
        (j, g, subst (λ k. fork k ≡ true) (omega arith) q),
    λ p. cheaters_from_complete fork v 0 vs p.0 (p.1, subst (λ k. fork k ≡ true) (omega arith) p.2),
  ),
  cheaters_from-Nodup fork 0 vs,
)

module _ {ℓ} {A : Type ℓ} (get_event : ℕ → Option Event) (merged : ℕ → ℕ → Bool)
    (begin : Block → A → A × BlockCallbacks A) (fuel : ℕ) (validators : Validators)
    (frame atropos : ℕ) (table t' : ConfirmedTable) (a a' : A) (v : Option Validators)
    (not_zero : frame ≢ 0) (source : IsSource get_event)
    (ends : apply_atropos get_event merged (some begin) fuel validators frame atropos (table, a)
      ≡ ((t', a'), applied v)) where
  abbrev block : Block
  block = record {
    atropos = atropos;
    cheaters = cheaters_from (merged atropos) 0 (sorted_ids validators);
  }

  -- A block that ends well begins with the Atropos and its cheaters, then applies the newly
  -- confirmed events, each one once, and then ends; the end gives the validators of a next epoch. The
  -- applied events are those that are confirmed after the block and were not before, each as it is in
  -- the source, and the Atropos observes them.
  pub apply_atropos_lem :
      (es : List Event) × ((a', v)
        ≡ end_with
            (begin block a).1.end_block
            (apply_all (or_nothing (begin block a).1.apply_event) es (begin block a).0))
      × Nodup (ids es)
      × ((x : ℕ)
          → In x (ids es)
            ↔ ((get_event_confirmed_on table x ≡ 0) × (get_event_confirmed_on t' x ≢ 0)))
      × All (λ e. (get_event e.id ≡ some e) × Observes get_event atropos e.id) es
  unfolding apply_atropos
  apply_atropos_lem = after_walk (run begin_app) refl
    where
      crit-ne-applied : {w : Walked} → ¬ (crit w ≡ applied v)
      crit-ne-applied h = absurd (ground (arith, h))

      answer : (ConfirmedTable × A) × Applied → A × Option Validators
      answer ((t1, a1), applied w) = (a1, w)
      answer ((t1, a1), crit w) = (a1, none)

      begin_app : A
      begin_app = (begin block a).0

      callbacks : BlockCallbacks A
      callbacks = (begin block a).1

      run : A → (ConfirmedTable × A) × Walked
      run x =
          confirm_events get_event fuel frame atropos (or_nothing callbacks.apply_event) (table, x)

      after_walk :
          (r : (ConfirmedTable × A) × Walked)
          → run begin_app ≡ r
          → (es : List Event) × ((a', v)
              ≡ end_with callbacks.end_block
                  (apply_all (or_nothing callbacks.apply_event) es begin_app))
            × Nodup (ids es)
            × ((x : ℕ)
                → In x (ids es)
                  ↔ ((get_event_confirmed_on table x ≡ 0) × (get_event_confirmed_on t' x ≢ 0)))
            × All (λ e. (get_event e.id ≡ some e) × Observes get_event atropos e.id) es
      after_walk ((t1, a1), walked) e =
          let now = sym (ap (finish callbacks.end_block) e) ∙ ends in
          let (es, p, nodup, exact, seen) =
            confirm_events-applied get_event fuel frame atropos (or_nothing callbacks.apply_event)
              table t1 begin_app a1 not_zero source e in
          let same : t1 ≡ t' = ap (λ r. r.0.0) now in
          (
            es,
            sym (ap answer now) ∙ ap (end_with callbacks.end_block) p,
            nodup,
            subst
                (λ t2.
                  (x : ℕ)
                  → In x (ids es)
                    ↔ ((get_event_confirmed_on table x ≡ 0) × (get_event_confirmed_on t2 x ≢ 0)))
                same exact,
            seen,
          )
      after_walk ((t1, a1), event_not_found x) e =
          absurd (crit-ne-applied (ap (λ r. r.1) (sym (ap (finish callbacks.end_block) e) ∙ ends)))
      after_walk ((t1, a1), no_fuel) e =
          absurd (crit-ne-applied (ap (λ r. r.1) (sym (ap (finish callbacks.end_block) e) ∙ ends)))
