-- ===== src/Election/Final.antt =====
-- ProcessRoot (abft/election/election_math.go): decisions are final.
use lachesis_base.Base.{
  ℕ, ◌-◌, ◌≡◌, ◌⊎◌, inl, inr, refl, ◌∙◌, arith, List, [], ◌∷◌, Bool, Bool-cases, Option-cases, All,
  none, some, find, find-put, if_neg, ℕ_discrete, leb, ◌==◌, length, ◌+◌,
}
use lachesis_base.Election.{
  Election, RootAndSlot, VoteValue, Res, Outcome, decided, undecided, failed, panicked,
  ElectionError, choose_atropos, save_vote, first_vote, first_round, later_round, not_decided,
  not_decided_roots, vote_root, process_root, tally_roots, new_tally, vote_of, observed_roots,
  observed_roots_map,
}
use lachesis_base.Pos.{len, sorted_ids, has_quorum}
use lachesis_base.Election.Votes.{TallyResult-cases}
use lachesis_base.Election.Choose.{Extends, choose-Extends}

-- The election goes on for the same frame and validators, with no decision changed.
pub record Continues (el el' : Election) : Type 0 where
  pub frame : el'.frame_to_decide ≡ el.frame_to_decide
  pub validators : el'.validators ≡ el.validators
  pub decisions : Extends el.decided_roots el'.decided_roots

Continues-refl : (el : Election) → Continues el el
Continues-refl el = record { frame = refl; validators = refl; decisions = λ v vote h. h }

abbrev NotIn : List (ℕ × VoteValue) → ℕ → Type 0
NotIn dr v = find ℕ_discrete v dr ≡ none

save_vote-Continues :
    (start el : Election) (root : RootAndSlot) (s : ℕ) (vote : VoteValue)
    → NotIn start.decided_roots s
    → Continues start el
    → Continues start (save_vote el root s vote)
unfolding save_vote
save_vote-Continues start el root s vote n c = record {
  frame = c.frame;
  validators = c.validators;
  decisions = λ v x h. elim (Bool-cases vote.decided) [
    | inl d ↦ simp d (
        find-put ℕ_discrete s v vote el.decided_roots
        ∙ if_neg (ℕ_discrete s v) (λ e. ground arith) _ _
        ∙ c.decisions v x h)
    | inr d ↦ simp d (c.decisions v x h)
  ];
}

first_round-Continues :
    (start el : Election) (root : RootAndSlot) (observed : List (ℕ × RootAndSlot)) (ss : List ℕ)
    → All (NotIn start.decided_roots) ss
    → Continues start el
    → Continues start (first_round el root observed ss).0
unfolding first_round
first_round-Continues start el root observed [] n c = c
first_round-Continues start el root observed (s ∷ ss) n c =
    first_round-Continues start (save_vote el root s (first_vote observed s)) root observed ss n.1
      (save_vote-Continues start el root s (first_vote observed s) n.0 c)

later_round-Continues :
    (start el : Election) (root : RootAndSlot) (observed : List RootAndSlot) (ss : List ℕ)
    → All (NotIn start.decided_roots) ss
    → Continues start el
    → Continues start (later_round el root observed ss).0
unfolding later_round
later_round-Continues start el root observed [] n c = c
later_round-Continues start el root observed (s ∷ ss) n c =
    elim (TallyResult-cases (tally_roots el.votes s observed (new_tally el.validators))) [
      | inl (t, e) ↦ elim (Bool-cases (has_quorum t.all_votes)) [
        | inl q ↦
            rw (e, q, later_round)
              (later_round-Continues start (save_vote el root s (vote_of t)) root observed ss n.1
                (save_vote-Continues start el root s (vote_of t) n.0 c))
        | inr q ↦ rw (e, q, later_round) c
      ]
      | inr (inl (x, e)) ↦ rw (e, later_round) c
      | inr (inr e) ↦ rw (e, later_round) c
    ]

not_decided-NotIn : (dr : List (ℕ × VoteValue)) (vs : List ℕ) → All (NotIn dr) (not_decided dr vs)
unfolding not_decided
not_decided-NotIn dr [] = tt
not_decided-NotIn dr (v ∷ vs) = elim (Option-cases (find ℕ_discrete v dr)) [
  | inl e ↦ rw (e, not_decided) (e, not_decided-NotIn dr vs)
  | inr (vote, e) ↦ rw (e, not_decided) (not_decided-NotIn dr vs)
]

Outcome-cases :
    (o : Outcome)
    → (o ≡ undecided)
      ⊎ (((r : Res) × (o ≡ decided r)) ⊎ (((e : ElectionError) × (o ≡ failed e)) ⊎ (o ≡ panicked)))
Outcome-cases undecided = inl refl
Outcome-cases (decided r) = inr (inl (r, refl))
Outcome-cases (failed e) = inr (inr (inl (e, refl)))
Outcome-cases panicked = inr (inr (inr refl))

module _ (observe : ℕ → ℕ → Bool) (get_frame_roots : ℕ → List RootAndSlot) where
  vote_root-Continues :
      (el : Election) (root : RootAndSlot)
      → Continues el (vote_root observe get_frame_roots el root).0
  unfolding vote_root not_decided_roots
  vote_root-Continues el root =
      let subjects = not_decided el.decided_roots (sorted_ids el.validators) in
      let open_all : All (NotIn el.decided_roots) subjects =
        not_decided-NotIn el.decided_roots (sorted_ids el.validators) in
      let prev = get_frame_roots (root.slot.frame - 1) in
      let first =
        first_round-Continues el el root (observed_roots_map observe root.id prev []) subjects
          open_all (Continues-refl el) in
      let later =
        later_round-Continues el el root (observed_roots observe root.id prev) subjects open_all
          (Continues-refl el) in
      elim (Bool-cases (length subjects + length el.decided_roots == len el.validators)) [
        | inl e ↦ elim (Bool-cases (root.slot.frame - el.frame_to_decide == 1)) [
          | inl r ↦ rw (e, r, vote_root) first
          | inr r ↦ rw (e, r, vote_root) later
        ]
        | inr e ↦ rw (e, vote_root) (Continues-refl el)
      ]

  -- Processing a root changes neither the frame nor the validators of the election, and no decision
  -- on a validator that was made before, also where it ends in an error.
  pub process_root-Continues :
      (el : Election) (root : RootAndSlot)
      → Continues el (process_root observe get_frame_roots el root).0
  unfolding process_root
  process_root-Continues el root = elim (Outcome-cases (choose_atropos el)) [
    | inl e ↦ elim (Bool-cases (leb root.slot.frame el.frame_to_decide)) [
      | inl old ↦ rw (e, old, process_root) (Continues-refl el)
      | inr new ↦ rw (e, new, process_root) (vote_root-Continues el root)
    ]
    | inr (inl (r, e)) ↦ rw (e, process_root) (Continues-refl el)
    | inr (inr (inl (x, e))) ↦ rw (e, process_root) (Continues-refl el)
    | inr (inr (inr e)) ↦ rw (e, process_root) (Continues-refl el)
  ]

  -- Once a root has been chosen, the election chooses it after every further root.
  pub process_root-choose :
      (el : Election) (root : RootAndSlot) (r : Res)
      → choose_atropos el ≡ decided r
      → choose_atropos (process_root observe get_frame_roots el root).0 ≡ decided r
  process_root-choose el root r h =
      let c = process_root-Continues el root in
      rw (c.frame, c.validators)
        (choose-Extends el.decided_roots _ el.frame_to_decide (sorted_ids el.validators) r
          c.decisions h)

  -- A validator that is decided stays decided, with the same vote, whatever root is processed next,
  -- also where that ends in an error or a panic.
  pub find-process_root :
      (el : Election) (root : RootAndSlot) (v : ℕ) (vote : VoteValue)
      → find ℕ_discrete v el.decided_roots ≡ some vote
      → find ℕ_discrete v (process_root observe get_frame_roots el root).0.decided_roots ≡ some vote
  find-process_root el root v vote h = (process_root-Continues el root).decisions v vote h
