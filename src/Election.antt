-- ===== src/Election.antt =====
-- abft/election: the election of a frame's Atropos (election.go, election_math.go, sort_roots.go).
-- The DAG index (`observe`) and the store of roots (`get_frame_roots`) are callbacks of the code.
pub mod Choose
pub mod Votes
pub mod Final
pub mod Tests
use lachesis_base.Base.{
  ℕ, zero, suc, ◌+◌, ◌-◌, ◌*◌, ◌%◌, ◌^◌, List, [], ◌∷◌, ◌++◌, Option, none, some, length, leb, ltb,
  ◌==◌, true, false, Bool, ◌&&◌, ◌||◌, not, if◌then◌else◌, find, put, ℕ_discrete,
}
use lachesis_base.Pos.{Validators, WeightCounter, new_counter, count, has_quorum, len, sorted_ids}

pub record Slot : Type 0 where
  pub frame : ℕ
  pub validator : ℕ

pub record RootAndSlot : Type 0 where
  pub id : ℕ
  pub slot : Slot

pub record VoteId : Type 0 where
  pub from_root : RootAndSlot
  pub for_validator : ℕ

pub VoteId-discrete : Discrete VoteId
VoteId-discrete = hlevel ℕ_discrete

-- The zero hash is the number 0.
pub record VoteValue : Type 0 where
  pub decided : Bool
  pub yes_vote : Bool
  pub observed_root : ℕ

pub record Res : Type 0 where
  pub frame : ℕ
  pub atropos : ℕ

pub record Election : Type 0 where
  pub frame_to_decide : ℕ
  pub validators : Validators
  pub decided_roots : List (ℕ × VoteValue)
  pub votes : List (VoteId × VoteValue)

-- The errors of the code, in the order in which it names them.
pub data ElectionError : Type 0 where
  fork_roots_observed : ElectionError
  root_counted_twice : ElectionError
  missing_vote : ElectionError
  no_quorum_of_prev_roots : ElectionError
  all_decided_no : ElectionError

-- What a call returns: no decision yet, the decision, an error, or a panic.
pub data Outcome : Type 0 where
  undecided : Outcome
  decided : Res → Outcome
  failed : ElectionError → Outcome
  panicked : Outcome

-- `Reset`
unfoldable pub reset : Validators → ℕ → Election
reset validators frame_to_decide = record {
  frame_to_decide = frame_to_decide;
  validators = validators;
  decided_roots = [];
  votes = [];
}

unfoldable pub choose_loop : List (ℕ × VoteValue) → ℕ → List ℕ → Outcome
choose_loop decided_roots frame [] = failed all_decided_no
choose_loop decided_roots frame (v ∷ vs) = elim (find ℕ_discrete v decided_roots) [
  | none ↦ undecided
  | some vote ↦
      let rest = choose_loop decided_roots frame vs in
      if vote.yes_vote
      then decided (record { frame = frame; atropos = vote.observed_root })
      else rest
]

abbrev pub choose_atropos : Election → Outcome
choose_atropos el = choose_loop el.decided_roots el.frame_to_decide (sorted_ids el.validators)

-- The IDs that are not decided yet.
unfoldable pub not_decided : List (ℕ × VoteValue) → List ℕ → List ℕ
not_decided decided_roots [] = []
not_decided decided_roots (v ∷ vs) = elim (find ℕ_discrete v decided_roots) [
  | none ↦ v ∷ not_decided decided_roots vs
  | some vote ↦ not_decided decided_roots vs
]

-- `notDecidedRoots`; `none` is the panic of the sanity check.
unfoldable pub not_decided_roots : Election → Option (List ℕ)
not_decided_roots el =
    let rest = not_decided el.decided_roots (sorted_ids el.validators) in
    if length rest + length el.decided_roots == len el.validators then some rest else none

-- `observedRoots` over the roots of a frame.
unfoldable pub observed_roots : (ℕ → ℕ → Bool) → ℕ → List RootAndSlot → List RootAndSlot
observed_roots observe root [] = []
observed_roots observe root (r ∷ rs) =
    let rest = observed_roots observe root rs in if observe root r.id then r ∷ rest else rest

-- `observedRootsMap`: a later root of a validator replaces an earlier one.
unfoldable pub observed_roots_map :
    (ℕ → ℕ → Bool) → ℕ → List RootAndSlot → List (ℕ × RootAndSlot) → List (ℕ × RootAndSlot)
observed_roots_map observe root [] out = out
observed_roots_map observe root (r ∷ rs) out =
    observed_roots_map observe root rs
      (if observe root r.id then put ℕ_discrete r.slot.validator r out else out)

pub record Tally : Type 0 where
  pub yes_votes : WeightCounter
  pub no_votes : WeightCounter
  pub all_votes : WeightCounter
  pub subject_hash : Option ℕ

pub data TallyResult : Type 0 where
  tallied : Tally → TallyResult
  tally_failed : ElectionError → TallyResult
  tally_panicked : TallyResult

unfoldable pub new_tally : Validators → Tally
new_tally vv = record {
  yes_votes = new_counter vv;
  no_votes = new_counter vv;
  all_votes = new_counter vv;
  subject_hash = none;
}

-- A yes vote for another root than the one seen before.
abbrev pub conflicts : VoteValue → Option ℕ → Bool
conflicts vote none = false
conflicts vote (some h) = vote.yes_vote && not (h == vote.observed_root)

-- The vote of one observed root.
unfoldable pub count_vote : VoteValue → ℕ → Tally → TallyResult
count_vote vote validator t =
    if conflicts vote t.subject_hash
    then tally_failed fork_roots_observed
    else elim (if vote.yes_vote then count t.yes_votes validator else count t.no_votes validator) [
      | none ↦ tally_panicked
      | some (side, _) ↦ elim (count t.all_votes validator) [
        | none ↦ tally_panicked
        | some (all, fresh) ↦
            if fresh
            then tallied (
                if vote.yes_vote
                then record t {
                  yes_votes = side;
                  all_votes = all;
                  subject_hash = some vote.observed_root;
                }
                else record t { no_votes = side; all_votes = all })
            else tally_failed root_counted_twice
      ]
    ]

-- The loop over the observed roots.
unfoldable pub tally_roots : List (VoteId × VoteValue) → ℕ → List RootAndSlot → Tally → TallyResult
tally_roots votes subject [] t = tallied t
tally_roots votes subject (r ∷ rs) t =
    elim (find VoteId-discrete (record { from_root = r; for_validator = subject }) votes) [
      | none ↦ tally_failed missing_vote
      | some vote ↦ elim (count_vote vote r.slot.validator t) [
        | tallied t' ↦ tally_roots votes subject rs t'
        | tally_failed e ↦ tally_failed e
        | tally_panicked ↦ tally_panicked
      ]
    ]

abbrev pub or_zero_hash : Option ℕ → ℕ
or_zero_hash none = 0
or_zero_hash (some h) = h

-- The vote that a tally amounts to.
unfoldable pub vote_of : Tally → VoteValue
vote_of t =
    let majority = leb t.no_votes.sum t.yes_votes.sum in
    record {
      decided = has_quorum t.yes_votes || has_quorum t.no_votes;
      yes_vote = majority;
      observed_root = if majority then or_zero_hash t.subject_hash else 0;
    }

-- The vote in the first round.
unfoldable pub first_vote : List (ℕ × RootAndSlot) → ℕ → VoteValue
first_vote observed subject = elim (find ℕ_discrete subject observed) [
  | none ↦ record { decided = false; yes_vote = false; observed_root = 0 }
  | some r ↦ record { decided = false; yes_vote = true; observed_root = r.id }
]

-- Saves the vote of `new_root` for `subject`, and the decision if it is one.
unfoldable pub save_vote : Election → RootAndSlot → ℕ → VoteValue → Election
save_vote el new_root subject vote = record el {
  votes =
      put VoteId-discrete (record { from_root = new_root; for_validator = subject }) vote el.votes;
  decided_roots =
      if vote.decided then put ℕ_discrete subject vote el.decided_roots else el.decided_roots;
}

-- The loop over the subjects in the first round.
unfoldable pub first_round :
    Election → RootAndSlot → List (ℕ × RootAndSlot) → List ℕ → Election × Outcome
first_round el new_root observed [] = (el, choose_atropos el)
first_round el new_root observed (s ∷ subjects) =
    first_round (save_vote el new_root s (first_vote observed s)) new_root observed subjects

-- The loop in a later round. On an error the votes saved before stay saved.
unfoldable pub later_round : Election → RootAndSlot → List RootAndSlot → List ℕ → Election × Outcome
later_round el new_root observed [] = (el, choose_atropos el)
later_round el new_root observed (s ∷ subjects) =
    elim (tally_roots el.votes s observed (new_tally el.validators)) [
      | tally_panicked ↦ (el, panicked)
      | tally_failed e ↦ (el, failed e)
      | tallied t ↦
          let rest = later_round (save_vote el new_root s (vote_of t)) new_root observed subjects in
          if has_quorum t.all_votes then rest else (el, failed no_quorum_of_prev_roots)
    ]

module _ (observe : ℕ → ℕ → Bool) (get_frame_roots : ℕ → List RootAndSlot) where
  -- The part of `ProcessRoot` after the first check; the root is newer than the frame to decide.
  unfoldable pub vote_root : Election → RootAndSlot → Election × Outcome
  vote_root el new_root = elim (not_decided_roots el) [
    | none ↦ (el, panicked)
    | some subjects ↦
        let prev = get_frame_roots (new_root.slot.frame - 1) in
        if new_root.slot.frame - el.frame_to_decide == 1
        then first_round el new_root (observed_roots_map observe new_root.id prev []) subjects
        else later_round el new_root (observed_roots observe new_root.id prev) subjects
  ]

  unfoldable pub process_root : Election → RootAndSlot → Election × Outcome
  unfolding vote_root
  process_root el new_root = elim (choose_atropos el) [
    | decided r ↦ (el, decided r)
    | failed e ↦ (el, failed e)
    | panicked ↦ (el, panicked)
    | undecided ↦
        if leb new_root.slot.frame el.frame_to_decide
        then (el, undecided)
        else vote_root el new_root
  ]
