-- ===== src/Election/Votes.antt =====
-- The votes of a later round (abft/election/election_math.go): each validator is counted on one
-- side, so a decision has one quorum, and roots that see the same votes agree with it.
use lachesis_base.Base.{
  ℕ, suc, ◌+◌, ◌≤◌, ◌<◌, ◌≡◌, ◌⊎◌, inl, inr, refl, ap, sym, ◌∙◌, arith, List, [], ◌∷◌, length, true,
  false, Bool, Bool-cases, Option-cases, All, some, find, ◌&&◌, ◌||◌, not, get_or, set,
  get_or-set_self, get_or-set_ne, get_or-replicate, leb→le, le→leb, lt→leb_false, ◌==◌,
}
use lachesis_base.Election.{
  ElectionError, RootAndSlot, VoteId, VoteId-discrete, VoteValue, Tally, TallyResult, tallied,
  tally_failed, tally_panicked, new_tally, count_vote, tally_roots, vote_of,
}
use lachesis_base.Pos.{
  Validators, WeightCounter, get_idx, count, count_by_idx, has_quorum, new_counter, len,
}
use lachesis_base.Pos.Weights.{sum}
use lachesis_base.Pos.Counter.{
  marked_sum, IsWeighted, IsCounter, count_by_idx_lem, new_counter-IsCounter, marked_sum-le,
}
use lachesis_base.Pos.Quorum.{quorum_exact}

pub TallyResult-cases :
    (r : TallyResult)
    → ((t : Tally) × (r ≡ tallied t))
      ⊎ (((e : ElectionError) × (r ≡ tally_failed e)) ⊎ (r ≡ tally_panicked))
TallyResult-cases (tallied t) = inl (t, refl)
TallyResult-cases (tally_failed e) = inr (inl (e, refl))
TallyResult-cases tally_panicked = inr (inr refl)

abbrev pub mark : WeightCounter → ℕ → Bool
mark s i = get_or s.already i false

-- Who was counted was counted on exactly one side.
pub record IsTally (vv : Validators) (t : Tally) : Type 0 where
  pub yes_counter : IsCounter vv t.yes_votes
  pub no_counter : IsCounter vv t.no_votes
  pub all_counter : IsCounter vv t.all_votes
  pub split : (i : ℕ) → mark t.all_votes i ≡ (mark t.yes_votes i || mark t.no_votes i)
  pub apart : (i : ℕ) → (mark t.yes_votes i && mark t.no_votes i) ≡ false

marked_sum-apart :
    (ms ns : List Bool) (ws : List ℕ)
    → ((i : ℕ) → (get_or ms i false && get_or ns i false) ≡ false)
    → marked_sum ms ws + marked_sum ns ws ≤ sum ws
unfolding marked_sum
marked_sum-apart [] ns ws h = omega (arith, marked_sum-le ns ws)
marked_sum-apart (m ∷ ms) [] ws h = omega (arith, marked_sum-le (m ∷ ms) ws)
marked_sum-apart (m ∷ ms) (n ∷ ns) [] h = omega arith
marked_sum-apart (m ∷ ms) (n ∷ ns) (w ∷ ws) h =
    ground (arith, h 0, marked_sum-apart ms ns ws (λ i. h (suc i)))

marked_sum-split :
    (ks ms ns : List Bool) (ws : List ℕ)
    → length ks ≡ length ms
    → length ks ≡ length ns
    → ((i : ℕ) → get_or ks i false ≡ (get_or ms i false || get_or ns i false))
    → ((i : ℕ) → (get_or ms i false && get_or ns i false) ≡ false)
    → marked_sum ks ws ≡ marked_sum ms ws + marked_sum ns ws
unfolding marked_sum
marked_sum-split [] [] [] ws p q h k = omega arith
marked_sum-split (k' ∷ ks) (m ∷ ms) (n ∷ ns) [] p q h k = omega arith
marked_sum-split (k' ∷ ks) (m ∷ ms) (n ∷ ns) (w ∷ ws) p q h k = ground (
  arith,
  h 0,
  k 0,
  marked_sum-split ks ms ns ws (omega arith) (omega arith) (λ i. h (suc i)) (λ i. k (suc i)),
)
marked_sum-split [] (m ∷ ms) ns ws p q h k = absurd (omega arith)
marked_sum-split [] [] (n ∷ ns) ws p q h k = absurd (omega arith)
marked_sum-split (k' ∷ ks) [] ns ws p q h k = absurd (omega arith)
marked_sum-split (k' ∷ ks) (m ∷ ms) [] ws p q h k = absurd (omega arith)

new_tally-IsTally : (vv : Validators) → IsWeighted vv → IsTally vv (new_tally vv)
unfolding new_tally new_counter
new_tally-IsTally vv h =
    let c = new_counter-IsCounter vv h in
    let fresh = λ (i : ℕ). get_or-replicate (len vv) i false in
    record {
      yes_counter = c;
      no_counter = c;
      all_counter = c;
      split = λ i. ground (arith, fresh i);
      apart = λ i. ground (arith, fresh i);
    }

set_marks :
    (ms : List Bool) (i j : ℕ)
    → i < length ms
    → get_or (set ms i true) j false ≡ (i == j || get_or ms j false)
set_marks ms i j h = elim (Bool-cases (i == j)) [
  | inl e ↦ let same : i ≡ j = ground arith in rw (e, ← same) (get_or-set_self ms i true false h)
  | inr e ↦ rw e (get_or-set_ne ms i j true false (ground arith))
]

-- What a count does to the marks.
count_marks :
    (vv : Validators) (s : WeightCounter) (v : ℕ)
    → IsWeighted vv
    → IsCounter vv s
    → get_idx vv v < length vv.cache.weights
    → (s' : WeightCounter) × (count s v ≡ some (s', not (mark s (get_idx vv v))))
      × IsCounter vv s'
      × ((j : ℕ) → mark s' j ≡ (get_idx vv v == j || mark s j))
unfolding count
count_marks vv s v h c l =
    let (s', run, c', marks) = count_by_idx_lem vv s (get_idx vv v) h c l in
    (
      s',
      ap (λ (u : Validators). count_by_idx s (get_idx u v)) c.over ∙ run,
      c',
      λ j. rw marks (set_marks s.already (get_idx vv v) j (omega (arith, c.sized))),
    )

count_vote-IsTally :
    (vv : Validators) (vote : VoteValue) (v : ℕ) (t t' : Tally)
    → IsWeighted vv
    → get_idx vv v < length vv.cache.weights
    → IsTally vv t
    → count_vote vote v t ≡ tallied t'
    → IsTally vv t'
unfolding count_vote
count_vote-IsTally vv vote v t t' h l c run =
    let (y, ry, cy, my) = count_marks vv t.yes_votes v h c.yes_counter l in
    let (n, rn, cn, mn) = count_marks vv t.no_votes v h c.no_counter l in
    let (a, ra, ca, ma) = count_marks vv t.all_votes v h c.all_counter l in
    let i = get_idx vv v in
    let new : mark t.all_votes i ≡ false = ground arith in
    elim (Bool-cases vote.yes_vote) [
      | inl side ↦
          let after : t'
              ≡ record t { yes_votes = y; all_votes = a; subject_hash = some vote.observed_root } =
            ground arith in
          rw after (record {
            yes_counter = cy;
            no_counter = c.no_counter;
            all_counter = ca;
            split = λ j. ground (arith, my j, ma j, c.split j);
            apart = λ j. ground (arith, my j, new, c.split j, c.apart j);
          })
      | inr side ↦
          let after : t' ≡ record t { no_votes = n; all_votes = a } = ground arith in
          rw after (record {
            yes_counter = c.yes_counter;
            no_counter = cn;
            all_counter = ca;
            split = λ j. ground (arith, mn j, ma j, c.split j);
            apart = λ j. ground (arith, mn j, new, c.split j, c.apart j);
          })
    ]

-- A tally of one more root is a count of its vote and then a tally of the rest.
tally_step :
    (votes : List (VoteId × VoteValue)) (subject : ℕ) (r : RootAndSlot) (rs : List RootAndSlot)
    (t t' : Tally)
    → tally_roots votes subject (r ∷ rs) t ≡ tallied t'
    → (vote : VoteValue) × (t1 : Tally) × (count_vote vote r.slot.validator t ≡ tallied t1)
      × (tally_roots votes subject rs t1 ≡ tallied t')
unfolding tally_roots
tally_step votes subject r rs t t' run =
    elim (Option-cases
      (find VoteId-discrete (record { from_root = r; for_validator = subject }) votes)) [
        | inl e ↦ absurd (ground arith)
        | inr (vote, e) ↦ elim (TallyResult-cases (count_vote vote r.slot.validator t)) [
          | inl (t1, first) ↦ (vote, t1, first, ground arith)
          | inr (inl (x, f)) ↦ absurd (ground arith)
          | inr (inr f) ↦ absurd (ground arith)
        ]
      ]

-- The tally of any roots whose validators are in the set counts each of them on one side.
pub tally_roots-IsTally :
    (vv : Validators) (votes : List (VoteId × VoteValue)) (subject : ℕ) (rs : List RootAndSlot)
    (t t' : Tally)
    → IsWeighted vv
    → All (λ r. get_idx vv r.slot.validator < length vv.cache.weights) rs
    → IsTally vv t
    → tally_roots votes subject rs t ≡ tallied t'
    → IsTally vv t'
unfolding tally_roots
tally_roots-IsTally vv votes subject [] t t' h l c run =
    let same : t ≡ t' = ground arith in rw (← same) c
tally_roots-IsTally vv votes subject (r ∷ rs) t t' h l c run =
    let (vote, t1, first, rest) = tally_step votes subject r rs t t' run in
    tally_roots-IsTally vv votes subject rs t1 t' h l.1
      (count_vote-IsTally vv vote r.slot.validator t t1 h l.0 c first) rest

-- No more is counted on the two sides than the total weight.
IsTally-sum :
    (vv : Validators) (t : Tally)
    → IsTally vv t
    → (t.yes_votes.sum + t.no_votes.sum ≤ sum vv.cache.weights)
      × (t.all_votes.sum ≡ t.yes_votes.sum + t.no_votes.sum)
IsTally-sum vv t c =
    let ws = vv.cache.weights in
    let both = marked_sum-apart t.yes_votes.already t.no_votes.already ws c.apart in
    let all =
      marked_sum-split t.all_votes.already t.yes_votes.already t.no_votes.already ws
        (c.all_counter.sized ∙ sym c.yes_counter.sized)
        (c.all_counter.sized ∙ sym c.no_counter.sized) c.split c.apart in
    let y = c.yes_counter.summed in
    let n = c.no_counter.summed in
    let a = c.all_counter.summed in (omega (arith, both, y, n), omega (arith, all, y, n, a))

-- Over a validator set whose total weight is exact, and for roots of validators of the set: the vote
-- that a tally amounts to is decided as yes exactly with a quorum of yes votes, and decided as no
-- exactly with a quorum of no votes, so that there is never a quorum of both.
pub vote_of-decided :
    (vv : Validators) (votes : List (VoteId × VoteValue)) (subject : ℕ) (rs : List RootAndSlot)
    (t : Tally)
    → IsWeighted vv
    → All (λ r. get_idx vv r.slot.validator < length vv.cache.weights) rs
    → tally_roots votes subject rs (new_tally vv) ≡ tallied t
    → (((vote_of t).decided && (vote_of t).yes_vote) ≡ has_quorum t.yes_votes)
      × (((vote_of t).decided && not (vote_of t).yes_vote) ≡ has_quorum t.no_votes)
unfolding vote_of has_quorum
vote_of-decided vv votes subject rs t h l run =
    let c =
      tally_roots-IsTally vv votes subject rs (new_tally vv) t h l (new_tally-IsTally vv h) run in
    let (most, all) = IsTally-sum vv t c in
    let limit = quorum_exact vv h in
    let y = c.yes_counter.limit in
    let n = c.no_counter.limit in
    (ground (arith, most, limit, y, n), ground (arith, most, limit, y, n))

-- If one tally has a quorum of yes votes, then every tally with a quorum of votes amounts to yes, as
-- long as no validator that the first counts as yes is counted as no by the second.
pub vote_of-agree_yes :
    (vv : Validators) (t t' : Tally)
    → IsWeighted vv
    → IsTally vv t
    → IsTally vv t'
    → has_quorum t.yes_votes ≡ true
    → ((i : ℕ) → (mark t.yes_votes i && mark t'.no_votes i) ≡ false)
    → has_quorum t'.all_votes ≡ true
    → (vote_of t').yes_vote ≡ true
unfolding vote_of has_quorum
vote_of-agree_yes vv t t' h c c' decided same q =
    let (most, all) = IsTally-sum vv t' c' in
    let apart = marked_sum-apart t.yes_votes.already t'.no_votes.already vv.cache.weights same in
    let limit = quorum_exact vv h in
    let y = c.yes_counter in
    let n = c'.no_counter in
    let a = c'.all_counter in
    let need = leb→le _ _ decided in
    let need' = leb→le _ _ q in
    le→leb _ _
      (omega (arith, most, all, apart, limit, y.limit, y.summed, n.summed, a.limit, need, need'))

-- If one tally has a quorum of no votes, then every tally with a quorum of votes amounts to no, as
-- long as no validator that the first counts as no is counted as yes by the second.
pub vote_of-agree_no :
    (vv : Validators) (t t' : Tally)
    → IsWeighted vv
    → IsTally vv t
    → IsTally vv t'
    → has_quorum t.no_votes ≡ true
    → ((i : ℕ) → (mark t.no_votes i && mark t'.yes_votes i) ≡ false)
    → has_quorum t'.all_votes ≡ true
    → (vote_of t').yes_vote ≡ false
unfolding vote_of has_quorum
vote_of-agree_no vv t t' h c c' decided same q =
    let (most, all) = IsTally-sum vv t' c' in
    let apart = marked_sum-apart t.no_votes.already t'.yes_votes.already vv.cache.weights same in
    let limit = quorum_exact vv h in
    let n = c.no_counter in
    let y = c'.yes_counter in
    let a = c'.all_counter in
    let need = leb→le _ _ decided in
    let need' = leb→le _ _ q in
    lt→leb_false _ _
      (omega (arith, most, all, apart, limit, n.limit, n.summed, y.summed, a.limit, need, need'))
