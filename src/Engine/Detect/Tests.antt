-- ===== src/Engine/Detect/Tests.antt =====
-- The detection of forks over two validators, the first of which has two branches, 0 and 2.
use lachesis_base.Base.{
  ℕ, zero, suc, ◌≡◌, ◌<◌, inl, inr, refl, ap, arith, [], ◌∷◌, In, some, true, get_elem?,
}
use lachesis_base.Vec.{Bytes, uint32}
use lachesis_base.Vec.Highest.{get, is_fork_detected}
use lachesis_base.Engine.{BranchesInfo}
use lachesis_base.Engine.Initial.{IsBranches, branches_of}
use lachesis_base.Engine.Detect.{detect_forks, get_merged_highest_before, any_fork}
use lachesis_base.Engine.Detect.Clashes.{ShowsFork}
use lachesis_base.Engine.Detect.Forks.{detect_forks_lem}
use lachesis_base.Engine.Detect.Merged.{get_merged_highest_before_lem}

abbrev forked : BranchesInfo
forked = record {
  branch_id_last_seq = 2 ∷ 1 ∷ 2 ∷ [];
  branch_id_creator_idxs = 0 ∷ 1 ∷ 0 ∷ [];
  branch_id_by_creators = (0 ∷ 2 ∷ []) ∷ (1 ∷ []) ∷ [];
}

forked-IsBranches : IsBranches 2 forked
forked-IsBranches = record {
  same = refl;
  wide = omega arith;
  lists = refl;
  first = first;
  owned = owned;
  capped = (omega arith, (omega arith, tt));
  creators = (omega arith, (omega arith, (omega arith, tt)));
  counted = refl;
}
  where
    first : (c : ℕ) → c < 2 → get_elem? (0 ∷ 1 ∷ 0 ∷ []) c ≡ some c
    first zero l = refl
    first (suc zero) l = refl
    first (suc (suc c)) l = absurd (omega (arith, l))

    owned : (c b : ℕ) → In b (branches_of forked c) → get_elem? (0 ∷ 1 ∷ 0 ∷ []) b ≡ some c
    owned zero b (inl e) = ap (get_elem? (0 ∷ 1 ∷ 0 ∷ [])) e
    owned zero b (inr (inl e)) = ap (get_elem? (0 ∷ 1 ∷ 0 ∷ [])) e
    owned zero b (inr (inr e)) = absurd e
    owned (suc zero) b (inl e) = ap (get_elem? (0 ∷ 1 ∷ 0 ∷ [])) e
    owned (suc zero) b (inr e) = absurd e
    owned (suc (suc c)) b i = absurd i

mine : (c : ℕ) → c < 2 → In c (branches_of forked c)
mine zero l = inl refl
mine (suc zero) l = inl refl
mine (suc (suc c)) l = absurd (omega (arith, l))

-- The vector observes events 1 to 2 on branch 0, event 1 on branch 1 and event 2 on branch 2.
abbrev before : Bytes
before =
    2 ∷ 0 ∷ 0 ∷ 0 ∷ 1 ∷ 0 ∷ 0 ∷ 0 ∷ 1 ∷ 0 ∷ 0 ∷ 0 ∷ 1 ∷ 0 ∷ 0 ∷ 0 ∷ 2 ∷ 0 ∷ 0 ∷ 0 ∷ 2 ∷ 0 ∷ 0 ∷ 0
    ∷ []

detect_forks_lem_example :
    (b' : Bytes) × (detect_forks forked 2 before ≡ some b')
    × ((c : ℕ)
        → c < 2
        → (x : ℕ) → In x (branches_of forked c)
        → (ShowsFork before (branches_of forked c) → is_fork_detected b' x ≡ true)
          × (¬ ShowsFork before (branches_of forked c) → get b' x ≡ get before x))
detect_forks_lem_example =
    detect_forks_lem 2 forked forked-IsBranches (omega arith) mine before (3, refl, omega arith)
      refl

get_merged_highest_before_lem_example :
    is_fork_detected (get_merged_highest_before forked 2 before) 0 ≡ any_fork before (0 ∷ 2 ∷ [])
unfolding get uint32
get_merged_highest_before_lem_example =
    get_merged_highest_before_lem forked 2 before 0 refl
      (
        ((omega arith, omega arith), ((omega arith, omega arith), tt)),
        (((omega arith, omega arith), tt), tt),
      )
      refl (omega arith) (omega arith)
