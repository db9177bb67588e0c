-- ===== src/Engine/Initial.antt =====
-- The branches of vecengine/index.go as a well-formed record: the initial ones, and the bound on
-- their number.
use lachesis_base.Base.{
  ℕ, zero, suc, ◌+◌, ◌*◌, ◌≤◌, ◌<◌, ◌≡◌, refl, ap, sym, ◌∙◌, arith, List, [], ◌∷◌, length,
  get_elem?, get_or, All, In, some, length-replicate,
}
use lachesis_base.Engine.{
  BranchesInfo, count_up, singletons, new_initial_branches_info, max_branches_per_validator,
}

-- The branches of all validators.
abbrev pub total_len : List (List ℕ) → ℕ
total_len [] = 0
total_len (l ∷ ls) = length l + total_len ls

abbrev pub branches_of : BranchesInfo → ℕ → List ℕ
branches_of bi c = get_or bi.branch_id_by_creators c []

-- `n` is the number of validators.
pub record IsBranches (n : ℕ) (bi : BranchesInfo) : Type 0 where
  pub same : length bi.branch_id_creator_idxs ≡ length bi.branch_id_last_seq
  pub wide : n ≤ length bi.branch_id_creator_idxs
  pub lists : length bi.branch_id_by_creators ≡ n
  pub first : (c : ℕ) → c < n → get_elem? bi.branch_id_creator_idxs c ≡ some c
  pub owned : (c b : ℕ) → In b (branches_of bi c) → get_elem? bi.branch_id_creator_idxs b ≡ some c
  pub capped : All (λ l. length l ≤ max_branches_per_validator) bi.branch_id_by_creators
  pub creators : All (λ c. c < n) bi.branch_id_creator_idxs
  pub counted : total_len bi.branch_id_by_creators ≡ length bi.branch_id_creator_idxs

All-count_up : (m i n : ℕ) → i + m ≤ n → All (λ c. c < n) (count_up m i)
All-count_up zero i n h = tt
All-count_up (suc m) i n h = (omega arith, All-count_up m (suc i) n (omega arith))

length-count_up : (n i : ℕ) → length (count_up n i) ≡ n
length-count_up zero i = refl
length-count_up (suc n) i = ap suc (length-count_up n (suc i))

get_elem?-count_up : (n i k : ℕ) → k < n → get_elem? (count_up n i) k ≡ some (i + k)
get_elem?-count_up zero i k h = absurd (omega arith)
get_elem?-count_up (suc n) i zero h = ap some (omega arith)
get_elem?-count_up (suc n) i (suc k) h =
    get_elem?-count_up n (suc i) k (omega arith) ∙ ap some (omega arith)

pub singletons_lem :
    (n i : ℕ)
    → (length (singletons n i) ≡ n)
      × (total_len (singletons n i) ≡ n)
      × All (λ l. length l ≤ max_branches_per_validator) (singletons n i)
singletons_lem zero i = (refl, refl, tt)
singletons_lem (suc n) i =
    let (a, b, c) = singletons_lem n (suc i) in (omega arith, omega arith, (omega arith, c))

In-singletons : (n i c b : ℕ) → In b (get_or (singletons n i) c []) → (b ≡ i + c) × (c < n)
In-singletons zero i c b h = elim h [ ]
In-singletons (suc n) i zero b h = ground arith
In-singletons (suc n) i (suc c) b h =
    let (e, l) = In-singletons n (suc i) c b h in (omega arith, omega arith)

-- The first branches are one for each validator.
pub new_initial-IsBranches : (n : ℕ) → IsBranches n (new_initial_branches_info n)
unfolding new_initial_branches_info
new_initial-IsBranches n =
    let (sizes, total, caps) = singletons_lem n 0 in
    record {
      same = length-count_up n 0 ∙ sym (length-replicate n 0);
      wide = omega (arith, length-count_up n 0);
      lists = sizes;
      first = λ c l. get_elem?-count_up n 0 c l ∙ ap some (omega arith);
      owned = λ c b h.
          let (e, l) = In-singletons n 0 c b h in
          let at : b ≡ c = omega arith in
          rw at (get_elem?-count_up n 0 c l ∙ ap some (omega arith));
      capped = caps;
      creators = All-count_up n 0 n (omega arith);
      counted = total ∙ sym (length-count_up n 0);
    }

total_len-capped :
    (ls : List (List ℕ))
    → All (λ l. length l ≤ max_branches_per_validator) ls
    → total_len ls ≤ length ls * max_branches_per_validator
total_len-capped [] h = omega arith
total_len-capped (l ∷ ls) h = omega (arith, total_len-capped ls h.1)

-- There are at most 1024 branches for each validator.
pub branches_bounded :
    (n : ℕ) (bi : BranchesInfo)
    → IsBranches n bi
    → length bi.branch_id_creator_idxs ≤ n * max_branches_per_validator
branches_bounded n bi h = omega (
  arith,
  h.counted,
  total_len-capped bi.branch_id_by_creators h.capped,
  ap (λ (k : ℕ). k * 1024) h.lists,
)
