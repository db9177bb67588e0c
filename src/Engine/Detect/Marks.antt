-- ===== src/Engine/Detect/Marks.antt =====
-- vecengine/index.go: rounds that mark the branches of one creator each, with a test on that
-- creator's branches.
use lachesis_base.Base.{
  ℕ, zero, suc, ◌+◌, ◌^◌, ◌≤◌, ◌<◌, ◌≡◌, ◌≢◌, ◌⊎◌, inl, inr, refl, ap, sym, ◌∙◌, subst, arith, List,
  [], ◌∷◌, length, ◌==◌, false, Bool, Bool-cases, In, Option, some, if◌then◌else◌, get_elem?_lt,
  ℕ_discrete, ==_iff, All,
}
use lachesis_base.Vec.{Bytes}
use lachesis_base.Vec.Highest.{fork_detected_seq, get, set_fork_detected}
use lachesis_base.Vec.Highest.Access.{IsVector, get-set, set-IsVector}
use lachesis_base.Engine.{BranchesInfo}
use lachesis_base.Engine.Initial.{IsBranches, branches_of}
use lachesis_base.Engine.Detect.{mark_all, rounds}

get-mark :
    (b : Bytes) (i j : ℕ)
    → i < 2 ^ 28
    → j < 2 ^ 28
    → IsVector b
    → get (set_fork_detected b i) j ≡ (if i == j then fork_detected_seq else get b j)
get-mark b i j h k w = get-set b i j fork_detected_seq h k w (omega arith, omega arith)

pub mark_all-IsVector :
    (bs : List ℕ) (b : Bytes) → All (λ i. i < 2 ^ 28) bs → IsVector b → IsVector (mark_all bs b)
unfolding mark_all
mark_all-IsVector [] b a w = w
mark_all-IsVector (i ∷ bs) b a w =
    mark_all-IsVector bs (set_fork_detected b i) a.1 (set-IsVector b i fork_detected_seq a.0 w)

pub get-mark_all_other :
    (bs : List ℕ) (b : Bytes) (j : ℕ)
    → All (λ i. i < 2 ^ 28) bs
    → IsVector b
    → j < 2 ^ 28
    → ¬ In j bs
    → get (mark_all bs b) j ≡ get b j
unfolding mark_all
get-mark_all_other [] b j a w k n = refl
get-mark_all_other (i ∷ bs) b j a w k n =
    get-mark_all_other bs (set_fork_detected b i) j a.1 (set-IsVector b i fork_detected_seq a.0 w) k
      (λ h. n (inr h))
    ∙ get-mark b i j a.0 k w
    ∙ elim (Bool-cases (i == j)) [
      | inl e ↦ absurd (n (inl (sym ((==_iff i j).0 e))))
      | inr e ↦ rw e refl
    ]

pub get-mark_all :
    (bs : List ℕ) (b : Bytes) (j : ℕ)
    → All (λ i. i < 2 ^ 28) bs
    → IsVector b
    → j < 2 ^ 28
    → In j bs ⊎ (get b j ≡ fork_detected_seq)
    → get (mark_all bs b) j ≡ fork_detected_seq
unfolding mark_all
get-mark_all [] b j a w k (inl h) = elim h [ ]
get-mark_all [] b j a w k (inr h) = h
get-mark_all (i ∷ bs) b j a w k h =
    let w' = set-IsVector b i fork_detected_seq a.0 w in
    elim (Bool-cases (i == j)) [
      | inl e ↦
          get-mark_all bs (set_fork_detected b i) j a.1 w' k
            (inr (get-mark b i j a.0 k w ∙ rw e refl))
      | inr e ↦ get-mark_all bs (set_fork_detected b i) j a.1 w' k (later e h)
    ]
  where
    later :
        (i == j) ≡ false
        → In j (i ∷ bs) ⊎ (get b j ≡ fork_detected_seq)
        → In j bs ⊎ (get (set_fork_detected b i) j ≡ fork_detected_seq)
    later e (inl (inl p)) = absurd (ground (arith, e, (==_iff i j).1 (sym p)))
    later e (inl (inr p)) = inl p
    later e (inr p) = inr (get-mark b i j a.0 k w ∙ rw e p)

-- A round that marks the creator's branches if a test on them says so.
module _ (n : ℕ) (bi : BranchesInfo) (h : IsBranches n bi)
    (small : length bi.branch_id_creator_idxs ≤ 2 ^ 28) where
  abbrev pub Agree : ℕ → Bytes → Bytes → Type 0
  Agree c b b' = (x : ℕ) → In x (branches_of bi c) → get b x ≡ get b' x

  pub branch_lt : (c x : ℕ) → In x (branches_of bi c) → x < 2 ^ 28
  branch_lt c x i = omega (arith, get_elem?_lt bi.branch_id_creator_idxs x (h.owned c x i), small)

  pub All-lt : (c : ℕ) → All (λ i. i < 2 ^ 28) (branches_of bi c)
  All-lt c = each (branches_of bi c) (λ x i. branch_lt c x i)
    where
      each : (l : List ℕ) → ((x : ℕ) → In x l → x < 2 ^ 28) → All (λ i. i < 2 ^ 28) l
      each [] f = tt
      each (x ∷ l) f = (f x (inl refl), each l (λ y i. f y (inr i)))

  apart : (c d x : ℕ) → c ≢ d → In x (branches_of bi c) → ¬ In x (branches_of bi d)
  apart c d x n i j = absurd (ground (arith, h.owned c x i, h.owned d x j, n))

  abbrev pub marked : (ℕ → Bytes → Bool) → ℕ → Bytes → Bytes
  marked test c b = if test c b then mark_all (branches_of bi c) b else b

  module _ (test : ℕ → Bytes → Bool) (round : ℕ → Bytes → Option Bytes)
      (is : (c : ℕ) (b : Bytes) → c < n → round c b ≡ some (marked test c b))
      (local : (c : ℕ) (b b' : Bytes) → c < n → Agree c b b' → test c b ≡ test c b') where
    marked-IsVector : (c : ℕ) (b : Bytes) → IsVector b → IsVector (marked test c b)
    marked-IsVector c b w = elim (Bool-cases (test c b)) [
      | inl e ↦ rw e (mark_all-IsVector (branches_of bi c) b (All-lt c) w)
      | inr e ↦ rw e w
    ]

    marked_other : (c d : ℕ) (b : Bytes) → IsVector b → c ≢ d → Agree d (marked test c b) b
    marked_other c d b w m x i = elim (Bool-cases (test c b)) [
      | inl e ↦ rw e (
          get-mark_all_other (branches_of bi c) b x (All-lt c) w (branch_lt d x i)
            (λ j. apart c d x m j i))
      | inr e ↦ rw e refl
    ]

    marked_here :
        (c : ℕ) (b : Bytes) (x : ℕ)
        → IsVector b
        → In x (branches_of bi c)
        → get (marked test c b) x ≡ (if test c b then fork_detected_seq else get b x)
    marked_here c b x w i = elim (Bool-cases (test c b)) [
      | inl e ↦ rw e (get-mark_all (branches_of bi c) b x (All-lt c) w (branch_lt c x i) (inl i))
      | inr e ↦ rw e refl
    ]

    -- What the rounds leave: marks where the test holds of the vector before, and nothing else.
    pub rounds_lem :
        (k i : ℕ) (b : Bytes)
        → IsVector b
        → i + k ≤ n
        → (b' : Bytes) × (rounds round k i b ≡ some b')
          × IsVector b'
          × ((c : ℕ)
              → i ≤ c
              → c < i + k
              → (x : ℕ) → In x (branches_of bi c)
              → get b' x ≡ (if test c b then fork_detected_seq else get b x))
          × ((c : ℕ) → (c < i) ⊎ (i + k ≤ c) → Agree c b' b)
    unfolding rounds
    rounds_lem zero i b w le = (b, refl, w, λ c p q. absurd (omega (arith, p, q)), λ c p x j. refl)
    rounds_lem (suc k) i b w le =
        let b1 = marked test i b in
        let (b', e, w', inside, outside) =
          rounds_lem k (i + 1) b1 (marked-IsVector i b w) (omega (arith, le)) in
        (
          b',
          rw (is i b (omega (arith, le))) e,
          w',
          λ c p q x j. elim (ℕ_discrete i c) [
            | yes s ↦
                outside c (inl (omega (arith, s))) x j
                ∙ subst
                    (λ d.
                      In x (branches_of bi d)
                      → get b1 x ≡ (if test d b then fork_detected_seq else get b x))
                    s (marked_here i b x w) j
            | no s ↦
                inside c (omega (arith, p, s)) (omega (arith, q)) x j
                ∙ ap (λ t. if t then fork_detected_seq else get b1 x)
                    (local c b1 b (omega (arith, q, le)) (marked_other i c b w s))
                ∙ ap (λ v. if test c b then fork_detected_seq else v) (marked_other i c b w s x j)
          ],
          λ c p x j.
              outside c (shift c p) x j ∙ marked_other i c b w (λ s. absurd (apart_from c s p)) x j,
        )
      where
        shift : (c : ℕ) → (c < i) ⊎ (i + suc k ≤ c) → (c < i + 1) ⊎ (i + 1 + k ≤ c)
        shift c (inl p) = inl (omega (arith, p))
        shift c (inr p) = inr (omega (arith, p))

        apart_from : (c : ℕ) → i ≡ c → ¬ ((c < i) ⊎ (i + suc k ≤ c))
        apart_from c s (inl p) = absurd (omega (arith, s, p))
        apart_from c s (inr p) = absurd (omega (arith, s, p))
