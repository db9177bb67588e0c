-- ===== src/Engine/Detect/Ends.antt =====
-- vecengine/index.go, the detection of forks in `fillEventVectors`: it ends without a panic, and
-- leaves each entry as it is or marks a fork there.
use lachesis_base.Base.{
  ℕ, zero, suc, ◌+◌, ◌^◌, ◌≤◌, ◌<◌, ◌≡◌, ◌⊎◌, inl, inr, refl, ap, ◌∙◌, arith, Option, some, List,
  [], ◌∷◌, ◌==◌, Bool-cases, All, length, get_elem?, get_elem?-eq-get_or, leb, if◌then◌else◌,
}
use lachesis_base.Vec.{Bytes}
use lachesis_base.Vec.Highest.{fork_detected_seq, get, is_fork_detected, set_fork_detected}
use lachesis_base.Vec.Highest.Access.{get-set}
use lachesis_base.Vec.Highest.Collect.{IsClock, set-IsClock}
use lachesis_base.Engine.{BranchesInfo, at_least_one_fork}
use lachesis_base.Engine.Initial.{IsBranches, branches_of}
use lachesis_base.Engine.Detect.{
  mark_all, mark_creator, any_fork, any_clash, spread_fork, find_fork, rounds, detect_forks,
}
use lachesis_base.Engine.Detect.Marks.{All-lt}

-- The entries are kept or marked.
abbrev pub IsMarked : Bytes → Bytes → Type 0
IsMarked b b' =
    IsClock b' × ((x : ℕ) → x < 2 ^ 28 → (get b' x ≡ get b x) ⊎ (get b' x ≡ fork_detected_seq))

IsMarked-refl : (b : Bytes) → IsClock b → IsMarked b b
IsMarked-refl b c = (c, λ x k. inl refl)

IsMarked-trans : (a b c : Bytes) → IsMarked a b → IsMarked b c → IsMarked a c
IsMarked-trans a b c (_, f) (k, g) = (
  k,
  λ x l. elim (g x l) [
    | inr q ↦ inr q
    | inl q ↦ elim (f x l) [ inl p ↦ inl (q ∙ p) | inr p ↦ inr (q ∙ p) ]
  ],
)

mark_all-IsMarked :
    (bs : List ℕ) (b : Bytes) → All (λ i. i < 2 ^ 28) bs → IsClock b → IsMarked b (mark_all bs b)
unfolding mark_all
mark_all-IsMarked [] b a c = IsMarked-refl b c
mark_all-IsMarked (i ∷ bs) b a c =
    let c1 = set-IsClock b i fork_detected_seq a.0 (omega arith) c in
    IsMarked-trans b (set_fork_detected b i) _
      (
        c1,
        λ x k.
            let e = get-set b i x fork_detected_seq a.0 k c.0 (omega arith) in
            elim (Bool-cases (i == x)) [
              | inl q ↦ inr (e ∙ ap (λ z. if z then fork_detected_seq else get b x) q)
              | inr q ↦ inl (e ∙ ap (λ z. if z then fork_detected_seq else get b x) q)
            ],
      )
      (mark_all-IsMarked bs (set_fork_detected b i) a.1 c1)

-- The detection reads branches of the validators only.
module _ (n : ℕ) (bi : BranchesInfo) (h : IsBranches n bi)
    (small : length bi.branch_id_creator_idxs ≤ 2 ^ 28) where
  -- A round for the creator `c` that ends, and only marks.
  abbrev Ends : (ℕ → Bytes → Option Bytes) → ℕ → Type 0
  Ends round c = (b : Bytes) → IsClock b → (b' : Bytes) × (round c b ≡ some b') × IsMarked b b'

  branches_at : (c : ℕ) → c < n → get_elem? bi.branch_id_by_creators c ≡ some (branches_of bi c)
  branches_at c l = get_elem?-eq-get_or bi.branch_id_by_creators c [] (omega (arith, l, h.lists))

  mark-Ends : (c : ℕ) → c < n → Ends (λ i b. mark_creator bi b i) c
  unfolding mark_creator
  mark-Ends c l b k = (
    mark_all (branches_of bi c) b,
    rw (h.first c l, branches_at c l) refl,
    mark_all-IsMarked (branches_of bi c) b (All-lt n bi h small c) k,
  )

  spread-Ends : (c : ℕ) → c < n → Ends (spread_fork bi) c
  unfolding spread_fork
  spread-Ends c l b k =
      let (m, e, o) = mark-Ends c l b k in
      rw (branches_at c l) (elim (Bool-cases (leb (length (branches_of bi c)) 1)) [
        | inl one ↦ (b, rw one refl, IsMarked-refl b k)
        | inr more ↦ elim (Bool-cases (any_fork b (branches_of bi c))) [
          | inl f ↦ (m, rw (more, f) e, o)
          | inr f ↦ (b, rw (more, f) refl, IsMarked-refl b k)
        ]
      ])

  find-Ends : (c : ℕ) → c < n → Ends (find_fork bi) c
  unfolding find_fork
  find-Ends c l b k =
      let (m, e, o) = mark-Ends c l b k in
      elim (Bool-cases (is_fork_detected b c)) [
        | inl y ↦ (b, rw y refl, IsMarked-refl b k)
        | inr y ↦ elim (Bool-cases (any_clash b (branches_of bi c) (branches_of bi c))) [
          | inl f ↦ (m, rw (y, branches_at c l, f) e, o)
          | inr f ↦ (b, rw (y, branches_at c l, f) refl, IsMarked-refl b k)
        ]
      ]

  rounds_end :
      (round : ℕ → Bytes → Option Bytes)
      → ((c : ℕ) → c < n → Ends round c)
      → (k i : ℕ) → i + k ≤ n
      → Ends (λ j b. rounds round k j b) i
  unfolding rounds
  rounds_end round ends zero i l b c = (b, refl, IsMarked-refl b c)
  rounds_end round ends (suc k) i l b c =
      let (m, e, o) = ends i (omega (arith, l)) b c in
      let (b', e', o') = rounds_end round ends k (i + 1) (omega (arith, l)) m o.0 in
      (b', rw e e', IsMarked-trans b m b' o o')

  pub detect_forks_ends :
      (b : Bytes) → IsClock b → (b' : Bytes) × (detect_forks bi n b ≡ some b') × IsMarked b b'
  unfolding detect_forks
  detect_forks_ends b c = elim (Bool-cases (at_least_one_fork bi n)) [
    | inr f ↦ (b, rw f refl, IsMarked-refl b c)
    | inl f ↦
        let (m, e, o) = rounds_end (spread_fork bi) spread-Ends n 0 (omega arith) b c in
        let (b', e', o') = rounds_end (find_fork bi) find-Ends n 0 (omega arith) m o.0 in
        (b', rw (f, e) e', IsMarked-trans b m b' o o')
  ]
