-- ===== src/Engine/Detect/Forks.antt =====
-- vecengine/index.go: which forks `fillEventVectors` detects.
use lachesis_base.Base.{
  ℕ, ◌^◌, ◌≤◌, ◌<◌, ◌≡◌, inl, inr, refl, ap, sym, ◌∙◌, arith, List, [], ◌∷◌, length, get_elem?, leb,
  true, false, Bool, Bool-cases, In, some, ◌>>=◌, if◌then◌else◌, get_elem?-eq-get_or,
}
use lachesis_base.Vec.{Bytes}
use lachesis_base.Vec.Highest.{BranchSeq, fork_detected_seq, is_fork, get, is_fork_detected}
use lachesis_base.Vec.Highest.Access.{IsVector}
use lachesis_base.Engine.{BranchesInfo, at_least_one_fork}
use lachesis_base.Engine.Initial.{IsBranches, branches_of}
use lachesis_base.Engine.Detect.{
  mark_all, mark_creator, any_fork, any_clash, spread_fork, find_fork, rounds, detect_forks,
}
use lachesis_base.Engine.Detect.Marks.{Agree, marked, rounds_lem}
use lachesis_base.Engine.Detect.Clashes.{
  ShowsFork, is_clash_iff, any_fork_iff, clashes_with_iff, any_clash_iff, any_fork_local,
  any_clash_local,
}

module _ (n : ℕ) (bi : BranchesInfo) (h : IsBranches n bi)
    (small : length bi.branch_id_creator_idxs ≤ 2 ^ 28)
    (mine : (c : ℕ) → c < n → In c (branches_of bi c)) where
  abbrev spreads : ℕ → Bytes → Bool
  spreads c b = if leb (length (branches_of bi c)) 1 then false else any_fork b (branches_of bi c)

  abbrev finds : ℕ → Bytes → Bool
  finds c b =
      if is_fork_detected b c then false else any_clash b (branches_of bi c) (branches_of bi c)

  branches_at : (c : ℕ) → c < n → get_elem? bi.branch_id_by_creators c ≡ some (branches_of bi c)
  branches_at c l = get_elem?-eq-get_or bi.branch_id_by_creators c [] (omega (arith, l, h.lists))

  mark_creator_lem :
      (c : ℕ) (b : Bytes) → c < n → mark_creator bi b c ≡ some (mark_all (branches_of bi c) b)
  unfolding mark_creator
  mark_creator_lem c b l = rw (h.first c l, branches_at c l) refl

  spread_fork_lem :
      (c : ℕ) (b : Bytes) → c < n → spread_fork bi c b ≡ some (marked n bi h small spreads c b)
  unfolding spread_fork
  spread_fork_lem c b l =
      let bs = branches_of bi c in
      rw (branches_at c l, mark_creator_lem c b l)
        (elim (Bool-cases (leb (length bs) 1)) [
          | inl e ↦ rw e refl
          | inr e ↦ elim (Bool-cases (any_fork b bs)) [
            | inl f ↦ rw (e, f) refl
            | inr f ↦ rw (e, f) refl
          ]
        ])

  find_fork_lem :
      (c : ℕ) (b : Bytes) → c < n → find_fork bi c b ≡ some (marked n bi h small finds c b)
  unfolding find_fork
  find_fork_lem c b l =
      let bs = branches_of bi c in
      rw (branches_at c l, mark_creator_lem c b l)
        (elim (Bool-cases (is_fork_detected b c)) [
          | inl e ↦ rw e refl
          | inr e ↦ elim (Bool-cases (any_clash b bs bs)) [
            | inl f ↦ rw (e, f) refl
            | inr f ↦ rw (e, f) refl
          ]
        ])

  spreads_local :
      (c : ℕ) (b b' : Bytes) → c < n → Agree n bi h small c b b' → spreads c b ≡ spreads c b'
  spreads_local c b b' l a =
      ap (λ r. if leb (length (branches_of bi c)) 1 then false else r)
        (any_fork_local b b' (branches_of bi c) a)

  finds_local : (c : ℕ) (b b' : Bytes) → c < n → Agree n bi h small c b b' → finds c b ≡ finds c b'
  finds_local c b b' l a =
      ap (λ v. if is_fork v then false else any_clash b (branches_of bi c) (branches_of bi c))
        (a c (mine c l))
      ∙ ap (λ r. if is_fork_detected b' c then false else r)
          (any_clash_local b b' (branches_of bi c) (branches_of bi c) a a)

  -- The two loops, one after the other, as tests on the vector before.
  both_rounds :
      (b : Bytes)
      → IsVector b
      → (m : Bytes) × (b' : Bytes) × ((rounds (spread_fork bi) n 0 b >>= λ x.
            rounds (find_fork bi) n 0 x)
          ≡ some b')
        × ((c : ℕ)
            → c < n
            → (x : ℕ) → In x (branches_of bi c)
            → get m x ≡ (if spreads c b then fork_detected_seq else get b x))
        × ((c : ℕ)
            → c < n
            → (x : ℕ) → In x (branches_of bi c)
            → get b' x ≡ (if finds c m then fork_detected_seq else get m x))
  both_rounds b w =
      let (m, e, w', inside, outside) =
        rounds_lem n bi h small spreads (spread_fork bi) spread_fork_lem spreads_local n 0 b w
          (omega arith) in
      let (b', e', w'', inside', outside') =
        rounds_lem n bi h small finds (find_fork bi) find_fork_lem finds_local n 0 m w'
          (omega arith) in
      (
        m,
        b',
        rw (e, e') refl,
        λ c l. inside c (omega arith) (omega (arith, l)),
        λ c l. inside' c (omega arith) (omega (arith, l)),
      )

  single : (bs : List ℕ) (x y : ℕ) → leb (length bs) 1 ≡ true → In x bs → In y bs → x ≡ y
  single [] x y l i j = elim i [ ]
  single (z ∷ []) x y l (inl i) (inl j) = i ∙ sym j
  single (z ∷ []) x y l (inl i) (inr j) = absurd j
  single (z ∷ []) x y l (inr i) j = absurd i
  single (z ∷ w ∷ bs) x y l i j = absurd (ground (arith, l))

  -- After the loops the vector shows a fork on every branch of a validator if it showed one on some
  -- branch of it, or if two branches of it clash; the branches of the other validators are as before.
  detect_at :
      (b m b' : Bytes) (c x : ℕ)
      → c < n
      → In x (branches_of bi c)
      → ((y : ℕ)
          → In y (branches_of bi c)
          → get m y ≡ (if spreads c b then fork_detected_seq else get b y))
      → ((y : ℕ)
          → In y (branches_of bi c)
          → get b' y ≡ (if finds c m then fork_detected_seq else get m y))
      → (ShowsFork b (branches_of bi c) → is_fork_detected b' x ≡ true)
        × (¬ ShowsFork b (branches_of bi c) → get b' x ≡ get b x)
  detect_at b m b' c x l i first second = (shows, hides)
    where
      bs : List ℕ
      bs = branches_of bi c

      choose : Bool → BranchSeq → BranchSeq
      choose t v = if t then fork_detected_seq else v

      -- Without a fork on its branches the first loop leaves a validator.
      kept : any_fork b bs ≡ false → (y : ℕ) → In y bs → get m y ≡ get b y
      kept e y j =
          first y j
          ∙ ap (λ t. choose t (get b y))
              (ap (λ t. if leb (length bs) 1 then false else t) e ∙ never (leb (length bs) 1))
        where
          never : (t : Bool) → (if t then false else false) ≡ false
          never true = refl
          never false = refl

      unforked : any_fork b bs ≡ false → (y : ℕ) → In y bs → is_fork_detected b y ≡ false
      unforked e y j = elim (Bool-cases (is_fork_detected b y)) [
        | inl f ↦ absurd (ground (arith, e, (any_fork_iff b bs).1 (y, j, f)))
        | inr f ↦ f
      ]

      found : any_fork b bs ≡ false → finds c m ≡ any_clash b bs bs
      found e =
          sym (finds_local c b m l (λ y j. sym (kept e y j)))
          ∙ ap (λ t. if t then false else any_clash b bs bs) (unforked e c (mine c l))

      forked : is_fork_detected m x ≡ true → is_fork_detected b' x ≡ true
      forked e = elim (Bool-cases (finds c m)) [
        | inl f ↦ ap is_fork (second x i ∙ ap (λ t. choose t (get m x)) f)
        | inr f ↦ ap is_fork (second x i ∙ ap (λ t. choose t (get m x)) f) ∙ e
      ]

      spread : any_fork b bs ≡ true → is_fork_detected m x ≡ true
      spread e = elim (Bool-cases (leb (length bs) 1)) [
        | inl one ↦
            let (y, j, f) = (any_fork_iff b bs).0 e in
            ap is_fork
              (first x i ∙ ap (λ t. choose (if t then false else any_fork b bs) (get b x)) one)
            ∙ ap (is_fork_detected b) (single bs x y one i j)
            ∙ f
        | inr more ↦ ap is_fork (
            first x i
            ∙ ap (λ t. choose (if t then false else any_fork b bs) (get b x)) more
            ∙ ap (λ t. choose t (get b x)) e)
      ]

      shows : ShowsFork b bs → is_fork_detected b' x ≡ true
      shows s = elim (Bool-cases (any_fork b bs)) [
        | inl e ↦ forked (spread e)
        | inr e ↦ elim s [
          | inl (y, j, f) ↦ absurd (ground (arith, e, (any_fork_iff b bs).1 (y, j, f)))
          | inr (y, z, j, k, clash) ↦
              let clashes : any_clash b bs bs ≡ true =
                (any_clash_iff b bs bs).1
                  (y, j, (clashes_with_iff b y bs).1 (z, k, (is_clash_iff b y z).1 clash)) in
              ap is_fork (second x i ∙ ap (λ t. choose t (get m x)) (found e ∙ clashes))
        ]
      ]

      hides : ¬ ShowsFork b bs → get b' x ≡ get b x
      hides s =
          let quiet : any_fork b bs ≡ false = elim (Bool-cases (any_fork b bs)) [
            | inl e ↦ absurd (s (inl ((any_fork_iff b bs).0 e)))
            | inr e ↦ e
          ] in
          let calm : any_clash b bs bs ≡ false = elim (Bool-cases (any_clash b bs bs)) [
            | inl e ↦
                let (y, j, p) = (any_clash_iff b bs bs).0 e in
                let (z, k, q) = (clashes_with_iff b y bs).0 p in
                absurd (s (inr (y, z, j, k, (is_clash_iff b y z).0 q)))
            | inr e ↦ e
          ] in
          second x i ∙ ap (λ t. choose t (get m x)) (found quiet ∙ calm) ∙ kept quiet x i

  -- The detection of forks ends without a panic. After it the vector shows a fork on every branch of
  -- a validator if it showed one on some branch of it, or if two of its branches have events whose
  -- sequence numbers meet; the branches of the other validators are as they were.
  pub detect_forks_lem :
      (b : Bytes)
      → IsVector b
      → at_least_one_fork bi n ≡ true
      → (b' : Bytes) × (detect_forks bi n b ≡ some b')
        × ((c : ℕ)
            → c < n
            → (x : ℕ) → In x (branches_of bi c)
            → (ShowsFork b (branches_of bi c) → is_fork_detected b' x ≡ true)
              × (¬ ShowsFork b (branches_of bi c) → get b' x ≡ get b x))
  unfolding detect_forks
  detect_forks_lem b w f =
      let (m, b', e, first, second) = both_rounds b w in
      (b', rw f e, λ c l x i. detect_at b m b' c x l i (first c l) (second c l))
