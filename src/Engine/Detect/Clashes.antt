-- ===== src/Engine/Detect/Clashes.antt =====
-- vecengine/index.go: the tests of `fillEventVectors` on the branches of a creator.
use lachesis_base.Base.{
  ℕ, ◌≤◌, ◌≡◌, ◌≢◌, ◌↔◌, ◌⊎◌, inl, inr, refl, ap, sym, ◌∙◌, arith, List, [], ◌∷◌, leb, ◌==◌, ◌&&◌,
  ◌||◌, not, true, false, Bool, Bool-cases, In, if◌then◌else◌, ==_iff, leb→le, le→leb,
}
use lachesis_base.Vec.{Bytes}
use lachesis_base.Vec.Highest.{
  BranchSeq, is_fork, get, is_fork_detected, is_empty, seq_of, min_seq_of,
}
use lachesis_base.Engine.Detect.{any_fork, is_clash, clashes_with, any_clash}

-- Two branches with events whose ranges of sequence numbers meet.
abbrev pub Clashes : Bytes → ℕ → ℕ → Type 0
Clashes b x y =
    (x ≢ y)
    × (is_empty b x ≡ false)
    × (is_empty b y ≡ false)
    × (min_seq_of b x ≤ seq_of b y)
    × (min_seq_of b y ≤ seq_of b x)

-- The vector shows a fork on one of the branches, or two of them clash.
abbrev pub ShowsFork : Bytes → List ℕ → Type 0
ShowsFork b bs =
    ((x : ℕ) × In x bs × (is_fork_detected b x ≡ true))
    ⊎ ((x : ℕ) × (y : ℕ) × In x bs × In y bs × Clashes b x y)

clash_bits :
    (e p q l m : Bool)
    → ((if e then false else if p || q then false else l && m) ≡ true)
      ↔ ((e ≡ false) × (p ≡ false) × (q ≡ false) × (l ≡ true) × (m ≡ true))
clash_bits true p q l m = (λ h. absurd (ground (arith, h)), λ h. absurd (ground (arith, h.0)))
clash_bits false true q l m = (λ h. absurd (ground (arith, h)), λ h. absurd (ground (arith, h.1)))
clash_bits false false true l m =
    (λ h. absurd (ground (arith, h)), λ h. absurd (ground (arith, h.2)))
clash_bits false false false false m =
    (λ h. absurd (ground (arith, h)), λ h. absurd (ground (arith, h.3)))
clash_bits false false false true m = (λ h. (refl, refl, refl, refl, h), λ h. h.4)

pub is_clash_iff : (b : Bytes) (x y : ℕ) → (is_clash b x y ≡ true) ↔ Clashes b x y
unfolding is_clash
is_clash_iff b x y =
    let (to, from) =
      clash_bits (x == y) (is_empty b x) (is_empty b y) (leb (min_seq_of b x) (seq_of b y))
        (leb (min_seq_of b y) (seq_of b x)) in
    (
      λ h.
          let (e, p, q, l, m) = to h in
          (λ s. absurd (ground (arith, e, (==_iff x y).1 s)), p, q, leb→le _ _ l, leb→le _ _ m),
      λ (n, p, q, l, m). from (ne_false n, p, q, le→leb _ _ l, le→leb _ _ m),
    )
  where
    ne_false : x ≢ y → (x == y) ≡ false
    ne_false n = elim (Bool-cases (x == y)) [ inl e ↦ absurd (n ((==_iff x y).0 e)) | inr e ↦ e ]

pub any_fork_iff :
    (b : Bytes) (bs : List ℕ)
    → (any_fork b bs ≡ true) ↔ ((x : ℕ) × In x bs × (is_fork_detected b x ≡ true))
unfolding any_fork
any_fork_iff b [] = (λ e. absurd (ground (arith, e)), λ p. absurd p.1)
any_fork_iff b (x ∷ bs) = elim (Bool-cases (is_fork_detected b x)) [
  | inl e ↦ (λ h. (x, inl refl, e), λ p. rw e refl)
  | inr e ↦
      let (to, from) = any_fork_iff b bs in
      (λ h. let (y, i, q) = to (sym (rw e refl) ∙ h) in (y, inr i, q), λ p. rw e (from (skip p e)))
]
  where
    skip :
        ((y : ℕ) × In y (x ∷ bs) × (is_fork_detected b y ≡ true))
        → is_fork_detected b x ≡ false
        → (y : ℕ) × In y bs × (is_fork_detected b y ≡ true)
    skip (y, inl s, q) e = absurd (ground (arith, sym (ap (is_fork_detected b) s) ∙ q, e))
    skip (y, inr i, q) e = (y, i, q)

pub clashes_with_iff :
    (b : Bytes) (x : ℕ) (bs : List ℕ)
    → (clashes_with b x bs ≡ true) ↔ ((y : ℕ) × In y bs × (is_clash b x y ≡ true))
unfolding clashes_with
clashes_with_iff b x [] = (λ e. absurd (ground (arith, e)), λ p. absurd p.1)
clashes_with_iff b x (y ∷ bs) = elim (Bool-cases (is_clash b x y)) [
  | inl e ↦ (λ h. (y, inl refl, e), λ p. rw e refl)
  | inr e ↦
      let (to, from) = clashes_with_iff b x bs in
      (λ h. let (z, i, q) = to (sym (rw e refl) ∙ h) in (z, inr i, q), λ p. rw e (from (skip p e)))
]
  where
    skip :
        ((z : ℕ) × In z (y ∷ bs) × (is_clash b x z ≡ true))
        → is_clash b x y ≡ false
        → (z : ℕ) × In z bs × (is_clash b x z ≡ true)
    skip (z, inl s, q) e = absurd (ground (arith, sym (ap (is_clash b x) s) ∙ q, e))
    skip (z, inr i, q) e = (z, i, q)

pub any_clash_iff :
    (b : Bytes) (all bs : List ℕ)
    → (any_clash b all bs ≡ true) ↔ ((x : ℕ) × In x bs × (clashes_with b x all ≡ true))
unfolding any_clash
any_clash_iff b all [] = (λ e. absurd (ground (arith, e)), λ p. absurd p.1)
any_clash_iff b all (x ∷ bs) = elim (Bool-cases (clashes_with b x all)) [
  | inl e ↦ (λ h. (x, inl refl, e), λ p. rw e refl)
  | inr e ↦
      let (to, from) = any_clash_iff b all bs in
      (λ h. let (z, i, q) = to (sym (rw e refl) ∙ h) in (z, inr i, q), λ p. rw e (from (skip p e)))
]
  where
    skip :
        ((z : ℕ) × In z (x ∷ bs) × (clashes_with b z all ≡ true))
        → clashes_with b x all ≡ false
        → (z : ℕ) × In z bs × (clashes_with b z all ≡ true)
    skip (z, inl s, q) e = absurd (ground (arith, sym (ap (λ i. clashes_with b i all) s) ∙ q, e))
    skip (z, inr i, q) e = (z, i, q)

-- The tests read the listed branches only.
pub any_fork_local :
    (b b' : Bytes) (bs : List ℕ)
    → ((x : ℕ) → In x bs → get b x ≡ get b' x)
    → any_fork b bs ≡ any_fork b' bs
unfolding any_fork
any_fork_local b b' [] a = refl
any_fork_local b b' (x ∷ bs) a =
    ap (λ v. if is_fork v then true else any_fork b bs) (a x (inl refl))
    ∙ ap (λ r. if is_fork_detected b' x then true else r)
        (any_fork_local b b' bs (λ y i. a y (inr i)))

abbrev clash_of : Bool → BranchSeq → BranchSeq → Bool
clash_of same u v =
    if same
    then false
    else if (not (is_fork u) && u.seq == 0) || (not (is_fork v) && v.seq == 0)
    then false
    else leb u.min_seq v.seq && leb v.min_seq u.seq

is_clash_local :
    (b b' : Bytes) (x y : ℕ)
    → get b x ≡ get b' x
    → get b y ≡ get b' y
    → is_clash b x y ≡ is_clash b' x y
unfolding is_clash
is_clash_local b b' x y p q =
    ap (λ u. clash_of (x == y) u (get b y)) p ∙ ap (λ v. clash_of (x == y) (get b' x) v) q

clashes_with_local :
    (b b' : Bytes) (x : ℕ) (bs : List ℕ)
    → get b x ≡ get b' x
    → ((y : ℕ) → In y bs → get b y ≡ get b' y)
    → clashes_with b x bs ≡ clashes_with b' x bs
unfolding clashes_with
clashes_with_local b b' x [] p a = refl
clashes_with_local b b' x (y ∷ bs) p a =
    ap (λ t. if t then true else clashes_with b x bs) (is_clash_local b b' x y p (a y (inl refl)))
    ∙ ap (λ r. if is_clash b' x y then true else r)
        (clashes_with_local b b' x bs p (λ z i. a z (inr i)))

pub any_clash_local :
    (b b' : Bytes) (all bs : List ℕ)
    → ((y : ℕ) → In y all → get b y ≡ get b' y)
    → ((y : ℕ) → In y bs → get b y ≡ get b' y)
    → any_clash b all bs ≡ any_clash b' all bs
unfolding any_clash
any_clash_local b b' all [] a c = refl
any_clash_local b b' all (x ∷ bs) a c =
    ap (λ t. if t then true else any_clash b all bs)
      (clashes_with_local b b' x all (c x (inl refl)) a)
    ∙ ap (λ r. if clashes_with b' x all then true else r)
        (any_clash_local b b' all bs a (λ y i. c y (inr i)))
