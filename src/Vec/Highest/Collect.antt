-- ===== src/Vec/Highest/Collect.antt =====
-- CollectFrom (vecfc/vector_ops.go) against an independent description: each branch of the result
-- is the join of what the two vectors know of the branch.
use lachesis_base.Base.{
  ℕ, zero, suc, ◌+◌, ◌^◌, ◌≤◌, ◌<◌, ◌≡◌, inl, inr, refl, ap, sym, ◌∙◌, arith, leb, ltb, ◌==◌,
  if◌then◌else◌, Bool-cases, ◌&&◌, ◌||◌, not,
}
use mathlib.Core.Path.{subst}
use Prim.Native.Nat.{min, max}
use lachesis_base.Vec.{Bytes}
use lachesis_base.Vec.Highest.{
  BranchSeq, fork_detected_seq, is_fork, get, set, collect_branch, collect_loop, collect_from,
  take_min, take_max,
}
use lachesis_base.Vec.Highest.Access.{IsVector, Fits, get-set, set-IsVector}

-- What a vector knows of a branch: nothing, the events from the lowest to the highest, or a fork.
pub data View : Type 0 where
  nothing : View
  range : ℕ → ℕ → View
  fork : View

unfoldable pub view : BranchSeq → View
view s = if is_fork s then fork else if s.seq == 0 then nothing else range s.min_seq s.seq

-- The least upper bound of two views.
unfoldable pub join : View → View → View
join nothing v = v
join fork v = fork
join (range a b) nothing = range a b
join (range a b) fork = fork
join (range a b) (range c d) = range (min a c) (max b d)

-- A vector whose entries are pairs of uint32, as far as branches are numbered.
abbrev pub IsClock : Bytes → Type 0
IsClock b = IsVector b × ((j : ℕ) → j < 2 ^ 28 → Fits (get b j))

pub set-IsClock :
    (b : Bytes) (i : ℕ) (v : BranchSeq) → i < 2 ^ 28 → Fits v → IsClock b → IsClock (set b i v)
set-IsClock b i v h f c = (
  set-IsVector b i v h c.0,
  λ j k.
      rw (get-set b i j v h k c.0 f)
        (elim (Bool-cases (i == j)) [ inl e ↦ rw e f | inr e ↦ rw e (c.1 j k) ]),
)

-- The entry that a round leaves at its branch.
merged : BranchSeq → BranchSeq → BranchSeq
merged my his =
    if his.seq == 0 && not (is_fork his)
    then my
    else if is_fork my
    then my
    else if is_fork his
    then fork_detected_seq
    else record {
      seq = max my.seq his.seq;
      min_seq = if my.seq == 0 || ltb his.min_seq my.min_seq then his.min_seq else my.min_seq;
    }

view-merged : (my his : BranchSeq) → view (merged my his) ≡ join (view my) (view his)
unfolding view merged join
view-merged my his = ground arith

merged-Fits : (my his : BranchSeq) → Fits my → Fits his → Fits (merged my his)
unfolding merged
merged-Fits my his f g = ground arith

-- A vector that holds `v` at a branch, and is otherwise as before.
abbrev Holds : Bytes → Bytes → ℕ → BranchSeq → Type 0
Holds new old b v =
    IsClock new × ((j : ℕ) → j < 2 ^ 28 → get new j ≡ (if b == j then v else get old j))

set-Holds :
    (self : Bytes) (b : ℕ) (v : BranchSeq)
    → b < 2 ^ 28
    → IsClock self
    → Fits v
    → Holds (set self b v) self b v
set-Holds self b v h c f = (set-IsClock self b v h f c, λ j k. get-set self b j v h k c.0 f)

same-Holds :
    (self : Bytes) (b : ℕ) (v : BranchSeq) → IsClock self → get self b ≡ v → Holds self self b v
same-Holds self b v c e = (
  c,
  λ j k. elim (Bool-cases (b == j)) [
    | inl p ↦ let q : b ≡ j = ground arith in rw p (ap (get self) (sym q) ∙ e)
    | inr p ↦ rw p refl
  ],
)

abbrev lowered : BranchSeq → BranchSeq → BranchSeq
lowered my his =
    if my.seq == 0 || ltb his.min_seq my.min_seq then record my { min_seq = his.min_seq } else my

take_min_lem :
    (self : Bytes) (b : ℕ) (my his : BranchSeq)
    → b < 2 ^ 28
    → IsClock self
    → get self b ≡ my
    → Fits my
    → Fits his
    → Holds (take_min self b my his).0 self b (lowered my his)
      × ((take_min self b my his).1 ≡ lowered my his)
unfolding take_min
take_min_lem self b my his h c e f g =
    elim (Bool-cases (my.seq == 0 || ltb his.min_seq my.min_seq)) [
      | inl p ↦ rw p (set-Holds self b (record my { min_seq = his.min_seq }) h c (f.0, g.1), refl)
      | inr p ↦ rw p (same-Holds self b my c e, refl)
    ]

take_max_lem :
    (self old : Bytes) (m : BranchSeq) (b : ℕ) (my his : BranchSeq)
    → b < 2 ^ 28
    → Holds self old b my
    → m ≡ my
    → Fits my
    → Fits his
    → Holds (take_max (self, m) b his) old b (record my { seq = max my.seq his.seq })
unfolding take_max
take_max_lem self old m b my his h o e f g = rw e (elim (Bool-cases (ltb my.seq his.seq)) [
  | inl p ↦
      let most : max my.seq his.seq ≡ his.seq = ground arith in
      let (c, w) = set-Holds self b (record my { seq = his.seq }) h o.0 (g.0, f.1) in
      rw (p, most) (c, λ j k. ground (arith, w j k, o.1 j k))
  | inr p ↦ let most : max my.seq his.seq ≡ my.seq = ground arith in rw (p, most) o
])

lowered-Fits : (my his : BranchSeq) → Fits my → Fits his → Fits (lowered my his)
lowered-Fits my his f g = ground arith

lowered-max :
    (my his : BranchSeq)
    → ◌≡◌ {A = BranchSeq}
        (record (lowered my his) { seq = max (lowered my his).seq his.seq })
        (record {
          seq = max my.seq his.seq;
          min_seq = if my.seq == 0 || ltb his.min_seq my.min_seq then his.min_seq else my.min_seq;
        })
lowered-max my his = ground arith

ranges :
    (self other : Bytes) (b : ℕ)
    → b < 2 ^ 28
    → IsClock self
    → IsClock other
    → Holds (take_max (take_min self b (get self b) (get other b)) b (get other b)) self b (record {
      seq = max (get self b).seq (get other b).seq;
      min_seq =
          if (get self b).seq == 0 || ltb (get other b).min_seq (get self b).min_seq
          then (get other b).min_seq
          else (get self b).min_seq;
    })
ranges self other b h c d =
    let my = get self b in
    let his = get other b in
    let (o, e) = take_min_lem self b my his h c refl (c.1 b h) (d.1 b h) in
    let low : Fits (lowered my his) = lowered-Fits my his (c.1 b h) (d.1 b h) in
    let taken = take_min self b my his in
    let done = take_max_lem taken.0 self taken.1 b (lowered my his) his h o e low (d.1 b h) in
    subst (Holds (take_max taken b his) self b) (lowered-max my his) done

-- One round writes the merged entry at its branch, and nothing else.
collect_branch_lem :
    (self other : Bytes) (b : ℕ)
    → b < 2 ^ 28
    → IsClock self
    → IsClock other
    → Holds (collect_branch self other b) self b (merged (get self b) (get other b))
unfolding collect_branch merged
collect_branch_lem self other b h c d =
    elim (Bool-cases ((get other b).seq == 0 && not (is_fork (get other b)))) [
      | inl p ↦ rw p (same-Holds self b (get self b) c refl)
      | inr p ↦ elim (Bool-cases (is_fork (get self b))) [
        | inl q ↦ rw (p, q) (same-Holds self b (get self b) c refl)
        | inr q ↦ elim (Bool-cases (is_fork (get other b))) [
          | inl r ↦ rw (p, q, r) (set-Holds self b fork_detected_seq h c (omega arith))
          | inr r ↦ rw (p, q, r) (ranges self other b h c d)
        ]
      ]
    ]

collect_loop_lem :
    (n b : ℕ) (self other : Bytes)
    → b + n ≤ 2 ^ 28
    → IsClock self
    → IsClock other
    → IsClock (collect_loop n b self other)
      × ((j : ℕ)
          → j < 2 ^ 28
          → get (collect_loop n b self other) j
            ≡ (if leb b j && ltb j (b + n) then merged (get self j) (get other j) else get self j))
unfolding collect_loop
collect_loop_lem zero b self other h c d = (c, λ j k. ground arith)
collect_loop_lem (suc n) b self other h c d =
    let (c1, e1) = collect_branch_lem self other b (omega arith) c d in
    let (c2, e2) =
      collect_loop_lem n (b + 1) (collect_branch self other b) other (omega arith) c1 d in
    (c2, λ j k. ground (arith, e1 j k, e2 j k))

-- Collecting from a vector makes each branch below `num` the join of the two views of it, and
-- leaves the branches from `num` on as they were.
pub view-collect_from :
    (self other : Bytes) (num j : ℕ)
    → num ≤ 2 ^ 28
    → j < 2 ^ 28
    → IsClock self
    → IsClock other
    → IsClock (collect_from self other num)
      × (view (get (collect_from self other num) j) ≡ (
          if ltb j num then join (view (get self j)) (view (get other j)) else view (get self j)))
view-collect_from self other num j h k c d =
    let (clock, entry) = collect_loop_lem num 0 self other (omega arith) c d in
    (clock, ground (arith, entry j k, view-merged (get self j) (get other j)))
