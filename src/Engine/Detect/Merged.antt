-- ===== src/Engine/Detect/Merged.antt =====
-- vecengine/index.go, `GetMergedHighestBefore`: the validators whose forks the merged vector shows.
use lachesis_base.Base.{
  ℕ, zero, suc, ◌+◌, ◌*◌, ◌^◌, ◌≤◌, ◌<◌, ◌≡◌, inl, inr, refl, ap, sym, ◌∙◌, subst, arith, List, [],
  ◌∷◌, length, get_or, ltb, ◌==◌, true, false, Bool-cases, if◌then◌else◌, ==_iff, All,
  length-replicate,
}
use lachesis_base.Vec.{Bytes, u32}
use lachesis_base.Vec.Highest
use lachesis_base.Vec.Highest.{
  BranchSeq, fork_detected_seq, empty_seq, is_fork, get, set, is_fork_detected, gather_loop,
  gather_from,
}
use lachesis_base.Vec.Highest.Access.{IsVector, Fits, get-set, set-IsVector}
use lachesis_base.Engine.{BranchesInfo, at_least_one_fork}
use lachesis_base.Engine.Initial.{branches_of}
use lachesis_base.Engine.Detect.{any_fork, gather_all, get_merged_highest_before}

abbrev pick : BranchSeq → BranchSeq → BranchSeq
pick v w = if ltb v.seq w.seq then w else v

pick_holds {κ} : (P : BranchSeq → Type κ) (v w : BranchSeq) → P v → P w → P (pick v w)
pick_holds P v w p q = elim (Bool-cases (ltb v.seq w.seq)) [
  | inl e ↦ subst (λ t. P (if t then w else v)) (sym e) q
  | inr e ↦ subst (λ t. P (if t then w else v)) (sym e) p
]

-- The entry that is gathered from the branches is a fork if one of them is.
gather_loop_fork :
    (other : Bytes) (bs : List ℕ) (v : BranchSeq)
    → is_fork v ≡ false
    → is_fork (gather_loop other bs v) ≡ any_fork other bs
unfolding gather_loop any_fork
gather_loop_fork other [] v h = h
gather_loop_fork other (x ∷ bs) v h = elim (Bool-cases (is_fork (get other x))) [
  | inl e ↦
      ap (λ t. is_fork (if t then get other x else gather_loop other bs (pick v (get other x)))) e
      ∙ e
      ∙ sym (ap (λ t. if t then true else any_fork other bs) e)
  | inr e ↦
      ap (λ t. is_fork (if t then get other x else gather_loop other bs (pick v (get other x)))) e
      ∙ gather_loop_fork other bs (pick v (get other x))
          (pick_holds (λ u. is_fork u ≡ false) v (get other x) h e)
      ∙ sym (ap (λ t. if t then true else any_fork other bs) e)
]

gather_loop-Fits :
    (other : Bytes) (bs : List ℕ) (v : BranchSeq)
    → All (λ x. Fits (get other x)) bs
    → Fits v
    → Fits (gather_loop other bs v)
unfolding gather_loop
gather_loop-Fits other [] v a f = f
gather_loop-Fits other (x ∷ bs) v a f = elim (Bool-cases (is_fork (get other x))) [
  | inl e ↦
      subst (λ t. Fits (if t then get other x else gather_loop other bs (pick v (get other x))))
        (sym e) a.0
  | inr e ↦
      subst (λ t. Fits (if t then get other x else gather_loop other bs (pick v (get other x))))
        (sym e)
        (gather_loop-Fits other bs (pick v (get other x)) a.1
          (pick_holds Fits v (get other x) f a.0))
]

gather_all-get :
    (other : Bytes) (i : ℕ) (lists : List (List ℕ)) (merged : Bytes)
    → All (λ bs. All (λ x. Fits (get other x)) bs) lists
    → IsVector merged
    → i + length lists ≤ 2 ^ 28
    → ((c : ℕ)
        → c < length lists
        → get (gather_all other i lists merged) (i + c)
          ≡ gather_loop other (get_or lists c []) empty_seq)
      × ((c : ℕ) → c < i → get (gather_all other i lists merged) c ≡ get merged c)
unfolding gather_all gather_from
gather_all-get other i [] merged a w le = (λ c l. absurd (omega (arith, l)), λ c l. refl)
gather_all-get other i (bs ∷ lists) merged a w le =
    let v = gather_loop other bs empty_seq in
    let f : Fits v = gather_loop-Fits other bs empty_seq a.0 (omega arith, omega arith) in
    let now = set merged i v in
    let (later, before) =
      gather_all-get other (i + 1) lists now a.1 (set-IsVector merged i v (omega (arith, le)) w)
        (omega (arith, le)) in
    (
      each later before f,
      λ c l.
          before c (omega (arith, l))
          ∙ get-set merged i c v (omega (arith, le)) (omega (arith, le, l)) w f
          ∙ elim (Bool-cases (i == c)) [
            | inl e ↦ absurd (omega (arith, (==_iff i c).0 e, l))
            | inr e ↦ rw e refl
          ],
    )
  where
    each :
        ((c : ℕ)
          → c < length lists
          → get
              (gather_all other (i + 1) lists (set merged i (gather_loop other bs empty_seq)))
              (i + 1 + c)
            ≡ gather_loop other (get_or lists c []) empty_seq)
        → ((c : ℕ)
            → c < i + 1
            → get (gather_all other (i + 1) lists (set merged i (gather_loop other bs empty_seq))) c
              ≡ get (set merged i (gather_loop other bs empty_seq)) c)
        → Fits (gather_loop other bs empty_seq)
        → (c : ℕ) → c < length (bs ∷ lists)
        → get
            (gather_all other (i + 1) lists (set merged i (gather_loop other bs empty_seq)))
            (i + c)
          ≡ gather_loop other (get_or (bs ∷ lists) c []) empty_seq
    each later before f zero l =
        subst
          (λ p.
            get (gather_all other (i + 1) lists (set merged i (gather_loop other bs empty_seq))) p
            ≡ gather_loop other bs empty_seq)
          (omega arith)
          (before i (omega arith)
            ∙ get-set merged i i _ (omega (arith, le)) (omega (arith, le)) w f
            ∙ rw ((==_iff i i).1 refl) refl)
    each later before f (suc c) l =
        subst
          (λ p.
            get (gather_all other (i + 1) lists (set merged i (gather_loop other bs empty_seq))) p
            ≡ gather_loop other (get_or lists c []) empty_seq)
          (omega arith) (later c (omega (arith, l)))

-- With a fork somewhere, the merged vector of an event shows a fork for exactly the validators for
-- which the event's own vector shows one on some branch.
pub get_merged_highest_before_lem :
    (bi : BranchesInfo) (n : ℕ) (scattered : Bytes) (c : ℕ)
    → at_least_one_fork bi n ≡ true
    → All (λ bs. All (λ x. Fits (get scattered x)) bs) bi.branch_id_by_creators
    → length bi.branch_id_by_creators ≡ n
    → n ≤ 2 ^ 28
    → c < n
    → is_fork_detected (get_merged_highest_before bi n scattered) c
      ≡ any_fork scattered (branches_of bi c)
unfolding get_merged_highest_before Highest.new
get_merged_highest_before_lem bi n scattered c f a len small l =
    let w : IsVector (Highest.new n) =
      (n, length-replicate (u32 (n * 8)) 0 ∙ omega (arith, small), omega (arith, small)) in
    let (inside, outside) =
      gather_all-get scattered 0 bi.branch_id_by_creators (Highest.new n) a w
        (omega (arith, len, small)) in
    ap
      (λ t.
        is_fork_detected
          (if t then gather_all scattered 0 bi.branch_id_by_creators (Highest.new n) else scattered)
          c)
      f
    ∙ ap is_fork (
        subst
          (λ p.
            get (gather_all scattered 0 bi.branch_id_by_creators (Highest.new n)) p
            ≡ gather_loop scattered (branches_of bi c) empty_seq)
          (omega arith) (inside c (omega (arith, l, len))))
    ∙ gather_loop_fork scattered (branches_of bi c) empty_seq refl
