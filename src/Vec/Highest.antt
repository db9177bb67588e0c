-- ===== src/Vec/Highest.antt =====
-- HighestBeforeSeq (vecfc/vector.go, vecfc/vector_ops.go): for each branch the highest and the
-- lowest event that the vector's event observes, or the mark of an observed fork; eight bytes a
-- branch.
pub mod Access
pub mod Collect
use lachesis_base.Base.{
  ℕ, zero, suc, ◌+◌, ◌-◌, ◌*◌, ◌/◌, ◌%◌, ◌^◌, List, [], ◌∷◌, ◌++◌, length, replicate, leb, ltb,
  ◌==◌, true, false, Bool, ◌&&◌, ◌||◌, not, if◌then◌else◌,
}
use lachesis_base.Dag.{Event}
use lachesis_base.Vec.{Bytes, u32, uint32, put_uint32}

pub record BranchSeq : Type 0 where
  pub seq : ℕ
  pub min_seq : ℕ

-- math.MaxInt32 as the lowest event, with no highest, marks a fork.
abbrev pub fork_detected_seq : BranchSeq
fork_detected_seq = record { seq = 0; min_seq = 2 ^ 31 - 1 }

abbrev pub empty_seq : BranchSeq
empty_seq = record { seq = 0; min_seq = 0 }

-- `BranchSeq.IsForkDetected`
abbrev pub is_fork : BranchSeq → Bool
is_fork s = s.seq == fork_detected_seq.seq && s.min_seq == fork_detected_seq.min_seq

unfoldable pub new : ℕ → Bytes
new size = replicate (u32 (size * 8)) 0

abbrev pub size : Bytes → ℕ
size b = length b / 8

unfoldable pub get : Bytes → ℕ → BranchSeq
get b i =
    if leb (size b) i
    then empty_seq
    else record { seq = uint32 b (u32 (i * 8)); min_seq = uint32 b (u32 (i * 8) + 4) }

-- The loop of `Set`; `i + 1` rounds are enough for an index `i`.
unfoldable pub grow : ℕ → ℕ → Bytes → Bytes
grow zero i b = b
grow (suc fuel) i b =
    let rest = grow fuel i (b ++ replicate 8 0) in if leb (size b) i then rest else b

unfoldable pub set : Bytes → ℕ → BranchSeq → Bytes
unfolding grow
set b i seq =
    put_uint32 (put_uint32 (grow (i + 1) i b) (u32 (i * 8)) seq.seq) (u32 (i * 8) + 4) seq.min_seq

unfoldable pub init_with_event : Bytes → ℕ → Event → Bytes
init_with_event b i e = set b i (record { seq = e.seq; min_seq = e.seq })

abbrev pub is_empty : Bytes → ℕ → Bool
is_empty b i = not (is_fork (get b i)) && (get b i).seq == 0

abbrev pub is_fork_detected : Bytes → ℕ → Bool
is_fork_detected b i = is_fork (get b i)

abbrev pub seq_of : Bytes → ℕ → ℕ
seq_of b i = (get b i).seq

abbrev pub min_seq_of : Bytes → ℕ → ℕ
min_seq_of b i = (get b i).min_seq

abbrev pub set_fork_detected : Bytes → ℕ → Bytes
set_fork_detected b i = set b i fork_detected_seq

-- The two updates at the end of the loop's body: the lowest event, and then the highest.
unfoldable pub take_min : Bytes → ℕ → BranchSeq → BranchSeq → Bytes × BranchSeq
take_min self branch my his =
    let lower = record my { min_seq = his.min_seq } in
    if my.seq == 0 || ltb his.min_seq my.min_seq then (set self branch lower, lower) else (self, my)

unfoldable pub take_max : Bytes × BranchSeq → ℕ → BranchSeq → Bytes
take_max (self, my) branch his =
    if ltb my.seq his.seq then set self branch (record my { seq = his.seq }) else self

-- One round of `CollectFrom`.
unfoldable pub collect_branch : Bytes → Bytes → ℕ → Bytes
unfolding take_min take_max
collect_branch self other branch =
    let his = get other branch in
    let my = get self branch in
    if his.seq == 0 && not (is_fork his)
    then self
    else if is_fork my
    then self
    else if is_fork his
    then set_fork_detected self branch
    else take_max (take_min self branch my his) branch his

-- The rounds from `branch` on, `n` of them.
unfoldable pub collect_loop : ℕ → ℕ → Bytes → Bytes → Bytes
unfolding collect_branch
collect_loop zero branch self other = self
collect_loop (suc n) branch self other =
    collect_loop n (branch + 1) (collect_branch self other branch) other

abbrev pub collect_from : Bytes → Bytes → ℕ → Bytes
collect_from self other num = collect_loop num 0 self other

-- The loop of `GatherFrom` over the branches of one creator.
unfoldable pub gather_loop : Bytes → List ℕ → BranchSeq → BranchSeq
gather_loop other [] highest = highest
gather_loop other (b ∷ from) highest =
    let branch = get other b in
    let rest = gather_loop other from (if ltb highest.seq branch.seq then branch else highest) in
    if is_fork branch then branch else rest

unfoldable pub gather_from : Bytes → ℕ → Bytes → List ℕ → Bytes
unfolding gather_loop
gather_from self to other from = set self to (gather_loop other from empty_seq)
