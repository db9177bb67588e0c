-- ===== src/Check.antt =====
-- The checks of an event before the consensus has it (eventcheck/all.go, basiccheck, epochcheck and
-- parentscheck). The reader of the epoch is a callback: its answer is an argument.
pub mod Basic
pub mod Child
pub mod Tests
use lachesis_base.Base.{
  ℕ, ◌+◌, ◌%◌, ◌^◌, Bool, true, false, ◌||◌, ◌&&◌, not, Option, none, some, List, [], ◌∷◌, length,
  ltb, leb, ◌==◌, if◌then◌else◌, put, ℕ_discrete,
}
use lachesis_base.Dag.{Event, self_parent, is_self_parent}
use lachesis_base.Pos.{Validators, exists}

pub data EventError : Type 0 where
  no_parents : EventError
  not_inited : EventError
  huge_value : EventError
  double_parents : EventError
  wrong_seq : EventError
  wrong_lamport : EventError
  wrong_self_parent : EventError
  not_relevant : EventError
  auth : EventError

-- What a check says; the check of the parents may panic.
pub data Verdict : Type 0 where
  accepted : Verdict
  rejected : EventError → Verdict
  panicked : Verdict

-- A check and, if it accepts, the next one.
infixr 2 ◌then_check◌
abbrev pub ◌then_check◌ : Verdict → Verdict → Verdict
accepted then_check w = w
rejected e then_check w = rejected e
panicked then_check w = panicked

-- math.MaxInt32 - 1
abbrev pub limit : ℕ
limit = 2147483646

unfoldable pub check_limits : Event → Verdict
check_limits e =
    if leb limit e.seq || leb limit e.epoch || leb limit e.frame || leb limit e.lamport
    then rejected huge_value
    else accepted

unfoldable pub check_inited : Event → Verdict
check_inited e =
    if leb e.seq 0 || leb e.epoch 0 || leb e.frame 0 || leb e.lamport 0
    then rejected not_inited
    else if ltb 1 e.seq && (length e.parents == 0)
    then rejected no_parents
    else accepted

-- `hash.Events.Set`, the map with the hashes as keys.
unfoldable pub set_of : List ℕ → List (ℕ × Bool) → List (ℕ × Bool)
set_of [] m = m
set_of (h ∷ hs) m = set_of hs (put ℕ_discrete h true m)

unfoldable pub check_parents : Event → Verdict
check_parents e =
    if length (set_of e.parents []) == length e.parents then accepted else rejected double_parents

abbrev pub basic_validate : Event → Verdict
basic_validate e = check_limits e then_check check_inited e then_check check_parents e

unfoldable pub epoch_validate : Validators → ℕ → Event → Verdict
epoch_validate validators epoch e =
    if not (e.epoch == epoch)
    then rejected not_relevant
    else if not (exists validators e.creator)
    then rejected auth
    else accepted

-- `idx.MaxLamport`
abbrev pub max_lamport : ℕ → ℕ → ℕ
max_lamport x y = if ltb y x then x else y

unfoldable pub max_lamport_of : ℕ → List Event → ℕ
max_lamport_of acc [] = acc
max_lamport_of acc (p ∷ ps) = max_lamport_of (max_lamport acc p.lamport) ps

abbrev pub differ : Bool → Bool → Bool
differ true b = not b
differ false b = b

-- The loop over the parents and the hashes of the event; a hash that is missing is an index panic.
unfoldable pub check_self_parents : Event → List Event → List ℕ → Verdict
check_self_parents e [] hs = accepted
check_self_parents e (p ∷ ps) [] = panicked
check_self_parents e (p ∷ ps) (h ∷ hs) =
    let rest = check_self_parents e ps hs in
    if differ (p.creator == e.creator) (is_self_parent e h)
    then rejected wrong_self_parent
    else rest

abbrev pub is_nil : Option ℕ → Bool
is_nil none = true
is_nil (some h) = false

unfoldable pub check_self_parent : Event → List Event → Verdict
check_self_parent e [] = panicked
check_self_parent e (p ∷ ps) =
    if not (is_self_parent e p.id)
    then rejected wrong_self_parent
    else if not (e.seq == (p.seq + 1) % 2 ^ 32)
    then rejected wrong_seq
    else accepted

unfoldable pub check_seq : Event → List Event → Verdict
check_seq e parents =
    if differ (e.seq == 1) (is_nil (self_parent e))
    then rejected wrong_seq
    else if not (is_nil (self_parent e))
    then check_self_parent e parents
    else accepted

unfoldable pub parents_validate : Event → List Event → Verdict
parents_validate e parents =
    if not (length e.parents == length parents)
    then panicked
    else if not (e.lamport == (max_lamport_of 0 parents + 1) % 2 ^ 32)
    then rejected wrong_lamport
    else (check_self_parents e parents e.parents then_check check_seq e parents)

-- `Checkers.Validate`
abbrev pub validate : Validators → ℕ → Event → List Event → Verdict
validate validators epoch e parents =
    basic_validate e
    then_check epoch_validate validators epoch e
    then_check parents_validate e parents
