-- ===== src/Dag.antt =====
-- inter/dag/event.go and inter/dag/events.go: the events of the DAG and their metric. An event ID
-- (hash.Event, 32 bytes) is the number that its bytes stand for.
use lachesis_base.Base.{
  ℕ, ◌+◌, ◌*◌, ◌%◌, ◌^◌, Bool, false, Option, none, some, List, [], ◌∷◌, leb, ◌==◌, if◌then◌else◌,
  length, map,
}

pub record Event : Type 0 where
  pub epoch : ℕ
  pub seq : ℕ
  pub frame : ℕ
  pub creator : ℕ
  pub parents : List ℕ
  pub lamport : ℕ
  pub id : ℕ

abbrev pub first_parent : List ℕ → Option ℕ
first_parent [] = none
first_parent (p ∷ ps) = some p

-- The first parent, unless the event is its creator's first.
unfoldable pub self_parent : Event → Option ℕ
self_parent e = if leb e.seq 1 then none else first_parent e.parents

unfoldable pub is_self_parent : Event → ℕ → Bool
unfolding self_parent
is_self_parent e hash = elim (self_parent e) [ none ↦ false | some p ↦ p == hash ]

-- `Size`: the bytes of the fields.
abbrev pub size : Event → ℕ
size e = 4 + 4 + 4 + 4 + length e.parents * 32 + 4 + 32

-- `dag.Metric`: a uint32 and a uint64.
pub record Metric : Type 0 where
  pub num : ℕ
  pub size : ℕ

sizes_from : ℕ → List Event → ℕ
sizes_from acc [] = acc
sizes_from acc (e ∷ ee) = sizes_from ((acc + size e) % 2 ^ 64) ee

unfoldable pub metric : List Event → Metric
unfolding sizes_from
metric ee = record { num = length ee % 2 ^ 32; size = sizes_from 0 ee }

abbrev pub ids : List Event → List ℕ
ids = map (λ e. e.id)
