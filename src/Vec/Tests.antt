-- ===== src/Vec/Tests.antt =====
-- Runs of the vectors (vecfc), and the theorems at them.
use lachesis_base.Base.{
  ℕ, zero, suc, ◌+◌, ◌<◌, ◌^◌, ◌≡◌, refl, arith, [], ◌∷◌, leb, Bool-cases, inl, inr, get_or, ltb,
  if◌then◌else◌,
}
use lachesis_base.Dag.{Event}
use lachesis_base.Vec.{Bytes, uint32}
use lachesis_base.Vec.Highest
use lachesis_base.Vec.Highest.{BranchSeq, collect_from}
use lachesis_base.Vec.Highest.Access.{Fits}
use lachesis_base.Vec.Highest.Collect.{view, join, IsClock, view-collect_from}

abbrev fourth : Event
fourth = record { epoch = 1; seq = 4; frame = 1; creator = 1; parents = []; lamport = 4; id = 104 }

-- A vector of two branches: the first is observed from event 3 on, the second by none.
abbrev lows : Bytes
lows = 3 ∷ 0 ∷ 0 ∷ 0 ∷ 0 ∷ 0 ∷ 0 ∷ 0 ∷ []

-- One branch, whose highest event is `high` and whose lowest event is 1.
abbrev clock : ℕ → Bytes
clock high = high ∷ 0 ∷ 0 ∷ 0 ∷ 1 ∷ 0 ∷ 0 ∷ 0 ∷ []

clock_byte : (high i : ℕ) → high < 256 → get_or (clock high) i 0 < 256
clock_byte high zero h = h
clock_byte high (suc zero) h = omega arith
clock_byte high (suc (suc zero)) h = omega arith
clock_byte high (suc (suc (suc zero))) h = omega arith
clock_byte high (suc (suc (suc (suc zero)))) h = omega arith
clock_byte high (suc (suc (suc (suc (suc i))))) h = low_byte i
  where
    low_byte : (i : ℕ) → get_or (0 ∷ 0 ∷ 0 ∷ []) i 0 < 256
    low_byte zero = omega arith
    low_byte (suc zero) = omega arith
    low_byte (suc (suc zero)) = omega arith
    low_byte (suc (suc (suc i))) = omega arith

clock_word : (high i : ℕ) → high < 256 → uint32 (clock high) i < 2 ^ 32
unfolding uint32
clock_word high i h = omega (
  arith,
  clock_byte high i h,
  clock_byte high (i + 1) h,
  clock_byte high (i + 2) h,
  clock_byte high (i + 3) h,
)

clock-Fits : (high j : ℕ) → high < 256 → Fits (Highest.get (clock high) j)
unfolding Highest.get
clock-Fits high j h = elim (Bool-cases (leb (Highest.size (clock high)) j)) [
  | inl e ↦ rw (e, Highest.get) (omega arith, omega arith)
  | inr e ↦ rw (e, Highest.get) (clock_word high _ h, clock_word high _ h)
]

clock-IsClock : (high : ℕ) → high < 256 → IsClock (clock high)
clock-IsClock high h = ((1, refl, omega arith), λ j l. clock-Fits high j h)

view-collect_from_example :
    IsClock (collect_from (clock 2) (clock 5) 1)
    × (view (Highest.get (collect_from (clock 2) (clock 5) 1) 0) ≡ (
        if ltb 0 1
        then join (view (Highest.get (clock 2) 0)) (view (Highest.get (clock 5) 0))
        else view (Highest.get (clock 2) 0)))
view-collect_from_example =
    view-collect_from (clock 2) (clock 5) 1 0 (omega arith) (omega arith)
      (clock-IsClock 2 (omega arith)) (clock-IsClock 5 (omega arith))
