-- ===== src/Piecewise.antt =====
-- utils/piecefunc/piecefunc.go: piecewise linear functions of uint64.
pub mod Dots
pub mod Tests
use lachesis_base.Base.{
  ℕ, suc, ◌+◌, ◌-◌, ◌*◌, ◌/◌, ◌%◌, ◌^◌, Bool, true, false, ◌&&◌, Option, none, some, List, [], ◌∷◌,
  length, ltb, leb, if◌then◌else◌,
}

abbrev pub decimal_unit : ℕ
decimal_unit = 1000000

abbrev pub max_val : ℕ
max_val = (2 ^ 64 - 1) / decimal_unit - 1

pub record Dot : Type 0 where
  pub x : ℕ
  pub y : ℕ

-- The loop of `NewFunc` after the first dot, with the X before; it is whether no panic comes.
unfoldable pub dots_from : ℕ → List Dot → Bool
dots_from prev_x [] = true
dots_from prev_x (d ∷ ds) =
    let rest = dots_from d.x ds in
    if leb d.x prev_x
    then false
    else if ltb max_val d.y
    then false
    else if ltb max_val d.x
    then false
    else rest

-- `NewFunc`; `none` is a panic.
unfoldable pub new_func : List Dot → Option (List Dot)
new_func [] = none
new_func (d ∷ ds) =
    if ltb (length (d ∷ ds)) 2
    then none
    else if ltb max_val d.y
    then none
    else if ltb max_val d.x
    then none
    else if dots_from d.x ds
    then some (d ∷ ds)
    else none

abbrev pub mul : ℕ → ℕ → ℕ
mul a b = a * b % 2 ^ 64 / decimal_unit

abbrev pub div : ℕ → ℕ → ℕ
div a b = a * decimal_unit % 2 ^ 64 / b

abbrev pub interpolate : Dot → Dot → ℕ → ℕ
interpolate p q x =
    let ratio = div (x - p.x) (q.x - p.x) in
    (mul p.y (decimal_unit - ratio) + mul q.y ratio) % 2 ^ 64

-- The search of the piece among the dots from `p` on, for an `x` that is within them.
unfoldable pub get_from : Dot → List Dot → ℕ → ℕ
get_from p [] x = p.y
get_from p (q ∷ []) x = if ltb q.x x then q.y else interpolate p q x
get_from p (q ∷ r ∷ ds) x =
    let rest = get_from q (r ∷ ds) x in if ltb x q.x then interpolate p q x else rest

-- `Func.Get` on the dots of `NewFunc`, of which there are at least two.
unfoldable pub get : List Dot → ℕ → ℕ
get [] x = 0
get (d ∷ ds) x = if ltb x d.x then d.y else get_from d ds x
