-- ===== src/Base/Sums.antt =====
-- The sum of a function over a list.
use Prim.Native.Nat.{ℕ, ◌+◌, ◌≤◌}
use mathlib.Core.Path.{◌≡◌, ap}
use mathlib.Core.Logic.{inl, inr}
use mathlib.Core.List.{List, [], ◌∷◌}
use native.Mathlib.Omega.{arith}
use lachesis_base.Base.Lists.{In}

abbrev pub sum_over : (ℕ → ℕ) → List ℕ → ℕ
sum_over f [] = 0
sum_over f (x ∷ xs) = f x + sum_over f xs

pub sum_over-le :
    (f g : ℕ → ℕ) (xs : List ℕ) → ((x : ℕ) → g x ≤ f x) → sum_over g xs ≤ sum_over f xs
sum_over-le f g [] h = omega arith
sum_over-le f g (x ∷ xs) h = omega (arith, h x, sum_over-le f g xs h)

-- A term that vanishes is missing in the sum_over.
pub sum_over-drop :
    (f g : ℕ → ℕ) (w : ℕ) (xs : List ℕ)
    → ((x : ℕ) → g x ≤ f x)
    → g w ≡ 0
    → In w xs
    → sum_over g xs + f w ≤ sum_over f xs
sum_over-drop f g w [] h z i = elim i [ ]
sum_over-drop f g w (x ∷ xs) h z (inl p) =
    omega (arith, ap f p, ap g p, z, h x, sum_over-le f g xs h)
sum_over-drop f g w (x ∷ xs) h z (inr i) = omega (arith, h x, sum_over-drop f g w xs h z i)
