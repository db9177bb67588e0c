-- ===== src/Piecewise/Tests.antt =====
-- A function with three dots (utils/piecefunc).
use lachesis_base.Base.{ℕ, ◌≡◌, refl, [], ◌∷◌, none}
use lachesis_base.Piecewise.{Dot, new_func, dots_from, get, get_from}

abbrev dot : ℕ → ℕ → Dot
dot x y = record { x = x; y = y }

halfway : get (dot 10 100 ∷ dot 20 200 ∷ dot 40 300 ∷ []) 30 ≡ 250
unfolding get get_from
halfway = refl

not_growing : new_func (dot 10 100 ∷ dot 10 200 ∷ []) ≡ none
unfolding new_func dots_from
not_growing = refl
