-- ===== src/Piecewise/Dots.antt =====
-- The dots that `NewFunc` takes (utils/piecefunc/piecefunc.go).
use lachesis_base.Base.{ℕ, ◌≤◌, ◌<◌, ◌≡◌, ◌↔◌, refl, arith, true, some, List, [], ◌∷◌, length, All}
use lachesis_base.Piecewise.{Dot, max_val, dots_from, new_func}

abbrev pub IsSmall : Dot → Type 0
IsSmall d = (d.x ≤ max_val) × (d.y ≤ max_val)

-- X grows from each dot to the next.
abbrev pub Grows : ℕ → List Dot → Type 0
Grows x [] = Unit
Grows x (d ∷ ds) = (x < d.x) × Grows d.x ds

dots_from_iff : (x : ℕ) (ds : List Dot) → (dots_from x ds ≡ true) ↔ (Grows x ds × All IsSmall ds)
unfolding dots_from
dots_from_iff x [] = (λ h. (tt, tt), λ h. refl)
dots_from_iff x (d ∷ ds) =
    let (there, back) = dots_from_iff d.x ds in
    (
      λ h.
          let rest : dots_from d.x ds ≡ true = ground arith in
          let (grows, small) = there rest in
          ((ground arith, grows), ((ground arith, ground arith), small)),
      λ h.
          let rest = back (h.0.1, h.1.1) in
          let less = h.0.0 in let small = h.1.0 in ground (arith, less, small),
    )

-- A function is made of dots, without a panic, exactly if there are two at least, their X grow, and
-- no X or Y is above the limit.
pub new_func_iff :
    (d : Dot) (ds : List Dot)
    → (new_func (d ∷ ds) ≡ some (d ∷ ds)) ↔ ((0 < length ds) × Grows d.x ds × All IsSmall (d ∷ ds))
unfolding new_func
new_func_iff d ds =
    let (there, back) = dots_from_iff d.x ds in
    (
      λ h.
          let rest : dots_from d.x ds ≡ true = ground arith in
          let (grows, small) = there rest in
          (ground arith, grows, ((ground arith, ground arith), small)),
      λ (l, grows, small).
          let rest = back (grows, small.1) in let first = small.0 in ground (arith, rest, first),
    )
