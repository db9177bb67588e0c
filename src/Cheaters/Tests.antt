-- ===== src/Cheaters/Tests.antt =====
-- Lists of cheaters (lachesis/cheaters_list.go).
use lachesis_base.Base.{◌≡◌, refl, [], ◌∷◌, some, find, put, ℕ_discrete}
use lachesis_base.Cheaters.{duplicate_id, validate_loop, validate_cheaters}

twice : validate_cheaters 5 (3 ∷ 1 ∷ 3 ∷ []) ≡ some duplicate_id
unfolding validate_loop find put ℕ_discrete
twice = refl
