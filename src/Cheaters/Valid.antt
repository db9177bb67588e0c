-- ===== src/Cheaters/Valid.antt =====
-- The lists of cheaters that are valid (lachesis/cheaters_list.go).
use lachesis_base.Base.{
  ℕ, ◌≤◌, ◌<◌, ◌≡◌, ◌↔◌, ◌⊎◌, inl, inr, refl, arith, Bool, true, Option-cases, none, List, [], ◌∷◌,
  find, put, All, ℕ_discrete,
}
use lachesis_base.Check.Basic.{Nodup, All-split, All-join, All-empty}
use lachesis_base.Cheaters.{validate_loop, validate_cheaters}

-- The ID is not zero and not above the greatest known one, if there is one.
abbrev pub InRange : ℕ → ℕ → Type 0
InRange max_validator_id id = (0 < id) × ((max_validator_id ≡ 0) ⊎ (id ≤ max_validator_id))

validate_loop-valid :
    (m : ℕ) (ids : List ℕ) (seen : List (ℕ × Bool))
    → validate_loop m seen ids ≡ none
    → All (InRange m) ids × Nodup ids × All (λ j. find ℕ_discrete j seen ≡ none) ids
unfolding validate_loop
validate_loop-valid m [] seen h = (tt, tt, tt)
validate_loop-valid m (id ∷ ids) seen h = elim (Option-cases (find ℕ_discrete id seen)) [
  | inl new ↦
      let run : validate_loop m (put ℕ_discrete id true seen) ids ≡ none = ground arith in
      let (ranges, nodup, unseen) = validate_loop-valid m ids (put ℕ_discrete id true seen) run in
      let (nes, olds) = All-split id seen ids unseen in
      ((ground arith, ranges), (nes, nodup), (new, olds))
  | inr (b, old) ↦ absurd (ground arith)
]

valid-validate_loop :
    (m : ℕ) (ids : List ℕ) (seen : List (ℕ × Bool))
    → All (InRange m) ids
    → Nodup ids
    → All (λ j. find ℕ_discrete j seen ≡ none) ids
    → validate_loop m seen ids ≡ none
unfolding validate_loop
valid-validate_loop m [] seen r n a = refl
valid-validate_loop m (id ∷ ids) seen r n a =
    let rest =
      valid-validate_loop m ids (put ℕ_discrete id true seen) r.1 n.1
        (All-join id seen ids n.0 a.1) in
    let range = r.0 in let new = a.0 in ground arith

-- A list of cheaters passes exactly if its IDs are in range and none is there twice.
pub validate_cheaters_iff :
    (max_validator_id : ℕ) (cheaters : List ℕ)
    → (validate_cheaters max_validator_id cheaters ≡ none)
      ↔ (All (InRange max_validator_id) cheaters × Nodup cheaters)
validate_cheaters_iff m ids = (
  λ h. let (ranges, nodup, _) = validate_loop-valid m ids [] h in (ranges, nodup),
  λ (ranges, nodup). valid-validate_loop m ids [] ranges nodup (All-empty ids),
)
