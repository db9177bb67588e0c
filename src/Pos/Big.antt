-- ===== src/Pos/Big.antt =====
-- ValidatorsBigBuilder (inter/pos/stake_bigint.go): weights of any size are scaled down by a power
-- of two before `Build`.
use native.Mathlib.Nat.{
  pow-suc, pow-le-pow_right, le_trans, le-div_iff_mul-le, div-lt_iff_lt-mul, div-mul-le_self,
}
use lachesis_base.Base.{
  Bool, false, List, ℤ, pos, negsuc, ◌+ℤ◌, abs, shift_right, All, ◌∙◌, ℕ, zero, suc, ◌+◌, ◌-◌, ◌*◌,
  ◌/◌, ◌%◌, ◌^◌, ◌≤◌, ◌<◌, ◌≡◌, ap, refl, [], ◌∷◌, arith, some, none, Option, ltb, ◌==◌,
  if◌then◌else◌, put, delete, ℕ_discrete, Bool-cases, inl, inr, ltb→lt,
}
use lachesis_base.Pos.{Validators, ValidatorsBuilder, builder_set, build, max_total}
use lachesis_base.Pos.Weights.{IsBuilder, total_of, builder_set-IsBuilder}
use lachesis_base.Pos.Build.{build-built, built}

-- `ValidatorsBigBuilder`
abbrev pub ValidatorsBigBuilder : Type 0
ValidatorsBigBuilder = List (ℕ × ℤ)

-- `NewBigBuilder`
abbrev pub new_big_builder : ValidatorsBigBuilder
new_big_builder = []

abbrev pub is_zero : ℤ → Bool
is_zero (pos n) = n == 0
is_zero (negsuc n) = false

-- `Set`; nil is `none`.
unfoldable pub big_set : ValidatorsBigBuilder → ℕ → Option ℤ → ValidatorsBigBuilder
big_set vv id none = delete ℕ_discrete id vv
big_set vv id (some weight) =
    if is_zero weight then delete ℕ_discrete id vv else put ℕ_discrete id weight vv

-- The loop of `TotalWeight` from the sum `res` on.
unfoldable pub total_from : ℤ → ValidatorsBigBuilder → ℤ
total_from res [] = res
total_from res ((v, w) ∷ vv) = total_from (res +ℤ w) vv

-- `TotalWeight`
abbrev pub big_total_weight : ValidatorsBigBuilder → ℤ
big_total_weight vv = total_from (pos 0) vv

-- How often a number can be halved. The number itself is fuel enough.
bit_len_from : ℕ → ℕ → ℕ
bit_len_from zero n = 0
bit_len_from (suc f) n = let rest = bit_len_from f (n / 2) in if n == 0 then 0 else suc rest

-- big.Int.BitLen, of the absolute value.
unfoldable pub bit_len : ℕ → ℕ
unfolding bit_len_from
bit_len n = bit_len_from n n

-- The shift that `Build` takes for a sum of so many bits.
abbrev pub shift_for : ℕ → ℕ
shift_for total_bits = if ltb 31 total_bits then total_bits - 31 else 0

unfoldable pub shift_of : ValidatorsBigBuilder → ℕ
unfolding total_from
shift_of vv = shift_for (bit_len (abs (big_total_weight vv)))

module _ (undefined : ℤ → ℕ) where
  -- big.Int.Uint64: what it gives for a number that is not a uint64 is undefined.
  abbrev pub uint64 : ℤ → ℕ
  uint64 (pos n) = if ltb n (2 ^ 64) then n else undefined (pos n)
  uint64 (negsuc n) = undefined (negsuc n)

  -- The loop of `Build`: Rsh by the shift, then Uint64 and the conversion to uint32.
  unfoldable pub scale : ℕ → ValidatorsBigBuilder → ValidatorsBuilder → ValidatorsBuilder
  scale shift [] out = out
  scale shift ((v, w) ∷ vv) out =
      scale shift vv (builder_set out v (uint64 (shift_right w shift) % 2 ^ 32))

  -- `Build`
  unfoldable pub big_build : ValidatorsBigBuilder → Option Validators
  big_build vv = build (scale (shift_of vv) vv [])

-- No weight is negative.
abbrev pub IsNatural : ℤ → Type 0
IsNatural (pos n) = Unit
IsNatural (negsuc n) = ⊥

abbrev sum_of : ValidatorsBigBuilder → ℕ
sum_of [] = 0
sum_of ((v, w) ∷ vv) = abs w + sum_of vv

total_from-sum_of :
    (n : ℕ) (vv : ValidatorsBigBuilder)
    → All (λ p. IsNatural p.1) vv
    → total_from (pos n) vv ≡ pos (n + sum_of vv)
unfolding total_from
total_from-sum_of n [] h = ap pos (omega arith)
total_from-sum_of n ((v, pos w) ∷ vv) h = total_from-sum_of (n + w) vv h.1 ∙ ap pos (omega arith)
total_from-sum_of n ((v, negsuc w) ∷ vv) h = absurd h.0

lt-bit_len_from : (f n : ℕ) → n ≤ f → n < 2 ^ bit_len_from f n
unfolding bit_len_from
lt-bit_len_from zero n h = omega arith
lt-bit_len_from (suc f) n h = elim (Bool-cases (n == 0)) [
  | inl e ↦ ground arith
  | inr e ↦
      let ih = lt-bit_len_from f (n / 2) (ground arith) in
      rw e (omega (arith, ih, pow-suc 2 (bit_len_from f (n / 2))))
]

-- A number needs no more bits than its BitLen.
pub lt-bit_len : (n : ℕ) → n < 2 ^ bit_len n
unfolding bit_len
lt-bit_len n = lt-bit_len_from n n (omega arith)

pow_add_31 : (s : ℕ) → 2 ^ (s + 31) ≡ 2 ^ 31 * 2 ^ s
pow_add_31 zero = refl
pow_add_31 (suc s) =
    let e : suc s + 31 ≡ suc (s + 31) = omega arith in
    rw (e, pow-suc 2 (s + 31), pow-suc 2 s) (omega (arith, pow_add_31 s))

total_of-delete : (id : ℕ) (b : ValidatorsBuilder) → total_of (delete ℕ_discrete id b) ≤ total_of b
unfolding delete
total_of-delete id [] = omega arith
total_of-delete id ((j, w) ∷ b) = ground (arith, total_of-delete id b)

total_of-put :
    (id w : ℕ) (b : ValidatorsBuilder) → total_of (put ℕ_discrete id w b) ≤ total_of b + w
unfolding put
total_of-put id w [] = omega arith
total_of-put id w ((j, x) ∷ b) = ground (arith, total_of-put id w b)

total_of-builder_set :
    (b : ValidatorsBuilder) (id w : ℕ) → total_of (builder_set b id w) ≤ total_of b + w
unfolding builder_set
total_of-builder_set b id w = ground (arith, total_of-put id w b, total_of-delete id b)

pow_pos : (s : ℕ) → 0 < 2 ^ s
pow_pos zero = omega arith
pow_pos (suc s) = omega (arith, pow-suc 2 s, pow_pos s)

div_split : (a b p : ℕ) → 0 < p → a / p + b / p ≤ (a + b) / p
div_split a b p h =
    (le-div_iff_mul-le h).1 (omega (arith, div-mul-le_self a p, div-mul-le_self b p))

total_of-scale :
    (u : ℤ → ℕ) (s : ℕ) (vv : ValidatorsBigBuilder) (out : ValidatorsBuilder)
    → All (λ p. IsNatural p.1) vv
    → sum_of vv < 2 ^ 31 * 2 ^ s
    → total_of (scale u s vv out) ≤ total_of out + sum_of vv / 2 ^ s
unfolding scale
total_of-scale u s [] out h l = omega arith
total_of-scale u s ((v, negsuc w) ∷ vv) out h l = absurd h.0
total_of-scale u s ((v, pos w) ∷ vv) out h l =
    let small : w / 2 ^ s < 2 ^ 31 = (div-lt_iff_lt-mul (pow_pos s)).1 (omega (arith, l)) in
    let q = uint64 u (pos (w / 2 ^ s)) % 2 ^ 32 in
    let same : q ≡ w / 2 ^ s = ground (arith, small) in
    le_trans (total_of-scale u s vv (builder_set out v q) h.1 (omega (arith, l))) (
      omega
        (arith, total_of-builder_set out v q, div_split w (sum_of vv) (2 ^ s) (pow_pos s), same))

scale-IsBuilder :
    (u : ℤ → ℕ) (s : ℕ) (vv : ValidatorsBigBuilder) (out : ValidatorsBuilder)
    → IsBuilder out
    → IsBuilder (scale u s vv out)
unfolding scale
scale-IsBuilder u s [] out h = h
scale-IsBuilder u s ((v, w) ∷ vv) out h =
    scale-IsBuilder u s vv _
      (builder_set-IsBuilder out v (uint64 u (shift_right w s) % 2 ^ 32) (omega arith) h)

lt-shift_bits :
    (t bits : ℕ) → t < 2 ^ bits → t < 2 ^ 31 * 2 ^ (if ltb 31 bits then bits - 31 else 0)
lt-shift_bits t bits h = elim (Bool-cases (ltb 31 bits)) [
  | inl e ↦
      let wide : bits ≡ bits - 31 + 31 = omega (arith, ltb→lt 31 bits e) in
      rw e (omega (arith, h, ap (λ (b : ℕ). 2 ^ b) wide, pow_add_31 (bits - 31)))
  | inr e ↦
      let narrow : bits ≤ 31 = ground arith in
      rw e (omega (arith, h, pow-le-pow_right {n = 2} (omega arith) narrow))
]

lt-shift :
    (vv : ValidatorsBigBuilder) → All (λ p. IsNatural p.1) vv → sum_of vv < 2 ^ 31 * 2 ^ shift_of vv
unfolding shift_of
lt-shift vv h =
    let total : big_total_weight vv ≡ pos (sum_of vv) =
      total_from-sum_of 0 vv h ∙ ap pos (omega arith) in
    rw total (lt-shift_bits (sum_of vv) (bit_len (sum_of vv)) (lt-bit_len (sum_of vv)))

-- Where no weight is negative, the big builder does not panic, however large the weights are: the
-- scaled ones sum to at most MaxUint32/2, and the result holds exactly the scaled weights, whatever
-- Uint64 gives for a number that is not a uint64.
pub big_build-built :
    (undefined : ℤ → ℕ) (vv : ValidatorsBigBuilder)
    → All (λ p. IsNatural p.1) vv
    → (total_of (scale undefined (shift_of vv) vv []) ≤ max_total)
      × (big_build undefined vv ≡ some (built (scale undefined (shift_of vv) vv [])))
unfolding big_build
big_build-built u vv h =
    let s = shift_of vv in
    let l = lt-shift vv h in
    let down : sum_of vv / 2 ^ s < 2 ^ 31 = (div-lt_iff_lt-mul (pow_pos s)).1 l in
    let fits : total_of (scale u s vv []) ≤ max_total =
      omega (arith, total_of-scale u s vv [] h l, down) in
    (fits, build-built _ (scale-IsBuilder u s vv [] (tt, tt)) fits)
