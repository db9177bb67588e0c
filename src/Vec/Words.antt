-- ===== src/Vec/Words.antt =====
-- Reading and writing 32-bit words of a byte slice (encoding/binary, as vecfc/vector.go uses it).
use lachesis_base.Base.{
  ℕ, zero, suc, ◌+◌, ◌/◌, ◌%◌, ◌^◌, ◌≤◌, ◌<◌, ◌≡◌, ◌⊎◌, refl, ◌∙◌, [], ◌∷◌, ◌++◌, arith, length,
  get_or, set, replicate, length-set, get_or-set_self, get_or-set_ne, get_or-beyond,
  get_or-replicate, All,
}
use lachesis_base.Vec.{Bytes, uint32, put_uint32}

-- Every byte is below 256.
abbrev pub IsBytes : Bytes → Type 0
IsBytes = All (λ x. x < 256)

pub length-put_uint32 : (b : Bytes) (i v : ℕ) → length (put_uint32 b i v) ≡ length b
unfolding put_uint32
length-put_uint32 b i v =
    length-set _ (i + 3) _ ∙ length-set _ (i + 2) _ ∙ length-set _ (i + 1) _ ∙ length-set b i _

-- The four bytes after a write.
put_uint32_bytes :
    (b : Bytes) (i v : ℕ)
    → i + 3 < length b
    → (get_or (put_uint32 b i v) i 0 ≡ v % 2 ^ 8)
      × (get_or (put_uint32 b i v) (i + 1) 0 ≡ v / 2 ^ 8 % 2 ^ 8)
      × (get_or (put_uint32 b i v) (i + 2) 0 ≡ v / 2 ^ 16 % 2 ^ 8)
      × (get_or (put_uint32 b i v) (i + 3) 0 ≡ v / 2 ^ 24 % 2 ^ 8)
unfolding put_uint32
put_uint32_bytes b i v h =
    let b0 = set b i (v % 2 ^ 8) in
    let b1 = set b0 (i + 1) (v / 2 ^ 8 % 2 ^ 8) in
    let b2 = set b1 (i + 2) (v / 2 ^ 16 % 2 ^ 8) in
    let l0 : length b0 ≡ length b = length-set b i _ in
    let l1 : length b1 ≡ length b = length-set b0 (i + 1) _ ∙ l0 in
    let l2 : length b2 ≡ length b = length-set b1 (i + 2) _ ∙ l1 in
    (
      get_or-set_ne b2 (i + 3) i _ 0 (omega arith)
          ∙ get_or-set_ne b1 (i + 2) i _ 0 (omega arith)
          ∙ get_or-set_ne b0 (i + 1) i _ 0 (omega arith)
          ∙ get_or-set_self b i _ 0 (omega arith),
      get_or-set_ne b2 (i + 3) (i + 1) _ 0 (omega arith)
          ∙ get_or-set_ne b1 (i + 2) (i + 1) _ 0 (omega arith)
          ∙ get_or-set_self b0 (i + 1) _ 0 (omega arith),
      get_or-set_ne b2 (i + 3) (i + 2) _ 0 (omega arith)
          ∙ get_or-set_self b1 (i + 2) _ 0 (omega arith),
      get_or-set_self b2 (i + 3) _ 0 (omega arith),
    )

-- The bytes outside the word stay.
put_uint32_other :
    (b : Bytes) (i j v : ℕ) → (j < i) ⊎ (i + 3 < j) → get_or (put_uint32 b i v) j 0 ≡ get_or b j 0
unfolding put_uint32
put_uint32_other b i j v h =
    get_or-set_ne _ (i + 3) j _ 0 (omega arith)
    ∙ get_or-set_ne _ (i + 2) j _ 0 (omega arith)
    ∙ get_or-set_ne _ (i + 1) j _ 0 (omega arith)
    ∙ get_or-set_ne b i j _ 0 (omega arith)

pub uint32-put_uint32_self :
    (b : Bytes) (i v : ℕ) → v < 2 ^ 32 → i + 3 < length b → uint32 (put_uint32 b i v) i ≡ v
unfolding uint32
uint32-put_uint32_self b i v h k =
    let (p, q, r, s) = put_uint32_bytes b i v k in omega (arith, p, q, r, s)

pub uint32-put_uint32_ne :
    (b : Bytes) (i j v : ℕ) → (j + 3 < i) ⊎ (i + 3 < j) → uint32 (put_uint32 b i v) j ≡ uint32 b j
unfolding uint32
uint32-put_uint32_ne b i j v h =
    rw
      (
        put_uint32_other b i j v (omega arith),
        put_uint32_other b i (j + 1) v (omega arith),
        put_uint32_other b i (j + 2) v (omega arith),
        put_uint32_other b i (j + 3) v (omega arith),
      )
      refl

get_or-append_zeros : (b : Bytes) (n j : ℕ) → get_or (b ++ replicate n 0) j 0 ≡ get_or b j 0
get_or-append_zeros [] n j = get_or-replicate n j 0
get_or-append_zeros (x ∷ b) n zero = refl
get_or-append_zeros (x ∷ b) n (suc j) = get_or-append_zeros b n j

-- Appended zeros are not seen by a read that gives zero outside the slice.
pub uint32-append_zeros : (b : Bytes) (n j : ℕ) → uint32 (b ++ replicate n 0) j ≡ uint32 b j
unfolding uint32
uint32-append_zeros b n j = simp get_or-append_zeros

pub uint32-beyond : (b : Bytes) (j : ℕ) → length b ≤ j → uint32 b j ≡ 0
unfolding uint32
uint32-beyond b j h =
    rw
      (
        get_or-beyond b j 0 h,
        get_or-beyond b (j + 1) 0 (omega arith),
        get_or-beyond b (j + 2) 0 (omega arith),
        get_or-beyond b (j + 3) 0 (omega arith),
      )
      refl
