-- ===== src/Vec/Highest/Access.antt =====
-- Reads after writes of HighestBeforeSeq (vecfc/vector.go: Get and Set).
use lachesis_base.Base.{
  ℕ, zero, suc, ◌+◌, ◌*◌, ◌^◌, ◌≤◌, ◌<◌, ◌≡◌, ◌≢◌, inl, inr, refl, ap, ◌∙◌, ◌++◌, arith, [], length,
  replicate, length-append, length-replicate, leb, ◌==◌, if◌then◌else◌, Bool-cases,
}
use lachesis_base.Vec.{Bytes, u32, uint32, put_uint32}
use lachesis_base.Vec.Words.{
  length-put_uint32, uint32-put_uint32_self, uint32-put_uint32_ne, uint32-append_zeros,
  uint32-beyond,
}
use lachesis_base.Vec.Highest.{BranchSeq, empty_seq, new, size, get, grow, set}

-- A whole number of entries, and fewer than 2 ^ 29 of them.
abbrev pub IsVector : Bytes → Type 0
IsVector b = (n : ℕ) × (length b ≡ 8 * n) × (n < 2 ^ 29)

abbrev pub Fits : BranchSeq → Type 0
Fits s = (s.seq < 2 ^ 32) × (s.min_seq < 2 ^ 32)

grow_lem :
    (fuel i n : ℕ) (b : Bytes)
    → i < 2 ^ 28
    → length b ≡ 8 * n
    → n < 2 ^ 29
    → i < n + fuel
    → (m : ℕ) × (length (grow fuel i b) ≡ 8 * m)
      × (i < m)
      × (m < 2 ^ 29)
      × (n ≤ m)
      × ((j : ℕ) → uint32 (grow fuel i b) j ≡ uint32 b j)
unfolding grow
grow_lem zero i n b h e k f = (n, e, omega arith, k, omega arith, λ j. refl)
grow_lem (suc fuel) i n b h e k f = elim (Bool-cases (leb (size b) i)) [
  | inl short ↦
      let at_most : n ≤ i = ground arith in
      let longer : length (b ++ replicate 8 0) ≡ 8 * (n + 1) =
        omega (arith, length-append b (replicate 8 0), length-replicate {A = ℕ} 8 0) in
      let (m, p, q, r, s, same) =
        grow_lem fuel i (n + 1) (b ++ replicate 8 0) h longer (omega arith) (omega arith) in
      rw short (m, p, q, r, omega arith, λ j. same j ∙ uint32-append_zeros b 8 j)
  | inr long ↦ rw long (n, e, ground arith, k, omega arith, λ j. refl)
]

grown :
    (i : ℕ) (b : Bytes)
    → i < 2 ^ 28
    → IsVector b
    → (m : ℕ) × (length (grow (i + 1) i b) ≡ 8 * m)
      × (i < m)
      × (m < 2 ^ 29)
      × ((j : ℕ) → uint32 (grow (i + 1) i b) j ≡ uint32 b j)
grown i b h (n, e, k) =
    let (m, p, q, r, _, same) = grow_lem (i + 1) i n b h e k (omega arith) in (m, p, q, r, same)

abbrev words : Bytes → ℕ → BranchSeq
words b j = record { seq = uint32 b (8 * j); min_seq = uint32 b (8 * j + 4) }

get-words : (b : Bytes) (j : ℕ) → IsVector b → j < 2 ^ 28 → get b j ≡ words b j
unfolding get
get-words b j (n, e, k) h = ground (
  arith,
  uint32-beyond b (8 * j),
  uint32-beyond b (8 * j + 4),
  ap (λ (p : ℕ). uint32 b p) (wrap j h),
  ap (λ (p : ℕ). uint32 b (p + 4)) (wrap j h),
)
  where
    wrap : (j : ℕ) → j < 2 ^ 28 → u32 (j * 8) ≡ 8 * j
    wrap j h = omega arith

pub set-IsVector :
    (b : Bytes) (i : ℕ) (v : BranchSeq) → i < 2 ^ 28 → IsVector b → IsVector (set b i v)
unfolding set
set-IsVector b i v h k =
    let (m, p, q, r, same) = grown i b h k in
    (m, length-put_uint32 _ (u32 (i * 8) + 4) _ ∙ length-put_uint32 _ (u32 (i * 8)) _ ∙ p, r)

module _ (b : Bytes) (i j : ℕ) (v : BranchSeq) (h : i < 2 ^ 28) (k : j < 2 ^ 28)
    (w : IsVector b) where
  set-words_self : i ≡ j → Fits v → words (set b i v) j ≡ v
  unfolding set
  set-words_self e l =
      let (m, p, q, r, same) = grown i b h w in
      let g = grow (i + 1) i b in
      let g1 = put_uint32 g (8 * i) v.seq in
      let at : u32 (i * 8) ≡ 8 * i = omega arith in
      let room : 8 * i + 4 + 3 < length g1 = omega (arith, length-put_uint32 g (8 * i) v.seq, p) in
      rw (at, ← e)
        (ground (
          arith,
          uint32-put_uint32_self g1 (8 * i + 4) v.min_seq l.1 room,
          uint32-put_uint32_ne g1 (8 * i + 4) (8 * i) v.min_seq (omega arith),
          uint32-put_uint32_self g (8 * i) v.seq l.0 (omega (arith, p)),
        ))

  set-words_ne : i ≢ j → words (set b i v) j ≡ words b j
  unfolding set
  set-words_ne e =
      let (m, p, q, r, same) = grown i b h w in
      let g = grow (i + 1) i b in
      let g1 = put_uint32 g (8 * i) v.seq in
      let at : u32 (i * 8) ≡ 8 * i = omega arith in
      rw at (
        ground (
          arith,
          uint32-put_uint32_ne g1 (8 * i + 4) (8 * j) v.min_seq (omega arith),
          uint32-put_uint32_ne g (8 * i) (8 * j) v.seq (omega arith),
          uint32-put_uint32_ne g1 (8 * i + 4) (8 * j + 4) v.min_seq (omega arith),
          uint32-put_uint32_ne g (8 * i) (8 * j + 4) v.seq (omega arith),
          same (8 * j),
          same (8 * j + 4),
        ))

  -- Reading a branch after a write gives what was written there, and every other branch as before,
  -- also where the write made the vector longer.
  pub get-set : Fits v → get (set b i v) j ≡ (if i == j then v else get b j)
  get-set l =
      rw (get-words (set b i v) j (set-IsVector b i v h w) k, get-words b j w k)
        (elim (Bool-cases (i == j)) [
          | inl e ↦ rw e (set-words_self (ground arith) l)
          | inr e ↦ rw e (set-words_ne (ground arith))
        ])

-- A new vector has no entries yet.
pub new-IsVector : (size : ℕ) → size < 2 ^ 29 → IsVector (new size)
unfolding new
new-IsVector size h =
    let exact : u32 (size * 8) ≡ 8 * size = omega (arith, h) in
    (size, length-replicate {A = ℕ} (u32 (size * 8)) 0 ∙ exact, h)

pub get-new : (size j : ℕ) → size < 2 ^ 29 → j < 2 ^ 28 → get (new size) j ≡ empty_seq
unfolding new
get-new size j h k =
    get-words (replicate (u32 (size * 8)) 0) j (new-IsVector size h) k
    ∙ ground (
      arith,
      uint32-append_zeros [] (u32 (size * 8)) (8 * j),
      uint32-append_zeros [] (u32 (size * 8)) (8 * j + 4),
      uint32-beyond [] (8 * j),
      uint32-beyond [] (8 * j + 4),
    )
