-- ===== src/Vec/Lowest.antt =====
-- LowestAfterSeq (vecfc/vector.go, vecfc/vector_ops.go): for each branch the lowest event that
-- observes the vector's event, four bytes a branch.
use lachesis_base.Base.{
  ℕ, zero, suc, ◌+◌, ◌*◌, ◌/◌, ◌^◌, ◌≤◌, ◌<◌, ◌≡◌, ◌⊎◌, inl, inr, refl, ap, ◌∙◌, ◌++◌, arith, [],
  length, replicate, length-append, length-replicate, leb, ◌==◌, true, false, Bool, if◌then◌else◌,
  Bool-cases, ◌&&◌,
}
use lachesis_base.Dag.{Event}
use lachesis_base.Vec.{Bytes, u32, uint32, put_uint32}
use lachesis_base.Vec.Words.{
  length-put_uint32, uint32-put_uint32_self, uint32-put_uint32_ne, uint32-append_zeros,
  uint32-beyond,
}

unfoldable pub new : ℕ → Bytes
new size = replicate (u32 (size * 4)) 0

abbrev pub size : Bytes → ℕ
size b = u32 (length b) / 4

unfoldable pub get : Bytes → ℕ → ℕ
get b i = if leb (size b) i then 0 else uint32 b (u32 (i * 4))

-- The loop of `Set`. Each round adds one entry, so `i + 1` rounds are enough for an index `i`.
unfoldable pub grow : ℕ → ℕ → Bytes → Bytes
grow zero i b = b
grow (suc fuel) i b =
    let rest = grow fuel i (b ++ replicate 4 0) in if leb (size b) i then rest else b

unfoldable pub set : Bytes → ℕ → ℕ → Bytes
unfolding grow
set b i seq = put_uint32 (grow (i + 1) i b) (u32 (i * 4)) seq

unfoldable pub init_with_event : Bytes → ℕ → Event → Bytes
init_with_event b i e = set b i e.seq

unfoldable pub visit : Bytes → ℕ → Event → Bytes × Bool
visit b i e = if get b i == 0 then (set b i e.seq, true) else (b, false)

-- A whole number of entries, and fewer than 2 ^ 30 of them.
abbrev pub IsVector : Bytes → Type 0
IsVector b = (n : ℕ) × (length b ≡ 4 * n) × (n < 2 ^ 30)

grow_lem :
    (fuel i n : ℕ) (b : Bytes)
    → i < 2 ^ 29
    → length b ≡ 4 * n
    → n < 2 ^ 30
    → i < n + fuel
    → (m : ℕ) × (length (grow fuel i b) ≡ 4 * m)
      × (i < m)
      × (m < 2 ^ 30)
      × (n ≤ m)
      × ((j : ℕ) → uint32 (grow fuel i b) j ≡ uint32 b j)
unfolding grow
grow_lem zero i n b h e k f = (n, e, omega arith, k, omega arith, λ j. refl)
grow_lem (suc fuel) i n b h e k f = elim (Bool-cases (leb (size b) i)) [
  | inl short ↦
      let at_most : n ≤ i = ground arith in
      let longer : length (b ++ replicate 4 0) ≡ 4 * (n + 1) =
        omega (arith, length-append b (replicate 4 0), length-replicate {A = ℕ} 4 0) in
      let (m, p, q, r, s, same) =
        grow_lem fuel i (n + 1) (b ++ replicate 4 0) h longer (omega arith) (omega arith) in
      rw short (m, p, q, r, omega arith, λ j. same j ∙ uint32-append_zeros b 4 j)
  | inr long ↦ rw long (n, e, ground arith, k, omega arith, λ j. refl)
]

grown :
    (i : ℕ) (b : Bytes)
    → i < 2 ^ 29
    → IsVector b
    → (m : ℕ) × (length (grow (i + 1) i b) ≡ 4 * m)
      × (i < m)
      × (m < 2 ^ 30)
      × ((j : ℕ) → uint32 (grow (i + 1) i b) j ≡ uint32 b j)
grown i b h (n, e, k) =
    let (m, p, q, r, _, same) = grow_lem (i + 1) i n b h e k (omega arith) in (m, p, q, r, same)

-- A read is a read of the bytes: outside the vector it gives 0 either way.
get-uint32 : (b : Bytes) (j : ℕ) → IsVector b → j < 2 ^ 29 → get b j ≡ uint32 b (4 * j)
unfolding get
get-uint32 b j (n, e, k) h = ground (arith, uint32-beyond b (4 * j), ap (uint32 b) (wrap j h))
  where
    wrap : (j : ℕ) → j < 2 ^ 29 → u32 (j * 4) ≡ 4 * j
    wrap j h = omega arith

-- `Set` keeps a vector a vector.
pub set-IsVector : (b : Bytes) (i v : ℕ) → i < 2 ^ 29 → IsVector b → IsVector (set b i v)
unfolding set
set-IsVector b i v h k =
    let (m, p, q, r, same) = grown i b h k in
    (m, length-put_uint32 (grow (i + 1) i b) (u32 (i * 4)) v ∙ p, r)

set_words :
    (b : Bytes) (i j v : ℕ)
    → i < 2 ^ 29
    → j < 2 ^ 29
    → v < 2 ^ 32
    → IsVector b
    → uint32 (set b i v) (4 * j) ≡ (if i == j then v else uint32 b (4 * j))
unfolding set
set_words b i j v h k l w =
    let (m, p, q, r, same) = grown i b h w in
    let g = grow (i + 1) i b in
    let at : u32 (i * 4) ≡ 4 * i = omega arith in
    elim (Bool-cases (i == j)) [
      | inl e ↦
          let here : i ≡ j = ground arith in
          rw (at, e, ← here) (uint32-put_uint32_self g (4 * i) v l (omega (arith, p)))
      | inr e ↦
          let apart : (4 * j + 3 < 4 * i) ⊎ (4 * i + 3 < 4 * j) = ground arith in
          rw (at, e) (uint32-put_uint32_ne g (4 * i) (4 * j) v apart ∙ same (4 * j))
    ]

-- Reading a branch after a write gives the value written there, and every other branch as before,
-- also where the write made the vector longer.
pub get-set :
    (b : Bytes) (i j v : ℕ)
    → i < 2 ^ 29
    → j < 2 ^ 29
    → v < 2 ^ 32
    → IsVector b
    → get (set b i v) j ≡ (if i == j then v else get b j)
get-set b i j v h k l w =
    rw (get-uint32 (set b i v) j (set-IsVector b i v h w) k, get-uint32 b j w k)
      (set_words b i j v h k l w)

-- A visit changes the vector exactly where the branch has no event yet: the first event of a
-- branch that observes this one stays.
pub visit_lem :
    (b : Bytes) (i j : ℕ) (e : Event)
    → i < 2 ^ 29
    → j < 2 ^ 29
    → e.seq < 2 ^ 32
    → IsVector b
    → (get (visit b i e).0 j ≡ (if i == j && get b i == 0 then e.seq else get b j))
      × ((visit b i e).1 ≡ (get b i == 0))
unfolding visit
visit_lem b i j e h k l w = ground (arith, get-set b i j e.seq h k l w)

-- A new vector has no entries yet.
pub new-IsVector : (size : ℕ) → size < 2 ^ 30 → IsVector (new size)
unfolding new
new-IsVector size h =
    let exact : u32 (size * 4) ≡ 4 * size = omega (arith, h) in
    (size, length-replicate {A = ℕ} (u32 (size * 4)) 0 ∙ exact, h)

pub get-new : (size j : ℕ) → size < 2 ^ 30 → j < 2 ^ 29 → get (new size) j ≡ 0
unfolding new
get-new size j h k =
    get-uint32 (replicate (u32 (size * 4)) 0) j (new-IsVector size h) k
    ∙ uint32-append_zeros [] (u32 (size * 4)) (4 * j)
    ∙ uint32-beyond [] (4 * j) (omega arith)
