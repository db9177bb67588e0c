-- ===== src/Vec.antt =====
-- vecfc: the vector clocks of events as byte slices (vecfc/vector.go) and their operations
-- (vecfc/vector_ops.go).
pub mod Words
pub mod Lowest
pub mod Highest
pub mod Tests
use lachesis_base.Base.{
  ℕ, zero, suc, ◌+◌, ◌*◌, ◌/◌, ◌%◌, ◌^◌, ◌-◌, Bool, true, false, ◌&&◌, ◌||◌, not, Option, none,
  some, List, [], ◌∷◌, ◌++◌, leb, ltb, ◌==◌, if◌then◌else◌, length, get_or, set, replicate,
}

-- A vector is a Go byte slice; a byte is a number below 256. A slice is shorter than 2 ^ 63.
abbrev pub Bytes : Type 0
Bytes = List ℕ

-- idx.Validator and idx.Event are uint32: their arithmetic wraps.
abbrev pub u32 : ℕ → ℕ
u32 n = n % 2 ^ 32

-- binary.LittleEndian.Uint32 of the four bytes from index `i`, and PutUint32, at indexes inside
-- the slice.
unfoldable pub uint32 : Bytes → ℕ → ℕ
uint32 b i =
    get_or b i 0
    + 2 ^ 8 * get_or b (i + 1) 0
    + 2 ^ 16 * get_or b (i + 2) 0
    + 2 ^ 24 * get_or b (i + 3) 0

unfoldable pub put_uint32 : Bytes → ℕ → ℕ → Bytes
put_uint32 b i v =
    let b0 = set b i (v % 2 ^ 8) in
    let b1 = set b0 (i + 1) (v / 2 ^ 8 % 2 ^ 8) in
    let b2 = set b1 (i + 2) (v / 2 ^ 16 % 2 ^ 8) in set b2 (i + 3) (v / 2 ^ 24 % 2 ^ 8)
